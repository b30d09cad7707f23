-- ===== src/TableScan.antt =====
-- src/table/table_scan.cpp: the scan of a table, record by record along the chain of its pages. The
-- buffer pool is the function from the keys of pages to the pages that src/log/log_records has too.
pub mod Rows
pub mod Chain
mod Tests
use database_hw.Prelude.{
  ℕ, zero, suc, ◌+◌, ◌%◌, ◌^◌, Bool, not, ◌&&◌, Option, none, some, List, nat_eq, ltb,
  if◌then◌else◌,
}
use database_hw.Types.{Rid, null_page_id}
use database_hw.Result.{Result, ok, throw, undefined, ◌>>=◌}
use database_hw.Bytes.{Memory}
use database_hw.TablePage.{get_record, get_record_count, get_next_page_id}
use database_hw.Record.{Record, Column}
use database_hw.Visibility.{IsolationLevel, can_get}
use database_hw.Log.Manager.{page_of}
use database_hw.Log.Undo.{Pages}

-- The table's pages, oid and columns, and the arguments of `GetNextRecord`.
module _ (pages : Pages) (oid : ℕ) (columns : List Column) (xid : ℕ) (level : IsolationLevel)
    (cid : ℕ) (active_xids : List ℕ) where
  abbrev pub page_bytes : ℕ → Memory
  page_bytes page_id = (pages (page_of oid page_id)).bytes

  -- `GetRecord` and `SetRid`.
  unfoldable pub read_at : Rid → Result Record
  read_at rid = do
    r ← get_record (pages (page_of oid rid.page_id)) rid columns
    ok (record r { rid = rid })

  abbrev pub is_skipped : Record → Bool
  is_skipped r = can_get r.header xid cid level active_xids

  -- `rid_.slot_id_ < record_count - 1`, on `int`s: of an empty page, the count less one is negative.
  unfoldable pub has_next_slot : Rid → Bool
  has_next_slot rid = ltb (rid.slot_id + 1) (get_record_count (page_bytes rid.page_id))

  -- The step of `rid_`, in the loop and behind it.
  unfoldable pub advance : Rid → Rid
  advance rid =
      if has_next_slot rid
      then record rid { slot_id = (rid.slot_id + 1) % 2 ^ 16 }
      else record { page_id = get_next_page_id (page_bytes rid.page_id); slot_id = 0 }

  -- The loop over the records that are not visible; no answer when the fuel does not do. With the
  -- answer, the `rid_` that the scan goes on from.
  unfoldable pub skip_invisible : ℕ → Rid → Record → Option (Result (Rid × Option Record))
  skip_invisible zero rid r = none
  skip_invisible (suc fuel) rid r =
      let next = advance rid in
      let rest : Option (Result (Rid × Option Record)) = elim (read_at next) [
        | ok r' ↦ skip_invisible fuel next r'
        | throw e ↦ some (throw e)
        | undefined ↦ some undefined
      ] in
      if is_skipped r
      then (if not (has_next_slot rid) && nat_eq next.page_id null_page_id
          then some (ok (next, none))
          else rest)
      else some (ok (next, some r))

  -- `GetNextRecord` at `rid_`.
  unfoldable pub get_next_record : ℕ → Rid → Option (Result (Rid × Option Record))
  get_next_record fuel rid =
      if nat_eq rid.page_id null_page_id then some (ok (rid, none)) else elim (read_at rid) [
        | ok r ↦ skip_invisible fuel rid r
        | throw e ↦ some (throw e)
        | undefined ↦ some undefined
      ]
