-- ===== src/Table.antt =====
-- src/table/table.cpp: insertion, deletion and update of records in the chain of a table's pages,
-- with their log records. The buffer pool is a function from the keys of pages to the pages, as in
-- the undo and the redo of the log; the bytes of a page that `NewPage` makes are not set.
mod Tests
pub mod Frame
pub mod Room
pub mod InPage
pub mod NewPage
pub mod Calls
pub mod Outcome
pub mod Insert
use database_hw.Prelude.{
  ℕ, zero, suc, ◌+◌, ◌%◌, ◌^◌, Bool, true, false, ◌||◌, Option, none, some, List, nat_eq, ltb, leb,
  if◌then◌else◌,
}
use database_hw.Types.{Rid, null_page_id}
use database_hw.Result.{Result, ok, throw, undefined, record_too_large, ◌>>=◌}
use database_hw.Bytes.{read}
use database_hw.Record
use database_hw.Record.{Record}
use database_hw.TablePage
use database_hw.TablePage.{
  max_record_size, init, get_upper, get_free_space_size, get_next_page_id, set_next_page_id,
  set_page_lsn,
}
use database_hw.Log.Manager.{
  LogManager, page_of, append_insert_log, append_delete_log, append_new_page_log,
}
use database_hw.Log.Undo.{Pages, put_page}

-- `first_page_id_`, and the buffer pool and the log manager that the table refers to.
pub record Table : Type 0 where
  pub first_page_id : ℕ
  pub pages : Pages
  pub log_manager : LogManager

-- The constructor.
abbrev pub new_table : Bool → Bool → Pages → LogManager → Table
new_table is_new is_empty pages log_manager = record {
  first_page_id = if is_new || is_empty then null_page_id else 0;
  pages = pages;
  log_manager = log_manager;
}

-- Where the walk over the pages ends: on a page with room, or behind the last page.
pub data Place : Type 0 where
  within : ℕ → Place
  behind : ℕ → Place

-- `BufferPool::NewPage`.
abbrev pub fresh : TablePage.Page → TablePage.Page
fresh p = record p { dirty = false }

abbrev pub page_at : ℕ → Table → ℕ → TablePage.Page
page_at oid t page_id = t.pages (page_of oid page_id)

abbrev pub set_page : ℕ → Table → ℕ → TablePage.Page → Table
set_page oid t page_id p = record t { pages = put_page t.pages (page_of oid page_id) p }

abbrev pub has_room : TablePage.Page → ℕ → Bool
has_room p size = leb size (get_free_space_size p.bytes)

-- The loop over the pages behind the first: the last page that has no room is linked to the page
-- that is to come.
unfoldable pub find_room :
    (oid fuel : ℕ) → Table → (last_page_id next_page_id size : ℕ) → Option (Table × Place)
find_room oid zero t last_page_id next_page_id size = none
find_room oid (suc fuel) t last_page_id next_page_id size =
    let p = page_at oid t next_page_id in
    let after = get_next_page_id p.bytes in
    let t' =
      if nat_eq after null_page_id
      then set_page oid t next_page_id (set_next_page_id p ((next_page_id + 1) % 2 ^ 32))
      else t in
    let rest = find_room oid fuel t' next_page_id after size in
    if nat_eq next_page_id null_page_id
    then some (t, behind last_page_id)
    else if has_room p size
    then some (t, within next_page_id)
    else rest

abbrev pub with_rid : ℕ → ℕ → Record → Table → Result (Table × Rid × Record)
with_rid page_id slot_id r t =
    let rid : Rid = record { page_id = page_id; slot_id = slot_id } in
    ok (t, rid, record r { rid = rid })

-- The table's oid, and the transaction and the command of a call.
module _ (oid xid cid : ℕ) (write_log : Bool) where
  -- The steps under `if (write_log)`: the record is serialised behind its insertion, and its page
  -- gets the lsn of the log record.
  unfoldable pub append_insertion : Table → ℕ → ℕ → TablePage.Page → Record → Result Table
  append_insertion t page_id slot_id p r = do
    (m, written) ← Record.serialize_to r (λ i. 0) 0
    let raw = read m 0 (r.size + 30)
    (log_manager, lsn) ←
        append_insert_log t.log_manager xid oid page_id slot_id (get_upper p.bytes) r.size raw
    ok (set_page oid (record t { log_manager = log_manager }) page_id (set_page_lsn p lsn))

  abbrev pub log_insertion : Table → ℕ → ℕ → TablePage.Page → Record → Result Table
  log_insertion t page_id slot_id p r =
      if write_log then append_insertion t page_id slot_id p r else ok (set_page oid t page_id p)

  -- The insertion in a page that has room.
  unfoldable pub insert_in_page : Table → ℕ → Record → Result (Table × Rid × Record)
  insert_in_page t page_id r = do
    (p, slot_id, r') ← TablePage.insert_record (page_at oid t page_id) r xid cid
    log_insertion t page_id slot_id p r' >>= with_rid page_id slot_id r'

  -- The log record of a new page.
  unfoldable pub append_new_page : Table → ℕ → ℕ → TablePage.Page → Result (Table × TablePage.Page)
  append_new_page t prev_page_id page_id p = do
    (log_manager, lsn) ← append_new_page_log t.log_manager xid oid prev_page_id page_id
    ok (record t { log_manager = log_manager }, set_page_lsn p lsn)

  abbrev pub log_new_page : Table → ℕ → ℕ → TablePage.Page → Result (Table × TablePage.Page)
  log_new_page t prev_page_id page_id p =
      if write_log then append_new_page t prev_page_id page_id p else ok (t, p)

  -- The insertion in a new page, which is logged behind the insertion and before the record.
  unfoldable pub insert_in_new_page : Table → ℕ → ℕ → Record → Result (Table × Rid × Record)
  insert_in_new_page t prev_page_id page_id r = do
    (p, slot_id, r') ← TablePage.insert_record (init (fresh (page_at oid t page_id))) r xid cid
    (t1, p1) ← log_new_page t prev_page_id page_id p
    log_insertion t1 page_id slot_id p1 r' >>= with_rid page_id slot_id r'

  -- What is done with the place that the walk found.
  abbrev pub insert_at : Record → Table × Place → Result (Table × Rid × Record)
  insert_at r (t, within page_id) = insert_in_page t page_id r
  insert_at r (t, behind last_page_id) =
      let first = t.first_page_id in
      let t' =
        if nat_eq last_page_id first
        then set_page oid t first (set_next_page_id (page_at oid t first) ((first + 1) % 2 ^ 32))
        else t in
      insert_in_new_page t' last_page_id ((last_page_id + 1) % 2 ^ 32) r

  -- The first page, and the walk when it has no room.
  abbrev pub insert_from_first : ℕ → Table → Record → Option (Result (Table × Rid × Record))
  insert_from_first fuel t r =
      let first = t.first_page_id in
      let p = page_at oid t first in
      if has_room p r.size
      then some (insert_in_page t first r)
      else elim (find_room oid fuel t first (get_next_page_id p.bytes) r.size) [
        | none ↦ none
        | some found ↦ some (insert_at r found)
      ]

  -- `InsertRecord`: the table, the place and the record after it; no answer when the fuel does not
  -- do for the walk.
  unfoldable pub insert_record : ℕ → Table → Record → Option (Result (Table × Rid × Record))
  insert_record fuel t r =
      if ltb max_record_size r.size
      then some (throw record_too_large)
      else if nat_eq t.first_page_id null_page_id
      then some (insert_in_new_page (record t { first_page_id = 0 }) null_page_id 0 r)
      else insert_from_first fuel t r

  unfoldable pub append_deletion : Table → Rid → TablePage.Page → Result Table
  append_deletion t rid p = do
    (log_manager, lsn) ← append_delete_log t.log_manager xid oid rid.page_id rid.slot_id
    ok (set_page oid (record t { log_manager = log_manager }) rid.page_id (set_page_lsn p lsn))

  -- `DeleteRecord`.
  unfoldable pub delete_record : Table → Rid → Result Table
  delete_record t rid =
      let p = TablePage.delete_record (page_at oid t rid.page_id) rid.slot_id xid in
      if write_log then append_deletion t rid p else ok (set_page oid t rid.page_id p)

  -- `UpdateRecord`: the record is deleted, and the new one inserted where there is room.
  unfoldable pub update_record : ℕ → Table → Rid → Record → Option (Result (Table × Rid × Record))
  update_record fuel t rid r = elim (delete_record t rid) [
    | ok t' ↦ insert_record fuel t' r
    | throw e ↦ some (throw e)
    | undefined ↦ some undefined
  ]

  -- `UpdateRecordInPlace`.
  unfoldable pub update_record_in_place : Table → Record → Result Table
  update_record_in_place t r = do
    p ← TablePage.update_record_in_place (page_at oid t r.rid.page_id) r r.rid.slot_id
    ok (set_page oid t r.rid.page_id p)
