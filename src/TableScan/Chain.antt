-- ===== src/TableScan/Chain.antt =====
-- A scan over a chain of pages.
use mathlib.Core.List.{flatten}
use database_hw.Prelude.{
  ℕ, suc, ◌+◌, ◌<◌, ◌≡◌, sym, subst, false, List, [], ◌∷◌, ◌++◌, nat_eq, length, arith,
}
use database_hw.Types.{Rid, null_page_id}
use database_hw.Result.{ok}
use database_hw.TablePage.{get_record_count, get_next_page_id}
use database_hw.Record.{Record, Column}
use database_hw.Visibility.{IsolationLevel}
use database_hw.Log.Undo.{Pages}
use database_hw.TableScan.{page_bytes, read_at, has_next_slot, advance}
use database_hw.TableScan.Rows.{Ahead, at_end, at_row, Scans, visible, Ahead-Scans}

abbrev pub place : ℕ → ℕ → Rid
place page_id slot_id = record { page_id = page_id; slot_id = slot_id }

module _ (pages : Pages) (oid : ℕ) (columns : List Column) (xid : ℕ) (level : IsolationLevel)
    (cid : ℕ) (active_xids : List ℕ) where
  abbrev pub count : ℕ → ℕ
  count page_id = get_record_count (page_bytes pages oid columns xid level cid active_xids page_id)

  abbrev pub next_page : ℕ → ℕ
  next_page page_id =
      get_next_page_id (page_bytes pages oid columns xid level cid active_xids page_id)

  -- The page has these records from the slot on.
  abbrev pub Slots : ℕ → ℕ → List Record → Type 0
  Slots page_id slot [] = slot ≡ count page_id
  Slots page_id slot (r ∷ rs) =
      (read_at pages oid columns xid level cid active_xids (place page_id slot) ≡ ok r)
      × Slots page_id (suc slot) rs

  -- From the page on, the pages of the table have these records, and every page has one.
  pub data Chain : ℕ → List (List Record) → Type 0 where
    null : {page_id : ℕ} → page_id ≡ null_page_id → Chain page_id []
    linked :
        {page_id : ℕ} (r : Record) (rs : List Record) (rest : List (List Record))
        → nat_eq page_id null_page_id ≡ false
        → Slots page_id 0 (r ∷ rs)
        → Chain (next_page page_id) rest
        → Chain page_id ((r ∷ rs) ∷ rest)

  Slots-le :
      (page_id slot : ℕ) (rs : List Record)
      → Slots page_id slot rs
      → slot + length rs ≡ count page_id
  Slots-le page_id slot [] e = omega (arith, e)
  Slots-le page_id slot (r ∷ rs) (e, rest) = omega (arith, Slots-le page_id (suc slot) rs rest)

  advance-slot :
      (page_id slot : ℕ)
      → suc slot < count page_id
      → advance pages oid columns xid level cid active_xids (place page_id slot)
        ≡ place page_id (suc slot)
  unfolding advance has_next_slot get_record_count
  advance-slot page_id slot h = ground arith

  advance-page :
      (page_id slot : ℕ)
      → suc slot ≡ count page_id
      → advance pages oid columns xid level cid active_xids (place page_id slot)
        ≡ place (next_page page_id) 0
  unfolding advance has_next_slot
  advance-page page_id slot h = ground arith

  Slots-Ahead :
      (page_id slot : ℕ) (r : Record) (rs more : List Record)
      → nat_eq page_id null_page_id ≡ false
      → Slots page_id slot (r ∷ rs)
      → Ahead pages oid columns xid level cid active_xids (place (next_page page_id) 0) more
      → Ahead pages oid columns xid level cid active_xids (place page_id slot) ((r ∷ rs) ++ more)
  Slots-Ahead page_id slot r [] more page (e, end) ahead = at_row r more page e (
      subst (λ (at : Rid). Ahead pages oid columns xid level cid active_xids at more)
        (sym (advance-page page_id slot end)) ahead)
  Slots-Ahead page_id slot r (r' ∷ rs) more page (e, (e', rest)) ahead =
      let bound : suc slot < count page_id =
        omega (arith, Slots-le page_id (suc (suc slot)) rs rest) in
      at_row r ((r' ∷ rs) ++ more) page e (
        subst
          (λ (at : Rid). Ahead pages oid columns xid level cid active_xids at ((r' ∷ rs) ++ more))
          (sym (advance-slot page_id slot bound))
          (Slots-Ahead page_id (suc slot) r' rs more page (e', rest) ahead))

  Chain-Ahead :
      (page_id : ℕ) (rows : List (List Record))
      → Chain page_id rows
      → Ahead pages oid columns xid level cid active_xids (place page_id 0) (flatten rows)
  unfolding flatten
  Chain-Ahead page_id [] (null e) = at_end (ground arith)
  Chain-Ahead page_id ([] ∷ rest) chain = elim chain [ ]
  Chain-Ahead page_id ((r ∷ rs) ∷ rest) (linked _ _ _ page slots chain) =
      Slots-Ahead page_id 0 r rs (flatten rest) page slots
        (Chain-Ahead (next_page page_id) rest chain)

  -- A scan that starts at the first slot of a chain of pages yields the visible records of the
  -- pages, each once and in the order of the pages and the slots, and then null for ever; every
  -- call returns when its loop may turn once more than there are records.
  pub get_next_record-Scans :
      (first_page_id : ℕ) (rows : List (List Record))
      → Chain first_page_id rows
      → Scans pages oid columns xid level cid active_xids
          (length (flatten rows))
          (place first_page_id 0)
          (visible pages oid columns xid level cid active_xids (flatten rows))
  get_next_record-Scans first_page_id rows chain =
      Ahead-Scans pages oid columns xid level cid active_xids (place first_page_id 0) (flatten rows)
        (Chain-Ahead first_page_id rows chain)
