-- ===== src/TablePage/Redo.antt =====
-- `RedoInsertRecord` of the bytes that `InsertRecord` wrote.
use database_hw.Prelude.{
  ℕ, zero, suc, ◌+◌, ◌-◌, ◌%◌, ◌^◌, ◌<◌, ◌≤◌, ◌≡◌, sym, ap, ap₂, fun_ext, ◌∙◌, ◌⊎◌, inl, inr, List,
  take, take_of_length-le, arith,
}
use database_hw.Result.{Result, ok, ◌>>=◌}
use database_hw.Bytes.{Memory, write, read, put_int, le_bytes}
use database_hw.Bytes.Laws.{write_outside, length-read, get_int-write_apart}
use database_hw.Record.{Record, Column}
use database_hw.Record.RoundTrip.{
  CanStore, stored_size, size-stored_size, serialize_to-deserialize_from_record,
}
use database_hw.TablePage.{
  Page, set_dirty, get_upper, slot_at, get_record_count, get_free_space_size, claim_space,
  insert_record, redo_insert_record,
}
use database_hw.TablePage.Space.{IsValid, count_small, count-Grown}
use database_hw.TablePage.Insert.{free_space-HasRoom, inserted, inserted-Claimed, Claimed-Grown}
use database_hw.TablePage.Stored.{stamped, stamped-CanStore, after_write, insert_record_run}

write-read_inside :
    (m m' : Memory) (at n i : ℕ) → at ≤ i → i < at + n → write m at (read m' at n) i ≡ m' i
unfolding write read
write-read_inside m m' at zero i lo hi = absurd (omega arith)
write-read_inside m m' at (suc n) i lo hi = ground (arith, write-read_inside m m' (suc at) n i)

-- Bytes copied from a memory that agrees elsewhere make the two memories equal.
write-read :
    (m m' : Memory) (at n : ℕ)
    → ((i : ℕ) → (i < at) ⊎ (at + n ≤ i) → m' i ≡ m i)
    → write m at (read m' at n) ≡ m'
write-read m m' at n same = fun_ext λ i. elim (inside-cases i) [
  | inl (lo, hi) ↦ write-read_inside m m' at n i lo hi
  | inr out ↦
      write_outside m at (read m' at n) i (omega (arith, length-read m' at n)) ∙ sym (same i out)
]
  where
    inside-cases : (i : ℕ) → ((at ≤ i) × (i < at + n)) ⊎ ((i < at) ⊎ (at + n ≤ i))
    inside-cases i = omega arith

-- The two numbers of a slot can be written in either order.
slot_writes_comm :
    (m : Memory) (s d e : ℕ)
    → put_int (put_int m (s + 2) 2 e) s 2 d ≡ put_int (put_int m s 2 d) (s + 2) 2 e
unfolding write le_bytes
slot_writes_comm m s d e = fun_ext λ i. ground arith

module _ (m : Memory) (size : ℕ) where
  abbrev size_first : Memory
  size_first = put_int (claim_space m size) (slot_at (get_record_count m) + 2) 2 size

  -- The four writes before the record's bytes, in the order of `RedoInsertRecord`.
  abbrev redone : Memory
  redone = put_int size_first (slot_at (get_record_count m)) 2 (get_upper size_first)

  redone-inserted : redone ≡ inserted m size
  redone-inserted =
      let s = slot_at (get_record_count m) in
      let m2 = claim_space m size in
      let same : get_upper size_first ≡ get_upper m2 =
        get_int-write_apart m2 (s + 2) (le_bytes 2 size) 14 2 (inl (omega arith)) in
      ap (λ (d : ℕ). put_int size_first s 2 d) same ∙ slot_writes_comm m2 s (get_upper m2) size

redo_insert_record_lem :
    (p : Page) (page_offset size at : ℕ) (m' : Memory)
    → get_upper (inserted p.bytes size) ≡ at
    → ((i : ℕ) → (i < at) ⊎ (at + size ≤ i) → m' i ≡ inserted p.bytes size i)
    → redo_insert_record p (get_record_count p.bytes) (read m' at size) page_offset size
      ≡ set_dirty m'
unfolding redo_insert_record
redo_insert_record_lem p page_offset size at m' e same =
    let raw = read m' at size in
    let whole : take size raw ≡ raw =
      take_of_length-le size raw (omega (arith, length-read m' at size)) in
    ap (λ (m : Memory). set_dirty (write m (get_upper m) (take size raw)))
      (redone-inserted p.bytes size)
    ∙ ap₂ (λ (k : ℕ) (bs : List ℕ). set_dirty (write (inserted p.bytes size) k bs)) e whole
    ∙ ap set_dirty (write-read (inserted p.bytes size) m' at size same)

-- A record that can be stored is inserted in a well-formed page with the free space for it, and
-- redoing the insertion on the page as it was before, with the slot that was returned and the bytes
-- that stand at the new upper pointer, gives the same page.
pub redo_insert_record-insert_record :
    (p : Page) (r : Record) (xid cid : ℕ) (columns : List Column) (page_offset : ℕ)
    → IsValid p.bytes
    → CanStore columns r
    → xid < 2 ^ 32
    → cid < 2 ^ 32
    → r.size ≤ get_free_space_size p.bytes
    → (p' : Page) × (slot_id : ℕ) × (insert_record p r xid cid
        ≡ ok (p', slot_id, stamped r xid cid))
      × (redo_insert_record p slot_id (read p'.bytes (get_upper p'.bytes) r.size) page_offset r.size
          ≡ p')
unfolding stored_size
redo_insert_record-insert_record p r xid cid columns page_offset v c hx hc free =
    let m = p.bytes in
    let n = get_record_count m in
    let s = stamped r xid cid in
    let c' = stamped-CanStore columns r xid cid c hx hc in
    let size = size-stored_size columns r c in
    let room = free_space-HasRoom m r.size (omega arith) free in
    let claimed = inserted-Claimed m r.size v room in
    let m4 = inserted m r.size in
    let (m5, run, back, exact, outside) =
      serialize_to-deserialize_from_record columns s s.rid m4 (get_upper m4) c' in
    let apart = λ (i : ℕ) (h : (i < get_upper m - r.size) ⊎ (get_upper m - r.size + r.size ≤ i)).
      outside i (omega (arith, claimed.upper)) in
    let g = Claimed-Grown m m4 m5 r.size v room claimed apart in
    let count = count-Grown m m5 r.size v g in
    let small = count_small m v in
    let slot : (get_record_count m5 + 2 ^ 16 - 1) % 2 ^ 16 ≡ n = omega arith in
    let there : get_upper m4 ≡ get_upper m5 = omega (arith, g.upper, claimed.upper, room.fits) in
    (
      set_dirty m5,
      n,
      sym (insert_record_run p r xid cid columns)
          ∙ ap (λ (w : Result (Memory × ℕ)). w >>= after_write p r xid cid columns) run
          ∙ ap (λ (k : ℕ). ok (set_dirty m5, k, s)) slot,
      redo_insert_record_lem p page_offset r.size (get_upper m5) m5 there
          (λ i h. outside i (omega arith)),
    )
