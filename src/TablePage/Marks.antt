-- ===== src/TablePage/Marks.antt =====
-- A delete mark changes a header and nothing else, and can be taken back; an initialised page.
use database_hw.Prelude.{ℕ, ◌+◌, ◌<◌, ◌≤◌, ◌≡◌, sym, ap, ◌∙◌, ◌⊎◌, inl, arith}
use database_hw.Types.{null_page_id}
use database_hw.Bytes.{Memory}
use database_hw.Bytes.Laws.{get_int-put_int, get_int-write_apart, length-le_bytes}
use database_hw.Header
use database_hw.Header.{RecordHeader}
use database_hw.Header.Laws
use database_hw.TablePage.{
  Page, get_lower, get_upper, slot_offset, slot_size, get_record_count, get_free_space_size, init,
  get_next_page_id, get_page_lsn, max_record_size,
}
use database_hw.TablePage.Space.{IsValid, limit}

-- The header of the record of a slot.
abbrev pub header_at : Memory → ℕ → RecordHeader
header_at m slot_id = (Header.deserialize_from m (slot_offset m slot_id)).0

-- A slot in use, of a record that has a header.
pub record InUse (m : Memory) (slot_id : ℕ) : Type 0 where
  pub counted : slot_id < get_record_count m
  pub headed : 13 ≤ slot_size m slot_id

-- Only the header of the slot's record is another.
pub record OnlyHeader (m m' : Memory) (slot_id : ℕ) : Type 0 where
  pub lower : get_lower m' ≡ get_lower m
  pub upper : get_upper m' ≡ get_upper m
  pub slots :
      (i : ℕ)
      → i < get_record_count m
      → (slot_offset m' i ≡ slot_offset m i) × (slot_size m' i ≡ slot_size m i)
  pub outside :
      (j : ℕ) → (j < slot_offset m slot_id) ⊎ (slot_offset m slot_id + 13 ≤ j) → m' j ≡ m j

-- What a header that is written in a slot's record leaves.
module _ (m : Memory) (slot_id : ℕ) (h : RecordHeader) (v : IsValid m) (u : InUse m slot_id) where
  abbrev rewritten : Memory
  rewritten = (Header.serialize_to h m (slot_offset m slot_id)).0

init_ints :
    (p : Page)
    → (get_page_lsn (init p).bytes ≡ 0)
      × (get_next_page_id (init p).bytes ≡ null_page_id)
      × (get_lower (init p).bytes ≡ 16)
      × (get_upper (init p).bytes ≡ 256)
unfolding init
init_ints p =
    let l8 = length-le_bytes 8 0 in
    let l4 = length-le_bytes 4 null_page_id in
    let l2 = length-le_bytes 2 16 in
    let l2' = length-le_bytes 2 256 in
    (
      get_int-write_apart _ 14 _ 0 8 (inl (omega arith))
          ∙ get_int-write_apart _ 12 _ 0 8 (inl (omega arith))
          ∙ get_int-write_apart _ 8 _ 0 8 (inl (omega arith))
          ∙ get_int-put_int p.bytes 0 8 0 (omega arith),
      get_int-write_apart _ 14 _ 8 4 (inl (omega arith))
          ∙ get_int-write_apart _ 12 _ 8 4 (inl (omega arith))
          ∙ get_int-put_int _ 8 4 null_page_id (omega arith),
      get_int-write_apart _ 14 _ 12 2 (inl (omega arith)) ∙ get_int-put_int _ 12 2 16 (omega arith),
      get_int-put_int _ 14 2 256 (omega arith),
    )

-- An initialised page is well formed and empty, the last of its table, and has the free space for
-- every record that a table accepts.
pub init-IsValid :
    (p : Page)
    → IsValid (init p).bytes
      × (get_record_count (init p).bytes ≡ 0)
      × (get_next_page_id (init p).bytes ≡ null_page_id)
      × (max_record_size ≤ get_free_space_size (init p).bytes)
unfolding get_record_count get_free_space_size
init-IsValid p =
    let (lsn, next, lower, upper) = init_ints p in
    let count : get_record_count (init p).bytes ≡ 0 = omega arith in
    (
      record {
        slots = omega arith;
        apart = omega arith;
        lowest = upper ∙ ap (limit (init p).bytes) (sym count);
        records = λ i h. absurd (omega arith);
      },
      count,
      next,
      ground arith,
    )
