-- ===== src/Header/Laws.antt =====
-- A header is read back as it was written, and takes its 13 bytes only.
use database_hw.Prelude.{ℕ, ◌+◌, ◌≤◌, ◌<◌, ◌^◌, ◌≡◌, refl, ◌∙◌, ◌⊎◌, inl, List, [], ◌∷◌, arith}
use database_hw.Bytes.{Memory, write, put_int, get_int}
use database_hw.Bytes.Laws.{
  get_int-put_int, get_int-write_apart, length-le_bytes, write_here, write_outside,
}
use database_hw.Header.{RecordHeader, Fits, serialize_to, deserialize_from, bool_byte}

-- The three ids, one behind the other, then each is read back.
module _ (m : Memory) (at a b c : ℕ) where
  abbrev three : Memory
  three = put_int (put_int (put_int m (at + 1) 4 a) (at + 5) 4 b) (at + 9) 4 c

  three_outside : (i : ℕ) → (i < at + 1) ⊎ (at + 13 ≤ i) → three i ≡ m i
  three_outside i h = grind (arith, write_outside, length-le_bytes)

  three_ids :
      a < 2 ^ 32
      → b < 2 ^ 32
      → c < 2 ^ 32
      → (get_int three (at + 1) 4 ≡ a)
        × (get_int three (at + 5) 4 ≡ b)
        × (get_int three (at + 9) 4 ≡ c)
  three_ids ha hb hc = (
    get_int-write_apart _ (at + 9) _ (at + 1) 4 (inl (omega arith))
        ∙ get_int-write_apart _ (at + 5) _ (at + 1) 4 (inl (omega arith))
        ∙ get_int-put_int m (at + 1) 4 a ha,
    get_int-write_apart _ (at + 9) _ (at + 5) 4 (inl (omega arith))
        ∙ get_int-put_int _ (at + 5) 4 b hb,
    get_int-put_int _ (at + 9) 4 c hc,
  )

-- A header whose ids fit 32 bits is read back from where it was written.
pub deserialize_from-serialize_to :
    (h : RecordHeader) (m : Memory) (at : ℕ)
    → Fits h
    → deserialize_from (serialize_to h m at).0 at ≡ (h, (serialize_to h m at).1)
unfolding serialize_to deserialize_from
deserialize_from-serialize_to h m at f =
    let m1 = write m at (bool_byte h.deleted ∷ []) in
    ground (
      arith,
      three_ids m1 at h.xmin h.xmax h.cid f.xmin f.xmax f.cid,
      three_outside m1 at h.xmin h.xmax h.cid at (inl (omega arith)),
      write_here m at (bool_byte h.deleted) [],
    )

-- No other byte changes.
pub serialize_to_outside :
    (h : RecordHeader) (m : Memory) (at i : ℕ)
    → (i < at) ⊎ (at + (serialize_to h m at).1 ≤ i)
    → (serialize_to h m at).0 i ≡ m i
unfolding serialize_to
serialize_to_outside h m at i e =
    let m1 = write m at (bool_byte h.deleted ∷ []) in
    three_outside m1 at h.xmin h.xmax h.cid i (omega arith)
    ∙ write_outside m at (bool_byte h.deleted ∷ []) i (omega arith)

-- What is written behind a header does not change it.
pub deserialize_from-write :
    (m : Memory) (at : ℕ) (bs : List ℕ)
    → deserialize_from (write m (at + 13) bs) at ≡ deserialize_from m at
unfolding deserialize_from
deserialize_from-write m at bs = ground (
  arith,
  write_outside m (at + 13) bs at (inl (omega arith)),
  get_int-write_apart m (at + 13) bs (at + 1) 4 (inl (omega arith)),
  get_int-write_apart m (at + 13) bs (at + 5) 4 (inl (omega arith)),
  get_int-write_apart m (at + 13) bs (at + 9) 4 (inl (omega arith)),
)

pub serialize_to-size : (h : RecordHeader) (m : Memory) (at : ℕ) → (serialize_to h m at).1 ≡ 13
unfolding serialize_to
serialize_to-size h m at = refl
