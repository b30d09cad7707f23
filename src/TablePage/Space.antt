-- ===== src/TablePage/Space.antt =====
-- The free part of a page, between the slots and the records, and the claim of a part of it.
use database_hw.Prelude.{
  ℕ, zero, suc, ◌+◌, ◌^◌, ◌<◌, ◌≤◌, ◌≡◌, refl, sym, ap, subst, nat_eq-cases, ◌∙◌, ◌⊎◌, inl, inr,
  arith,
}
use database_hw.Bytes.{Memory, put_int, get_int, le_bytes, of_le}
use database_hw.Bytes.Laws.{
  get_int-put_int, get_int-write_apart, read_same, write_outside, length-le_bytes,
}
use database_hw.TablePage.{
  get_lower, get_upper, slot_at, slot_offset, slot_size, get_record_count, page_header_size,
  db_page_size,
}

-- The slots end where the free part begins, and the records are stored in the page, each below the
-- one before it.
abbrev pub limit : Memory → ℕ → ℕ
limit m zero = db_page_size
limit m (suc i) = slot_offset m i

pub record IsValid (m : Memory) : Type 0 where
  pub slots : get_lower m ≡ slot_at (get_record_count m)
  pub apart : get_lower m ≤ get_upper m
  pub lowest : get_upper m ≡ limit m (get_record_count m)
  pub records :
      (i : ℕ)
      → i < get_record_count m
      → (get_upper m ≤ slot_offset m i) × (slot_offset m i + slot_size m i ≤ limit m i)

pub get_int-same :
    (m m' : Memory) (from width : ℕ)
    → ((i : ℕ) → from ≤ i → i < from + width → m i ≡ m' i)
    → get_int m from width ≡ get_int m' from width
get_int-same m m' from width h = ap of_le (read_same m m' from width h)

-- The four numbers that a claim writes, and no other byte.
module _ (m : Memory) (at a b d e : ℕ) where
  abbrev pub four : Memory
  four = put_int (put_int (put_int (put_int m 12 2 a) 14 2 b) at 2 d) (at + 2) 2 e

  pub four_ints :
      page_header_size ≤ at
      → a < 2 ^ 16
      → b < 2 ^ 16
      → d < 2 ^ 16
      → e < 2 ^ 16
      → (get_int four 12 2 ≡ a)
        × (get_int four 14 2 ≡ b)
        × (get_int four at 2 ≡ d)
        × (get_int four (at + 2) 2 ≡ e)
  four_ints apart ha hb hd he =
      let l = length-le_bytes 2 in
      (
        get_int-write_apart _ (at + 2) _ 12 2 (inl (omega arith))
            ∙ get_int-write_apart _ at _ 12 2 (inl (omega arith))
            ∙ get_int-write_apart _ 14 _ 12 2 (inl (omega arith))
            ∙ get_int-put_int m 12 2 a ha,
        get_int-write_apart _ (at + 2) _ 14 2 (inl (omega arith))
            ∙ get_int-write_apart _ at _ 14 2 (inl (omega arith))
            ∙ get_int-put_int _ 14 2 b hb,
        get_int-write_apart _ (at + 2) _ at 2 (inl (omega arith)) ∙ get_int-put_int _ at 2 d hd,
        get_int-put_int _ (at + 2) 2 e he,
      )

  pub four_outside : (i : ℕ) → (i < 12) ⊎ (16 ≤ i) → (i < at) ⊎ (at + 4 ≤ i) → four i ≡ m i
  four_outside i h k =
      write_outside _ (at + 2) (le_bytes 2 e) i (omega (arith, length-le_bytes 2 e))
      ∙ write_outside _ at (le_bytes 2 d) i (omega (arith, length-le_bytes 2 d))
      ∙ write_outside _ 14 (le_bytes 2 b) i (omega (arith, length-le_bytes 2 b))
      ∙ write_outside m 12 (le_bytes 2 a) i (omega (arith, length-le_bytes 2 a))

limit-le : (m : Memory) → IsValid m → (i : ℕ) → i ≤ get_record_count m → limit m i ≤ db_page_size
limit-le m v zero h = omega arith
limit-le m v (suc i) h = omega (arith, limit-le m v i (omega arith), v.records i (omega arith))

pub upper-le : (m : Memory) → IsValid m → get_upper m ≤ db_page_size
upper-le m v = omega (arith, v.lowest, limit-le m v (get_record_count m) (omega arith))

pub count_small : (m : Memory) → IsValid m → slot_at (get_record_count m) ≤ db_page_size
count_small m v = omega (arith, v.slots, v.apart, upper-le m v)

-- A page that has taken one more record of a size, under the others.
pub record Grown (m m' : Memory) (size : ℕ) : Type 0 where
  pub lower : get_lower m' ≡ get_lower m + 4
  pub upper : get_upper m' + size ≡ get_upper m
  pub room : get_lower m' ≤ get_upper m'
  pub offset : slot_offset m' (get_record_count m) ≡ get_upper m'
  pub size_kept : slot_size m' (get_record_count m) ≡ size
  pub others :
      (i : ℕ)
      → i < get_record_count m
      → (slot_offset m' i ≡ slot_offset m i) × (slot_size m' i ≡ slot_size m i)

module _ (m m' : Memory) (size : ℕ) (v : IsValid m) (g : Grown m m' size) where
  pub count-Grown : get_record_count m' ≡ suc (get_record_count m)
  unfolding get_record_count
  count-Grown =
      let small = count_small m v in let slots = v.slots in let lower = g.lower in omega arith

  limit_kept : (i : ℕ) → i ≤ get_record_count m → limit m' i ≡ limit m i
  limit_kept zero h = refl
  limit_kept (suc i) h = (g.others i (omega arith)).0

  pub Grown-IsValid : IsValid m'
  Grown-IsValid =
      let c = get_record_count m in
      let e = count-Grown in
      let kept = limit_kept c (omega arith) in
      record {
        slots = omega (arith, g.lower, v.slots);
        apart = g.room;
        lowest = subst (λ (k : ℕ). get_upper m' ≡ limit m' k) (sym e) (sym g.offset);
        records = λ i h. elim (nat_eq-cases i c) [
          | inl same ↦
              subst
                (λ (k : ℕ).
                  (get_upper m' ≤ slot_offset m' k)
                  × (slot_offset m' k + slot_size m' k ≤ limit m' k))
                (sym same)
                (
                  omega (arith, g.offset),
                  omega (arith, g.offset, g.size_kept, g.upper, v.lowest, kept),
                )
          | inr other ↦
              let before : i < c = omega arith in
              let was = v.records i before in
              let now = g.others i before in
              let limit_same = limit_kept i (omega arith) in (omega (arith, g.upper), omega arith)
        ];
      }

  -- The bytes of the other records are above the upper pointer.
  pub Grown-above :
      ((j : ℕ) → get_upper m ≤ j → m' j ≡ m j)
      → (i j : ℕ) → i < get_record_count m
      → slot_offset m i ≤ j
      → m' j ≡ m j
  Grown-above h i j k at = h j (omega (arith, v.records i k))
