-- ===== src/TablePage/Insert.antt =====
-- A record that is inserted is stored in the free part, and read back; the others stay.
use database_hw.Prelude.{ℕ, ◌+◌, ◌-◌, ◌%◌, ◌^◌, ◌<◌, ◌≤◌, ◌≡◌, sym, ◌∙◌, ◌⊎◌, inl, inr, arith}
use database_hw.Bytes.{Memory, put_int}
use database_hw.Bytes.Laws.{get_int-put_int, get_int-write_apart, length-le_bytes}
use database_hw.TablePage.{
  get_lower, get_upper, slot_at, slot_offset, slot_size, get_record_count, get_free_space_size,
  claim_space,
}
use database_hw.TablePage.Space.{IsValid, Grown, four_ints, four_outside, get_int-same, upper-le}

-- The page has room for a record of the size, and for its slot.
pub record HasRoom (m : Memory) (size : ℕ) : Type 0 where
  pub some_bytes : 0 < size
  pub fits : get_lower m + 4 + size ≤ get_upper m

pub free_space-HasRoom :
    (m : Memory) (size : ℕ) → 0 < size → size ≤ get_free_space_size m → HasRoom m size
unfolding get_free_space_size
free_space-HasRoom m size pos h = record { some_bytes = pos; fits = ground arith }

-- What a claim leaves in the page, before the record's bytes are written.
module _ (m : Memory) (size : ℕ) (v : IsValid m) (room : HasRoom m size) where
  abbrev place : ℕ
  place = get_upper m - size

  claimed_lower : (get_lower m + 4) % 2 ^ 16 ≡ get_lower m + 4
  claimed_lower = omega (arith, upper-le m v, room.fits)

  abbrev lowered : Memory
  lowered = put_int m 12 2 ((get_lower m + 4) % 2 ^ 16)

  upper-lowered : get_upper lowered ≡ get_upper m
  upper-lowered =
      get_int-write_apart m 12 _ 14 2
        (inr (omega (arith, length-le_bytes 2 ((get_lower m + 4) % 2 ^ 16))))

  abbrev new_upper : ℕ
  new_upper = (get_upper lowered + 2 ^ 16 - size) % 2 ^ 16

  new_upper-place : new_upper ≡ place
  new_upper-place = omega (arith, upper-lowered, upper-le m v, room.fits)

  upper-claim_space : get_upper (claim_space m size) ≡ new_upper
  upper-claim_space = get_int-put_int lowered 14 2 new_upper (omega arith)

-- A page after the claim, with the slot of the new record.
pub record Claimed (m m' : Memory) (size : ℕ) : Type 0 where
  pub lower : get_lower m' ≡ get_lower m + 4
  pub upper : get_upper m' ≡ get_upper m - size
  pub offset : slot_offset m' (get_record_count m) ≡ get_upper m - size
  pub size_kept : slot_size m' (get_record_count m) ≡ size
  pub outside :
      (i : ℕ)
      → 16 ≤ i
      → (i < slot_at (get_record_count m)) ⊎ (slot_at (get_record_count m) + 4 ≤ i)
      → m' i ≡ m i

-- The four writes of `InsertRecord` before the record's bytes.
abbrev pub inserted : Memory → ℕ → Memory
inserted m size =
    let s = slot_at (get_record_count m) in
    let m2 = claim_space m size in put_int (put_int m2 s 2 (get_upper m2)) (s + 2) 2 size

-- The lsn and the link in front of the pointers stay.
pub inserted-low : (m : Memory) (size i : ℕ) → i < 12 → inserted m size i ≡ m i
inserted-low m size i h =
    let s = slot_at (get_record_count m) in
    four_outside m s ((get_lower m + 4) % 2 ^ 16) _ (get_upper (claim_space m size)) size i (inl h)
      (inl (omega arith))

pub inserted-Claimed :
    (m : Memory) (size : ℕ) → IsValid m → HasRoom m size → Claimed m (inserted m size) size
inserted-Claimed m size v room =
    let s = slot_at (get_record_count m) in
    let a = (get_lower m + 4) % 2 ^ 16 in
    let b = new_upper m size v room in
    let d = get_upper (claim_space m size) in
    let le = upper-le m v in
    let b_place = new_upper-place m size v room in
    let d_b = upper-claim_space m size v room in
    let fits = room.fits in
    let ints =
      four_ints m s a b d size (omega arith) (omega arith) (omega arith) (omega arith)
        (omega arith) in
    record {
      lower = ints.0 ∙ claimed_lower m size v room;
      upper = ints.1 ∙ b_place;
      offset = ints.2 ∙ d_b ∙ b_place;
      size_kept = ints.3;
      outside = λ i above apart. four_outside m s a b d size i (inr above) apart;
    }

-- The record's bytes are written where the space was claimed.
pub Claimed-Grown :
    (m m4 m5 : Memory) (size : ℕ)
    → IsValid m
    → HasRoom m size
    → Claimed m m4 size
    → ((i : ℕ) → (i < get_upper m - size) ⊎ (get_upper m - size + size ≤ i) → m5 i ≡ m4 i)
    → Grown m m5 size
Claimed-Grown m m4 m5 size v room c same =
    let fits = room.fits in
    let slots = v.slots in
    let n = get_record_count m in
    let lower = get_int-same m5 m4 12 2 (λ i lo hi. same i (inl (omega arith))) ∙ c.lower in
    let upper = get_int-same m5 m4 14 2 (λ i lo hi. same i (inl (omega arith))) ∙ c.upper in
    record {
      lower = lower;
      upper = omega (arith, upper);
      room = omega (arith, lower, upper);
      offset =
          get_int-same m5 m4 (slot_at n) 2 (λ i lo hi. same i (inl (omega arith)))
          ∙ c.offset
          ∙ sym upper;
      size_kept =
          get_int-same m5 m4 (slot_at n + 2) 2 (λ i lo hi. same i (inl (omega arith)))
          ∙ c.size_kept;
      others = λ i h. (
        get_int-same m5 m (slot_at i) 2
            (λ j lo hi. same j (inl (omega arith)) ∙ c.outside j (omega arith) (inl (omega arith))),
        get_int-same m5 m (slot_at i + 2) 2
            (λ j lo hi. same j (inl (omega arith)) ∙ c.outside j (omega arith) (inl (omega arith))),
      );
    }

-- Above the upper pointer nothing changes.
pub Claimed-above :
    (m m4 m5 : Memory) (size : ℕ)
    → IsValid m
    → HasRoom m size
    → Claimed m m4 size
    → ((i : ℕ) → (i < get_upper m - size) ⊎ (get_upper m - size + size ≤ i) → m5 i ≡ m4 i)
    → (j : ℕ) → get_upper m ≤ j
    → m5 j ≡ m j
Claimed-above m m4 m5 size v room c same j h =
    let fits = room.fits in
    let slots = v.slots in
    same j (inr (omega arith)) ∙ c.outside j (omega arith) (inr (omega arith))
