-- ===== src/Bitmap/Laws.antt =====
-- A bit that is set or cleared is tested so, and the other bits keep.
use database_hw.Prelude.{
  ℕ, zero, suc, ◌+◌, ◌*◌, ◌/◌, ◌%◌, ◌<◌, ◌≡◌, refl, ap, Bool, true, false, List, [], ◌∷◌, nat_eq,
  length, if◌then◌else◌, arith,
}
use database_hw.Result.{ok, ◌>>=◌}
use database_hw.Bitmap.{
  Bitmap, has_bit, or_bit, and_not_bit, resize_bytes, modify, byte_at, set, clear, test,
}

pub has_bit-or_bit :
    (j k byte : ℕ) → has_bit j (or_bit k byte) ≡ (if nat_eq j k then true else has_bit j byte)
unfolding has_bit or_bit
has_bit-or_bit zero zero b = ground arith
has_bit-or_bit zero (suc k) b = ground arith
has_bit-or_bit (suc j) zero b =
    let e : (1 + 2 * (b / 2)) / 2 ≡ b / 2 = omega arith in rw e (ground arith)
has_bit-or_bit (suc j) (suc k) b =
    let e : (b % 2 + 2 * or_bit k (b / 2)) / 2 ≡ or_bit k (b / 2) = omega arith in
    rw e (ground (arith, has_bit-or_bit j k (b / 2)))

pub has_bit-and_not_bit :
    (j k byte : ℕ) → has_bit j (and_not_bit k byte) ≡ (if nat_eq j k then false else has_bit j byte)
unfolding has_bit and_not_bit
has_bit-and_not_bit zero zero b = ground arith
has_bit-and_not_bit zero (suc k) b = ground arith
has_bit-and_not_bit (suc j) zero b =
    let e : (2 * (b / 2)) / 2 ≡ b / 2 = omega arith in rw e (ground arith)
has_bit-and_not_bit (suc j) (suc k) b =
    let e : (b % 2 + 2 * and_not_bit k (b / 2)) / 2 ≡ and_not_bit k (b / 2) = omega arith in
    rw e (ground (arith, has_bit-and_not_bit j k (b / 2)))

pub length-modify : (f : ℕ → ℕ) (i : ℕ) (bs : List ℕ) → length (modify f i bs) ≡ length bs
unfolding modify
length-modify f i [] = refl
length-modify f zero (b ∷ bs) = refl
length-modify f (suc i) (b ∷ bs) = ap suc (length-modify f i bs)

pub byte_at-modify :
    (f : ℕ → ℕ) (i j : ℕ) (bs : List ℕ)
    → i < length bs
    → byte_at (modify f i bs) j ≡ (if nat_eq j i then f (byte_at bs i) else byte_at bs j)
unfolding byte_at modify
byte_at-modify f i j [] h = absurd (omega arith)
byte_at-modify f zero zero (b ∷ bs) h = refl
byte_at-modify f zero (suc j) (b ∷ bs) h = ground arith
byte_at-modify f (suc i) zero (b ∷ bs) h = ground arith
byte_at-modify f (suc i) (suc j) (b ∷ bs) h = ground (arith, byte_at-modify f i j bs (omega arith))

pub length-resize_bytes : (n : ℕ) (bs : List ℕ) → length (resize_bytes n bs) ≡ n
unfolding resize_bytes
length-resize_bytes zero bs = refl
length-resize_bytes (suc n) [] = ap suc (length-resize_bytes n [])
length-resize_bytes (suc n) (b ∷ bs) = ap suc (length-resize_bytes n bs)

-- The bit at a position.
unfoldable pub bit_at : Bitmap → ℕ → Bool
bit_at b j = has_bit (j % 8) (byte_at b.bits (j / 8))

module _ (b : Bitmap) (i : ℕ) (h : i < length b.bits * 8) where
  abbrev pub was_set : Bitmap
  was_set = record b { bits = modify (or_bit (i % 8)) (i / 8) b.bits }

  abbrev pub was_cleared : Bitmap
  was_cleared = record b { bits = modify (and_not_bit (i % 8)) (i / 8) b.bits }

  pub set_ok : set b i ≡ ok was_set
  unfolding set
  set_ok = ground arith

  pub clear_ok : clear b i ≡ ok was_cleared
  unfolding clear
  clear_ok = ground arith

  pub bit_at-set : (j : ℕ) → bit_at was_set j ≡ (if nat_eq j i then true else bit_at b j)
  unfolding bit_at
  bit_at-set j = ground (
    arith,
    byte_at-modify (or_bit (i % 8)) (i / 8) (j / 8) b.bits (omega arith),
    has_bit-or_bit (j % 8) (i % 8) (byte_at b.bits (j / 8)),
  )

  pub bit_at-clear : (j : ℕ) → bit_at was_cleared j ≡ (if nat_eq j i then false else bit_at b j)
  unfolding bit_at
  bit_at-clear j = ground (
    arith,
    byte_at-modify (and_not_bit (i % 8)) (i / 8) (j / 8) b.bits (omega arith),
    has_bit-and_not_bit (j % 8) (i % 8) (byte_at b.bits (j / 8)),
  )

pub test_ok : (b : Bitmap) (i : ℕ) → i < length b.bits * 8 → test b i ≡ ok (bit_at b i)
unfolding test bit_at
test_ok b i h = ground arith

-- A bit that is set in range is tested true, and the bits besides it as before; one that is cleared
-- is tested false, and the bits besides it as before.
pub test-set :
    (b : Bitmap) (i j : ℕ)
    → i < length b.bits * 8
    → (set b i >>= (λ c. test c j) ≡ (if nat_eq j i then ok true else test b j))
      × (clear b i >>= (λ c. test c j) ≡ (if nat_eq j i then ok false else test b j))
unfolding test bit_at
test-set b i j h = (
  rw (set_ok b i h)
      (ground (arith, bit_at-set b i h j, length-modify (or_bit (i % 8)) (i / 8) b.bits)),
  rw (clear_ok b i h)
      (ground (arith, bit_at-clear b i h j, length-modify (and_not_bit (i % 8)) (i / 8) b.bits)),
)
