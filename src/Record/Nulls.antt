-- ===== src/Record/Nulls.antt =====
-- The bitmap of a record says of each column whether its value is null.
use database_hw.Prelude.{
  ℕ, zero, suc, ◌+◌, ◌*◌, ◌/◌, ◌%◌, ◌^◌, ◌<◌, ◌≤◌, ◌≡◌, refl, sym, ap, ◌∙◌, inl, inr, true, false,
  List, [], ◌∷◌, nat_eq, length, if◌then◌else◌, arith, Bool-cases,
}
use database_hw.Result.{Result, ok, ◌>>=◌}
use database_hw.Bitmap
use database_hw.Bitmap.{Bitmap, byte_at, resize_bytes, new_bitmap, has_bit}
use database_hw.Bitmap.Laws.{
  bit_at, set_ok, clear_ok, was_set, was_cleared, bit_at-set, bit_at-clear, length-modify,
}
use database_hw.Value.{Value, is_null}
use database_hw.Record.{set_nulls}

-- From a column on, the bits say which values are null.
abbrev pub Marked : Bitmap → ℕ → List Value → Type 0
Marked b i [] = Unit {0}
Marked b i (v ∷ vs) = (bit_at b i ≡ is_null v) × Marked b (suc i) vs

-- A bitmap that agrees from a column on marks the same values.
pub Marked-same :
    (b c : Bitmap) (i : ℕ) (vs : List Value)
    → ((j : ℕ) → i ≤ j → j < i + length vs → bit_at c j ≡ bit_at b j)
    → Marked b i vs
    → Marked c i vs
Marked-same b c i [] same h = tt
Marked-same b c i (v ∷ vs) same h = (
  same i (omega arith) (omega arith) ∙ h.0,
  Marked-same b c (suc i) vs (λ j lo hi. same j (omega arith) (omega arith)) h.1,
)

-- What setting or clearing the bit of one value gives.
pub record Noted (v : Value) (i : ℕ) (b c : Bitmap) : Type 0 where
  pub same_size : c.size ≡ b.size
  pub same_length : length c.bits ≡ length b.bits
  pub here : bit_at c i ≡ is_null v
  pub elsewhere : (j : ℕ) → nat_eq j i ≡ false → bit_at c j ≡ bit_at b j

pub note_set :
    (v : Value) (i : ℕ) (b : Bitmap) (h : i < length b.bits * 8)
    → is_null v ≡ true
    → Noted v i b (was_set b i h)
note_set v i b h n = record {
  same_size = refl;
  same_length = length-modify _ (i / 8) b.bits;
  here = ground (arith, bit_at-set b i h i);
  elsewhere = λ j ne. ground (arith, bit_at-set b i h j);
}

pub note_clear :
    (v : Value) (i : ℕ) (b : Bitmap) (h : i < length b.bits * 8)
    → is_null v ≡ false
    → Noted v i b (was_cleared b i h)
note_clear v i b h n = record {
  same_size = refl;
  same_length = length-modify _ (i / 8) b.bits;
  here = ground (arith, bit_at-clear b i h i);
  elsewhere = λ j ne. ground (arith, bit_at-clear b i h j);
}

-- A bitmap with no bit set from a column on: the loop of the constructor marks the values.
pub record Marks (vs : List Value) (i : ℕ) (b c : Bitmap) : Type 0 where
  pub run : set_nulls vs i b ≡ ok c
  pub same_size : c.size ≡ b.size
  pub same_length : length c.bits ≡ length b.bits
  pub keeps : (j : ℕ) → j < i → bit_at c j ≡ bit_at b j
  pub marked : Marked c i vs

set_nulls_step :
    (v : Value) (vs : List Value) (i : ℕ) (b c : Bitmap)
    → (if is_null v then Bitmap.set b (i % 2 ^ 16) else ok b) ≡ ok c
    → set_nulls (v ∷ vs) i b ≡ set_nulls vs (suc i) c
unfolding set_nulls
set_nulls_step v vs i b c h = ap (λ (r : Result Bitmap). r >>= set_nulls vs (suc i)) h

pub set_at :
    (b : Bitmap) (i : ℕ) (h : i < length b.bits * 8)
    → i < 2 ^ 16
    → Bitmap.set b (i % 2 ^ 16) ≡ ok (was_set b i h)
set_at b i h short = ap (Bitmap.set b) (omega arith) ∙ set_ok b i h

pub clear_at :
    (b : Bitmap) (i : ℕ) (h : i < length b.bits * 8)
    → i < 2 ^ 16
    → Bitmap.clear b (i % 2 ^ 16) ≡ ok (was_cleared b i h)
clear_at b i h short = ap (Bitmap.clear b) (omega arith) ∙ clear_ok b i h

abbrev Blank : Bitmap → ℕ → Type 0
Blank b i = (j : ℕ) → i ≤ j → bit_at b j ≡ false

pub set_nulls-Marks :
    (vs : List Value) (i : ℕ) (b : Bitmap)
    → i + length vs ≤ length b.bits * 8
    → i + length vs < 2 ^ 16
    → Blank b i
    → (c : Bitmap) × Marks vs i b c
unfolding set_nulls
set_nulls-Marks [] i b fits short blank = (
  b,
  record { run = refl; same_size = refl; same_length = refl; keeps = λ j h. refl; marked = tt },
)
set_nulls-Marks (v ∷ vs) i b fits short blank =
    let here : i < length b.bits * 8 = omega arith in
    elim (Bool-cases (is_null v)) [
      | inl n ↦
          let noted = note_set v i b here n in
          let (c, rest) =
            set_nulls-Marks vs (suc i) (was_set b i here) (omega (arith, noted.same_length))
              (omega arith) (λ j h. noted.elsewhere j (ground arith) ∙ blank j (omega arith)) in
          (
            c,
            record {
              run =
                  set_nulls_step v vs i b (was_set b i here) (rw n (set_at b i here (omega arith)))
                  ∙ rest.run;
              same_size = rest.same_size;
              same_length = rest.same_length ∙ noted.same_length;
              keeps = λ j h. rest.keeps j (omega arith) ∙ noted.elsewhere j (ground arith);
              marked = (rest.keeps i (omega arith) ∙ noted.here, rest.marked);
            },
          )
      | inr n ↦
          let (c, rest) =
            set_nulls-Marks vs (suc i) b (omega arith) (omega arith)
              (λ j h. blank j (omega arith)) in
          (
            c,
            record {
              run = set_nulls_step v vs i b b (rw n) ∙ rest.run;
              same_size = rest.same_size;
              same_length = rest.same_length;
              keeps = λ j h. rest.keeps j (omega arith);
              marked = (rest.keeps i (omega arith) ∙ blank i (omega arith) ∙ sym n, rest.marked);
            },
          )
    ]

has_bit_zero : (k : ℕ) → has_bit k 0 ≡ false
unfolding has_bit
has_bit_zero zero = refl
has_bit_zero (suc k) = has_bit_zero k

byte_at-zeros : (n j : ℕ) → byte_at (resize_bytes n []) j ≡ 0
unfolding byte_at resize_bytes
byte_at-zeros zero j = refl
byte_at-zeros (suc n) zero = refl
byte_at-zeros (suc n) (suc j) = byte_at-zeros n j

pub new_bitmap-Blank : (n : ℕ) → Blank (new_bitmap n) 0
unfolding bit_at
new_bitmap-Blank n j h = rw (byte_at-zeros ((n + 7) / 8) (j / 8)) (has_bit_zero (j % 8))
