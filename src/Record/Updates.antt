-- ===== src/Record/Updates.antt =====
-- `SetValue` keeps the bitmap and the size of a record to its values.
use database_hw.Prelude.{
  ℕ, zero, suc, ◌+◌, ◌*◌, ◌/◌, ◌%◌, ◌^◌, ◌<◌, ◌≤◌, ◌≡◌, refl, sym, ap, subst, ◌∙◌, ◌⊎◌, inl, inr,
  Bool, true, false, Option, none, some, List, [], ◌∷◌, ◌++◌, nat_eq, length, length-append,
  length-set, get_elem?, get_elem?-lt, if◌then◌else◌, arith, Bool-cases, Option-cases,
}
use database_hw.Prelude
use database_hw.Result.{Result, ok, ◌>>=◌}
use database_hw.Bitmap
use database_hw.Bitmap.{Bitmap, byte_at, resize_bytes, resize, new_bitmap}
use database_hw.Bitmap.Laws.{bit_at}
use database_hw.Value.{Value, is_null}
use database_hw.Record.{Record, set_value}
use database_hw.Record.Nulls.{Marked, Marked-same}
use database_hw.Record.Invariant.{IsValid, note, joined}

Marked-set :
    (c : Bitmap) (i k : ℕ) (vs : List Value) (v : Value) (b : Bitmap)
    → Marked b i vs
    → bit_at c (i + k) ≡ is_null v
    → ((j : ℕ) → nat_eq j (i + k) ≡ false → bit_at c j ≡ bit_at b j)
    → Marked c i (Prelude.set vs k v)
Marked-set c i k [] v b h here elsewhere = tt
Marked-set c i zero (x ∷ vs) v b h here elsewhere = (
  subst (λ (j : ℕ). bit_at c j ≡ is_null v) (omega arith) here,
  Marked-same b c (suc i) vs (λ j lo hi. elsewhere j (ground arith)) h.1,
)
Marked-set c i (suc k) (x ∷ vs) v b h here elsewhere = (
  elsewhere i (ground arith) ∙ h.0,
  Marked-set c (suc i) k vs v b h.1 (subst (λ (j : ℕ). bit_at c j ≡ is_null v) (omega arith) here)
      (λ j ne. elsewhere j (ground arith)),
)

set_value_run :
    (r : Record) (i : ℕ) (v : Value) (c : Bitmap)
    → i < length r.values
    → (if is_null v
        then Bitmap.set r.null_bitmap (i % 2 ^ 16)
        else Bitmap.clear r.null_bitmap (i % 2 ^ 16))
      ≡ ok c
    → set_value r i v ≡ ok (joined r c (Prelude.set r.values i v))
unfolding set_value
set_value_run r i v c h run = elim (Option-cases (get_elem? r.values i)) [
  | inl none_there ↦ absurd (get_elem?-lt r.values i h none_there)
  | inr (old, there) ↦
      rw (there, set_value)
        (ap
          (λ (x : Result Bitmap). x >>= λ (c : Bitmap). ok (joined r c (Prelude.set r.values i v)))
          run)
]

-- A value in range is replaced, and the bitmap and the size are again those of the values.
pub set_value-IsValid :
    (r : Record) (col_idx : ℕ) (v : Value)
    → IsValid r
    → col_idx < length r.values
    → length r.values < 2 ^ 16
    → (s : Record) × (set_value r col_idx v ≡ ok s)
      × (s.values ≡ Prelude.set r.values col_idx v)
      × (s.header ≡ r.header)
      × IsValid s
set_value-IsValid r i v valid h short =
    let (c, did, noted) = note v i r.null_bitmap (omega (arith, valid.bytes)) (omega arith) in
    let same = length-set r.values i v in
    (
      joined r c (Prelude.set r.values i v),
      set_value_run r i v c h did,
      refl,
      refl,
      record {
        bitmap_size = noted.same_size ∙ valid.bitmap_size ∙ sym same;
        bytes = noted.same_length ∙ valid.bytes ∙ ap (λ (k : ℕ). (k + 7) / 8) (sym same);
        marked =
            Marked-set c 0 i r.values v r.null_bitmap valid.marked
              (subst (λ (j : ℕ). bit_at c j ≡ is_null v) (omega arith) noted.here)
              (λ j ne. noted.elsewhere j (ground arith));
        sized = refl;
      },
    )
