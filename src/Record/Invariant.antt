-- ===== src/Record/Invariant.antt =====
-- The bitmap and the size of a record keep to its values, whatever the operation.
use database_hw.Prelude.{
  ℕ, zero, suc, ◌+◌, ◌*◌, ◌/◌, ◌%◌, ◌^◌, ◌<◌, ◌≤◌, ◌≡◌, refl, sym, ap, subst, ◌∙◌, inl, inr, List,
  [], ◌∷◌, ◌++◌, length, length-append, if◌then◌else◌, arith, Bool-cases,
}
use mathlib.Core.List.{append-nil, append_assoc}
use database_hw.Types.{Rid}
use database_hw.Result.{Result, ok, ◌>>=◌}
use database_hw.Header.{new_header}
use database_hw.Bitmap
use database_hw.Bitmap.{Bitmap, byte_at, resize_bytes, resize, new_bitmap}
use database_hw.Bitmap.Laws.{bit_at, was_set, was_cleared, length-resize_bytes}
use database_hw.Value.{Value, is_null}
use database_hw.Record.{Record, update_size, set_nulls, new_record, append_values, append}
use database_hw.Record.Nulls.{
  Marked, Marked-same, Noted, note_set, note_clear, set_at, clear_at, set_nulls-Marks,
  new_bitmap-Blank,
}

pub record IsValid (r : Record) : Type 0 where
  pub bitmap_size : r.null_bitmap.size ≡ length r.values
  pub bytes : length r.null_bitmap.bits ≡ (length r.values + 7) / 8
  pub marked : Marked r.null_bitmap 0 r.values
  pub sized : r.size ≡ (update_size r).size

module _ (values : List Value) (rid : Rid) (c : Bitmap) where
  abbrev constructed : Record
  constructed =
      update_size
        (record { null_bitmap = c; values = values; header = new_header; rid = rid; size = 0 })

  new_record_run :
      length values < 2 ^ 16
      → set_nulls values 0 (new_bitmap (length values)) ≡ ok c
      → new_record values rid ≡ ok constructed
  unfolding new_record
  new_record_run short run =
      let e : length values % 2 ^ 16 ≡ length values = omega arith in
      let run' : set_nulls values 0 (new_bitmap (length values % 2 ^ 16)) ≡ ok c =
        subst (λ (n : ℕ). set_nulls values 0 (new_bitmap n) ≡ ok c) (sym e) run in
      ap
        (λ (b : Result Bitmap). b >>= λ (c : Bitmap). ok (
          update_size (record {
            null_bitmap = c;
            values = values;
            header = new_header;
            rid = rid;
            size = 0;
          })))
        run'

-- A record of fewer than 2 ^ 16 values is constructed, with these values, and its bitmap and size
-- are those of the values.
pub new_record-IsValid :
    (values : List Value) (rid : Rid)
    → length values < 2 ^ 16
    → (r : Record) × (new_record values rid ≡ ok r)
      × (r.values ≡ values)
      × (r.header ≡ new_header)
      × (r.rid ≡ rid)
      × IsValid r
new_record-IsValid values rid short =
    let n = length values in
    let bytes = length-resize_bytes ((n + 7) / 8) [] in
    let (c, m) =
      set_nulls-Marks values 0 (new_bitmap n) (omega (arith, bytes)) (omega arith)
        (new_bitmap-Blank n) in
    (
      constructed values rid c,
      new_record_run values rid c short m.run,
      refl,
      refl,
      refl,
      record {
        bitmap_size = m.same_size;
        bytes = m.same_length ∙ bytes;
        marked = m.marked;
        sized = refl;
      },
    )

-- The step of `Append` and of `SetValue`: the bit of the value's column.
pub note :
    (v : Value) (i : ℕ) (b : Bitmap)
    → i < length b.bits * 8
    → i < 2 ^ 16
    → (c : Bitmap) × ((if is_null v then Bitmap.set b (i % 2 ^ 16) else Bitmap.clear b (i % 2 ^ 16))
        ≡ ok c)
      × Noted v i b c
note v i b h short = elim (Bool-cases (is_null v)) [
  | inl n ↦ (was_set b i h, rw n (set_at b i h short), note_set v i b h n)
  | inr n ↦ (was_cleared b i h, rw n (clear_at b i h short), note_clear v i b h n)
]

Marked-append :
    (b : Bitmap) (i : ℕ) (xs : List Value) (v : Value)
    → Marked b i xs
    → bit_at b (i + length xs) ≡ is_null v
    → Marked b i (xs ++ v ∷ [])
Marked-append b i [] v h here = (subst (λ (k : ℕ). bit_at b k ≡ is_null v) (omega arith) here, tt)
Marked-append b i (x ∷ xs) v h here = (
  h.0,
  Marked-append b (suc i) xs v h.1 (subst (λ (k : ℕ). bit_at b k ≡ is_null v) (omega arith) here),
)

record Appended (vs : List Value) (b : Bitmap) (values : List Value) (c : Bitmap) : Type 0 where
  run : append_values vs b values ≡ ok (c, values ++ vs)
  same_size : c.size ≡ b.size
  same_length : length c.bits ≡ length b.bits
  marked : Marked c 0 (values ++ vs)

append_values-Appended :
    (vs : List Value) (b : Bitmap) (values : List Value)
    → Marked b 0 values
    → length values + length vs ≤ length b.bits * 8
    → length values + length vs < 2 ^ 16
    → (c : Bitmap) × Appended vs b values c
unfolding append_values
append_values-Appended [] b values k fits short = (
  b,
  record {
    run = ap (λ (l : List Value). ok (b, l)) (sym (append-nil values));
    same_size = refl;
    same_length = refl;
    marked = subst (Marked b 0) (sym (append-nil values)) k;
  },
)
append_values-Appended (v ∷ vs) b values k fits short =
    let i = length values in
    let (b', did, noted) = note v i b (omega arith) (omega arith) in
    let longer = length-append values (v ∷ []) in
    let kept = Marked-same b b' 0 values (λ j lo hi. noted.elsewhere j (ground arith)) k in
    let e = append_assoc values (v ∷ []) vs in
    let (c, rest) =
      append_values-Appended vs b' (values ++ v ∷ [])
        (Marked-append b' 0 values v kept
          (subst (λ (j : ℕ). bit_at b' j ≡ is_null v) (omega arith) noted.here))
        (omega (arith, noted.same_length)) (omega arith) in
    (
      c,
      record {
        run = rw did (rest.run ∙ ap (λ (l : List Value). ok (c, l)) e);
        same_size = rest.same_size ∙ noted.same_size;
        same_length = rest.same_length ∙ noted.same_length;
        marked = subst (Marked c 0) e rest.marked;
      },
    )

byte_at-resize_bytes :
    (n : ℕ) (bs : List ℕ) (j : ℕ)
    → j < length bs
    → j < n
    → byte_at (resize_bytes n bs) j ≡ byte_at bs j
unfolding byte_at resize_bytes
byte_at-resize_bytes n [] j h k = absurd (omega arith)
byte_at-resize_bytes zero (b ∷ bs) j h k = absurd (omega arith)
byte_at-resize_bytes (suc n) (b ∷ bs) zero h k = refl
byte_at-resize_bytes (suc n) (b ∷ bs) (suc j) h k =
    byte_at-resize_bytes n bs j (omega arith) (omega arith)

abbrev pub joined : Record → Bitmap → List Value → Record
joined r c values = update_size (record r { null_bitmap = c; values = values })

append_run :
    (r other : Record) (n : ℕ) (c : Bitmap)
    → (r.null_bitmap.size + length other.values) % 2 ^ 16 ≡ n
    → append_values other.values (resize r.null_bitmap n) r.values
      ≡ ok (c, r.values ++ other.values)
    → append r other ≡ ok (joined r c (r.values ++ other.values))
unfolding append
append_run r other n c e run =
    ap
      (λ (k : ℕ).
        append_values other.values (resize r.null_bitmap k) r.values
        >>= λ (p : Bitmap × List Value). ok (joined r p.0 p.1))
      e
    ∙ ap
        (λ (x : Result (Bitmap × List Value)).
          x >>= λ (p : Bitmap × List Value). ok (joined r p.0 p.1))
        run

-- Two records of together fewer than 2 ^ 16 values are joined: the values of the second follow
-- those of the first, and the bitmap and the size are again those of the values.
pub append-IsValid :
    (r other : Record)
    → IsValid r
    → length r.values + length other.values < 2 ^ 16
    → (s : Record) × (append r other ≡ ok s)
      × (s.values ≡ r.values ++ other.values)
      × (s.header ≡ r.header)
      × IsValid s
unfolding bit_at
append-IsValid r other valid short =
    let n = length r.values + length other.values in
    let e : (r.null_bitmap.size + length other.values) % 2 ^ 16 ≡ n =
      omega (arith, valid.bitmap_size) in
    let b = resize r.null_bitmap n in
    let bytes = length-resize_bytes ((n + 7) / 8) r.null_bitmap.bits in
    let kept =
      Marked-same r.null_bitmap b 0 r.values
        (λ j lo hi. ap (Bitmap.has_bit (j % 8)) (
          byte_at-resize_bytes ((n + 7) / 8) r.null_bitmap.bits (j / 8) (omega (arith, valid.bytes))
            (omega arith)))
        valid.marked in
    let (c, a) = append_values-Appended other.values b r.values kept (omega (arith, bytes)) short in
    let total = length-append r.values other.values in
    (
      joined r c (r.values ++ other.values),
      append_run r other n c e a.run,
      refl,
      refl,
      record {
        bitmap_size = a.same_size ∙ sym total;
        bytes = a.same_length ∙ bytes ∙ ap (λ (k : ℕ). (k + 7) / 8) (sym total);
        marked = a.marked;
        sized = refl;
      },
    )
