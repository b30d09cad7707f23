-- ===== src/Record/Stored.antt =====
-- The values of a record in memory: their bytes stand one behind the other, the nulls none.
use database_hw.Prelude.{
  ℕ, suc, ◌+◌, ◌*◌, ◌%◌, ◌^◌, ◌<◌, ◌≤◌, ◌≡◌, refl, sym, ap, ap₂, subst, ◌∙◌, List, [], ◌∷◌, ◌++◌,
  length, length-append, if◌then◌else◌, arith,
}
use mathlib.Core.List.{append-nil, append_assoc}
use database_hw.Result.{ok}
use database_hw.Bytes.{Memory, write}
use database_hw.Bytes.Laws.{write-append, Holds, Holds-append}
use database_hw.Bitmap
use database_hw.Bitmap.{Bitmap}
use database_hw.Bitmap.Laws.{bit_at, test_ok}
use database_hw.TypeUtil.{is_string}
use database_hw.Value.{Value, get_type, get_size}
use database_hw.Value.Stored.{
  IsStorable, Suits, value_bytes, serialize_to-value_bytes, deserialize_from-Holds,
  length-value_bytes, IsStorable-is_null,
}
use database_hw.Record.{Column, add_sizes, serialize_values, deserialize_values}
use database_hw.Record.Nulls.{Marked}

-- Each column can hold the value in its place.
pub record Holdable (c : Column) (v : Value) : Type 0 where
  pub storable : IsStorable v
  pub type : c.type ≡ get_type v
  pub suits : Suits v c.max_size

-- A null, which every column can hold, or a value of the column.
pub data Stores (c : Column) : Value → Type 0 where
  none : Stores c Value.null
  held : (v : Value) → Holdable c v → Stores c v

abbrev pub Storable : List Column → List Value → Type 0
Storable [] [] = Unit {0}
Storable [] (v ∷ vs) = ⊥
Storable (c ∷ cs) [] = ⊥
Storable (c ∷ cs) (v ∷ vs) = Stores c v × Storable cs vs

unfoldable pub values_bytes : List Value → List ℕ
values_bytes [] = []
values_bytes (v ∷ vs) = value_bytes v ++ values_bytes vs

pub length-Storable : (cs : List Column) (vs : List Value) → Storable cs vs → length cs ≡ length vs
length-Storable [] [] h = refl
length-Storable [] (v ∷ vs) h = absurd h
length-Storable (c ∷ cs) [] h = absurd h
length-Storable (c ∷ cs) (v ∷ vs) h = ap suc (length-Storable cs vs h.1)

-- The loop of `UpdateSize` adds the bytes of the values.
pub add_sizes_lem :
    (cs : List Column) (vs : List Value) (size : ℕ)
    → Storable cs vs
    → size + length (values_bytes vs) < 2 ^ 16
    → add_sizes vs size ≡ size + length (values_bytes vs)
unfolding add_sizes values_bytes value_bytes
add_sizes_lem [] [] size h short = omega arith
add_sizes_lem [] (v ∷ vs) size h short = absurd h
add_sizes_lem (c ∷ cs) [] size h short = absurd h
add_sizes_lem (c ∷ cs) (_ ∷ vs) size (none, h) short = add_sizes_lem cs vs size h short
add_sizes_lem (c ∷ cs) (_ ∷ vs) size (held v u, h) short =
    let size_v = length-value_bytes v u.storable in
    let total = length-append (value_bytes v) (values_bytes vs) in
    let e : (if is_string (get_type v)
          then ((size + get_size v) % 2 ^ 16 + 2) % 2 ^ 16
          else (size + get_size v) % 2 ^ 16)
        ≡ size + length (value_bytes v) =
      ground arith in
    rw (IsStorable-is_null v u.storable, e)
      (add_sizes_lem cs vs (size + length (value_bytes v)) h (omega arith) ∙ omega arith)

-- The loop of `SerializeTo` writes them.
pub serialize_values_lem :
    (cs : List Column) (vs : List Value) (m : Memory) (at offset : ℕ)
    → Storable cs vs
    → offset + length (values_bytes vs) < 2 ^ 16
    → serialize_values vs m at offset
      ≡ ok (write m (at + offset) (values_bytes vs), offset + length (values_bytes vs))
unfolding serialize_values values_bytes value_bytes write
serialize_values_lem [] [] m at offset h short = let e : offset + 0 ≡ offset = omega arith in rw e
serialize_values_lem [] (v ∷ vs) m at offset h short = absurd h
serialize_values_lem (c ∷ cs) [] m at offset h short = absurd h
serialize_values_lem (c ∷ cs) (_ ∷ vs) m at offset (none, h) short =
    serialize_values_lem cs vs m at offset h short
serialize_values_lem (c ∷ cs) (_ ∷ vs) m at offset (held v u, h) short =
    let total = length-append (value_bytes v) (values_bytes vs) in
    let m' = write m (at + offset) (value_bytes v) in
    let next = offset + length (value_bytes v) in
    let e : (offset + length (value_bytes v)) % 2 ^ 16 ≡ next = omega arith in
    let here : at + next ≡ at + offset + length (value_bytes v) = omega arith in
    let all : next + length (values_bytes vs) ≡ offset + length (value_bytes v ++ values_bytes vs) =
      omega arith in
    rw (IsStorable-is_null v u.storable, serialize_to-value_bytes v m (at + offset) u.storable, e)
      (serialize_values_lem cs vs m' at next h (omega arith)
        ∙ ap₂ (λ (mem : Memory) (k : ℕ). ok (mem, k))
            (ap (λ (k : ℕ). write m' k (values_bytes vs)) here
              ∙ write-append m (at + offset) (value_bytes v) (values_bytes vs))
            all)

tested :
    (b : Bitmap) (i : ℕ)
    → i < length b.bits * 8
    → i < 2 ^ 16
    → Bitmap.test b (i % 2 ^ 16) ≡ ok (bit_at b i)
tested b i h short = ap (Bitmap.test b) (omega arith) ∙ test_ok b i h

-- The loop of `DeserializeFrom` reads them, where the bitmap marks the nulls.
pub deserialize_values_lem :
    (cs : List Column) (vs : List Value) (i : ℕ) (b : Bitmap) (m : Memory) (at : ℕ)
    → (before : List Value) (offset : ℕ) → Storable cs vs
    → Marked b i vs
    → i + length vs ≤ length b.bits * 8
    → i + length vs < 2 ^ 16
    → Holds m (at + offset) (values_bytes vs)
    → offset + length (values_bytes vs) < 2 ^ 16
    → deserialize_values cs i b m at before offset
      ≡ ok (before ++ vs, offset + length (values_bytes vs))
unfolding deserialize_values values_bytes value_bytes
deserialize_values_lem [] [] i b m at before offset h k fits wide bytes short =
    ap₂ (λ (vs : List Value) (n : ℕ). ok (vs, n)) (sym (append-nil before)) (omega arith)
deserialize_values_lem [] (v ∷ vs) i b m at before offset h k fits wide bytes short = absurd h
deserialize_values_lem (c ∷ cs) [] i b m at before offset h k fits wide bytes short = absurd h
deserialize_values_lem (c ∷ cs) (_ ∷ vs) i b m at before offset (none, h) k fits wide bytes short =
    rw (tested b i (omega arith) (omega arith), k.0)
      (deserialize_values_lem cs vs (suc i) b m at (before ++ Value.null ∷ []) offset h k.1
          (omega arith) (omega arith) bytes short
        ∙ ap (λ (l : List Value). ok (l, offset + length (values_bytes vs)))
            (append_assoc before (Value.null ∷ []) vs))
deserialize_values_lem (c ∷ cs) (_ ∷ vs) i b m at before offset (held v u, h) k fits wide bytes
      short =
    let total = length-append (value_bytes v) (values_bytes vs) in
    let parts = Holds-append m (at + offset) (value_bytes v) (values_bytes vs) bytes in
    let next = offset + length (value_bytes v) in
    let e : (offset + length (value_bytes v)) % 2 ^ 16 ≡ next = omega arith in
    let here : at + offset + length (value_bytes v) ≡ at + next = omega arith in
    let all : next + length (values_bytes vs) ≡ offset + length (value_bytes v ++ values_bytes vs) =
      omega arith in
    let rest =
      deserialize_values_lem cs vs (suc i) b m at (before ++ v ∷ []) next h k.1 (omega arith)
        (omega arith) (subst (λ (p : ℕ). Holds m p (values_bytes vs)) here parts.1) (omega arith) in
    rw
      (
        tested b i (omega arith) (omega arith),
        k.0 ∙ IsStorable-is_null v u.storable,
        u.type,
        deserialize_from-Holds v c.max_size m (at + offset) u.storable u.suits parts.0,
        e,
      )
      (rest ∙ ap₂ (λ (l : List Value) (n : ℕ). ok (l, n)) (append_assoc before (v ∷ []) vs) all)
