-- ===== src/Record/Reads.antt =====
-- What is read at an address depends on the bytes from there on.
use database_hw.Prelude.{
  ℕ, suc, ◌+◌, ◌%◌, ◌^◌, ◌≤◌, ◌≡◌, refl, ap, fun_ext, ◌∙◌, Bool, true, false, not, List, [], ◌∷◌,
  ◌++◌, nat_eq, length, if◌then◌else◌, arith,
}
use database_hw.Result.{Result, ok, undefined, ◌>>=◌}
use database_hw.Bytes.{Memory, read, get_int, of_le}
use database_hw.Bytes.Laws.{read_same}
use database_hw.Header
use database_hw.Header.{RecordHeader}
use database_hw.Bitmap
use database_hw.Bitmap.{Bitmap}
use database_hw.TypeUtil.{DbType}
use database_hw.Value
use database_hw.Value.{Value}
use database_hw.Record.{Record, Column, deserialize_values, deserialize_from, update_size}

-- The memories agree from the address on.
abbrev pub SameFrom : Memory → Memory → ℕ → Type 0
SameFrom m m' at = (i : ℕ) → at ≤ i → m i ≡ m' i

module _ (m m' : Memory) (at : ℕ) (same : SameFrom m m' at) where
  read-SameFrom : (from n : ℕ) → at ≤ from → read m from n ≡ read m' from n
  read-SameFrom from n le = read_same m m' from n (λ i lo hi. same i (omega arith))

  get_int-SameFrom : (from width : ℕ) → at ≤ from → get_int m from width ≡ get_int m' from width
  get_int-SameFrom from width le = ap of_le (read-SameFrom from width le)

  Header_deserialize-SameFrom : Header.deserialize_from m at ≡ Header.deserialize_from m' at
  unfolding Header.deserialize_from
  Header_deserialize-SameFrom = λ i. (
    record {
      deleted = not (nat_eq (same at (omega arith) i) 0);
      xmin = get_int-SameFrom (at + 1) 4 (omega arith) i;
      xmax = get_int-SameFrom (at + 5) 4 (omega arith) i;
      cid = get_int-SameFrom (at + 9) 4 (omega arith) i;
    },
    13,
  )

  Bitmap_deserialize-SameFrom :
      (b : Bitmap) (from : ℕ)
      → at ≤ from
      → Bitmap.deserialize_from b m from ≡ Bitmap.deserialize_from b m' from
  unfolding Bitmap.deserialize_from
  Bitmap_deserialize-SameFrom b from le =
      λ i. (record b { bits = read-SameFrom from (length b.bits) le i }, Bitmap.get_bytes b)

  get_string-SameFrom : (from : ℕ) → at ≤ from → Value.get_string m from ≡ Value.get_string m' from
  get_string-SameFrom from le =
      ap (λ (n : ℕ). (read m (from + 2) n, (n + 2) % 2 ^ 16)) (get_int-SameFrom from 2 le)
      ∙ ap (λ (s : List ℕ). (s, (get_int m' from 2 + 2) % 2 ^ 16))
          (read-SameFrom (from + 2) (get_int m' from 2) (omega arith))

  Value_deserialize-SameFrom :
      (t : DbType) (n from : ℕ)
      → at ≤ from
      → Value.deserialize_from t n m from ≡ Value.deserialize_from t n m' from
  unfolding Value.deserialize_from
  Value_deserialize-SameFrom DbType.bool n from le =
      ap (λ (b : ℕ). if nat_eq n 1 then ok (Value.bool (not (nat_eq b 0)), 1) else undefined)
        (same from le)
  Value_deserialize-SameFrom DbType.int n from le =
      ap (λ (k : ℕ). if nat_eq n 4 then ok (Value.int k, 4) else undefined)
        (get_int-SameFrom from 4 le)
  Value_deserialize-SameFrom DbType.uint n from le =
      ap (λ (k : ℕ). if nat_eq n 4 then ok (Value.uint k, 4) else undefined)
        (get_int-SameFrom from 4 le)
  Value_deserialize-SameFrom DbType.double n from le =
      ap (λ (k : ℕ). if nat_eq n 8 then ok (Value.double k, 8) else undefined)
        (get_int-SameFrom from 8 le)
  Value_deserialize-SameFrom DbType.char n from le =
      ap (λ (s : List ℕ × ℕ). ok (Value.char s.0, s.1)) (get_string-SameFrom from le)
  Value_deserialize-SameFrom DbType.varchar n from le =
      ap (λ (s : List ℕ × ℕ). ok (Value.varchar s.0, s.1)) (get_string-SameFrom from le)
  Value_deserialize-SameFrom DbType.null_type n from le = refl
  Value_deserialize-SameFrom DbType.list n from le = refl

  -- What is done with a column's value that is read, and with the answer whether it is null.
  abbrev values_rest :
      List Column → ℕ → Bitmap → Memory → List Value → ℕ → Value × ℕ → Result (List Value × ℕ)
  values_rest cs i b m values offset r =
      deserialize_values cs (suc i) b m at (values ++ r.0 ∷ []) ((offset + r.1) % 2 ^ 16)

  at_column :
      (c : Column) (cs : List Column) (i : ℕ) (b : Bitmap) (values : List Value) (offset : ℕ)
      → ((values : List Value) (offset : ℕ)
          → deserialize_values cs (suc i) b m at values offset
            ≡ deserialize_values cs (suc i) b m' at values offset)
      → (null_here : Bool)
      → (if null_here
          then deserialize_values cs (suc i) b m at (values ++ Value.null ∷ []) offset
          else Value.deserialize_from c.type c.max_size m (at + offset)
            >>= values_rest cs i b m values offset)
        ≡ (if null_here
            then deserialize_values cs (suc i) b m' at (values ++ Value.null ∷ []) offset
            else Value.deserialize_from c.type c.max_size m' (at + offset)
              >>= values_rest cs i b m' values offset)
  at_column c cs i b values offset ih true = ih (values ++ Value.null ∷ []) offset
  at_column c cs i b values offset ih false =
      ap (λ (r : Result (Value × ℕ)). r >>= values_rest cs i b m values offset)
        (Value_deserialize-SameFrom c.type c.max_size (at + offset) (omega arith))
      ∙ ap
          (λ (k : Value × ℕ → Result (List Value × ℕ)).
            Value.deserialize_from c.type c.max_size m' (at + offset) >>= k)
          (fun_ext λ (r : Value × ℕ). ih (values ++ r.0 ∷ []) ((offset + r.1) % 2 ^ 16))

  deserialize_values-SameFrom :
      (cs : List Column) (i : ℕ) (b : Bitmap) (values : List Value) (offset : ℕ)
      → deserialize_values cs i b m at values offset ≡ deserialize_values cs i b m' at values offset
  unfolding deserialize_values
  deserialize_values-SameFrom [] i b values offset = refl
  deserialize_values-SameFrom (c ∷ cs) i b values offset =
      ap (λ (k : Bool → Result (List Value × ℕ)). Bitmap.test b (i % 2 ^ 16) >>= k)
        (fun_ext λ (null_here : Bool).
          at_column c cs i b values offset (λ v o. deserialize_values-SameFrom cs (suc i) b v o)
            null_here)

  abbrev after_values :
      Record → RecordHeader × ℕ → Bitmap × ℕ → List Value × ℕ → Result (Record × ℕ)
  after_values r header nulls v =
      ok (update_size (record r { null_bitmap = nulls.0; values = v.0; header = header.0 }), v.1)

  abbrev of_header : Record → Memory → List Column → RecordHeader × ℕ → Result (Record × ℕ)
  of_header r m columns header =
      let nulls =
        Bitmap.deserialize_from (Bitmap.resize r.null_bitmap (length columns % 2 ^ 16)) m
          (at + header.1) in
      deserialize_values columns 0 nulls.0 m at r.values ((header.1 + nulls.1) % 2 ^ 16)
      >>= after_values r header nulls

  abbrev of_nulls :
      Record → Memory → List Column → RecordHeader × ℕ → Bitmap × ℕ → Result (Record × ℕ)
  of_nulls r m columns header nulls =
      deserialize_values columns 0 nulls.0 m at r.values ((header.1 + nulls.1) % 2 ^ 16)
      >>= after_values r header nulls

  -- A record that is read from memories that agree from its address on is the same.
  pub deserialize_from-SameFrom :
      (r : Record) (columns : List Column)
      → deserialize_from r m at columns ≡ deserialize_from r m' at columns
  unfolding deserialize_from
  deserialize_from-SameFrom r columns =
      let header = Header.deserialize_from m' at in
      let b = Bitmap.resize r.null_bitmap (length columns % 2 ^ 16) in
      let nulls = Bitmap.deserialize_from b m' (at + header.1) in
      ap (of_header r m columns) Header_deserialize-SameFrom
      ∙ ap (of_nulls r m columns header)
          (Bitmap_deserialize-SameFrom b (at + header.1) (omega arith))
      ∙ ap (λ (v : Result (List Value × ℕ)). v >>= after_values r header nulls)
          (deserialize_values-SameFrom columns 0 nulls.0 r.values ((header.1 + nulls.1) % 2 ^ 16))
