-- ===== src/Record/RoundTrip.antt =====
-- A record is written in the bytes that its size counts, and read back.
use database_hw.Prelude.{
  ℕ, ◌+◌, ◌*◌, ◌/◌, ◌%◌, ◌^◌, ◌<◌, ◌≤◌, ◌≡◌, refl, sym, ap, ap₂, subst, ◌∙◌, ◌⊎◌, inl, inr, Bool,
  true, false, List, [], ◌∷◌, ◌++◌, length, length-append, take_of_length-le, arith,
}
use database_hw.Types.{Rid}
use database_hw.Result.{Result, ok, ◌>>=◌}
use database_hw.Bytes.{Memory, write, read}
use database_hw.Bytes.Laws.{write-append, write_outside, read-write_self, Holds, Holds-append}
use database_hw.Header
use database_hw.Header.{RecordHeader}
use database_hw.Header.Laws
use database_hw.Bitmap
use database_hw.Bitmap.{Bitmap}
use database_hw.Bitmap.Laws.{length-resize_bytes}
use database_hw.Value.{Value}
use database_hw.Record
use database_hw.Prelude
use database_hw.Record.{
  Record, Column, serialize_to, deserialize_from, deserialize_values, serialize_values,
  empty_record, update_size,
}
use database_hw.Record.Stored.{
  Storable, values_bytes, length-Storable, add_sizes_lem, serialize_values_lem,
  deserialize_values_lem,
}
use database_hw.Record.Invariant.{IsValid}

-- The number of bytes of a record, not wrapped.
unfoldable pub stored_size : Record → ℕ
stored_size r = 13 + (length r.null_bitmap.bits + length (values_bytes r.values))

-- A record whose columns can hold its values, and whose bytes are fewer than 2 ^ 16.
pub record CanStore (columns : List Column) (r : Record) : Type 0 where
  pub valid : IsValid r
  pub holds : Storable columns r.values
  pub header : Header.Fits r.header
  pub few : length r.values < 2 ^ 16
  pub short : stored_size r < 2 ^ 16

-- The memory after a record was written: the header, then the bitmap and the values.
abbrev written : Record → Memory → ℕ → Memory
written r m at =
    write (Header.serialize_to r.header m at).0 (at + 13)
      (r.null_bitmap.bits ++ values_bytes r.values)

module _ (columns : List Column) (r : Record) (c : CanStore columns r) where
  pub size-stored_size : r.size ≡ stored_size r
  unfolding stored_size
  size-stored_size =
      let short = c.short in
      let few : length r.null_bitmap.bits % 2 ^ 16 ≡ length r.null_bitmap.bits = omega arith in
      let start : (13 + length r.null_bitmap.bits % 2 ^ 16) % 2 ^ 16
          ≡ 13 + length r.null_bitmap.bits =
        omega arith in
      c.valid.sized
      ∙ ap (Record.add_sizes r.values) start
      ∙ add_sizes_lem columns r.values (13 + length r.null_bitmap.bits) c.holds (omega arith)
      ∙ omega arith

  serialize_to-written : (m : Memory) (at : ℕ) → serialize_to r m at ≡ ok (written r m at, r.size)
  unfolding serialize_to stored_size Header.serialize_to Bitmap.serialize_to
  serialize_to-written m at =
      let short = c.short in
      let bits = r.null_bitmap.bits in
      let n = length bits in
      let few : n % 2 ^ 16 ≡ n = omega arith in
      let m' = (Header.serialize_to r.header m at).0 in
      let whole : Prelude.take (n % 2 ^ 16) bits ≡ bits =
        ap (λ (k : ℕ). Prelude.take k bits) few ∙ take_of_length-le n bits (omega arith) in
      let start : (13 + n % 2 ^ 16) % 2 ^ 16 ≡ 13 + n = omega arith in
      let here : at + (13 + n) ≡ at + 13 + n = omega arith in
      let m'' = write m' (at + 13) bits in
      let end : 13 + n + length (values_bytes r.values) ≡ r.size =
        omega (arith, size-stored_size) in
      ap₂ (λ (bs : List ℕ) (k : ℕ). serialize_values r.values (write m' (at + 13) bs) at k) whole
        start
      ∙ serialize_values_lem columns r.values m'' at (13 + n) c.holds (omega arith)
      ∙ ap₂ (λ (mem : Memory) (k : ℕ). ok (mem, k))
          (ap (λ (k : ℕ). write m'' k (values_bytes r.values)) here
            ∙ write-append m' (at + 13) bits (values_bytes r.values))
          end

  header_back : (m : Memory) (at : ℕ) → Header.deserialize_from (written r m at) at ≡ (r.header, 13)
  unfolding Header.serialize_to
  header_back m at =
      Laws.deserialize_from-write (Header.serialize_to r.header m at).0 at
        (r.null_bitmap.bits ++ values_bytes r.values)
      ∙ Laws.deserialize_from-serialize_to r.header m at c.header

  abbrev bytes_held :
      (m : Memory) (at : ℕ)
      → Holds (written r m at) (at + 13) r.null_bitmap.bits
        × Holds (written r m at) (at + 13 + length r.null_bitmap.bits) (values_bytes r.values)
  bytes_held m at =
      Holds-append (written r m at) (at + 13) r.null_bitmap.bits (values_bytes r.values) (
        read-write_self (Header.serialize_to r.header m at).0 (at + 13)
          (r.null_bitmap.bits ++ values_bytes r.values))

  nulls_back :
      (m : Memory) (at : ℕ)
      → Bitmap.deserialize_from
          (Bitmap.resize Bitmap.empty_bitmap (length columns % 2 ^ 16))
          (written r m at)
          (at + 13)
        ≡ (r.null_bitmap, length r.null_bitmap.bits)
  unfolding Bitmap.deserialize_from
  nulls_back m at =
      let short = c.short in
      let count = length-Storable columns r.values c.holds in
      let few = c.few in
      let bits = r.null_bitmap.bits in
      let size : length columns % 2 ^ 16 ≡ r.null_bitmap.size =
        omega (arith, c.valid.bitmap_size) in
      let bytes : length (Bitmap.resize_bytes ((length columns % 2 ^ 16 + 7) / 8) [])
          ≡ length bits =
        omega (arith, length-resize_bytes ((length columns % 2 ^ 16 + 7) / 8) [], c.valid.bytes) in
      let back : length bits % 2 ^ 16 ≡ length bits = omega (arith, c.valid.bytes) in
      ap₂ (λ (n k : ℕ). (record { size = n; bits = read (written r m at) (at + 13) k }, k % 2 ^ 16))
        size bytes
      ∙ ap₂ (λ (bs : List ℕ) (k : ℕ). (record { size = r.null_bitmap.size; bits = bs }, k))
          (bytes_held m at).0 back

  -- The rest of `DeserializeFrom`, behind each of its steps.
  abbrev after_values : Rid → RecordHeader → Bitmap → List Value × ℕ → Result (Record × ℕ)
  after_values rid h b p =
      ok (
        update_size (record { null_bitmap = b; values = p.0; header = h; rid = rid; size = 0 }),
        p.1,
      )

  abbrev after_nulls : Rid → Memory → ℕ → RecordHeader × ℕ → Bitmap × ℕ → Result (Record × ℕ)
  after_nulls rid m at h b =
      deserialize_values columns 0 b.0 m at [] ((h.1 + b.1) % 2 ^ 16) >>= after_values rid h.0 b.0

  abbrev after_header : Rid → Memory → ℕ → RecordHeader × ℕ → Result (Record × ℕ)
  after_header rid m at h = after_nulls rid m at h (
      Bitmap.deserialize_from (Bitmap.resize Bitmap.empty_bitmap (length columns % 2 ^ 16)) m
        (at + h.1))

  deserialize_from-written :
      (rid : Rid) (m : Memory) (at : ℕ)
      → deserialize_from (empty_record rid) (written r m at) at columns
        ≡ ok (record r { rid = rid }, r.size)
  unfolding deserialize_from stored_size
  deserialize_from-written rid m at =
      let short = c.short in
      let n = length r.null_bitmap.bits in
      let M = written r m at in
      let start : (13 + n) % 2 ^ 16 ≡ 13 + n = omega arith in
      let here : at + 13 + n ≡ at + (13 + n) = omega arith in
      let end : 13 + n + length (values_bytes r.values) ≡ r.size =
        omega (arith, size-stored_size) in
      ap (after_header rid M at) (header_back m at)
      ∙ ap (after_nulls rid M at (r.header, 13)) (nulls_back m at)
      ∙ ap
          (λ (k : ℕ).
            deserialize_values columns 0 r.null_bitmap M at [] k
            >>= after_values rid r.header r.null_bitmap)
          start
      ∙ ap (λ (p : Result (List Value × ℕ)). p >>= after_values rid r.header r.null_bitmap)
          (deserialize_values_lem columns r.values 0 r.null_bitmap M at [] (13 + n) c.holds
            c.valid.marked (omega (arith, c.valid.bytes)) (omega (arith, c.few))
            (subst (λ (k : ℕ). Holds M k (values_bytes r.values)) here (bytes_held m at).1)
            (omega arith))
      ∙ ap₂
          (λ (k l : ℕ). ok (
            record {
              null_bitmap = r.null_bitmap;
              values = r.values;
              header = r.header;
              rid = rid;
              size = k;
            },
            l,
          ))
          (sym c.valid.sized) end

  written_outside : (m : Memory) (at i : ℕ) → (i < at) ⊎ (at + r.size ≤ i) → written r m at i ≡ m i
  unfolding stored_size
  written_outside m at i h =
      let size = size-stored_size in
      let total = length-append r.null_bitmap.bits (values_bytes r.values) in
      let header = Laws.serialize_to-size r.header m at in
      write_outside (Header.serialize_to r.header m at).0 (at + 13)
        (r.null_bitmap.bits ++ values_bytes r.values) i (omega arith)
      ∙ Laws.serialize_to_outside r.header m at i (omega arith)

-- A record that can be stored is written at any place: `SerializeTo` returns the size of the
-- record, as it asserts, which is the number of the bytes; `DeserializeFrom` with these columns
-- reads the record back from there, and no other byte is changed.
pub serialize_to-deserialize_from_record :
    (columns : List Column) (r : Record) (rid : Rid) (m : Memory) (at : ℕ)
    → CanStore columns r
    → (m' : Memory) × (serialize_to r m at ≡ ok (m', r.size))
      × (deserialize_from (empty_record rid) m' at columns ≡ ok (record r { rid = rid }, r.size))
      × (r.size ≡ stored_size r)
      × ((i : ℕ) → (i < at) ⊎ (at + r.size ≤ i) → m' i ≡ m i)
serialize_to-deserialize_from_record columns r rid m at c = (
  written r m at,
  serialize_to-written columns r c m at,
  deserialize_from-written columns r c rid m at,
  size-stored_size columns r c,
  written_outside columns r c m at,
)
