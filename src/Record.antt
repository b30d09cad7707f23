-- ===== src/Record.antt =====
-- src/table/record.{h,cpp}: a record is a header, a bitmap of the columns that are null, and the
-- values; `size` is `size_`, 16 bits wide as every offset.
pub mod RoundTrip
pub mod Reads
pub mod Tests
pub mod Invariant
pub mod Updates
pub mod Nulls
pub mod Stored
use database_hw.Prelude.{
  ℕ, suc, ◌+◌, ◌%◌, ◌^◌, Bool, true, false, Option, none, some, List, [], ◌∷◌, ◌++◌, length,
  get_elem?, if◌then◌else◌,
}
use database_hw.Prelude
use database_hw.Result.{Result, ok, throw, undefined, ◌>>=◌, index_out_of_range}
use database_hw.Types.{Rid}
use database_hw.Bytes.{Memory}
use database_hw.Header
use database_hw.Header.{RecordHeader, new_header, record_header_size}
use database_hw.Bitmap
use database_hw.Bitmap.{Bitmap}
use database_hw.TypeUtil.{DbType, is_string}
use database_hw.Value
use database_hw.Value.{Value, is_null, get_type, get_size}

pub record Record : Type 0 where
  pub null_bitmap : Bitmap
  pub values : List Value
  pub header : RecordHeader
  pub rid : Rid
  pub size : ℕ

-- What a `ColumnDefinition` says of the values: `type_` and `max_size_`.
pub record Column : Type 0 where
  pub type : DbType
  pub max_size : ℕ

-- `UpdateSize`: the loop over the values, then the size.
unfoldable pub add_sizes : List Value → ℕ → ℕ
add_sizes [] size = size
add_sizes (v ∷ vs) size =
    let with_value = (size + get_size v) % 2 ^ 16 in
    add_sizes vs (
      if is_null v
      then size
      else if is_string (get_type v)
      then (with_value + 2) % 2 ^ 16
      else with_value)

abbrev pub update_size : Record → Record
update_size r = record r {
  size = add_sizes r.values ((record_header_size + Bitmap.get_bytes r.null_bitmap) % 2 ^ 16);
}

-- The loop of the constructor.
unfoldable pub set_nulls : List Value → ℕ → Bitmap → Result Bitmap
set_nulls [] i b = ok b
set_nulls (v ∷ vs) i b =
    (if is_null v then Bitmap.set b (i % 2 ^ 16) else ok b) >>= set_nulls vs (suc i)

-- `Record(values, rid)`.
unfoldable pub new_record : List Value → Rid → Result Record
new_record values rid = do
  let empty = Bitmap.new_bitmap (length values % 2 ^ 16)
  null_bitmap ← set_nulls values 0 empty
  ok (
      update_size (record {
        null_bitmap = null_bitmap;
        values = values;
        header = new_header;
        rid = rid;
        size = 0;
      }))

-- `Append`: the loop over the other record's values.
unfoldable pub append_values : List Value → Bitmap → List Value → Result (Bitmap × List Value)
append_values [] b values = ok (b, values)
append_values (v ∷ vs) b values = do
  let index = length values % 2 ^ 16
  b' ← if is_null v then Bitmap.set b index else Bitmap.clear b index
  append_values vs b' (values ++ v ∷ [])

unfoldable pub append : Record → Record → Result Record
append r other = do
  let b = Bitmap.resize r.null_bitmap ((r.null_bitmap.size + length other.values) % 2 ^ 16)
  (null_bitmap, values) ← append_values other.values b r.values
  ok (update_size (record r { null_bitmap = null_bitmap; values = values }))

unfoldable pub get_value : Record → ℕ → Result Value
get_value r col_idx = elim (get_elem? r.values col_idx) [
  | none ↦ throw index_out_of_range
  | some v ↦ ok v
]

-- `SetValue`, at an index in range: the vector is not checked.
unfoldable pub set_value : Record → ℕ → Value → Result Record
set_value r col_idx v = elim (get_elem? r.values col_idx) [
  | none ↦ undefined
  | some old ↦ do
    let index = col_idx % 2 ^ 16
    b ← if is_null v then Bitmap.set r.null_bitmap index else Bitmap.clear r.null_bitmap index
    ok (update_size (record r { null_bitmap = b; values = Prelude.set r.values col_idx v }))
]

-- `SerializeTo`: the loop over the values from an offset.
unfoldable pub serialize_values : List Value → Memory → ℕ → ℕ → Result (Memory × ℕ)
serialize_values [] m at offset = ok (m, offset)
serialize_values (v ∷ vs) m at offset =
    if is_null v
    then serialize_values vs m at offset
    else Value.serialize_to v m (at + offset) >>= λ (r : Memory × ℕ).
        serialize_values vs r.0 at ((offset + r.1) % 2 ^ 16)

unfoldable pub serialize_to : Record → Memory → ℕ → Result (Memory × ℕ)
serialize_to r m at =
    let header = Header.serialize_to r.header m at in
    let nulls = Bitmap.serialize_to r.null_bitmap header.0 (at + header.1) in
    serialize_values r.values nulls.0 at ((header.1 + nulls.1) % 2 ^ 16)

-- `DeserializeFrom`: the loop over the columns, with the values pushed so far and the offset.
unfoldable pub deserialize_values :
    List Column → ℕ → Bitmap → Memory → ℕ → List Value → ℕ → Result (List Value × ℕ)
deserialize_values [] i b m at values offset = ok (values, offset)
deserialize_values (c ∷ cs) i b m at values offset =
    Bitmap.test b (i % 2 ^ 16) >>= λ (null_here : Bool).
    if null_here
    then deserialize_values cs (suc i) b m at (values ++ Value.null ∷ []) offset
    else Value.deserialize_from c.type c.max_size m (at + offset) >>= λ (r : Value × ℕ).
        deserialize_values cs (suc i) b m at (values ++ r.0 ∷ []) ((offset + r.1) % 2 ^ 16)

unfoldable pub deserialize_from : Record → Memory → ℕ → List Column → Result (Record × ℕ)
deserialize_from r m at columns = do
  let header = Header.deserialize_from m at
  let nulls =
      Bitmap.deserialize_from (Bitmap.resize r.null_bitmap (length columns % 2 ^ 16)) m
        (at + header.1)
  (values, offset) ←
      deserialize_values columns 0 nulls.0 m at r.values ((header.1 + nulls.1) % 2 ^ 16)
  ok (update_size (record r { null_bitmap = nulls.0; values = values; header = header.0 }), offset)

-- `Record()`, which `DeserializeFrom` fills.
abbrev pub empty_record : Rid → Record
empty_record rid = record {
  null_bitmap = Bitmap.empty_bitmap;
  values = [];
  header = new_header;
  rid = rid;
  size = 0;
}
