-- ===== src/Record/Tests.antt =====
-- A record of a number, a null and a string, its parts, and the theorems at them.
use database_hw.Prelude.{ℕ, ◌+◌, ◌-◌, ◌^◌, ◌≡◌, ◌<◌, ◌≤◌, ◌⊎◌, refl, false, List, [], ◌∷◌, arith}
use database_hw.Types.{Rid}
use database_hw.Result.{ok}
use database_hw.Bytes.{Memory, le_bytes}
use database_hw.Header
use database_hw.Header.{RecordHeader, new_header}
use database_hw.Bitmap
use database_hw.Bitmap.{Bitmap}
use database_hw.Bitmap.Laws.{bit_at}
use database_hw.TypeUtil.{DbType, is_string}
use database_hw.Value
use database_hw.Value.{Value, get_type}
use database_hw.Value.Stored.{value_bytes, serialize_to-deserialize_from}
use database_hw.Record.{
  Record, Column, add_sizes, serialize_to, deserialize_from, empty_record, new_record,
}
use database_hw.Record.Invariant.{IsValid, new_record-IsValid}
use database_hw.Record.Stored.{Stores, values_bytes}
use database_hw.Record.RoundTrip.{CanStore, stored_size, serialize_to-deserialize_from_record}

abbrev pub blank : Memory
blank i = 0

abbrev rid : Rid
rid = record { page_id = 0; slot_id = 3 }

abbrev name : Value
name = Value.varchar (97 ∷ 98 ∷ [])

abbrev values : List Value
values = Value.int 7 ∷ Value.null ∷ name ∷ []

abbrev pub stored : Record
stored = record {
  null_bitmap = record { size = 3; bits = 2 ∷ [] };
  values = values;
  header = record { deleted = false; xmin = 4; xmax = 2 ^ 32 - 1; cid = 1 };
  rid = rid;
  size = 22;
}

abbrev pub columns : List Column
columns =
    record { type = DbType.int; max_size = 4 }
    ∷ record { type = DbType.double; max_size = 8 }
    ∷ record { type = DbType.varchar; max_size = 20 }
    ∷ []

stored-IsValid : IsValid stored
unfolding bit_at Bitmap.has_bit Bitmap.byte_at add_sizes is_string
stored-IsValid = record {
  bitmap_size = refl;
  bytes = refl;
  marked = (refl, (refl, (refl, tt)));
  sized = refl;
}

pub stored-CanStore : CanStore columns stored
unfolding stored_size values_bytes value_bytes le_bytes
stored-CanStore = record {
  valid = stored-IsValid;
  holds = (
    Stores.held (Value.int 7) (record { storable = omega arith; type = refl; suits = refl }),
    (
      Stores.none,
      (Stores.held name (record { storable = omega arith; type = refl; suits = tt }), tt),
    ),
  );
  header = record { xmin = omega arith; xmax = omega arith; cid = omega arith };
  few = omega arith;
  short = omega arith;
}

serialize_to-deserialize_from_record_example :
    (m' : Memory) × (serialize_to stored blank 40 ≡ ok (m', 22))
    × (deserialize_from (empty_record rid) m' 40 columns ≡ ok (stored, 22))
    × (22 ≡ stored_size stored)
    × ((i : ℕ) → (i < 40) ⊎ (40 + 22 ≤ i) → m' i ≡ 0)
serialize_to-deserialize_from_record_example =
    serialize_to-deserialize_from_record columns stored rid blank 40 stored-CanStore

new_record-IsValid_example :
    (r : Record) × (new_record values rid ≡ ok r)
    × (r.values ≡ values)
    × (r.header ≡ new_header)
    × (r.rid ≡ rid)
    × IsValid r
new_record-IsValid_example = new_record-IsValid values rid (omega arith)

serialize_to-deserialize_from_example :
    (m' : Memory) × (k : ℕ) × (Value.serialize_to name blank 40 ≡ ok (m', k))
    × (Value.deserialize_from DbType.varchar 20 m' 40 ≡ ok (name, k))
    × ((i : ℕ) → (i < 40) ⊎ (40 + k ≤ i) → m' i ≡ 0)
serialize_to-deserialize_from_example =
    serialize_to-deserialize_from name 20 blank 40 (omega arith) tt

abbrev bits : Bitmap
bits = record { size = 12; bits = 3 ∷ 0 ∷ [] }

header-Fits : Header.Fits stored.header
header-Fits = record { xmin = omega arith; xmax = omega arith; cid = omega arith }
