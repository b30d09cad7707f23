-- ===== src/Log/Record.antt =====
-- src/log/log_record.{h,cpp} and src/log/log_records: the eight kinds of log records and their
-- bytes. An offset into a record has 64 bits, a record's size 32.
pub mod Fields
pub mod RoundTrip
mod Tests
use database_hw.Prelude.{
  ℕ, zero, suc, ◌+◌, ◌*◌, ◌%◌, ◌^◌, List, [], ◌∷◌, ◌++◌, nat_eq, length, take, insert, eq_nat,
  if◌then◌else◌,
}
use database_hw.Types.{TablePageid, eq_table_pageid}
use database_hw.Result.{Result, ok, throw, unknown_type}
use database_hw.Bytes.{Memory, write, read, put_int, get_int}

-- The active transactions with their last log records, and the dirty pages with their first.
abbrev pub ActiveTable : Type 0
ActiveTable = List (ℕ × ℕ)

abbrev pub DirtyTable : Type 0
DirtyTable = List (TablePageid × ℕ)

-- What the kinds of records hold besides the members of `LogRecord`.
pub data Body : Type 0 where
  begin commit rollback begin_checkpoint : Body
  insertion : (oid page_id slot_id page_offset record_size : ℕ) → (raw_record : List ℕ) → Body
  deletion : (oid page_id slot_id : ℕ) → Body
  new_page : (oid prev_page_id page_id : ℕ) → Body
  end_checkpoint : ActiveTable → DirtyTable → Body

pub record LogRecord : Type 0 where
  pub lsn : ℕ
  pub xid : ℕ
  pub prev_lsn : ℕ
  pub body : Body

-- The order of the enumeration `LogType`.
abbrev pub type_code : Body → ℕ
type_code begin = 0
type_code commit = 1
type_code rollback = 2
type_code (insertion oid page_id slot_id page_offset record_size raw_record) = 3
type_code (deletion oid page_id slot_id) = 4
type_code (new_page oid prev_page_id page_id) = 5
type_code begin_checkpoint = 6
type_code (end_checkpoint att dpt) = 7

-- `size_`: what the constructor of `LogRecord` sets, and what those of the kinds add.
abbrev pub base_size : ℕ
base_size = 1 + 4 + 8

unfoldable pub get_size : LogRecord → ℕ
get_size r = elim r.body [
  | insertion oid page_id slot_id page_offset record_size raw_record ↦
      (base_size + (4 + 4 + 2 + 2 + 2 + record_size)) % 2 ^ 32
  | deletion oid page_id slot_id ↦ base_size + (4 + 4 + 2)
  | new_page oid prev_page_id page_id ↦ base_size + (4 + 4 + 4)
  | end_checkpoint att dpt ↦
      (base_size + (8 + length att * (4 + 8) + 8 + length dpt * (8 + 8))) % 2 ^ 32
  | _ ↦ base_size
]

-- The steps `memcpy(data + offset, &field, width); offset += width`, one for each field.
unfoldable pub put_fields : List (ℕ × ℕ) → Memory → ℕ → Memory × ℕ
put_fields [] m at = (m, at)
put_fields ((width, v) ∷ fields) m at = put_fields fields (put_int m at width v) (at + width)

abbrev pub base_fields : LogRecord → List (ℕ × ℕ)
base_fields r = (1, type_code r.body) ∷ (4, r.xid) ∷ (8, r.prev_lsn) ∷ []

-- The entries of the two tables of a checkpoint.
unfoldable pub att_fields : ActiveTable → List (ℕ × ℕ)
att_fields [] = []
att_fields ((xid, lsn) ∷ att) = (4, xid) ∷ (8, lsn) ∷ att_fields att

unfoldable pub dpt_fields : DirtyTable → List (ℕ × ℕ)
dpt_fields [] = []
dpt_fields ((page, lsn) ∷ dpt) = (4, page.table_oid) ∷ (4, page.page_id) ∷ (8, lsn) ∷ dpt_fields dpt

-- What `SerializeTo` of each kind writes behind the fields of `LogRecord`.
unfoldable pub insertion_fields : (oid page_id slot_id page_offset record_size : ℕ) → List (ℕ × ℕ)
insertion_fields oid page_id slot_id page_offset record_size =
    (4, oid) ∷ (4, page_id) ∷ (2, slot_id) ∷ (2, page_offset) ∷ (2, record_size) ∷ []

unfoldable pub deletion_fields : (oid page_id slot_id : ℕ) → List (ℕ × ℕ)
deletion_fields oid page_id slot_id = (4, oid) ∷ (4, page_id) ∷ (2, slot_id) ∷ []

unfoldable pub new_page_fields : (oid prev_page_id page_id : ℕ) → List (ℕ × ℕ)
new_page_fields oid prev_page_id page_id = (4, oid) ∷ (4, prev_page_id) ∷ (4, page_id) ∷ []

unfoldable pub end_checkpoint_fields : ActiveTable → DirtyTable → List (ℕ × ℕ)
end_checkpoint_fields att dpt =
    (8, length att) ∷ (att_fields att ++ (8, length dpt) ∷ dpt_fields dpt)

unfoldable pub body_fields : Body → List (ℕ × ℕ)
unfolding insertion_fields deletion_fields new_page_fields end_checkpoint_fields
body_fields (insertion oid page_id slot_id page_offset record_size raw_record) =
    insertion_fields oid page_id slot_id page_offset record_size
body_fields (deletion oid page_id slot_id) = deletion_fields oid page_id slot_id
body_fields (new_page oid prev_page_id page_id) = new_page_fields oid prev_page_id page_id
body_fields (end_checkpoint att dpt) = end_checkpoint_fields att dpt
body_fields _ = []

-- The bytes of the record that `InsertLog` copies last.
abbrev pub raw_bytes : Body → List ℕ
raw_bytes (insertion oid page_id slot_id page_offset record_size raw_record) =
    take record_size raw_record
raw_bytes _ = []

-- `SerializeTo`: the memory after it, and the address behind the last byte.
unfoldable pub serialize_to : LogRecord → Memory → ℕ → Memory × ℕ
serialize_to r m at =
    let p = put_fields (base_fields r ++ body_fields r.body) m at in
    let raw = raw_bytes r.body in (write p.0 p.1 raw, p.1 + length raw)

-- `DeserializeFrom` of each kind, at the address behind the type.
unfoldable pub simple_deserialize_from : Body → ℕ → Memory → ℕ → LogRecord
simple_deserialize_from body lsn m at = record {
  lsn = lsn;
  xid = get_int m (at + 0) 4;
  prev_lsn = get_int m (at + 4) 8;
  body = body;
}

abbrev pub begin_deserialize_from : ℕ → Memory → ℕ → LogRecord
begin_deserialize_from lsn m at = simple_deserialize_from begin lsn m at

abbrev pub commit_deserialize_from : ℕ → Memory → ℕ → LogRecord
commit_deserialize_from lsn m at = simple_deserialize_from commit lsn m at

abbrev pub rollback_deserialize_from : ℕ → Memory → ℕ → LogRecord
rollback_deserialize_from lsn m at = simple_deserialize_from rollback lsn m at

abbrev pub begin_checkpoint_deserialize_from : ℕ → Memory → ℕ → LogRecord
begin_checkpoint_deserialize_from lsn m at = simple_deserialize_from begin_checkpoint lsn m at

unfoldable pub insertion_deserialize_from : ℕ → Memory → ℕ → LogRecord
insertion_deserialize_from lsn m at =
    let record_size = get_int m (at + 24) 2 in
    record {
      lsn = lsn;
      xid = get_int m (at + 0) 4;
      prev_lsn = get_int m (at + 4) 8;
      body =
          insertion (get_int m (at + 12) 4) (get_int m (at + 16) 4) (get_int m (at + 20) 2)
            (get_int m (at + 22) 2) record_size (read m (at + 26) record_size);
    }

unfoldable pub deletion_deserialize_from : ℕ → Memory → ℕ → LogRecord
deletion_deserialize_from lsn m at = record {
  lsn = lsn;
  xid = get_int m (at + 0) 4;
  prev_lsn = get_int m (at + 4) 8;
  body = deletion (get_int m (at + 12) 4) (get_int m (at + 16) 4) (get_int m (at + 20) 2);
}

unfoldable pub new_page_deserialize_from : ℕ → Memory → ℕ → LogRecord
new_page_deserialize_from lsn m at = record {
  lsn = lsn;
  xid = get_int m (at + 0) 4;
  prev_lsn = get_int m (at + 4) 8;
  body = new_page (get_int m (at + 12) 4) (get_int m (at + 16) 4) (get_int m (at + 20) 4);
}

-- The loops that fill the tables: the tables, and the offset behind.
unfoldable pub get_att : ℕ → Memory → ℕ → ℕ → ActiveTable → ActiveTable × ℕ
get_att zero m at offset att = (att, offset)
get_att (suc n) m at offset att =
    get_att n m at (offset + 4 + 8)
      (insert (get_int m (at + offset) 4) (get_int m (at + (offset + 4)) 8) att)

unfoldable pub get_dpt : ℕ → Memory → ℕ → ℕ → DirtyTable → DirtyTable × ℕ
get_dpt zero m at offset dpt = (dpt, offset)
get_dpt (suc n) m at offset dpt =
    let page : TablePageid = record {
      table_oid = get_int m (at + offset) 4;
      page_id = get_int m (at + (offset + 4)) 4;
    } in
    get_dpt n m at (offset + 4 + 4 + 8) (insert page (get_int m (at + (offset + 4 + 4)) 8) dpt)

unfoldable pub end_checkpoint_deserialize_from : ℕ → Memory → ℕ → LogRecord
end_checkpoint_deserialize_from lsn m at =
    let att = get_att (get_int m (at + 12) 8) m at 20 [] in
    let dpt = get_dpt (get_int m (at + att.1) 8) m at (att.1 + 8) [] in
    record {
      lsn = lsn;
      xid = get_int m (at + 0) 4;
      prev_lsn = get_int m (at + 4) 8;
      body = end_checkpoint att.0 dpt.0;
    }

-- `LogRecord::DeserializeFrom`.
unfoldable pub deserialize_from : ℕ → Memory → ℕ → Result LogRecord
deserialize_from lsn m at =
    let type = get_int m at 1 in
    if nat_eq type 3
    then ok (insertion_deserialize_from lsn m (at + 1))
    else if nat_eq type 4
    then ok (deletion_deserialize_from lsn m (at + 1))
    else if nat_eq type 5
    then ok (new_page_deserialize_from lsn m (at + 1))
    else if nat_eq type 0
    then ok (begin_deserialize_from lsn m (at + 1))
    else if nat_eq type 1
    then ok (commit_deserialize_from lsn m (at + 1))
    else if nat_eq type 2
    then ok (rollback_deserialize_from lsn m (at + 1))
    else if nat_eq type 6
    then ok (begin_checkpoint_deserialize_from lsn m (at + 1))
    else if nat_eq type 7
    then ok (end_checkpoint_deserialize_from lsn m (at + 1))
    else throw unknown_type
