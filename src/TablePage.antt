-- ===== src/TablePage.antt =====
-- src/table/table_page.{h,cpp} over src/storage/page.{h,cpp}: a page is its bytes and the dirty flag.
-- The pointers `page_lsn_`, `next_page_id_`, `lower_`, `upper_` and `slots_` of a `TablePage` are
-- addresses in the bytes: 0, 8, 12, 14 and 16; every operation goes through them, so the fields are
-- not kept besides the bytes.
pub mod Space
pub mod Insert
pub mod Marks
pub mod Redo
mod Tests
pub mod Stored
use database_hw.Prelude.{
  ℕ, ◌+◌, ◌-◌, ◌*◌, ◌/◌, ◌%◌, ◌^◌, Bool, true, false, List, ltb, take, if◌then◌else◌,
}
use database_hw.Types.{Rid, null_xid, null_page_id}
use database_hw.Result.{Result, ok, ◌>>=◌}
use database_hw.Bytes.{Memory, write, put_int, get_int}
use database_hw.Header
use database_hw.Header.{RecordHeader}
use database_hw.Value.{Value}
use database_hw.Record
use database_hw.Record.{Record, Column}

pub record Page : Type 0 where
  pub bytes : Memory
  pub dirty : Bool

abbrev pub db_page_size : ℕ
db_page_size = 2 ^ 8

abbrev pub max_record_size : ℕ
max_record_size = 230

abbrev pub page_header_size : ℕ
page_header_size = 16

abbrev pub set_dirty : Memory → Page
set_dirty m = record { bytes = m; dirty = true }

abbrev pub get_page_lsn : Memory → ℕ
get_page_lsn m = get_int m 0 8

abbrev pub get_next_page_id : Memory → ℕ
get_next_page_id m = get_int m 8 4

abbrev pub get_lower : Memory → ℕ
get_lower m = get_int m 12 2

abbrev pub get_upper : Memory → ℕ
get_upper m = get_int m 14 2

-- The address of `slots_[i]`, and what it holds.
abbrev pub slot_at : ℕ → ℕ
slot_at i = page_header_size + 4 * i

abbrev pub slot_offset : Memory → ℕ → ℕ
slot_offset m i = get_int m (slot_at i) 2

abbrev pub slot_size : Memory → ℕ → ℕ
slot_size m i = get_int m (slot_at i + 2) 2

-- A lower pointer inside the page header wraps in 64 bits before the division.
unfoldable pub get_record_count : Memory → ℕ
get_record_count m = (get_lower m + 2 ^ 64 - page_header_size) % 2 ^ 64 / 4 % 2 ^ 16

unfoldable pub get_free_space_size : Memory → ℕ
get_free_space_size m =
    if ltb (get_upper m) (get_lower m + 4) then 0 else get_upper m - get_lower m - 4

unfoldable pub init : Page → Page
init p =
    let m1 = put_int p.bytes 0 8 0 in
    let m2 = put_int m1 8 4 null_page_id in
    let m3 = put_int m2 12 2 page_header_size in
    let m4 = put_int m3 14 2 db_page_size in set_dirty m4

-- The steps that `InsertRecord` and `RedoInsertRecord` share: `*lower_ += sizeof(Slot)` and
-- `*upper_ -= size`.
abbrev pub claim_space : Memory → ℕ → Memory
claim_space m size =
    let m1 = put_int m 12 2 ((get_lower m + 4) % 2 ^ 16) in
    put_int m1 14 2 ((get_upper m1 + 2 ^ 16 - size) % 2 ^ 16)

-- `InsertRecord`: the page after it, the slot, and the record with its new ids.
unfoldable pub insert_record : Page → Record → ℕ → ℕ → Result (Page × ℕ × Record)
insert_record p r xid cid = do
  let get_count = get_record_count p.bytes
  let m2 = claim_space p.bytes r.size
  let r' = record r { header = record r.header { cid = cid; xmin = xid } }
  let m3 = put_int m2 (slot_at get_count) 2 (get_upper m2)
  let m4 = put_int m3 (slot_at get_count + 2) 2 r'.size
  (m5, written) ← Record.serialize_to r' m4 (get_upper m4)
  ok (set_dirty m5, (get_record_count m5 + 2 ^ 16 - 1) % 2 ^ 16, r')

unfoldable pub delete_record : Page → ℕ → ℕ → Page
delete_record p slot_id xid =
    let offset = slot_offset p.bytes slot_id in
    let header = (Header.deserialize_from p.bytes offset).0 in
    let marked = Header.set_xmax (Header.set_deleted header true) xid in
    set_dirty (Header.serialize_to marked p.bytes offset).0

unfoldable pub update_record_in_place : Page → Record → ℕ → Result Page
update_record_in_place p r slot_id = do
  (m, written) ← Record.serialize_to r p.bytes (slot_offset p.bytes slot_id)
  ok (set_dirty m)

-- `GetRecord` constructs a second record of the values that it read, with the header's fields.
unfoldable pub get_record : Page → Rid → List Column → Result Record
get_record p rid columns = do
  let offset = slot_offset p.bytes rid.slot_id
  (read, size) ← Record.deserialize_from (Record.empty_record rid) p.bytes offset columns
  copy ← Record.new_record read.values read.rid
  ok (record copy { header = read.header })

unfoldable pub undo_delete_record : Page → ℕ → Page
undo_delete_record p slot_id =
    let offset = slot_offset p.bytes slot_id in
    let header = (Header.deserialize_from p.bytes offset).0 in
    let cleared = Header.set_xmax (Header.set_deleted header false) null_xid in
    set_dirty (Header.serialize_to cleared p.bytes offset).0

-- `RedoInsertRecord`: the record's bytes come from the log.
unfoldable pub redo_insert_record : Page → ℕ → List ℕ → ℕ → ℕ → Page
redo_insert_record p slot_id raw_record page_offset record_size =
    let m2 = claim_space p.bytes record_size in
    let m3 = put_int m2 (slot_at slot_id + 2) 2 record_size in
    let m4 = put_int m3 (slot_at slot_id) 2 (get_upper m3) in
    set_dirty (write m4 (get_upper m4) (take record_size raw_record))

abbrev pub set_next_page_id : Page → ℕ → Page
set_next_page_id p page_id = set_dirty (put_int p.bytes 8 4 page_id)

abbrev pub set_page_lsn : Page → ℕ → Page
set_page_lsn p page_lsn = set_dirty (put_int p.bytes 0 8 page_lsn)
