-- ===== src/Header.antt =====
-- src/table/record_header.{h,cpp}: the 13 bytes in front of every record.
pub mod Laws
use database_hw.Prelude.{
  ℕ, ◌+◌, ◌<◌, ◌^◌, ◌≡◌, Bool, true, false, not, List, [], ◌∷◌, nat_eq, if◌then◌else◌,
}
use database_hw.Bytes.{Memory, write, put_int, get_int}
use database_hw.Types.{null_xid, null_cid}

pub record RecordHeader : Type 0 where
  pub deleted : Bool
  pub xmin : ℕ
  pub xmax : ℕ
  pub cid : ℕ

abbrev pub record_header_size : ℕ
record_header_size = 13

abbrev pub new_header : RecordHeader
new_header = record { deleted = false; xmin = null_xid; xmax = null_xid; cid = null_cid }

abbrev pub bool_byte : Bool → ℕ
bool_byte b = if b then 1 else 0

-- `SerializeTo`: the memory after it, and the offset that it returns.
unfoldable pub serialize_to : RecordHeader → Memory → ℕ → Memory × ℕ
serialize_to h m at =
    let m1 = write m at (bool_byte h.deleted ∷ []) in
    let m2 = put_int m1 (at + 1) 4 h.xmin in
    let m3 = put_int m2 (at + 5) 4 h.xmax in let m4 = put_int m3 (at + 9) 4 h.cid in (m4, 13)

-- `DeserializeFrom`: the header that is read, and the offset.
unfoldable pub deserialize_from : Memory → ℕ → RecordHeader × ℕ
deserialize_from m at = (
  record {
    deleted = not (nat_eq (m at) 0);
    xmin = get_int m (at + 1) 4;
    xmax = get_int m (at + 5) 4;
    cid = get_int m (at + 9) 4;
  },
  13,
)

abbrev pub set_deleted : RecordHeader → Bool → RecordHeader
set_deleted h deleted = record h { deleted = deleted }

abbrev pub set_xmax : RecordHeader → ℕ → RecordHeader
set_xmax h xmax = record h { xmax = xmax }

-- The ids of a header have 32 bits.
pub record Fits (h : RecordHeader) : Type 0 where
  pub xmin : h.xmin < 2 ^ 32
  pub xmax : h.xmax < 2 ^ 32
  pub cid : h.cid < 2 ^ 32
