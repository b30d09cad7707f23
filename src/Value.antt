-- ===== src/Value.antt =====
-- src/common/value.{h,cpp}: SQL values as they are stored. An integer is its 32-bit pattern, a
-- double its 64-bit pattern, a string its bytes. Values of type LIST are never stored, and left out.
pub mod Stored
pub mod Compare
use database_hw.Prelude.{
  ℕ, ◌+◌, ◌%◌, ◌^◌, Bool, true, false, not, List, [], ◌∷◌, nat_eq, length, take, ltb, if◌then◌else◌,
}
use database_hw.Result.{
  Result, ok, throw, undefined, unknown_type, type_mismatch, type_unsupported, unknown_text,
}
use database_hw.Bytes.{Memory, write, read, put_int, get_int}
use database_hw.Header.{bool_byte}
use database_hw.TypeUtil.{DbType}

-- `null` is `Value()`; `unset t n` is `Value(t, n)`, which is null until it is read from memory.
pub data Value : Type 0 where
  null : Value
  unset : DbType → ℕ → Value
  bool : Bool → Value
  int uint double : ℕ → Value
  char varchar : List ℕ → Value

abbrev pub is_null : Value → Bool
is_null null = true
is_null (unset t n) = true
is_null _ = false

abbrev pub get_type : Value → DbType
get_type null = DbType.null_type
get_type (unset t n) = t
get_type (bool b) = DbType.bool
get_type (int n) = DbType.int
get_type (uint n) = DbType.uint
get_type (double n) = DbType.double
get_type (char s) = DbType.char
get_type (varchar s) = DbType.varchar

-- `size_` has 16 bits.
abbrev pub get_size : Value → ℕ
get_size null = 0
get_size (unset t n) = n
get_size (bool b) = 1
get_size (int n) = 4
get_size (uint n) = 4
get_size (double n) = 8
get_size (char s) = length s % 2 ^ 16
get_size (varchar s) = length s % 2 ^ 16

-- A string is stored behind its length.
abbrev pub put_string : List ℕ → Memory → ℕ → Memory × ℕ
put_string s m at =
    let size = length s % 2 ^ 16 in
    (write (put_int m at 2 size) (at + 2) (take size s), (size + 2) % 2 ^ 16)

-- `SerializeTo`: the memory after it, and the number of bytes.
unfoldable pub serialize_to : Value → Memory → ℕ → Result (Memory × ℕ)
serialize_to null m at = throw unknown_type
serialize_to (unset t n) m at = undefined
serialize_to (bool b) m at = ok (write m at (bool_byte b ∷ []), 1)
serialize_to (int n) m at = ok (put_int m at 4 n, 4)
serialize_to (uint n) m at = ok (put_int m at 4 n, 4)
serialize_to (double n) m at = ok (put_int m at 8 n, 8)
serialize_to (char s) m at = ok (put_string s m at)
serialize_to (varchar s) m at = ok (put_string s m at)

abbrev pub get_string : Memory → ℕ → List ℕ × ℕ
get_string m at = let size = get_int m at 2 in (read m (at + 2) size, (size + 2) % 2 ^ 16)

-- `DeserializeFrom` of a value of the type and size. A copy of another size than the type's would
-- leave a part of the value unset.
unfoldable pub deserialize_from : DbType → ℕ → Memory → ℕ → Result (Value × ℕ)
deserialize_from DbType.bool n m at =
    if nat_eq n 1 then ok (bool (not (nat_eq (m at) 0)), 1) else undefined
deserialize_from DbType.int n m at = if nat_eq n 4 then ok (int (get_int m at 4), 4) else undefined
deserialize_from DbType.uint n m at =
    if nat_eq n 4 then ok (uint (get_int m at 4), 4) else undefined
deserialize_from DbType.double n m at =
    if nat_eq n 8 then ok (double (get_int m at 8), 8) else undefined
deserialize_from DbType.char n m at = ok (char (get_string m at).0, (get_string m at).1)
deserialize_from DbType.varchar n m at = ok (varchar (get_string m at).0, (get_string m at).1)
deserialize_from DbType.null_type n m at = throw unknown_type
deserialize_from DbType.list n m at = throw unknown_type
