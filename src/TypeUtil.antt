-- ===== src/TypeUtil.antt =====
-- src/common/type_util.{h,cpp}: the types of SQL values.
pub mod Laws
use database_hw.Prelude.{ℕ, Bool, true, false, ◌&&◌, nat_eq, if◌then◌else◌}
use database_hw.Result.{Result, ok, throw, size_unspecified, unknown_type}

pub data DbType : Type 0 where
  bool int uint double char varchar null_type list : DbType

-- The order of the enumeration.
abbrev pub type_code : DbType → ℕ
type_code bool = 0
type_code int = 1
type_code uint = 2
type_code double = 3
type_code char = 4
type_code varchar = 5
type_code null_type = 6
type_code list = 7

abbrev pub type_eq : DbType → DbType → Bool
type_eq a b = nat_eq (type_code a) (type_code b)

unfoldable pub type_size : DbType → Result ℕ
type_size null_type = ok 0
type_size bool = ok 1
type_size int = ok 4
type_size uint = ok 4
type_size double = ok 8
type_size char = throw size_unspecified
type_size varchar = throw size_unspecified
type_size list = throw unknown_type

unfoldable pub is_numeric : DbType → Bool
is_numeric int = true
is_numeric uint = true
is_numeric double = true
is_numeric _ = false

unfoldable pub is_string : DbType → Bool
is_string char = true
is_string varchar = true
is_string _ = false

unfoldable pub type_compatible : DbType → DbType → Bool
unfolding is_numeric is_string
type_compatible a b =
    if is_numeric a && is_numeric b
    then true
    else if is_string a && is_string b
    then true
    else type_eq a b
