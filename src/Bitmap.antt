-- ===== src/Bitmap.antt =====
-- src/common/bitmap.{h,cpp}: the null bitmap of a record. A bit operation on a byte goes down to
-- the bit's position.
pub mod Laws
use database_hw.Prelude.{
  ℕ, zero, suc, ◌+◌, ◌*◌, ◌/◌, ◌%◌, Bool, List, [], ◌∷◌, nat_eq, ltb, length, take, ◌^◌,
  if◌then◌else◌,
}
use database_hw.Result.{Result, ok, throw, index_out_of_range}
use database_hw.Bytes.{Memory, write, read}

-- `byte & (1U << k)`, `byte | (1U << k)` and `byte & ~(1U << k)`.
unfoldable pub has_bit : ℕ → ℕ → Bool
has_bit zero byte = nat_eq (byte % 2) 1
has_bit (suc k) byte = has_bit k (byte / 2)

unfoldable pub or_bit : ℕ → ℕ → ℕ
or_bit zero byte = 1 + 2 * (byte / 2)
or_bit (suc k) byte = byte % 2 + 2 * or_bit k (byte / 2)

unfoldable pub and_not_bit : ℕ → ℕ → ℕ
and_not_bit zero byte = 2 * (byte / 2)
and_not_bit (suc k) byte = byte % 2 + 2 * and_not_bit k (byte / 2)

pub record Bitmap : Type 0 where
  pub size : ℕ
  pub bits : List ℕ

-- `bits_.resize(count, 0)`.
unfoldable pub resize_bytes : ℕ → List ℕ → List ℕ
resize_bytes zero bs = []
resize_bytes (suc n) [] = 0 ∷ resize_bytes n []
resize_bytes (suc n) (b ∷ bs) = b ∷ resize_bytes n bs

abbrev pub resize : Bitmap → ℕ → Bitmap
resize b size = record { size = size; bits = resize_bytes ((size + 7) / 8) b.bits }

-- `Bitmap(size)`, and `Bitmap()`.
abbrev pub new_bitmap : ℕ → Bitmap
new_bitmap size = resize (record { size = size; bits = [] }) size

abbrev pub empty_bitmap : Bitmap
empty_bitmap = record { size = 0; bits = [] }

-- `bits_[i] = f(bits_[i])` and `bits_[i]`, at an index in range.
unfoldable pub modify : (ℕ → ℕ) → ℕ → List ℕ → List ℕ
modify f i [] = []
modify f zero (b ∷ bs) = f b ∷ bs
modify f (suc i) (b ∷ bs) = b ∷ modify f i bs

unfoldable pub byte_at : List ℕ → ℕ → ℕ
byte_at [] i = 0
byte_at (b ∷ bs) zero = b
byte_at (b ∷ bs) (suc i) = byte_at bs i

unfoldable pub set : Bitmap → ℕ → Result Bitmap
set b index =
    if ltb index (length b.bits * 8)
    then ok (record b { bits = modify (or_bit (index % 8)) (index / 8) b.bits })
    else throw index_out_of_range

unfoldable pub clear : Bitmap → ℕ → Result Bitmap
clear b index =
    if ltb index (length b.bits * 8)
    then ok (record b { bits = modify (and_not_bit (index % 8)) (index / 8) b.bits })
    else throw index_out_of_range

unfoldable pub test : Bitmap → ℕ → Result Bool
test b index =
    if ltb index (length b.bits * 8)
    then ok (has_bit (index % 8) (byte_at b.bits (index / 8)))
    else throw index_out_of_range

abbrev pub get_bytes : Bitmap → ℕ
get_bytes b = length b.bits % 2 ^ 16

unfoldable pub serialize_to : Bitmap → Memory → ℕ → Memory × ℕ
serialize_to b m at = (write m at (take (get_bytes b) b.bits), get_bytes b)

-- As many bytes as the bitmap has.
unfoldable pub deserialize_from : Bitmap → Memory → ℕ → Bitmap × ℕ
deserialize_from b m at = (record b { bits = read m at (length b.bits) }, get_bytes b)
