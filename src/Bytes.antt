-- ===== src/Bytes.antt =====
-- Raw memory as the code uses it through `char *` and `memcpy`: a byte at each address, and the
-- integers of a little-endian machine in it.
pub mod Laws
use database_hw.Prelude.{ℕ, zero, suc, ◌+◌, ◌*◌, ◌/◌, ◌%◌, List, [], ◌∷◌, nat_eq, if◌then◌else◌}

abbrev pub Memory : Type 0
Memory = ℕ → ℕ

-- `memcpy(data + at, bytes, …)`.
unfoldable pub write : Memory → ℕ → List ℕ → Memory
write m at [] = m
write m at (b ∷ bs) = let rest = write m (suc at) bs in λ i. if nat_eq i at then b else rest i

-- `memcpy(…, data + at, n)`.
unfoldable pub read : Memory → ℕ → ℕ → List ℕ
read m at zero = []
read m at (suc n) = m at ∷ read m (suc at) n

-- The bytes of an unsigned integer, the lowest first, and back.
unfoldable pub le_bytes : ℕ → ℕ → List ℕ
le_bytes zero v = []
le_bytes (suc n) v = v % 256 ∷ le_bytes n (v / 256)

unfoldable pub of_le : List ℕ → ℕ
of_le [] = 0
of_le (b ∷ bs) = b + 256 * of_le bs

abbrev pub put_int : Memory → ℕ → ℕ → ℕ → Memory
put_int m at width v = write m at (le_bytes width v)

abbrev pub get_int : Memory → ℕ → ℕ → ℕ
get_int m at width = of_le (read m at width)
