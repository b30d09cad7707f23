-- ===== src/Value/Stored.antt =====
-- A stored value takes the bytes that its size says, and is read back.
use database_hw.Prelude.{
  ℕ, ◌+◌, ◌%◌, ◌≤◌, ◌<◌, ◌^◌, ◌≡◌, refl, sym, ap, subst, ◌∙◌, ◌⊎◌, false, List, [], ◌∷◌, ◌++◌,
  length, length-append, take_of_length-le, if◌then◌else◌, arith,
}
use database_hw.Result.{ok}
use database_hw.Bytes.{Memory, write, read, le_bytes, put_int, get_int}
use database_hw.Bytes.Laws.{
  read-write_self, write_outside, length-le_bytes, write-append, Holds, Holds-append, Holds_int,
  Holds_head,
}
use database_hw.Header.{bool_byte}
use database_hw.TypeUtil.{is_string}
use database_hw.Value.{
  Value, null, unset, bool, int, uint, double, char, varchar, is_null, get_type, get_size,
  serialize_to, deserialize_from, put_string, get_string,
}

-- The values that a record can store: each fits its width, and the sizes do not wrap.
abbrev pub IsStorable : Value → Type 0
IsStorable null = ⊥
IsStorable (unset t n) = ⊥
IsStorable (bool b) = Unit {0}
IsStorable (int n) = n < 2 ^ 32
IsStorable (uint n) = n < 2 ^ 32
IsStorable (double n) = n < 2 ^ 64
IsStorable (char s) = length s + 2 < 2 ^ 16
IsStorable (varchar s) = length s + 2 < 2 ^ 16

-- A column of the value's type can hold it: columns of fixed types have the type's size.
abbrev pub Suits : Value → ℕ → Type 0
Suits (char s) n = Unit {0}
Suits (varchar s) n = Unit {0}
Suits v n = n ≡ get_size v

-- The bytes of a value in a record.
unfoldable pub value_bytes : Value → List ℕ
value_bytes null = []
value_bytes (unset t n) = []
value_bytes (bool b) = bool_byte b ∷ []
value_bytes (int n) = le_bytes 4 n
value_bytes (uint n) = le_bytes 4 n
value_bytes (double n) = le_bytes 8 n
value_bytes (char s) = le_bytes 2 (length s) ++ s
value_bytes (varchar s) = le_bytes 2 (length s) ++ s

put_string_lem :
    (s : List ℕ) (m : Memory) (at : ℕ)
    → length s + 2 < 2 ^ 16
    → put_string s m at ≡ (write m at (le_bytes 2 (length s) ++ s), length s + 2)
put_string_lem s m at h =
    let e : length s % 2 ^ 16 ≡ length s = omega arith in
    let e' : (length s + 2) % 2 ^ 16 ≡ length s + 2 = omega arith in
    rw (e, e', take_of_length-le (length s) s (omega arith))
      (ap (λ (mem : Memory). (mem, length s + 2))
        ((ap (λ (i : ℕ). write (put_int m at 2 (length s)) (at + i) s)
            (sym (length-le_bytes 2 (length s))))
          ∙ write-append m at (le_bytes 2 (length s)) s))

string_length : (s : List ℕ) → length (le_bytes 2 (length s) ++ s) ≡ length s + 2
string_length s =
    omega (arith, length-append (le_bytes 2 (length s)) s, length-le_bytes 2 (length s))

-- `SerializeTo` writes the bytes of the value, and returns how many they are.
pub serialize_to-value_bytes :
    (v : Value) (m : Memory) (at : ℕ)
    → IsStorable v
    → serialize_to v m at ≡ ok (write m at (value_bytes v), length (value_bytes v))
unfolding serialize_to value_bytes
serialize_to-value_bytes null m at h = absurd h
serialize_to-value_bytes (unset t n) m at h = absurd h
serialize_to-value_bytes (bool b) m at h = refl
serialize_to-value_bytes (int n) m at h = rw (length-le_bytes 4 n)
serialize_to-value_bytes (uint n) m at h = rw (length-le_bytes 4 n)
serialize_to-value_bytes (double n) m at h = rw (length-le_bytes 8 n)
serialize_to-value_bytes (char s) m at h = rw (put_string_lem s m at h, string_length s)
serialize_to-value_bytes (varchar s) m at h = rw (put_string_lem s m at h, string_length s)

get_string_lem :
    (s : List ℕ) (m : Memory) (at : ℕ)
    → length s + 2 < 2 ^ 16
    → Holds m at (le_bytes 2 (length s) ++ s)
    → get_string m at ≡ (s, length s + 2)
get_string_lem s m at h held =
    let parts = Holds-append m at (le_bytes 2 (length s)) s held in
    let size : get_int m at 2 ≡ length s = Holds_int m at 2 (length s) (omega arith) parts.0 in
    let two : length (le_bytes 2 (length s)) ≡ 2 = length-le_bytes 2 (length s) in
    let e : (length s + 2) % 2 ^ 16 ≡ length s + 2 = omega arith in
    let body : read m (at + 2) (length s) ≡ s =
      subst (λ (k : ℕ). read m (at + k) (length s) ≡ s) two parts.1 in
    rw (size, e) (ap (λ (x : List ℕ). (x, length s + 2)) body)

-- Where memory holds the bytes of a value, a column that suits it reads the value, and as many
-- bytes.
pub deserialize_from-Holds :
    (v : Value) (n : ℕ) (m : Memory) (at : ℕ)
    → IsStorable v
    → Suits v n
    → Holds m at (value_bytes v)
    → deserialize_from (get_type v) n m at ≡ ok (v, length (value_bytes v))
unfolding deserialize_from value_bytes
deserialize_from-Holds null n m at h u held = absurd h
deserialize_from-Holds (unset t k) n m at h u held = absurd h
deserialize_from-Holds (bool b) n m at h u held =
    ground (arith, Holds_head m at (bool_byte b) [] held)
deserialize_from-Holds (int k) n m at h u held =
    ground (arith, Holds_int m at 4 k h held, length-le_bytes 4 k)
deserialize_from-Holds (uint k) n m at h u held =
    ground (arith, Holds_int m at 4 k h held, length-le_bytes 4 k)
deserialize_from-Holds (double k) n m at h u held =
    ground (arith, Holds_int m at 8 k h held, length-le_bytes 8 k)
deserialize_from-Holds (char s) n m at h u held =
    ap (λ (r : List ℕ × ℕ). ok (char r.0, r.1)) (get_string_lem s m at h held)
    ∙ ap (λ (k : ℕ). ok (char s, k)) (sym (string_length s))
deserialize_from-Holds (varchar s) n m at h u held =
    ap (λ (r : List ℕ × ℕ). ok (varchar r.0, r.1)) (get_string_lem s m at h held)
    ∙ ap (λ (k : ℕ). ok (varchar s, k)) (sym (string_length s))

-- The size of a storable value with the length of a string is that of its bytes.
pub length-value_bytes :
    (v : Value)
    → IsStorable v
    → length (value_bytes v) ≡ get_size v + (if is_string (get_type v) then 2 else 0)
unfolding value_bytes is_string
length-value_bytes null h = absurd h
length-value_bytes (unset t n) h = absurd h
length-value_bytes (bool b) h = refl
length-value_bytes (int n) h = length-le_bytes 4 n
length-value_bytes (uint n) h = length-le_bytes 4 n
length-value_bytes (double n) h = length-le_bytes 8 n
length-value_bytes (char s) h = omega (arith, string_length s)
length-value_bytes (varchar s) h = omega (arith, string_length s)

pub IsStorable-is_null : (v : Value) → IsStorable v → is_null v ≡ false
IsStorable-is_null null h = absurd h
IsStorable-is_null (unset t n) h = absurd h
IsStorable-is_null (bool b) h = refl
IsStorable-is_null (int n) h = refl
IsStorable-is_null (uint n) h = refl
IsStorable-is_null (double n) h = refl
IsStorable-is_null (char s) h = refl
IsStorable-is_null (varchar s) h = refl

-- A value that a record can store is written at any place, and a column that suits it reads it back
-- from there; both count the same bytes.
pub serialize_to-deserialize_from :
    (v : Value) (n : ℕ) (m : Memory) (at : ℕ)
    → IsStorable v
    → Suits v n
    → (m' : Memory) × (k : ℕ) × (serialize_to v m at ≡ ok (m', k))
      × (deserialize_from (get_type v) n m' at ≡ ok (v, k))
      × ((i : ℕ) → (i < at) ⊎ (at + k ≤ i) → m' i ≡ m i)
serialize_to-deserialize_from v n m at h u = (
  write m at (value_bytes v),
  length (value_bytes v),
  serialize_to-value_bytes v m at h,
  deserialize_from-Holds v n _ at h u (read-write_self m at (value_bytes v)),
  write_outside m at (value_bytes v),
)
