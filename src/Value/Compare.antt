-- ===== src/Value/Compare.antt =====
-- src/common/value.cpp: what the expressions compute with values. An integer is compared by its
-- pattern with the sign bit turned; an overflow of a sum is undefined in C++. Strings are compared
-- byte by byte.
pub mod Order
mod Tests
use database_hw.Prelude.{
  ℕ, ◌+◌, ◌-◌, ◌%◌, ◌^◌, Bool, true, false, not, ◌&&◌, List, [], ◌∷◌, nat_eq, leb, ltb,
  if◌then◌else◌,
}
use database_hw.Result.{
  Result, ok, throw, undefined, ◌>>=◌, type_mismatch, type_unsupported, unknown_text,
}
use database_hw.TypeUtil.{DbType, type_eq, is_string}
use database_hw.Value.{Value, get_type, null, unset, bool, int, uint, double, char, varchar}

-- The processor's operations on doubles, by their bit patterns.
pub record Ieee : Type 0 where
  pub double_less : ℕ → ℕ → Bool
  pub double_equal : ℕ → ℕ → Bool
  pub double_add : ℕ → ℕ → ℕ

abbrev pub biased : ℕ → ℕ
biased n = (n + 2 ^ 31) % 2 ^ 32

abbrev pub int_less : ℕ → ℕ → Bool
int_less a b = ltb (biased a) (biased b)

unfoldable pub str_less : List ℕ → List ℕ → Bool
str_less s [] = false
str_less [] (b ∷ t) = true
str_less (a ∷ s) (b ∷ t) =
    let rest = str_less s t in if ltb a b then true else if ltb b a then false else rest

unfoldable pub str_equal : List ℕ → List ℕ → Bool
str_equal [] [] = true
str_equal [] (b ∷ t) = false
str_equal (a ∷ s) [] = false
str_equal (a ∷ s) (b ∷ t) = let rest = str_equal s t in nat_eq a b && rest

-- The members of a value that is of their type: a number that was never set is undefined, a string
-- is empty.
abbrev pub val_bool : Value → Result Bool
val_bool (bool b) = ok b
val_bool _ = undefined

abbrev pub val_number : Value → Result ℕ
val_number (int n) = ok n
val_number (uint n) = ok n
val_number (double n) = ok n
val_number _ = undefined

abbrev pub str : Value → List ℕ
str (char s) = s
str (varchar s) = s
str _ = []

-- `GetValue` of each type.
unfoldable pub get_bool : Value → Result Bool
get_bool v = if type_eq (get_type v) DbType.bool then val_bool v else throw type_mismatch

unfoldable pub get_int32 : Value → Result ℕ
get_int32 v = if type_eq (get_type v) DbType.int then val_number v else throw type_mismatch

unfoldable pub get_uint32 : Value → Result ℕ
get_uint32 v = if type_eq (get_type v) DbType.uint then val_number v else throw type_mismatch

unfoldable pub get_double : Value → Result ℕ
get_double v = if type_eq (get_type v) DbType.double then val_number v else throw type_mismatch

unfoldable pub get_str : Value → Result (List ℕ)
unfolding is_string
get_str v = if is_string (get_type v) then ok (str v) else throw type_mismatch

abbrev pub both {ℓ} : {A : Type ℓ} → Value → Value → (ℕ → ℕ → A) → Result A
both a b f = val_number a >>= λ x. val_number b >>= λ y. ok (f x y)

unfoldable pub less : Ieee → Value → Value → Result Bool
less f a b =
    if not (type_eq (get_type a) (get_type b)) then throw type_mismatch else elim (get_type a) [
      | DbType.int ↦ both a b int_less
      | DbType.double ↦ both a b f.double_less
      | DbType.char ↦ ok (str_less (str a) (str b))
      | DbType.varchar ↦ ok (str_less (str a) (str b))
      | _ ↦ throw type_unsupported
    ]

unfoldable pub equal : Ieee → Value → Value → Result Bool
equal f a b =
    if not (type_eq (get_type a) (get_type b)) then throw type_mismatch else elim (get_type a) [
      | DbType.bool ↦ val_bool a >>= λ x. val_bool b >>= λ y. ok (if x then y else not y)
      | DbType.int ↦ both a b nat_eq
      | DbType.double ↦ both a b f.double_equal
      | DbType.char ↦ ok (str_equal (str a) (str b))
      | DbType.varchar ↦ ok (str_equal (str a) (str b))
      | _ ↦ throw type_unsupported
    ]

unfoldable pub greater : Ieee → Value → Value → Result Bool
greater f a b =
    if not (type_eq (get_type a) (get_type b)) then throw type_mismatch else elim (get_type a) [
      | DbType.int ↦ both a b (λ x y. int_less y x)
      | DbType.double ↦ both a b (λ x y. f.double_less y x)
      | DbType.char ↦ ok (str_less (str b) (str a))
      | DbType.varchar ↦ ok (str_less (str b) (str a))
      | _ ↦ throw type_unsupported
    ]

-- A signed sum that does not fit.
abbrev pub int_add : ℕ → ℕ → Result Value
int_add a b =
    let sum = biased a + biased b in
    if leb (2 ^ 31) sum && ltb sum (2 ^ 31 + 2 ^ 32) then ok (int ((a + b) % 2 ^ 32)) else undefined

unfoldable pub add : Ieee → Value → Value → Result Value
add f a b =
    if not (type_eq (get_type a) (get_type b)) then throw type_mismatch else elim (get_type a) [
      | DbType.int ↦ val_number a >>= λ x. val_number b >>= λ y. int_add x y
      | DbType.double ↦ both a b (λ x y. double (f.double_add x y))
      | _ ↦ throw type_unsupported
    ]

-- `std::max` and `std::min` return the first of two values that are equal.
unfoldable pub max : Ieee → Value → Value → Result Value
max f a b =
    if not (type_eq (get_type a) (get_type b)) then throw type_mismatch else elim (get_type a) [
      | DbType.int ↦ both a b (λ x y. int (if int_less x y then y else x))
      | DbType.double ↦ both a b (λ x y. double (if f.double_less x y then y else x))
      | _ ↦ throw type_unsupported
    ]

unfoldable pub min : Ieee → Value → Value → Result Value
min f a b =
    if not (type_eq (get_type a) (get_type b)) then throw type_mismatch else elim (get_type a) [
      | DbType.int ↦ both a b (λ x y. int (if int_less y x then y else x))
      | DbType.double ↦ both a b (λ x y. double (if f.double_less y x then y else x))
      | _ ↦ throw type_unsupported
    ]

unfoldable pub logical_not : Value → Result Value
logical_not v = elim (get_type v) [
  | DbType.bool ↦ val_bool v >>= λ b. ok (bool (not b))
  | _ ↦ throw type_unsupported
]

-- The texts "t" and "f".
abbrev pub text_bool : List ℕ → Result Value
unfolding str_equal
text_bool s =
    if str_equal s (116 ∷ [])
    then ok (bool true)
    else if str_equal s (102 ∷ [])
    then ok (bool false)
    else throw unknown_text

unfoldable pub cast_as_bool : Value → Result Value
cast_as_bool v = elim (get_type v) [
  | DbType.bool ↦ val_bool v >>= λ b. ok (bool b)
  | DbType.char ↦ text_bool (str v)
  | DbType.varchar ↦ text_bool (str v)
  | _ ↦ throw type_unsupported
]
