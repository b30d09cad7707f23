-- ===== src/Value/Compare/Tests.antt =====
-- Comparisons of src/common/value.cpp, and the theorems at them.
use database_hw.Prelude.{
  ◌+◌, ◌-◌, ◌%◌, ◌^◌, ◌≡◌, ◌⊎◌, refl, true, false, [], ◌∷◌, nat_eq, ltb, arith,
}
use database_hw.Result.{ok, throw, type_mismatch}
use database_hw.Value.{Value, int, uint, varchar}
use database_hw.Value.Compare.{Ieee, str_less, less, equal, greater, add}
use database_hw.Value.Compare.Order.{Comparable, less-equal-greater, Precedes}

-- Some processor.
abbrev patterns : Ieee
patterns = record { double_less = ltb; double_equal = nat_eq; double_add = λ a b. (a + b) % 2 ^ 64 }

-- -1 and 1, "a" and "ab".
abbrev minus_one : Value
minus_one = int (2 ^ 32 - 1)

runs :
    (less patterns minus_one (int 1) ≡ ok true)
    × (less patterns (varchar (97 ∷ [])) (varchar (97 ∷ 98 ∷ [])) ≡ ok true)
    × (less patterns (int 1) (uint 1) ≡ throw type_mismatch)
    × (add patterns minus_one (int 1) ≡ ok (int 0))
unfolding less add str_less
runs = (refl, refl, refl, refl)

numbers : Comparable minus_one (int 1)
numbers = Comparable.ints (2 ^ 32 - 1) 1 (omega arith) (omega arith)

less-equal-greater_example :
    (Precedes minus_one (int 1)
      × (less patterns minus_one (int 1) ≡ ok true)
      × (equal patterns minus_one (int 1) ≡ ok false)
      × (greater patterns minus_one (int 1) ≡ ok false))
    ⊎ (((minus_one ≡ int 1)
          × (less patterns minus_one (int 1) ≡ ok false)
          × (equal patterns minus_one (int 1) ≡ ok true)
          × (greater patterns minus_one (int 1) ≡ ok false))
        ⊎ (Precedes (int 1) minus_one
            × (less patterns minus_one (int 1) ≡ ok false)
            × (equal patterns minus_one (int 1) ≡ ok false)
            × (greater patterns minus_one (int 1) ≡ ok true)))
less-equal-greater_example = less-equal-greater patterns minus_one (int 1) numbers

below_one : less patterns minus_one (int 1) ≡ ok true
unfolding less
below_one = refl

below_five : less patterns (int 1) (int 5) ≡ ok true
unfolding less
below_five = refl
