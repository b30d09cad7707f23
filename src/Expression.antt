-- ===== src/Expression.antt =====
-- src/operators/expressions: columns, constants, comparisons, the logical connectives and the test
-- for null, on one record and on the two of a join. What the processor does with doubles, the
-- conversion of an integer to one among it, is a parameter.
pub mod Join
mod Tests
use database_hw.Prelude.{ℕ, Bool, true, false, not, ◌&&◌, ◌||◌, List, nat_eq, if◌then◌else◌}
use database_hw.Result.{Result, ok, throw, type_unsupported, ◌>>=◌}
use database_hw.TypeUtil.{DbType}
use database_hw.Value.{Value, null, bool, is_null, get_type}
use database_hw.Value.Compare.{
  Ieee, int_less, str_less, str_equal, val_number, str, get_bool, get_str, logical_not,
}
use database_hw.Record.{Record, get_value}

-- The comparisons of two values; those with lists and patterns are left out.
pub data ComparisonType : Type 0 where
  equal not_equal less less_equal greater greater_equal : ComparisonType

pub data LogicType : Type 0 where
  conjunction disjunction : LogicType

pub data Expression : Type 0 where
  column_value : (col_idx : ℕ) → (is_left : Bool) → Expression
  const : Value → Expression
  comparison : ComparisonType → Expression → Expression → Expression
  logic : LogicType → Expression → Expression → Expression
  negation : Expression → Expression
  null_test : (wants_null : Bool) → Expression → Expression

-- `DoOperation` of a comparison, by what `<`, `==` and `>` answer.
abbrev pub compare_values : ComparisonType → (lt eq gt : Bool) → Bool
compare_values equal lt eq gt = eq
compare_values not_equal lt eq gt = not eq
compare_values less lt eq gt = lt
compare_values less_equal lt eq gt = lt || eq
compare_values greater lt eq gt = gt
compare_values greater_equal lt eq gt = gt || eq

abbrev pub combine : LogicType → Bool → Bool → Bool
combine conjunction a b = a && b
combine disjunction a b = a || b

-- `Logic::Compute`.
unfoldable pub compute_logic : LogicType → Value → Value → Result Value
compute_logic type lhs rhs = if is_null lhs || is_null rhs then ok null else elim (get_type lhs) [
  | DbType.bool ↦ get_bool lhs >>= λ a. get_bool rhs >>= λ b. ok (bool (combine type a b))
  | _ ↦ throw type_unsupported
]

-- `ColumnValue::EvaluateJoin` and what `NullTest::Evaluate` makes of its argument's value.
abbrev pub join_column : (col_idx : ℕ) → (is_left : Bool) → Record → Record → Result Value
join_column col_idx is_left left right =
    if is_left then get_value left col_idx else get_value right col_idx

abbrev pub test_null : (wants_null : Bool) → Value → Value
test_null wants_null v = bool (if wants_null then is_null v else not (is_null v))

module _ (f : Ieee) (of_int : ℕ → ℕ) where
  abbrev pub compare_ints : ComparisonType → ℕ → ℕ → Value
  compare_ints type a b = bool (compare_values type (int_less a b) (nat_eq a b) (int_less b a))

  abbrev pub compare_doubles : ComparisonType → ℕ → ℕ → Value
  compare_doubles type a b =
      bool (compare_values type (f.double_less a b) (f.double_equal a b) (f.double_less b a))

  abbrev pub compare_strings : ComparisonType → List ℕ → List ℕ → Value
  compare_strings type s t =
      bool (compare_values type (str_less s t) (str_equal s t) (str_less t s))

  -- `Comparison::Compute`.
  unfoldable pub compute_comparison : ComparisonType → Value → Value → Result Value
  compute_comparison type lhs rhs =
      if is_null lhs || is_null rhs then ok null else elim (get_type lhs) [
        | DbType.int ↦ val_number lhs >>= λ a. elim (get_type rhs) [
          | DbType.int ↦ val_number rhs >>= λ b. ok (compare_ints type a b)
          | DbType.double ↦ val_number rhs >>= λ b. ok (compare_doubles type (of_int a) b)
          | _ ↦ throw type_unsupported
        ]
        | DbType.double ↦ val_number lhs >>= λ a. elim (get_type rhs) [
          | DbType.int ↦ val_number rhs >>= λ b. ok (compare_doubles type a (of_int b))
          | DbType.double ↦ val_number rhs >>= λ b. ok (compare_doubles type a b)
          | _ ↦ throw type_unsupported
        ]
        | DbType.char ↦ get_str rhs >>= λ t. ok (compare_strings type (str lhs) t)
        | DbType.varchar ↦ get_str rhs >>= λ t. ok (compare_strings type (str lhs) t)
        | _ ↦ throw type_unsupported
      ]

  unfoldable pub evaluate : Expression → Record → Result Value
  evaluate (column_value col_idx is_left) r = get_value r col_idx
  evaluate (const v) r = ok v
  evaluate (comparison type a b) r =
      evaluate a r >>= λ lhs. evaluate b r >>= λ rhs. compute_comparison type lhs rhs
  evaluate (logic type a b) r =
      evaluate a r >>= λ lhs. evaluate b r >>= λ rhs. compute_logic type lhs rhs
  evaluate (negation a) r = evaluate a r >>= logical_not
  evaluate (null_test wants_null a) r = evaluate a r >>= λ v. ok (test_null wants_null v)

  -- `EvaluateJoin`: a negation and a test for null evaluate their argument on the left record alone.
  unfoldable pub evaluate_join : Expression → Record → Record → Result Value
  evaluate_join (column_value col_idx is_left) left right = join_column col_idx is_left left right
  evaluate_join (const v) left right = ok v
  evaluate_join (comparison type a b) left right = evaluate_join a left right >>= λ lhs.
      evaluate_join b left right >>= λ rhs. compute_comparison type lhs rhs
  evaluate_join (logic type a b) left right = evaluate_join a left right >>= λ lhs.
      evaluate_join b left right >>= λ rhs. compute_logic type lhs rhs
  evaluate_join (negation a) left right = evaluate a left >>= logical_not
  evaluate_join (null_test wants_null a) left right =
      evaluate a left >>= λ v. ok (test_null wants_null v)
