-- ===== src/Optimizer/Tests.antt =====
-- A projection over a filter with a conjunction.
use database_hw.Prelude.{◌≡◌, ◌+◌, refl, subst, true, false, nat_eq, ltb, List, [], ◌∷◌}
use database_hw.Header.{new_header}
use database_hw.Result.{Result, ok, throw, undefined}
use database_hw.Result.Laws.{bind_ok}
use database_hw.Value.{Value, int}
use database_hw.Value.Compare.{Ieee, get_bool}
use database_hw.Record.{Record, get_value}
use database_hw.Expression.{
  Expression, column_value, const, comparison, logic, null_test, test_null, equal, conjunction,
  evaluate, compute_comparison, compute_logic,
}
use database_hw.Optimizer.{
  Plan, filter, operator, nil, cons, split_filter, split_child, split_children, split_predicates,
}
use database_hw.Optimizer.Selection.{Truth, select}
use database_hw.Optimizer.Split.{rows, LogicalPlan, rows-split_predicates}

abbrev patterns : Ieee
patterns = record { double_less = ltb; double_equal = nat_eq; double_add = λ a b. a + b }

data Operator : Type 0 where
  scan project : Operator

abbrev five : Record
five = record {
  null_bitmap = record { size = 1; bits = 0 ∷ [] };
  values = int 5 ∷ [];
  header = new_header;
  rid = record { page_id = 0; slot_id = 0 };
  size = 18;
}

abbrev meaning : Operator → List (List Record) → Result (List Record)
meaning scan inputs = ok (five ∷ [])
meaning project [] = ok []
meaning project (l ∷ inputs) = ok l

abbrev present : Expression
present = null_test false (column_value 0 true)

abbrev exact : Expression
exact = comparison equal (column_value 0 true) (const (int 5))

abbrev table : Plan Operator
table = operator scan nil

abbrev one_filter : Plan Operator
one_filter = operator project (cons (filter (logic conjunction present exact) table) nil)

-- The right part is on top.
split-one_filter :
    split_predicates one_filter ≡ operator project (cons (filter exact (filter present table)) nil)
unfolding split_predicates split_children split_child split_filter
split-one_filter = refl

present-Truth : (r : Record) (v : Value) → evaluate patterns (λ n. n) present r ≡ ok v → Truth v
unfolding evaluate
present-Truth r v run =
    let (w, got, same) = bind_ok (get_value r 0) (λ x. ok (test_null false x)) v run in
    subst (λ (x : Result Value). truth_of x) same tt
  where
    truth_of : Result Value → Type 0
    truth_of (ok x) = Truth x
    truth_of (throw e) = Unit {0}
    truth_of undefined = Unit {0}

one_filter-LogicalPlan : LogicalPlan patterns (λ n. n) meaning one_filter
unfolding LogicalPlan
one_filter-LogicalPlan = (((present-Truth, tt), tt), tt)

one_filter-rows : rows patterns (λ n. n) meaning one_filter ≡ ok (five ∷ [])
unfolding rows select evaluate compute_comparison compute_logic get_value get_bool
one_filter-rows = refl

rows-split_predicates_example :
    rows patterns (λ n. n) meaning (split_predicates one_filter) ≡ ok (five ∷ [])
rows-split_predicates_example =
    rows-split_predicates patterns (λ n. n) meaning one_filter (five ∷ []) one_filter-LogicalPlan
      one_filter-rows
