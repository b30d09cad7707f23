-- ===== src/Optimizer.antt =====
-- src/optimizer/optimizer.cpp, `SplitPredicates`: a filter with a conjunction becomes two filters. A
-- plan is a filter or another operator over its children; the column lists, which a filter takes over
-- from the one it is split from, are left out.
pub mod Selection
pub mod Split
mod Tests
use database_hw.Prelude.{ℕ}
use database_hw.Value.{Value}
use database_hw.Expression.{
  Expression, LogicType, column_value, const, comparison, logic, negation, null_test, conjunction,
  disjunction,
}

-- What the other operators are is a parameter.
mutual
  pub data Plan (Label : Type 0) : Type 0 where
    filter : (predicate : Expression) → (child : Plan Label) → Plan Label
    operator : Label → (children : Plans Label) → Plan Label

  pub data Plans (Label : Type 0) : Type 0 where
    nil : Plans Label
    cons : Plan Label → Plans Label → Plans Label

-- The filters that stand for a filter over a child: the right part of a conjunction comes on top, and
-- the left part is split in turn.
unfoldable pub split_filter : {Label : Type 0} → Expression → Plan Label → Plan Label
split_filter (logic conjunction a b) child = filter b (split_filter a child)
split_filter (logic disjunction a b) child = filter (logic disjunction a b) child
split_filter (column_value col_idx is_left) child = filter (column_value col_idx is_left) child
split_filter (const v) child = filter (const v) child
split_filter (comparison type a b) child = filter (comparison type a b) child
split_filter (negation a) child = filter (negation a) child
split_filter (null_test wants_null a) child = filter (null_test wants_null a) child

-- What the loop of `split` makes of a child, and of the children.
unfoldable mutual
  pub split_child : {Label : Type 0} → Plan Label → Plan Label
  split_child (filter p child) = split_filter p (split_child child)
  split_child (operator l children) = operator l (split_children children)

  pub split_children : {Label : Type 0} → Plans Label → Plans Label
  split_children nil = nil
  split_children (cons child children) = cons (split_child child) (split_children children)

-- `split` and `SplitPredicates`: the root itself stays.
unfoldable pub split_predicates : {Label : Type 0} → Plan Label → Plan Label
split_predicates (filter p child) = filter p (split_child child)
split_predicates (operator l children) = operator l (split_children children)
