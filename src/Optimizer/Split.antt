-- ===== src/Optimizer/Split.antt =====
-- A plan with its filters split has the rows of the plan.
use database_hw.Prelude.{ℕ, ◌≡◌, ap, ◌∙◌, List, [], ◌∷◌}
use database_hw.Result.{Result, ok, ◌>>=◌}
use database_hw.Result.Laws.{bind_ok}
use database_hw.Value.Compare.{Ieee}
use database_hw.Expression.{
  Expression, column_value, const, comparison, logic, negation, null_test, conjunction, disjunction,
}
use database_hw.Record.{Record}
use database_hw.Optimizer.{
  Plan, Plans, filter, operator, nil, cons, split_filter, split_child, split_children,
  split_predicates,
}
use database_hw.Optimizer.Selection.{holds, select, Logical, select-both}

module _ {Label : Type 0} (f : Ieee) (of_int : ℕ → ℕ)
    (meaning : Label → List (List Record) → Result (List Record)) where
  -- The rows of a plan, or the exception of one of its operators: a filter selects, and the other
  -- operators are what they are.
  unfoldable mutual
    pub rows : Plan Label → Result (List Record)
    rows (filter p child) = rows child >>= select (holds f of_int p)
    rows (operator l children) = all_rows children >>= meaning l

    pub all_rows : Plans Label → Result (List (List Record))
    all_rows nil = ok []
    all_rows (cons child children) = rows child >>= λ l. all_rows children >>= λ ls. ok (l ∷ ls)

  -- The filters of a plan are conjunctions of Booleans.
  unfoldable mutual
    pub LogicalPlan : Plan Label → Type 0
    LogicalPlan (filter p child) = Logical f of_int p × LogicalPlan child
    LogicalPlan (operator l children) = LogicalPlans children

    pub LogicalPlans : Plans Label → Type 0
    LogicalPlans nil = Unit {0}
    LogicalPlans (cons child children) = LogicalPlan child × LogicalPlans children

  filter_lem :
      (p : Expression) (child : Plan Label) (rs l : List Record)
      → rows child ≡ ok rs
      → select (holds f of_int p) rs ≡ ok l
      → rows (filter p child) ≡ ok l
  unfolding rows
  filter_lem p child rs l below run =
      ap (λ (x : Result (List Record)). x >>= select (holds f of_int p)) below ∙ run

  rows-split_filter :
      (p : Expression) (child : Plan Label) (rs l : List Record)
      → Logical f of_int p
      → rows child ≡ ok rs
      → select (holds f of_int p) rs ≡ ok l
      → rows (split_filter p child) ≡ ok l
  unfolding split_filter
  rows-split_filter (logic conjunction a b) child rs l logical below run =
      let (m, left, right) = select-both f of_int a b rs l logical run in
      filter_lem b (split_filter a child) m l (rows-split_filter a child rs m logical.1 below left)
        right
  rows-split_filter (logic disjunction a b) child rs l logical below run =
      filter_lem (logic disjunction a b) child rs l below run
  rows-split_filter (column_value col_idx is_left) child rs l logical below run =
      filter_lem (column_value col_idx is_left) child rs l below run
  rows-split_filter (const v) child rs l logical below run =
      filter_lem (const v) child rs l below run
  rows-split_filter (comparison type a b) child rs l logical below run =
      filter_lem (comparison type a b) child rs l below run
  rows-split_filter (negation a) child rs l logical below run =
      filter_lem (negation a) child rs l below run
  rows-split_filter (null_test wants_null a) child rs l logical below run =
      filter_lem (null_test wants_null a) child rs l below run

  mutual
    unfolding rows all_rows split_child split_children LogicalPlan LogicalPlans

    rows-split_child :
        (p : Plan Label) (l : List Record)
        → LogicalPlan p
        → rows p ≡ ok l
        → rows (split_child p) ≡ ok l
    rows-split_child (filter p child) l (logical, below) run =
        let (rs, first, rest) = bind_ok (rows child) (select (holds f of_int p)) l run in
        rows-split_filter p (split_child child) rs l logical (rows-split_child child rs below first)
          rest
    rows-split_child (operator label children) l logical run =
        let (ls, first, rest) = bind_ok (all_rows children) (meaning label) l run in
        ap (λ (x : Result (List (List Record))). x >>= meaning label)
          (rows-split_children children ls logical first)
        ∙ rest

    rows-split_children :
        (ps : Plans Label) (ls : List (List Record))
        → LogicalPlans ps
        → all_rows ps ≡ ok ls
        → all_rows (split_children ps) ≡ ok ls
    rows-split_children nil ls logical run = run
    rows-split_children (cons child children) ls (one, others) run =
        let (l, first, more) = bind_ok (rows child) _ ls run in
        let (rest, second, same) =
          bind_ok (all_rows children) (λ (t : List (List Record)). ok (l ∷ t)) ls more in
        ap
          (λ (x : Result (List Record)).
            x >>= λ h. all_rows (split_children children) >>= λ t. ok (h ∷ t))
          (rows-split_child child l one first)
        ∙ ap (λ (x : Result (List (List Record))). x >>= λ t. ok (l ∷ t))
            (rows-split_children children rest others second)
        ∙ same

  -- A plan in which the left part of each conjunction of a filter has only Boolean values and null,
  -- and whose operators, run to their end, give rows and no exception, has the same rows, in the same
  -- order, when the conjunctions of its filters are split, for any meaning of the other operators.
  pub rows-split_predicates :
      (plan : Plan Label) (l : List Record)
      → LogicalPlan plan
      → rows plan ≡ ok l
      → rows (split_predicates plan) ≡ ok l
  unfolding rows split_predicates split_child LogicalPlan
  rows-split_predicates (filter p child) l (logical, below) run =
      let (rs, first, rest) = bind_ok (rows child) (select (holds f of_int p)) l run in
      filter_lem p (split_child child) rs l (rows-split_child child rs below first) rest
  rows-split_predicates (operator label children) l logical run =
      rows-split_child (operator label children) l logical run
