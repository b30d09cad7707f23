-- ===== src/Executor/Query/Projection.antt =====
-- src/executors/projection_executor.cpp: a record of the values of expressions, for each record of the
-- executor below.
use database_hw.Prelude.{
  ℕ, ◌≡◌, refl, ap, ◌∙◌, inl, inr, Option, none, some, List, [], ◌∷◌, ◌++◌, Has,
}
use database_hw.Result.{Result, ok, ◌>>=◌}
use database_hw.Value.{Value}
use database_hw.Value.Compare.{Ieee}
use database_hw.Expression.{Expression, evaluate}
use database_hw.Record
use database_hw.Record.{Record}
use database_hw.Executor.Query.{Answer, and_then, QueryExecutor, Emits}

module _ (f : Ieee) (of_int : ℕ → ℕ) where
  -- The loop over the expressions.
  unfoldable pub evaluate_all : List Expression → Record → List Value → Result (List Value)
  evaluate_all [] r values = ok values
  evaluate_all (expr ∷ exprs) r values =
      evaluate f of_int expr r >>= λ (v : Value). evaluate_all exprs r (values ++ v ∷ [])

  abbrev pub project : List Expression → Record → Result Record
  project exprs r =
      evaluate_all exprs r [] >>= λ (values : List Value). Record.new_record values r.rid

  module _ (exprs : List Expression) (child : QueryExecutor) where
    abbrev pub projected : child.State × Option Record → Answer (child.State × Option Record)
    projected x = elim x.1 [
      | none ↦ some (ok (x.0, none))
      | some r ↦ and_then (some (project exprs r)) λ (p : Record). some (ok (x.0, some p))
    ]

    -- `Next`.
    unfoldable pub projection_next : child.State → Answer (child.State × Option Record)
    projection_next st = and_then (child.next st) projected

    abbrev pub projection_executor : QueryExecutor
    projection_executor = record { State = child.State; next = projection_next }

    abbrev pub images : (Record → Record) → List Record → List Record
    images image [] = []
    images image (r ∷ rs) = image r ∷ images image rs

    -- Over an executor that emits these records, on each of which the expressions have values, the
    -- projection emits the records of the values, one for each and in order.
    pub projection_executor-Emits :
        (image : Record → Record) (rs : List Record) (st : child.State)
        → Emits child st rs
        → ((r : Record) → Has r rs → project exprs r ≡ ok (image r))
        → Emits projection_executor st (images image rs)
    unfolding projection_next
    projection_executor-Emits image [] st (end, run) e =
        (end, ap (λ (a : Answer (child.State × Option Record)). and_then a projected) run)
    projection_executor-Emits image (r ∷ rs) st (after, run, rest) e = (
      after,
      ap (λ (a : Answer (child.State × Option Record)). and_then a projected) run
          ∙ ap (λ (p : Result Record). and_then (some p) λ (p : Record). some (ok (after, some p)))
              (e r (inl refl)),
      projection_executor-Emits image rs after rest (λ s h. e s (inr h)),
    )
