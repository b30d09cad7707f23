-- ===== src/Executor/Query/Filter.antt =====
-- src/executors/filter_executor.cpp: the records of the executor below for which the predicate holds.
use database_hw.Prelude.{
  ℕ, zero, suc, ◌<◌, ◌≡◌, refl, ap, ◌∙◌, Bool, true, false, inl, inr, Option, none, some, List, [],
  ◌∷◌, Has, length, if◌then◌else◌, arith,
}
use database_hw.Result.{Result, ok, ◌>>=◌}
use database_hw.Value.{Value, is_null}
use database_hw.Value.Compare.{Ieee, get_bool}
use database_hw.Expression.{Expression, evaluate}
use database_hw.Record.{Record}
use database_hw.Executor.Query.{Answer, and_then, QueryExecutor, Emits}

module _ (f : Ieee) (of_int : ℕ → ℕ) (predicate : Expression) (child : QueryExecutor) where
  -- `!value.IsNull() && value.GetValue<bool>()`.
  abbrev pub accepts : Record → Result Bool
  accepts r =
      evaluate f of_int predicate r >>= λ (v : Value). if is_null v then ok false else get_bool v

  -- `Next`.
  unfoldable pub filter_next : ℕ → child.State → Answer (child.State × Option Record)
  filter_next zero st = none
  filter_next (suc fuel) st = and_then (child.next st) λ x. elim x.1 [
    | none ↦ some (ok (x.0, none))
    | some r ↦
        let rest = filter_next fuel x.0 in
        and_then (some (accepts r)) λ keep. if keep then some (ok (x.0, some r)) else rest
  ]

  abbrev pub filter_executor : ℕ → QueryExecutor
  filter_executor fuel = record { State = child.State; next = filter_next fuel }

  -- The records that the test keeps.
  abbrev pub kept : (Record → Bool) → List Record → List Record
  kept holds [] = []
  kept holds (r ∷ rs) = if holds r then r ∷ kept holds rs else kept holds rs

  abbrev continue : ℕ → child.State × Option Record → Answer (child.State × Option Record)
  continue fuel x = elim x.1 [
    | none ↦ some (ok (x.0, none))
    | some r ↦
        let rest = filter_next fuel x.0 in
        and_then (some (accepts r)) λ keep. if keep then some (ok (x.0, some r)) else rest
  ]

  step :
      (fuel : ℕ) (st after : child.State) (r : Record) (keep : Bool)
      → child.next st ≡ some (ok (after, some r))
      → accepts r ≡ ok keep
      → filter_next (suc fuel) st
        ≡ (if keep then some (ok (after, some r)) else filter_next fuel after)
  unfolding filter_next
  step fuel st after r keep run e =
      ap (λ (a : Answer (child.State × Option Record)). and_then a (continue fuel)) run
      ∙ ap
          (λ (b : Result Bool).
            and_then (some b)
              λ (keep : Bool). if keep then some (ok (after, some r)) else filter_next fuel after)
          e

  at_end :
      (fuel : ℕ) (st end : child.State)
      → child.next st ≡ some (ok (end, none))
      → filter_next (suc fuel) st ≡ some (ok (end, none))
  unfolding filter_next
  at_end fuel st end run =
      ap (λ (a : Answer (child.State × Option Record)). and_then a (continue fuel)) run

  -- The calls of the filter, each with fuel above the bound.
  abbrev Filtered : ℕ → child.State → List Record → Type 0
  Filtered bound st [] =
      (end : child.State) × ((fuel : ℕ)
        → bound < fuel
        → filter_next fuel st ≡ some (ok (end, none)))
  Filtered bound st (r ∷ rs) =
      (after : child.State) × ((fuel : ℕ)
        → bound < fuel
        → filter_next fuel st ≡ some (ok (after, some r)))
      × Filtered bound after rs

  Filtered-mono :
      (rs : List Record) (bound : ℕ) (st : child.State)
      → Filtered bound st rs
      → Filtered (suc bound) st rs
  Filtered-mono [] bound st (end, run) = (end, λ n h. run n (omega arith))
  Filtered-mono (r ∷ rs) bound st (after, run, rest) =
      (after, λ n h. run n (omega arith), Filtered-mono rs bound after rest)

  Filtered-skip :
      (rs : List Record) (bound : ℕ) (st after : child.State)
      → ((fuel : ℕ) → filter_next (suc fuel) st ≡ filter_next fuel after)
      → Filtered bound after rs
      → Filtered (suc bound) st rs
  Filtered-skip [] bound st after e (end, run) = (end, λ n h. from n h)
    where
      from : (n : ℕ) → suc bound < n → filter_next n st ≡ some (ok (end, none))
      from zero h = absurd (omega arith)
      from (suc n) h = e n ∙ run n (omega arith)
  Filtered-skip (r ∷ rs) bound st after e (next, run, rest) =
      (next, λ n h. from n h, Filtered-mono rs bound next rest)
    where
      from : (n : ℕ) → suc bound < n → filter_next n st ≡ some (ok (next, some r))
      from zero h = absurd (omega arith)
      from (suc n) h = e n ∙ run n (omega arith)

  module _ (holds : Record → Bool) where
    tested :
        (rs : List Record) (st after : child.State) (r : Record) (keep : Bool)
        → ((fuel : ℕ)
            → filter_next (suc fuel) st
              ≡ (if keep then some (ok (after, some r)) else filter_next fuel after))
        → Filtered (length rs) after (kept holds rs)
        → Filtered (suc (length rs)) st (if keep then r ∷ kept holds rs else kept holds rs)
    tested rs st after r true one ih =
        (after, λ n h. from n h, Filtered-mono (kept holds rs) (length rs) after ih)
      where
        from : (n : ℕ) → suc (length rs) < n → filter_next n st ≡ some (ok (after, some r))
        from zero h = absurd (omega arith)
        from (suc n) h = one n
    tested rs st after r false one ih = Filtered-skip (kept holds rs) (length rs) st after one ih

    filtered :
        (rs : List Record) (st : child.State)
        → Emits child st rs
        → ((r : Record) → Has r rs → accepts r ≡ ok (holds r))
        → Filtered (length rs) st (kept holds rs)
    filtered [] st (end, run) e = (end, λ n h. from n h)
      where
        from : (n : ℕ) → 0 < n → filter_next n st ≡ some (ok (end, none))
        from zero h = absurd (omega arith)
        from (suc n) h = at_end n st end run
    filtered (r ∷ rs) st (after, run, rest) e =
        tested rs st after r (holds r) (λ fuel. step fuel st after r (holds r) run (e r (inl refl)))
          (filtered rs after rest (λ s h. e s (inr h)))

    -- Over an executor that emits these records, each of which the predicate can be tested on, and
    -- with fuel for them, the filter emits those that it holds for, in order.
    pub filter_executor-Emits :
        (rs : List Record) (st : child.State) (fuel : ℕ)
        → Emits child st rs
        → ((r : Record) → Has r rs → accepts r ≡ ok (holds r))
        → length rs < fuel
        → Emits (filter_executor fuel) st (kept holds rs)
    filter_executor-Emits rs st fuel emits e h = all (kept holds rs) st (filtered rs st emits e)
      where
        all :
            (l : List Record) (st : child.State)
            → Filtered (length rs) st l
            → Emits (filter_executor fuel) st l
        all [] st (end, run) = (end, run fuel h)
        all (r ∷ l) st (after, run, rest) = (after, run fuel h, all l after rest)
