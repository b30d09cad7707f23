-- ===== src/Executor/Query.antt =====
-- src/executors: the executors of a query, whose `Next` may throw, and whose loops over the records of
-- the executors below have fuel.
pub mod Filter
pub mod Join
pub mod Projection
mod Tests
use mathlib.Core.List.{append-nil, append_assoc}
use database_hw.Prelude.{
  ℕ, zero, suc, ◌+◌, ◌-◌, ◌<◌, ◌≡◌, refl, sym, ap, ◌∙◌, Option, none, some, List, [], ◌∷◌, ◌++◌,
  length, arith,
}
use database_hw.Result.{Result, ok, throw, undefined}
use database_hw.Record.{Record}

-- An answer, or none when the fuel did not do.
abbrev pub Answer : Type 0 → Type 0
Answer A = Option (Result A)

abbrev pub and_then : {A B : Type 0} → Answer A → (A → Answer B) → Answer B
and_then none f = none
and_then (some (ok a)) f = f a
and_then (some (throw e)) f = some (throw e)
and_then (some undefined) f = some undefined

pub record QueryExecutor : Type 1 where
  pub State : Type 0
  pub next : State → Answer (State × Option Record)

module _ (e : QueryExecutor) where
  -- The calls are answered with these records, and then with null.
  abbrev pub Emits : e.State → List Record → Type 0
  Emits st [] = (end : e.State) × (e.next st ≡ some (ok (end, none)))
  Emits st (r ∷ rs) = (after : e.State) × (e.next st ≡ some (ok (after, some r))) × Emits after rs

  -- `while (auto record = child->Next()) records.push_back(record)`.
  unfoldable pub drain : ℕ → e.State → List Record → Answer (e.State × List Record)
  drain zero st records = none
  drain (suc fuel) st records = and_then (e.next st) λ x. elim x.1 [
    | none ↦ some (ok (x.0, records))
    | some r ↦ drain fuel x.0 (records ++ r ∷ [])
  ]

  abbrev drained : ℕ → List Record → e.State × Option Record → Answer (e.State × List Record)
  drained fuel records x = elim x.1 [
    | none ↦ some (ok (x.0, records))
    | some r ↦ drain fuel x.0 (records ++ r ∷ [])
  ]

  -- With fuel for them, all that the executor emits is collected.
  pub drain-Emits :
      (rs : List Record) (fuel : ℕ) (st : e.State) (records : List Record)
      → Emits st rs
      → length rs < fuel
      → (end : e.State) × (drain fuel st records ≡ some (ok (end, records ++ rs)))
  unfolding drain
  drain-Emits rs zero st records emits h = absurd (omega arith)
  drain-Emits [] (suc fuel) st records (end, run) h = (
    end,
    ap (λ (a : Answer (e.State × Option Record)). and_then a (drained fuel records)) run
        ∙ ap (λ (rs : List Record). some (ok (end, rs))) (sym (append-nil records)),
  )
  drain-Emits (r ∷ rs) (suc fuel) st records (after, run, rest) h =
      let (end, more) = drain-Emits rs fuel after (records ++ r ∷ []) rest (omega arith) in
      (
        end,
        ap (λ (a : Answer (e.State × Option Record)). and_then a (drained fuel records)) run
            ∙ more
            ∙ ap (λ (rs : List Record). some (ok (end, rs))) (append_assoc records (r ∷ []) rs),
      )
