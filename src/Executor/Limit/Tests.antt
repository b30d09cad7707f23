-- ===== src/Executor/Limit/Tests.antt =====
-- LIMIT 2 OFFSET 1 over an executor that reads off a list.
use database_hw.Prelude.{ℕ, zero, suc, refl, Option, none, some, List, [], ◌∷◌}
use database_hw.Executor.{Executor, AtEnd, Yields}
use database_hw.Executor.Limit.{limit_init, limit_executor}
use database_hw.Executor.Limit.Rows.{limit_executor-Yields}

abbrev next_of : List ℕ → List ℕ × Option ℕ
next_of [] = ([], none)
next_of (r ∷ rs) = (rs, some r)

abbrev listed : Executor ℕ
listed = record { State = List ℕ; next = next_of }

empty-AtEnd : AtEnd listed []
empty-AtEnd zero = refl
empty-AtEnd (suc n) = empty-AtEnd n

abbrev rows : List ℕ
rows = 10 ∷ 20 ∷ 30 ∷ 40 ∷ []

rows-Yields : Yields listed rows rows
rows-Yields = (refl, (refl, (refl, (refl, empty-AtEnd))))

limit_executor-Yields_example :
    Yields
      (limit_executor listed (some 1) (some 2))
      (limit_init listed (some 1) (some 2) rows)
      (20 ∷ 30 ∷ [])
limit_executor-Yields_example = limit_executor-Yields listed (some 1) (some 2) rows rows rows-Yields
