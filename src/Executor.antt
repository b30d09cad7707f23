-- ===== src/Executor.antt =====
-- src/executors/executor.h: an executor answers `Next` with a record, or with null when it has no
-- more. It keeps a state, and may have executors below it.
pub mod Limit
pub mod Query
use database_hw.Prelude.{ℕ, zero, suc, ◌≡◌, Option, none, some, List, [], ◌∷◌}

pub record Executor (R : Type 0) : Type 1 where
  pub State : Type 0
  pub next : State → State × Option R

module _ {R : Type 0} (e : Executor R) where
  -- The state after a number of calls.
  abbrev pub after_calls : ℕ → e.State → e.State
  after_calls zero st = st
  after_calls (suc n) st = after_calls n (e.next st).0

  -- From the state on, every call is answered with null.
  abbrev pub AtEnd : e.State → Type 0
  AtEnd st = (n : ℕ) → (e.next (after_calls n st)).1 ≡ none

  -- From the state on, the calls are answered with these records, then with null.
  abbrev pub Yields : e.State → List R → Type 0
  Yields st [] = AtEnd st
  Yields st (r ∷ rs) = ((e.next st).1 ≡ some r) × Yields (e.next st).0 rs
