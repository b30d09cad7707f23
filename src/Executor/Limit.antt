-- ===== src/Executor/Limit.antt =====
-- src/executors/limit_executor.cpp: LIMIT and OFFSET over any executor.
pub mod Rows
mod Tests
use database_hw.Prelude.{ℕ, zero, suc, ◌-◌, ◌+◌, Bool, Option, none, some, ltb, if◌then◌else◌}
use database_hw.Executor.{Executor}

pub record LimitState (S : Type 0) : Type 0 where
  pub count : ℕ
  pub offset : ℕ
  pub child : S

module _ {R : Type 0} (child : Executor R) (limit_offset limit_count : Option ℕ) where
  -- `plan_->limit_offset_.value_or(0)`.
  abbrev pub wanted_offset : ℕ
  wanted_offset = elim limit_offset [ none ↦ 0 | some n ↦ n ]

  abbrev pub limit_init : child.State → LimitState child.State
  limit_init st = record { count = 0; offset = 0; child = st }

  -- The loop, by the number of rounds that are left.
  abbrev pub skip : ℕ → child.State → child.State
  skip zero st = st
  skip (suc n) st = skip n (child.next st).0

  abbrev pub skip_offset : LimitState child.State → LimitState child.State
  skip_offset st = record st {
    offset = if ltb st.offset wanted_offset then wanted_offset else st.offset;
    child = skip (wanted_offset - st.offset) st.child;
  }

  abbrev pub take_next : LimitState child.State → LimitState child.State × Option R
  take_next st = (record st { child = (child.next st.child).0 }, (child.next st.child).1)

  abbrev pub limited_next : LimitState child.State → LimitState child.State × Option R
  limited_next st = elim limit_count [
    | none ↦ take_next st
    | some n ↦ if ltb st.count n then take_next (record st { count = st.count + 1 }) else (st, none)
  ]

  -- `Next`. The counters are `int`s; limits and offsets are supposed to fit them.
  unfoldable pub limit_next : LimitState child.State → LimitState child.State × Option R
  limit_next st = limited_next (skip_offset st)

  abbrev pub limit_executor : Executor R
  limit_executor = record { State = LimitState child.State; next = limit_next }
