-- ===== src/Executor/Query/Join.antt =====
-- src/executors/nested_loop_join_executor.cpp: the pairs of records that the condition accepts.
pub mod Pairs
pub mod Emitted
use database_hw.Prelude.{
  ℕ, zero, suc, ◌+◌, ◌||◌, Bool, true, false, Option, none, some, List, [], ◌∷◌, ◌++◌, nat_eq, ltb,
  length, get_elem?, if◌then◌else◌,
}
use database_hw.Result.{Result, ok, ◌>>=◌}
use database_hw.Value.{Value}
use database_hw.Value.Compare.{Ieee, get_bool}
use database_hw.Expression.{Expression, evaluate_join}
use database_hw.Record
use database_hw.Record.{Record}
use database_hw.Executor.Query.{Answer, and_then, QueryExecutor, drain}

pub record JoinState (L R : Type 0) : Type 0 where
  pub cnt : ℕ
  pub records : List Record
  pub left : L
  pub right : R

-- The record that is returned for one of `records`: a new one, with the header's fields.
abbrev pub copy_of : Record → Result Record
copy_of r = Record.new_record r.values r.rid >>= λ (c : Record). ok (record c { header = r.header })

module _ (f : Ieee) (of_int : ℕ → ℕ) (join_condition : Expression)
    (left right : QueryExecutor) where
  abbrev pub JoinedState : Type 0
  JoinedState = JoinState left.State right.State

  abbrev pub join_init : left.State → right.State → JoinedState
  join_init l r = record { cnt = 0; records = []; left = l; right = r }

  -- `r_now.Append(*r1)` and `records.push_back(r_now)`, where the condition holds.
  abbrev pub push_joined : Record → Record → List Record → Bool → Result (List Record)
  push_joined l r records b =
      if b
      then (Record.append l r >>= λ (joined : Record). ok (records ++ joined ∷ []))
      else ok records

  -- The inner and the outer loop.
  unfoldable pub join_row : Record → List Record → List Record → Result (List Record)
  join_row l [] records = ok records
  join_row l (r ∷ rs) records = evaluate_join f of_int join_condition l r >>= λ (v : Value).
      get_bool v >>= λ (b : Bool). push_joined l r records b >>= join_row l rs

  unfoldable pub join_rows : List Record → List Record → List Record → Result (List Record)
  join_rows [] rs records = ok records
  join_rows (l ∷ ls) rs records = join_row l rs records >>= join_rows ls rs

  -- The record at an index of `records`, or null behind the last.
  abbrev pub show : JoinedState → ℕ → Answer (JoinedState × Option Record)
  show s i = elim (get_elem? s.records i) [
    | none ↦ some (ok (s, none))
    | some r ↦ and_then (some (copy_of r)) λ c. some (ok (s, some c))
  ]

  -- What is done with the records of both sides.
  abbrev pub join_drained :
      JoinedState → List Record → List Record → Answer (JoinedState × Option Record)
  join_drained s ls rs =
      if nat_eq (length ls) 0 || nat_eq (length rs) 0
      then some (ok (s, none))
      else and_then (some (join_rows ls rs s.records))
          λ (records : List Record). show (record s { records = records; cnt = 1 }) 0

  -- The first call takes all records of both sides.
  abbrev pub join_first : ℕ → JoinedState → Answer (JoinedState × Option Record)
  join_first fuel s = and_then (drain left fuel s.left []) λ (l : left.State × List Record).
      and_then (drain right fuel s.right []) λ (r : right.State × List Record).
        join_drained (record s { left = l.0; right = r.0 }) l.1 r.1

  -- `Next`, with fuel for the records of each side.
  unfoldable pub join_next : ℕ → JoinedState → Answer (JoinedState × Option Record)
  join_next fuel s =
      if nat_eq s.cnt 0
      then join_first fuel s
      else if ltb s.cnt (length s.records)
      then show (record s { cnt = s.cnt + 1 }) s.cnt
      else some (ok (s, none))

  abbrev pub join_executor : ℕ → QueryExecutor
  join_executor fuel = record { State = JoinedState; next = join_next fuel }
