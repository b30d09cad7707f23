-- ===== src/Executor/Query/Join/Pairs.antt =====
-- A nested-loop join emits the accepted pairs of the two sides, in the order of the loops.
use mathlib.Core.List.{append-nil, append_assoc}
use database_hw.Prelude.{
  ℕ, ◌≡◌, refl, sym, ap, ◌∙◌, inl, inr, Bool, true, false, List, [], ◌∷◌, ◌++◌, Has, if◌then◌else◌,
}
use database_hw.Result.{Result, ok, ◌>>=◌}
use database_hw.Value.{Value, bool}
use database_hw.Value.Compare.{Ieee, get_bool}
use database_hw.Expression.{Expression, evaluate_join}
use database_hw.Record
use database_hw.Record.{Record}
use database_hw.Executor.Query.{QueryExecutor}
use database_hw.Executor.Query.Join.{push_joined, join_row, join_rows}

-- The pairs of a record and of records, and of all records, that a test accepts.
abbrev pub row_pairs :
    {A : Type 0} → (Record → Record → Bool) → (Record → Record → A) → Record → List Record → List A
row_pairs holds g l [] = []
row_pairs holds g l (r ∷ rs) =
    if holds l r then g l r ∷ row_pairs holds g l rs else row_pairs holds g l rs

abbrev pub pairs :
    {A : Type 0}
    → (Record → Record → Bool)
    → (Record → Record → A)
    → List Record
    → List Record
    → List A
pairs holds g [] rs = []
pairs holds g (l ∷ ls) rs = row_pairs holds g l rs ++ pairs holds g ls rs

-- The records that are returned for those of a list.
abbrev pub copies : (Record → Record) → List Record → List Record
copies copied [] = []
copies copied (j ∷ js) = copied j ∷ copies copied js

module _ (f : Ieee) (of_int : ℕ → ℕ) (join_condition : Expression) (left right : QueryExecutor)
    (holds : Record → Record → Bool) (joined : Record → Record → Record) where
  -- On a pair the condition has a value, and the records can be appended.
  pub record Joins (l r : Record) : Type 0 where
    pub decided : evaluate_join f of_int join_condition l r ≡ ok (bool (holds l r))
    pub appended : Record.append l r ≡ ok (joined l r)

  abbrev row : Record → List Record → List Record → Result (List Record)
  row = join_row f of_int join_condition left right

  abbrev rows : List Record → List Record → List Record → Result (List Record)
  rows = join_rows f of_int join_condition left right

  push :
      (l r : Record) (records : List Record) (b : Bool)
      → Joins l r
      → push_joined f of_int join_condition left right l r records b
        ≡ ok (if b then records ++ joined l r ∷ [] else records)
  push l r records true j =
      ap (λ (x : Result Record). x >>= λ (joined : Record). ok (records ++ joined ∷ [])) j.appended
  push l r records false j = refl

  with_pair :
      (l r : Record) (records tail : List Record) (b : Bool)
      → (if b then records ++ joined l r ∷ [] else records) ++ tail
        ≡ records ++ (if b then joined l r ∷ tail else tail)
  with_pair l r records tail true = append_assoc records (joined l r ∷ []) tail
  with_pair l r records tail false = refl

  join_row-row_pairs :
      (l : Record) (rs records : List Record)
      → ((r : Record) → Has r rs → Joins l r)
      → row l rs records ≡ ok (records ++ row_pairs holds joined l rs)
  unfolding join_row get_bool
  join_row-row_pairs l [] records j = ap (λ (x : List Record). ok x) (sym (append-nil records))
  join_row-row_pairs l (r ∷ rs) records j =
      let here = j r (inl refl) in
      let next = if holds l r then records ++ joined l r ∷ [] else records in
      ap
        (λ (x : Result Value). x >>= λ (v : Value). get_bool v >>= λ (b : Bool).
          push_joined f of_int join_condition left right l r records b >>= row l rs)
        here.decided
      ∙ value (holds l r)
      ∙ ap (λ (x : Result (List Record)). x >>= row l rs) (push l r records (holds l r) here)
      ∙ join_row-row_pairs l rs next (λ s h. j s (inr h))
      ∙ ap (λ (x : List Record). ok x)
          (with_pair l r records (row_pairs holds joined l rs) (holds l r))
    where
      value :
          (b : Bool)
          → get_bool (bool b) >>= (λ (b : Bool).
            push_joined f of_int join_condition left right l r records b >>= row l rs)
            ≡ push_joined f of_int join_condition left right l r records b >>= row l rs
      value b = refl

  pub join_rows-pairs :
      (ls rs records : List Record)
      → ((l r : Record) → Has l ls → Has r rs → Joins l r)
      → rows ls rs records ≡ ok (records ++ pairs holds joined ls rs)
  unfolding join_rows
  join_rows-pairs [] rs records j = ap (λ (x : List Record). ok x) (sym (append-nil records))
  join_rows-pairs (l ∷ ls) rs records j =
      ap (λ (x : Result (List Record)). x >>= rows ls rs)
        (join_row-row_pairs l rs records (λ r h. j l r (inl refl) h))
      ∙ join_rows-pairs ls rs (records ++ row_pairs holds joined l rs) (λ m r h k. j m r (inr h) k)
      ∙ ap (λ (x : List Record). ok x)
          (append_assoc records (row_pairs holds joined l rs) (pairs holds joined ls rs))
