-- ===== src/Executor/Query/Tests.antt =====
-- A filter and a join over executors that read off lists.
use database_hw.Prelude.{
  Bool, true, false, ◌≡◌, ◌+◌, refl, sym, subst, inl, inr, nat_eq, ltb, Option, none, some, List,
  [], ◌∷◌, Has, arith,
}
use database_hw.Result.{ok}
use database_hw.Bitmap
use database_hw.TypeUtil.{is_string}
use database_hw.Header.{new_header}
use database_hw.Value.{int}
use database_hw.Value.Compare.{Ieee, get_bool}
use database_hw.Record
use database_hw.Record.{Record}
use database_hw.Expression.{
  Expression, column_value, const, comparison, equal, evaluate, evaluate_join, compute_comparison,
}
use database_hw.Executor.Query.{Answer, QueryExecutor, Emits}
use database_hw.Executor.Query.Filter.{accepts, filter_executor, kept, filter_executor-Emits}
use database_hw.Executor.Query.Join.{copy_of, join_executor, join_init}
use database_hw.Executor.Query.Join.Pairs.{pairs, copies, Joins}
use database_hw.Executor.Query.Join.Emitted.{join_executor-Emits}

abbrev patterns : Ieee
patterns = record { double_less = ltb; double_equal = nat_eq; double_add = λ a b. a + b }

abbrev next_of : List Record → Answer (List Record × Option Record)
next_of [] = some (ok ([], none))
next_of (r ∷ rs) = some (ok (rs, some r))

abbrev listed : QueryExecutor
listed = record { State = List Record; next = next_of }

abbrev employee : Record
employee = record {
  null_bitmap = record { size = 2; bits = 0 ∷ [] };
  values = int 5 ∷ int 7 ∷ [];
  header = new_header;
  rid = record { page_id = 0; slot_id = 0 };
  size = 22;
}

abbrev department : Record
department = record {
  null_bitmap = record { size = 1; bits = 0 ∷ [] };
  values = int 7 ∷ [];
  header = new_header;
  rid = record { page_id = 0; slot_id = 1 };
  size = 18;
}

abbrev both_records : Record
both_records = record employee {
  null_bitmap = record { size = 3; bits = 0 ∷ [] };
  values = int 5 ∷ int 7 ∷ int 7 ∷ [];
  size = 26;
}

abbrev two : List Record
two = employee ∷ department ∷ []

two-Emits : Emits listed two two
two-Emits = (department ∷ [], refl, (([], refl, ([], refl))))

-- The first column is 7.
abbrev is_seven : Expression
is_seven = comparison equal (column_value 0 true) (const (int 7))

abbrev holds_seven : Record → Bool
holds_seven r = elim r.values [ int n ∷ _ ↦ nat_eq n 7 | _ ↦ false ]

accepts-holds_seven :
    (r : Record) → Has r two → accepts patterns (λ n. n) is_seven listed r ≡ ok (holds_seven r)
unfolding evaluate Record.get_value compute_comparison get_bool
accepts-holds_seven r (inl e) =
    subst (λ (x : Record). accepts patterns (λ n. n) is_seven listed x ≡ ok (holds_seven x)) (sym e)
      refl
accepts-holds_seven r (inr (inl e)) =
    subst (λ (x : Record). accepts patterns (λ n. n) is_seven listed x ≡ ok (holds_seven x)) (sym e)
      refl
accepts-holds_seven r (inr (inr h)) = elim h [ ]

filter_executor-Emits_example :
    Emits
      (filter_executor patterns (λ n. n) is_seven listed 3)
      two
      (kept patterns (λ n. n) is_seven listed holds_seven two)
filter_executor-Emits_example =
    filter_executor-Emits patterns (λ n. n) is_seven listed holds_seven two two 3 two-Emits
      accepts-holds_seven (omega arith)

abbrev same_id : Expression
same_id = comparison equal (column_value 1 true) (column_value 0 false)

abbrev left_rows : List Record
left_rows = employee ∷ []

abbrev right_rows : List Record
right_rows = department ∷ []

joined_pair :
    Joins patterns
      (λ n. n)
      same_id
      listed
      listed
      (λ l r. true)
      (λ l r. both_records)
      employee
      department
unfolding evaluate_join Record.get_value compute_comparison Record.append Record.append_values
    Bitmap.clear Bitmap.resize_bytes Bitmap.modify Record.add_sizes Bitmap.and_not_bit is_string
joined_pair = record { decided = refl; appended = refl }

joined_pairs :
    (l r : Record)
    → Has l left_rows
    → Has r right_rows
    → Joins patterns (λ n. n) same_id listed listed (λ l r. true) (λ l r. both_records) l r
joined_pairs l r (inl e) (inl k) =
    subst
      (λ (x : Record).
        Joins patterns (λ n. n) same_id listed listed (λ l r. true) (λ l r. both_records) x r)
      (sym e)
      (subst
        (λ (y : Record).
          Joins patterns (λ n. n) same_id listed listed (λ l r. true) (λ l r. both_records) employee
            y)
        (sym k) joined_pair)
joined_pairs l r (inl e) (inr k) = elim k [ ]
joined_pairs l r (inr h) k = elim h [ ]

copy-both_records : copy_of both_records ≡ ok both_records
unfolding Record.new_record Record.set_nulls Record.add_sizes is_string Bitmap.resize_bytes
copy-both_records = refl

join_executor-Emits_example :
    Emits
      (join_executor patterns (λ n. n) same_id listed listed 2)
      (join_init patterns (λ n. n) same_id listed listed left_rows right_rows)
      (copies (λ j. j) (pairs (λ l r. true) (λ l r. both_records) left_rows right_rows))
join_executor-Emits_example =
    join_executor-Emits patterns (λ n. n) same_id listed listed 2 (λ j. j) (λ l r. true)
      (λ l r. both_records) left_rows right_rows left_rows right_rows (([], refl, ([], refl)))
      (([], refl, ([], refl))) (omega arith) (omega arith) joined_pairs
      (λ l r h k. copy-both_records)
