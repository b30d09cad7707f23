-- ===== src/Expression/Tests.antt =====
-- A join's condition on two records, and a negation that reads the wrong one.
use database_hw.Prelude.{true, false, [], ◌∷◌, ◌≡◌, ◌+◌, refl, nat_eq, ltb, arith}
use database_hw.Result.{ok}
use database_hw.Bitmap
use database_hw.Bitmap.{Bitmap}
use database_hw.TypeUtil.{is_string}
use database_hw.Header.{new_header}
use database_hw.Value.{int, bool}
use database_hw.Value.Compare.{Ieee, logical_not}
use database_hw.Record.{Record, append_values, add_sizes, get_value, append}
use database_hw.Expression.{
  compute_comparison, Expression, column_value, comparison, negation, equal, evaluate,
  evaluate_join,
}
use database_hw.Expression.Join.{merged, evaluate_join-evaluate}

abbrev patterns : Ieee
patterns = record { double_less = ltb; double_equal = nat_eq; double_add = λ a b. a + b }

abbrev same_id : Expression
same_id = comparison equal (column_value 1 true) (column_value 0 false)

abbrev employee : Record
employee = record {
  null_bitmap = record { size = 2; bits = 0 ∷ [] };
  values = int 5 ∷ int 7 ∷ [];
  header = new_header;
  rid = record { page_id = 0; slot_id = 0 };
  size = 22;
}

abbrev department : Record
department = record {
  null_bitmap = record { size = 1; bits = 0 ∷ [] };
  values = int 7 ∷ [];
  header = new_header;
  rid = record { page_id = 0; slot_id = 1 };
  size = 18;
}

abbrev both_records : Record
both_records = record employee {
  null_bitmap = record { size = 3; bits = 0 ∷ [] };
  values = int 5 ∷ int 7 ∷ int 7 ∷ [];
  size = 26;
}

append-run : append employee department ≡ ok both_records
unfolding append append_values Bitmap.clear Bitmap.resize_bytes Bitmap.modify add_sizes
    Bitmap.and_not_bit is_string
append-run = refl

same_id-value : evaluate_join patterns (λ n. n) same_id employee department ≡ ok (bool true)
unfolding evaluate_join get_value compute_comparison
same_id-value = refl

-- `NOT` of a right column is computed from the left record's column of that number.
negation-left :
    evaluate_join patterns
      (λ n. n)
      (negation (column_value 0 false))
      (record employee { values = bool false ∷ [] })
      (record department { values = bool true ∷ [] })
    ≡ ok (bool true)
unfolding evaluate_join evaluate get_value logical_not
negation-left = refl

evaluate_join-evaluate_example :
    evaluate_join patterns (λ n. n) same_id employee department
    ≡ evaluate patterns (λ n. n) (merged 2 same_id) both_records
evaluate_join-evaluate_example =
    evaluate_join-evaluate patterns (λ n. n) employee department both_records same_id append-run
      (omega arith, tt)
