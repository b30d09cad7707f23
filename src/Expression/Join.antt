-- ===== src/Expression/Join.antt =====
-- The condition of a join on two records is the condition on the joined record.
use database_hw.Prelude.{
  ℕ, zero, suc, ◌+◌, ◌%◌, ◌^◌, ◌<◌, ◌≡◌, refl, sym, ap, ◌∙◌, true, false, List, [], ◌∷◌, ◌++◌,
  length, get_elem?, Option, none, some, if◌then◌else◌, arith,
}
use mathlib.Core.List.{append-nil, append_assoc}
use database_hw.Result.{Result, ok, throw, index_out_of_range}
use database_hw.Result.Laws.{bind_ok}
use database_hw.Bitmap
use database_hw.Bitmap.{Bitmap}
use database_hw.Value.{Value, is_null}
use database_hw.Value.Compare.{Ieee}
use database_hw.Record.{Record, update_size, get_value, append, append_values}
use database_hw.Expression.{
  Expression, column_value, const, comparison, logic, negation, null_test, evaluate, evaluate_join,
}

-- The expression on the joined record, whose first values are the left record's.
unfoldable pub merged : ℕ → Expression → Expression
merged n (column_value col_idx is_left) =
    column_value (if is_left then col_idx else n + col_idx) true
merged n (const v) = const v
merged n (comparison type a b) = comparison type (merged n a) (merged n b)
merged n (logic type a b) = logic type (merged n a) (merged n b)
merged n (negation a) = negation (merged n a)
merged n (null_test wants_null a) = null_test wants_null (merged n a)

-- Neither a negation nor a test for null, and each left column is one of the left record's.
abbrev pub Joinable : ℕ → Expression → Type 0
Joinable n (column_value col_idx true) = col_idx < n
Joinable n (column_value col_idx false) = Unit {0}
Joinable n (const v) = Unit {0}
Joinable n (comparison type a b) = Joinable n a × Joinable n b
Joinable n (logic type a b) = Joinable n a × Joinable n b
Joinable n (negation a) = ⊥
Joinable n (null_test wants_null a) = ⊥

get_elem?-left :
    (xs ys : List Value) (i : ℕ) → i < length xs → get_elem? (xs ++ ys) i ≡ get_elem? xs i
get_elem?-left [] ys i h = absurd (omega arith)
get_elem?-left (x ∷ xs) ys zero h = refl
get_elem?-left (x ∷ xs) ys (suc i) h = get_elem?-left xs ys i (omega arith)

get_elem?-right :
    (xs ys : List Value) (i : ℕ) → get_elem? (xs ++ ys) (length xs + i) ≡ get_elem? ys i
get_elem?-right [] ys i = ap (get_elem? ys) (omega arith)
get_elem?-right (x ∷ xs) ys i =
    let next : length (x ∷ xs) + i ≡ suc (length xs + i) = omega arith in
    ap (get_elem? (x ∷ (xs ++ ys))) next ∙ get_elem?-right xs ys i

append_values-append :
    (vs : List Value) (b b' : Bitmap) (values all : List Value)
    → append_values vs b values ≡ ok (b', all)
    → all ≡ values ++ vs
unfolding append_values
append_values-append [] b b' values all run =
    let e : values ≡ all = ground (arith, run) in sym e ∙ sym (append-nil values)
append_values-append (v ∷ vs) b b' values all run =
    let (c, first, rest) =
      bind_ok
        (if is_null v
          then Bitmap.set b (length values % 2 ^ 16)
          else Bitmap.clear b (length values % 2 ^ 16))
        (λ x. append_values vs x (values ++ v ∷ [])) (b', all) run in
    append_values-append vs c b' (values ++ v ∷ []) all rest ∙ append_assoc values (v ∷ []) vs

append-values :
    (r other joined : Record)
    → append r other ≡ ok joined
    → joined.values ≡ r.values ++ other.values
unfolding append
append-values r other joined run =
    let (p, first, rest) =
      bind_ok
        (append_values other.values
          (Bitmap.resize r.null_bitmap ((r.null_bitmap.size + length other.values) % 2 ^ 16))
          r.values)
        (λ p. ok (update_size (record r { null_bitmap = p.0; values = p.1 }))) joined run in
    let e : p.1 ≡ joined.values = ground (arith, rest) in
    sym e ∙ append_values-append other.values _ p.0 r.values p.1 first

-- What `get_value` makes of a lookup.
abbrev value_at : Option Value → Result Value
value_at none = throw index_out_of_range
value_at (some v) = ok v

get_value_lem : (r : Record) (i : ℕ) → get_value r i ≡ value_at (get_elem? r.values i)
unfolding get_value
get_value_lem r i = ground arith

module _ (f : Ieee) (of_int : ℕ → ℕ) (left right joined : Record) where
  -- An expression without negations and tests for null, and whose left columns are all columns of
  -- the left record, has, on the two records of a join, the value, or the error, that it has on the
  -- record which `Append` makes of them, when its right columns are counted behind the left record's.
  pub evaluate_join-evaluate :
      (e : Expression)
      → append left right ≡ ok joined
      → Joinable (length left.values) e
      → evaluate_join f of_int e left right
        ≡ evaluate f of_int (merged (length left.values) e) joined
  unfolding evaluate_join evaluate merged
  evaluate_join-evaluate (column_value col_idx true) run in_left =
      get_value_lem left col_idx
      ∙ sym (
          get_value_lem joined col_idx
          ∙ ap (λ (l : List Value). value_at (get_elem? l col_idx))
              (append-values left right joined run)
          ∙ ap value_at (get_elem?-left left.values right.values col_idx in_left))
  evaluate_join-evaluate (column_value col_idx false) run any_right =
      get_value_lem right col_idx
      ∙ sym (
          get_value_lem joined (length left.values + col_idx)
          ∙ ap (λ (l : List Value). value_at (get_elem? l (length left.values + col_idx)))
              (append-values left right joined run)
          ∙ ap value_at (get_elem?-right left.values right.values col_idx))
  evaluate_join-evaluate (const v) run plain = refl
  evaluate_join-evaluate (comparison type a b) run (plain_a, plain_b) =
      ground (arith, evaluate_join-evaluate a run plain_a, evaluate_join-evaluate b run plain_b)
  evaluate_join-evaluate (logic type a b) run (plain_a, plain_b) =
      ground (arith, evaluate_join-evaluate a run plain_a, evaluate_join-evaluate b run plain_b)
  evaluate_join-evaluate (negation a) run no_negation = absurd no_negation
  evaluate_join-evaluate (null_test wants_null a) run no_test = absurd no_test
