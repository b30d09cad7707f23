-- ===== src/Optimizer/Selection.antt =====
-- The test of a filter, and what a conjunction selects compared with its two parts in turn.
use database_hw.Prelude.{
  ℕ, ◌≡◌, refl, sym, subst, ◌∙◌, Bool, true, false, List, [], ◌∷◌, if◌then◌else◌, arith,
}
use database_hw.Result.{Result, ok, throw, undefined, ◌>>=◌}
use database_hw.Result.Laws.{bind_ok}
use database_hw.Value.{Value, is_null, null, unset, bool, int, uint, double, char, varchar}
use database_hw.Value.Compare.{Ieee, get_bool}
use database_hw.Expression.{Expression, logic, conjunction, evaluate, compute_logic}
use database_hw.Record.{Record}

-- A filter's test of the value of its predicate, as `FilterExecutor` makes it: it throws when the
-- predicate does.
abbrev pub tested : Result Value → Result Bool
tested a = a >>= λ (v : Value). if is_null v then ok false else get_bool v

-- A Boolean or null.
abbrev pub Truth : Value → Type 0
Truth null = Unit {0}
Truth (bool b) = Unit {0}
Truth _ = ⊥

abbrev conjoined : Result Value → Result Value → Result Value
conjoined a b = a >>= λ (lhs : Value). b >>= λ (rhs : Value). compute_logic conjunction lhs rhs

-- How the test of a conjunction, when it returns, is composed of those of its parts.
abbrev Composed : (x : Bool) (first second : Result Bool) → Type 0
Composed x first second =
    (y : Bool) × (first ≡ ok y) × (y ≡ true → second ≡ ok x) × (y ≡ false → x ≡ false)

conjoined-Composed_values :
    (v w : Value) (x : Bool)
    → Truth v
    → tested (conjoined (ok v) (ok w)) ≡ ok x
    → Composed x (tested (ok v)) (tested (ok w))
unfolding compute_logic get_bool
conjoined-Composed_values null w x truth run =
    (false, refl, λ e. ground (arith, e), λ e. ground (arith, run))
conjoined-Composed_values (unset t n) w x truth run = absurd truth
conjoined-Composed_values (int n) w x truth run = absurd truth
conjoined-Composed_values (uint n) w x truth run = absurd truth
conjoined-Composed_values (double n) w x truth run = absurd truth
conjoined-Composed_values (char n) w x truth run = absurd truth
conjoined-Composed_values (varchar n) w x truth run = absurd truth
conjoined-Composed_values (bool true) w x truth run =
    (true, refl, λ e. ground (arith, run), λ e. ground (arith, e))
conjoined-Composed_values (bool false) w x truth run =
    (false, refl, λ e. ground (arith, e), λ e. ground (arith, run))

conjoined-Composed :
    (a b : Result Value) (x : Bool)
    → ((v : Value) → a ≡ ok v → Truth v)
    → tested (conjoined a b) ≡ ok x
    → Composed x (tested a) (tested b)
conjoined-Composed (ok v) (ok w) x truth run = conjoined-Composed_values v w x (truth v refl) run
conjoined-Composed (ok v) (throw e) x truth run = absurd (ground (arith, run))
conjoined-Composed (ok v) undefined x truth run = absurd (ground (arith, run))
conjoined-Composed (throw e) b x truth run = absurd (ground (arith, run))
conjoined-Composed undefined b x truth run = absurd (ground (arith, run))

abbrev push : Bool → Record → List Record → List Record
push k r l = if k then r ∷ l else l

-- The records that a test selects, when it throws for none.
unfoldable pub select : (Record → Result Bool) → List Record → Result (List Record)
select test [] = ok []
select test (r ∷ rs) = test r >>= λ k. select test rs >>= λ l. ok (push k r l)

select_cons :
    (test : Record → Result Bool) (r : Record) (rs l : List Record) (k : Bool)
    → test r ≡ ok k
    → select test rs ≡ ok l
    → select test (r ∷ rs) ≡ ok (push k r l)
unfolding select
select_cons test r rs l k one rest = ground (arith, one, rest)

select_pushed :
    (test : Record → Result Bool) (r : Record) (m l : List Record) (x y : Bool)
    → (y ≡ true → test r ≡ ok x)
    → (y ≡ false → x ≡ false)
    → select test m ≡ ok l
    → select test (push y r m) ≡ ok (push x r l)
select_pushed test r m l x true second off rest = select_cons test r m l x (second refl) rest
select_pushed test r m l x false second off rest =
    subst (λ (k : Bool). select test m ≡ ok (push k r l)) (sym (off refl)) rest

module _ (f : Ieee) (of_int : ℕ → ℕ) where
  abbrev pub holds : Expression → Record → Result Bool
  holds p r = tested (evaluate f of_int p r)

  -- The left part of each conjunction has Boolean values or null, if any.
  abbrev pub Logical : Expression → Type 0
  Logical (logic conjunction a b) =
      ((r : Record) (v : Value) → evaluate f of_int a r ≡ ok v → Truth v) × Logical a
  Logical _ = Unit {0}

  holds-conjunction :
      (a b : Expression) (r : Record) (x : Bool)
      → Logical (logic conjunction a b)
      → holds (logic conjunction a b) r ≡ ok x
      → Composed x (holds a r) (holds b r)
  unfolding evaluate
  holds-conjunction a b r x (truth, more) run =
      conjoined-Composed (evaluate f of_int a r) (evaluate f of_int b r) x (truth r) run

  pub select-both :
      (a b : Expression) (rs l : List Record)
      → Logical (logic conjunction a b)
      → select (holds (logic conjunction a b)) rs ≡ ok l
      → (m : List Record) × (select (holds a) rs ≡ ok m) × (select (holds b) m ≡ ok l)
  unfolding select
  select-both a b [] l logical run = ([], refl, run)
  select-both a b (r ∷ rs) l logical run =
      let (x, one, more) = bind_ok (holds (logic conjunction a b) r) _ l run in
      let (l', rest, same) =
        bind_ok (select (holds (logic conjunction a b)) rs) (λ t. ok (push x r t)) l more in
      let (y, first, second, off) = holds-conjunction a b r x logical one in
      let (m, left, right) = select-both a b rs l' logical rest in
      (
        push y r m,
        select_cons (holds a) r rs m y first left,
        select_pushed (holds b) r m l' x y second off right ∙ same,
      )
