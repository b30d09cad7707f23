-- ===== src/Executor/Limit/Rows.antt =====
-- The rows that LIMIT and OFFSET let through.
use database_hw.Prelude.{
  ℕ, zero, suc, ◌+◌, ◌-◌, ◌≡◌, refl, sym, ap, ap₂, subst, ◌∙◌, Option, none, some, List, [], ◌∷◌,
  inl, inr, true, false, Bool-cases, take, ltb, if◌then◌else◌, arith,
}
use database_hw.Executor.{Executor, after_calls, AtEnd, Yields}
use database_hw.Executor.Limit.{
  LimitState, wanted_offset, limit_init, skip, limited_next, limit_next, limit_executor,
}

abbrev pub drop : {R : Type 0} → ℕ → List R → List R
drop zero rs = rs
drop (suc n) [] = []
drop (suc n) (r ∷ rs) = drop n rs

-- With no limit all rows, or so many of the first.
abbrev pub at_most : {R : Type 0} → Option ℕ → List R → List R
at_most none rs = rs
at_most (some n) rs = take n rs

-- Two states that answer the next call alike yield the same.
Yields-same :
    {R : Type 0} (e : Executor R) (st st' : e.State) (rs : List R)
    → e.next st ≡ e.next st'
    → Yields e st' rs
    → Yields e st rs
Yields-same e st st' [] same y = AtEnd-same
  where
    AtEnd-same : AtEnd e st
    AtEnd-same zero = ap (λ r. r.1) same ∙ y zero
    AtEnd-same (suc n) = ap (λ r. (e.next (after_calls e n r.0)).1) same ∙ y (suc n)
Yields-same e st st' (r ∷ rs) same y =
    (ap (λ a. a.1) same ∙ y.0, subst (λ a. Yields e a.0 rs) (sym same) y.1)

module _ {R : Type 0} (child : Executor R) (limit_offset limit_count : Option ℕ) where
  abbrev limit : Executor R
  limit = limit_executor child limit_offset limit_count

  skip-AtEnd :
      (n : ℕ) (st : child.State)
      → AtEnd child st
      → AtEnd child (skip child limit_offset limit_count n st)
  skip-AtEnd zero st y = y
  skip-AtEnd (suc n) st y = skip-AtEnd n (child.next st).0 (λ k. y (suc k))

  skip-Yields :
      (n : ℕ) (st : child.State) (rs : List R)
      → Yields child st rs
      → Yields child (skip child limit_offset limit_count n st) (drop n rs)
  skip-Yields zero st rs y = y
  skip-Yields (suc n) st [] y = skip-AtEnd n (child.next st).0 (λ k. y (suc k))
  skip-Yields (suc n) st (r ∷ rs) y = skip-Yields n (child.next st).0 rs y.1

  -- The state behind the offset.
  abbrev behind : ℕ → child.State → LimitState child.State
  behind count st = record {
    count = count;
    offset = wanted_offset child limit_offset limit_count;
    child = st;
  }

  next-behind :
      (count : ℕ) (st : child.State)
      → limit_next child limit_offset limit_count (behind count st)
        ≡ limited_next child limit_offset limit_count (behind count st)
  unfolding limit_next
  next-behind count st =
      let w = wanted_offset child limit_offset limit_count in
      let none_left : w - w ≡ 0 = omega arith in
      let same : (if ltb w w then w else w) ≡ w = ground arith in rw (none_left, same) refl

  next-init :
      (st : child.State)
      → limit_next child limit_offset limit_count (limit_init child limit_offset limit_count st)
        ≡ limit_next child limit_offset limit_count (
            behind 0 (
              skip child limit_offset limit_count
                (wanted_offset child limit_offset limit_count)
                st))
  unfolding limit_next
  next-init st =
      let w = wanted_offset child limit_offset limit_count in
      let moved : (if ltb 0 w then w else 0) ≡ w = ground arith in
      let rounds : w - 0 ≡ w = omega arith in
      ap₂
        (λ (o k : ℕ).
          limited_next child limit_offset limit_count
            (record { count = 0; offset = o; child = skip child limit_offset limit_count k st }))
        moved rounds
      ∙ sym (next-behind 0 (skip child limit_offset limit_count w st))

  -- What one call does decides what the state yields.
  ended :
      (st st' : LimitState child.State)
      → limit_next child limit_offset limit_count st ≡ (st', none)
      → AtEnd limit st'
      → AtEnd limit st
  ended st st' e y zero = ap (λ a. a.1) e
  ended st st' e y (suc n) =
      subst
        (λ (a : LimitState child.State).
          (limit_next child limit_offset limit_count (after_calls limit n a)).1 ≡ none)
        (sym (ap (λ a. a.0) e)) (y n)

  answered :
      (st st' : LimitState child.State) (r : R) (rs : List R)
      → limit_next child limit_offset limit_count st ≡ (st', some r)
      → Yields limit st' rs
      → Yields limit st (r ∷ rs)
  answered st st' r rs e y = (
    ap (λ a. a.1) e,
    subst (λ (a : LimitState child.State). Yields limit a rs) (sym (ap (λ a. a.0) e)) y,
  )

module _ {R : Type 0} (child : Executor R) (lo : Option ℕ) where
  all_rows :
      (count : ℕ) (st : child.State) (rs : List R)
      → Yields child st rs
      → Yields (limit_executor child lo none) (behind child lo none count st) rs
  all_rows count st [] y = at_end st y
    where
      at_end :
          (st : child.State)
          → AtEnd child st
          → AtEnd (limit_executor child lo none) (behind child lo none count st)
      at_end st y zero = ap (λ a. a.1) (next-behind child lo none count st) ∙ y zero
      at_end st y (suc n) =
          subst
            (λ (a : LimitState child.State).
              (limit_next child lo none (after_calls (limit_executor child lo none) n a)).1 ≡ none)
            (sym (ap (λ a. a.0) (next-behind child lo none count st)))
            (at_end (child.next st).0 (λ k. y (suc k)) n)
  all_rows count st (r ∷ rs) y =
      answered child lo none (behind child lo none count st)
        (behind child lo none count (child.next st).0) r rs
        (next-behind child lo none count st
          ∙ ap (λ (a : Option R). (behind child lo none count (child.next st).0, a)) y.0)
        (all_rows count (child.next st).0 rs y.1)

module _ {R : Type 0} (child : Executor R) (lo : Option ℕ) (most : ℕ) where
  abbrev bounded : Executor R
  bounded = limit_executor child lo (some most)

  abbrev counted : ℕ → child.State → LimitState child.State
  counted count st = behind child lo (some most) count st

  call_within :
      (count : ℕ) (st : child.State)
      → ltb count most ≡ true
      → limit_next child lo (some most) (counted count st)
        ≡ (counted (count + 1) (child.next st).0, (child.next st).1)
  call_within count st h = next-behind child lo (some most) count st ∙ rw h refl

  call_past :
      (count : ℕ) (st : child.State)
      → ltb count most ≡ false
      → limit_next child lo (some most) (counted count st) ≡ (counted count st, none)
  call_past count st h = next-behind child lo (some most) count st ∙ rw h refl

  past-AtEnd :
      (count : ℕ) (st : child.State) → ltb count most ≡ false → AtEnd bounded (counted count st)
  past-AtEnd count st h zero = ap (λ a. a.1) (call_past count st h)
  past-AtEnd count st h (suc n) =
      subst
        (λ (a : LimitState child.State).
          (limit_next child lo (some most) (after_calls bounded n a)).1 ≡ none)
        (sym (ap (λ a. a.0) (call_past count st h))) (past-AtEnd count st h n)

  no_row-AtEnd : (count : ℕ) (st : child.State) → AtEnd child st → AtEnd bounded (counted count st)
  no_row-AtEnd count st y zero = elim (Bool-cases (ltb count most)) [
    | inl h ↦ ap (λ a. a.1) (call_within count st h) ∙ y zero
    | inr h ↦ past-AtEnd count st h zero
  ]
  no_row-AtEnd count st y (suc n) =
      let rest = no_row-AtEnd (count + 1) (child.next st).0 (λ k. y (suc k)) n in
      elim (Bool-cases (ltb count most)) [
        | inl h ↦
            subst
              (λ (a : LimitState child.State).
                (limit_next child lo (some most) (after_calls bounded n a)).1 ≡ none)
              (sym (ap (λ a. a.0) (call_within count st h))) rest
        | inr h ↦ past-AtEnd count st h (suc n)
      ]

  first_rows :
      (count : ℕ) (st : child.State) (rs : List R)
      → Yields child st rs
      → Yields bounded (counted count st) (take (most - count) rs)
  first_rows count st [] y = no_row-AtEnd count st y
  first_rows count st (r ∷ rs) y = elim (Bool-cases (ltb count most)) [
    | inl h ↦
        let e : most - count ≡ suc (most - (count + 1)) = ground arith in
        rw e (
          answered child lo (some most) (counted count st) (counted (count + 1) (child.next st).0) r
            (take (most - (count + 1)) rs)
            (call_within count st h
              ∙ ap (λ (a : Option R). (counted (count + 1) (child.next st).0, a)) y.0)
            (first_rows (count + 1) (child.next st).0 rs y.1))
    | inr h ↦ let e : most - count ≡ 0 = ground arith in rw e (past-AtEnd count st h)
  ]

-- Over an executor that answers with some rows and then with null for ever, LIMIT and OFFSET answer
-- with the rows behind the offset, at most as many as the limit, if there is one, and then with
-- null for ever.
pub limit_executor-Yields :
    {R : Type 0} (child : Executor R) (limit_offset limit_count : Option ℕ) (st : child.State)
    (rs : List R)
    → Yields child st rs
    → Yields
        (limit_executor child limit_offset limit_count)
        (limit_init child limit_offset limit_count st)
        (at_most limit_count (drop (wanted_offset child limit_offset limit_count) rs))
limit_executor-Yields child lo none st rs y =
    let w = wanted_offset child lo none in
    Yields-same (limit_executor child lo none) _ (behind child lo none 0 (skip child lo none w st))
      (drop w rs) (next-init child lo none st)
      (all_rows child lo 0 (skip child lo none w st) (drop w rs)
        (skip-Yields child lo none w st rs y))
limit_executor-Yields child lo (some n) st rs y =
    let w = wanted_offset child lo (some n) in
    let whole : n - 0 ≡ n = omega arith in
    Yields-same (limit_executor child lo (some n)) _
      (behind child lo (some n) 0 (skip child lo (some n) w st)) (take n (drop w rs))
      (next-init child lo (some n) st)
      (subst
        (λ (k : ℕ).
          Yields (limit_executor child lo (some n))
            (behind child lo (some n) 0 (skip child lo (some n) w st)) (take k (drop w rs)))
        whole
        (first_rows child lo n 0 (skip child lo (some n) w st) (drop w rs)
          (skip-Yields child lo (some n) w st rs y)))
