-- ===== src/Executor/Query/Join/Emitted.antt =====
-- The calls of a nested-loop join, the first of which takes the records of both sides.
use mathlib.Core.List.{append_assoc}
use database_hw.Prelude.{
  ℕ, suc, ◌+◌, ◌<◌, ◌≡◌, refl, sym, ap, subst, ◌∙◌, inl, inr, Bool, true, false, ◌||◌, Bool-cases,
  Option, none, some, List, [], ◌∷◌, ◌++◌, Has, Has-append, nat_eq, ltb, length, length-append,
  get_elem?, if◌then◌else◌, ◌⊎◌, arith,
}
use database_hw.Result.{Result, ok}
use database_hw.Value.Compare.{Ieee}
use database_hw.Expression.{Expression}
use database_hw.Record.{Record}
use database_hw.Executor.Query.{Answer, and_then, QueryExecutor, Emits, drain, drain-Emits}
use database_hw.Executor.Query.Join.{
  JoinState, copy_of, join_init, join_rows, show, join_drained, join_next, join_executor,
}
use database_hw.Executor.Query.Join.Pairs.{row_pairs, pairs, copies, Joins, join_rows-pairs}

get_elem?-middle :
    {A : Type 0} (before rest : List A) (x : A)
    → get_elem? (before ++ x ∷ rest) (length before) ≡ some x
get_elem?-middle [] rest x = refl
get_elem?-middle (b ∷ before) rest x = get_elem?-middle before rest x

row_pairs-nil :
    (holds : Record → Record → Bool) (g : Record → Record → Record) (ls : List Record)
    → pairs holds g ls [] ≡ []
row_pairs-nil holds g [] = refl
row_pairs-nil holds g (l ∷ ls) = row_pairs-nil holds g ls

pairs-empty :
    (holds : Record → Record → Bool) (g : Record → Record → Record) (ls rs : List Record)
    → (nat_eq (length ls) 0 || nat_eq (length rs) 0) ≡ true
    → pairs holds g ls rs ≡ []
pairs-empty holds g [] rs e = refl
pairs-empty holds g (l ∷ ls) [] e = row_pairs-nil holds g ls
pairs-empty holds g (l ∷ ls) (r ∷ rs) e = absurd (ground (arith, e))

-- What holds of each accepted pair holds of each element of the list of them.
row_pairs-all :
    (P : Record → Type 0) (holds : Record → Record → Bool) (g : Record → Record → Record)
    (l : Record) (rs : List Record)
    → ((r : Record) → Has r rs → P (g l r))
    → (j : Record) → Has j (row_pairs holds g l rs)
    → P j
row_pairs-all P holds g l [] p j h = absurd h
row_pairs-all P holds g l (r ∷ rs) p j h =
    pick (row_pairs-all P holds g l rs (λ s k. p s (inr k)) j) (holds l r) h
  where
    pick :
        (Has j (row_pairs holds g l rs) → P j)
        → (b : Bool) → Has j (if b then g l r ∷ row_pairs holds g l rs else row_pairs holds g l rs)
        → P j
    pick rest true (inl e) = subst P (sym e) (p r (inl refl))
    pick rest true (inr k) = rest k
    pick rest false k = rest k

pairs-all :
    (P : Record → Type 0) (holds : Record → Record → Bool) (g : Record → Record → Record)
    (ls rs : List Record)
    → ((l r : Record) → Has l ls → Has r rs → P (g l r))
    → (j : Record) → Has j (pairs holds g ls rs)
    → P j
pairs-all P holds g [] rs p j h = absurd h
pairs-all P holds g (l ∷ ls) rs p j h =
    split (Has-append j (row_pairs holds g l rs) (pairs holds g ls rs) h)
      (row_pairs-all P holds g l rs (λ r k. p l r (inl refl) k) j)
      (pairs-all P holds g ls rs (λ m r k n. p m r (inr k) n) j)
  where
    split : {A B C : Type 0} → A ⊎ B → (A → C) → (B → C) → C
    split (inl a) f g = f a
    split (inr b) f g = g b

module _ (f : Ieee) (of_int : ℕ → ℕ) (join_condition : Expression) (left right : QueryExecutor)
    (fuel : ℕ) (copied : Record → Record) where
  abbrev executor : QueryExecutor
  executor = join_executor f of_int join_condition left right fuel

  abbrev shows :
      JoinState left.State right.State
      → ℕ
      → Answer (JoinState left.State right.State × Option Record)
  shows = show f of_int join_condition left right

  show-runs :
      (s : JoinState left.State right.State) (i : ℕ) (x : Record)
      → get_elem? s.records i ≡ some x
      → copy_of x ≡ ok (copied x)
      → shows s i ≡ some (ok (s, some (copied x)))
  show-runs s i x at e =
      ap
        (λ (o : Option Record).
          let answer : Answer (JoinState left.State right.State × Option Record) = elim o [
            | none ↦ some (ok (s, none))
            | some r ↦ and_then (some (copy_of r)) λ c. some (ok (s, some c))
          ] in
          answer)
        at
      ∙ ap (λ (c : Result Record). and_then (some c) λ (c : Record). some (ok (s, some c))) e

  -- The calls behind the first go through the rest of the records.
  show-Emits_rest :
      (before rest : List Record) (s : JoinState left.State right.State)
      → s.records ≡ before ++ rest
      → s.cnt ≡ length before
      → 0 < s.cnt
      → ((j : Record) → Has j rest → copy_of j ≡ ok (copied j))
      → Emits executor s (copies copied rest)
  unfolding join_next
  show-Emits_rest before [] s e n pos c =
      let started : nat_eq s.cnt 0 ≡ false = ground (arith, pos) in
      let size : length s.records ≡ length before =
        ap length e ∙ length-append before [] ∙ omega arith in
      let over : ltb s.cnt (length s.records) ≡ false = ground (arith, size, n) in
      (s, rw (join_next, started, over) refl)
  show-Emits_rest before (x ∷ rest) s e n pos c =
      let started : nat_eq s.cnt 0 ≡ false = ground (arith, pos) in
      let size : length s.records ≡ length before + suc (length rest) =
        ap length e ∙ length-append before (x ∷ rest) in
      let more : ltb s.cnt (length s.records) ≡ true = ground (arith, size, n) in
      let s' : JoinState left.State right.State = record s { cnt = s.cnt + 1 } in
      let at : get_elem? s.records s.cnt ≡ some x =
        ap (λ (k : ℕ). get_elem? s.records k) n
        ∙ ap (λ (l : List Record). get_elem? l (length before)) e
        ∙ get_elem?-middle before rest x in
      let start : join_next f of_int join_condition left right fuel s ≡ shows s' s.cnt =
        rw (join_next, started, more) refl in
      (
        s',
        start ∙ show-runs s' s.cnt x at (c x (inl refl)),
        show-Emits_rest (before ++ x ∷ []) rest s' (e ∙ sym (append_assoc before (x ∷ []) rest))
            (omega (arith, n, length-append before (x ∷ []))) (omega arith) (λ j h. c j (inr h)),
      )

  module _ (holds : Record → Record → Bool) (joined : Record → Record → Record)
      (ls rs : List Record) (l0 : left.State) (r0 : right.State) where
    abbrev drained : left.State → right.State → JoinState left.State right.State
    drained l1 r1 = record { cnt = 0; records = []; left = l1; right = r1 }

    abbrev finish :
        JoinState left.State right.State → Answer (JoinState left.State right.State × Option Record)
    finish s = join_drained f of_int join_condition left right s ls rs

    first_call :
        Emits left l0 ls
        → Emits right r0 rs
        → length ls < fuel
        → length rs < fuel
        → (l1 : left.State) × (r1 : right.State) × (join_next f of_int join_condition left right
              fuel
              (record { cnt = 0; records = []; left = l0; right = r0 })
            ≡ finish (drained l1 r1))
    unfolding join_next
    first_call el er hl hr =
        let (l1, run_l) = drain-Emits left ls fuel l0 [] el hl in
        let (r1, run_r) = drain-Emits right rs fuel r0 [] er hr in
        (
          l1,
          r1,
          ap
                (λ (a : Answer (left.State × List Record)).
                  and_then a λ (l : left.State × List Record).
                    and_then (drain right fuel r0 []) λ (r : right.State × List Record).
                      join_drained f of_int join_condition left right
                        (record { cnt = 0; records = []; left = l.0; right = r.0 }) l.1 r.1)
                run_l
              ∙ ap
                  (λ (a : Answer (right.State × List Record)).
                    and_then a λ (r : right.State × List Record).
                      join_drained f of_int join_condition left right
                        (record { cnt = 0; records = []; left = l1; right = r.0 }) ls r.1)
                  run_r,
        )

    -- What is shown of the records that the loops leave.
    show-Emits :
        (records : List Record) (s : JoinState left.State right.State) (l1 : left.State)
        (r1 : right.State)
        → join_next f of_int join_condition left right fuel s
          ≡ shows (record { cnt = 1; records = records; left = l1; right = r1 }) 0
        → ((j : Record) → Has j records → copy_of j ≡ ok (copied j))
        → Emits executor s (copies copied records)
    show-Emits [] s l1 r1 run c = (record { cnt = 1; records = []; left = l1; right = r1 }, run)
    show-Emits (x ∷ rest) s l1 r1 run c =
        let s1 : JoinState left.State right.State = record {
          cnt = 1;
          records = x ∷ rest;
          left = l1;
          right = r1;
        } in
        (
          s1,
          run ∙ show-runs s1 0 x refl (c x (inl refl)),
          show-Emits_rest (x ∷ []) rest s1 refl refl (omega arith) (λ j h. c j (inr h)),
        )

    -- Over two executors that emit these records, on each pair of which the condition has a value
    -- and the records can be joined and copied, and with fuel for the records of either side, the
    -- join emits copies of the joined pairs that the condition accepts, in the order of the loops,
    -- and then null, also where a side is empty.
    pub join_executor-Emits :
        Emits left l0 ls
        → Emits right r0 rs
        → length ls < fuel
        → length rs < fuel
        → ((l r : Record)
            → Has l ls
            → Has r rs
            → Joins f of_int join_condition left right holds joined l r)
        → ((l r : Record) → Has l ls → Has r rs → copy_of (joined l r) ≡ ok (copied (joined l r)))
        → Emits
            (join_executor f of_int join_condition left right fuel)
            (join_init f of_int join_condition left right l0 r0)
            (copies copied (pairs holds joined ls rs))
    join_executor-Emits el er hl hr j c =
        let (l1, r1, run) = first_call el er hl hr in
        let s1 = drained l1 r1 in
        elim (Bool-cases (nat_eq (length ls) 0 || nat_eq (length rs) 0)) [
          | inl empty ↦
              subst
                (λ (records : List Record). Emits executor (drained l0 r0) (copies copied records))
                (sym (pairs-empty holds joined ls rs empty))
                (s1, run ∙ (let null : finish s1 ≡ some (ok (s1, none)) = rw (empty) refl in null))
          | inr full ↦
              let rows =
                join_rows-pairs f of_int join_condition left right holds joined ls rs [] j in
              let shown : finish s1
                  ≡ and_then (some (join_rows f of_int join_condition left right ls rs []))
                      λ (records : List Record).
                        shows (record { cnt = 1; records = records; left = l1; right = r1 }) 0 =
                rw (full) refl in
              show-Emits (pairs holds joined ls rs) (drained l0 r0) l1 r1
                (run
                  ∙ shown
                  ∙ ap
                      (λ (x : Result (List Record)). and_then (some x) λ (records : List Record).
                        shows (record { cnt = 1; records = records; left = l1; right = r1 }) 0)
                      rows)
                (pairs-all (λ (x : Record). copy_of x ≡ ok (copied x)) holds joined ls rs c)
        ]
