-- ===== src/Transaction/Snapshot.antt =====
-- A transaction's snapshot from its begin to its end.
use database_hw.Prelude.{
  ℕ, ◌+◌, ◌%◌, ◌^◌, ◌≡◌, ◌≢◌, refl, inl, inr, some, List, [], ◌∷◌, find, eq_nat, find-insert,
  find-erase, false, ◌∙◌, ltb, nat_eq, nat_ne, nat_eq_iff, arith, Bool-cases,
}
use database_hw.Result.{ok}
use database_hw.Transaction.{
  TransactionManager, Call, begins, commits, rolls_back, takes_cid, sets_next, begin, commit,
  get_cid_and_increment, set_next_xid, get_snapshot, active_transactions, after, step, run,
}
use database_hw.Transaction.Invariant.{
  IsActive, IsValid, Fits, finish, commit_cases, get_cid_cases, rollback-commit, step-IsValid,
}

same_snapshot :
    (a b : TransactionManager) (xid : ℕ)
    → find xid a.xid2active_set ≡ find xid b.xid2active_set
    → get_snapshot a xid ≡ get_snapshot b xid
unfolding get_snapshot
same_snapshot a b xid e = ground arith

snapshot_found :
    (a : TransactionManager) (xid : ℕ) (xids : List ℕ)
    → find xid a.xid2active_set ≡ some xids
    → get_snapshot a xid ≡ ok xids
unfolding get_snapshot
snapshot_found a xid xids e = ground arith

module _ (tm : TransactionManager) (xid : ℕ) where
  -- A transaction's snapshot and that it is active, in another state of the manager.
  abbrev pub Keeps : TransactionManager → Type 0
  Keeps after_call = IsActive after_call xid × (get_snapshot after_call xid ≡ get_snapshot tm xid)

  begin-Keeps : IsValid tm → IsActive tm xid → Keeps (begin tm).0
  unfolding begin
  begin-Keeps v (cid, e) =
      let ne : nat_eq tm.next_xid xid ≡ false = ground (arith, v.fresh xid) in
      (
        (cid, ground (arith, find-insert tm.next_xid xid 1 tm.xid2cid)),
        same_snapshot _ tm xid
            (rw (find-insert tm.next_xid xid (active_transactions tm) tm.xid2active_set, ne)),
      )

  finish-Keeps : (other : ℕ) → other ≢ xid → IsActive tm xid → Keeps (finish tm other)
  finish-Keeps other ne (cid, e) = (
    (cid, ground (arith, find-erase other xid tm.xid2cid)),
    same_snapshot _ tm xid (rw (find-erase other xid tm.xid2active_set, nat_ne other xid ne)),
  )

  commit-Keeps :
      (other : ℕ) → other ≢ xid → IsActive tm xid → Keeps (after tm (commit tm other) (λ t. t))
  commit-Keeps other ne a = elim (commit_cases tm other) [
    | inl e ↦ rw (e, after) (a, refl)
    | inr e ↦ rw (e, after) (finish-Keeps other ne a)
  ]

  get_cid-Keeps :
      (other : ℕ) → IsActive tm xid → Keeps (after tm (get_cid_and_increment tm other) (λ r. r.0))
  unfolding get_snapshot
  get_cid-Keeps other (cid, a) = elim (get_cid_cases tm other) [
    | inl e ↦ rw (e, after) ((cid, a), refl)
    | inr (c, held, e) ↦
        rw (e, after)
          (elim (Bool-cases (nat_eq other xid)) [
            | inl same ↦ (
              (
                (c + 1) % 2 ^ 32,
                rw (find-insert other xid ((c + 1) % 2 ^ 32) tm.xid2cid, same) refl,
              ),
              refl,
            )
            | inr ne ↦ ((cid, rw (find-insert other xid ((c + 1) % 2 ^ 32) tm.xid2cid, ne) a), refl)
          ])
  ]

  set_next_xid-Keeps : (n : ℕ) → IsActive tm xid → Keeps (set_next_xid tm n)
  unfolding set_next_xid
  set_next_xid-Keeps n a = elim (Bool-cases (ltb tm.next_xid n)) [
    | inl e ↦ rw e (a, same_snapshot _ tm xid refl)
    | inr e ↦ rw e (a, refl)
  ]

-- The call does not end the transaction.
abbrev pub Spares : ℕ → Call → Type 0
Spares xid (commits other) = other ≢ xid
Spares xid (rolls_back other) = other ≢ xid
Spares xid _ = Unit {0}

step-Keeps :
    (tm : TransactionManager) (xid : ℕ) (c : Call)
    → IsValid tm
    → Spares xid c
    → IsActive tm xid
    → Keeps tm xid (step tm c)
unfolding step
step-Keeps tm xid begins v s a = begin-Keeps tm xid v a
step-Keeps tm xid (commits other) v s a = commit-Keeps tm xid other s a
step-Keeps tm xid (rolls_back other) v s a = rw rollback-commit (commit-Keeps tm xid other s a)
step-Keeps tm xid (takes_cid other) v s a = get_cid-Keeps tm xid other a
step-Keeps tm xid (sets_next n) v s a = set_next_xid-Keeps tm xid n a

-- No call of the list ends the transaction.
abbrev pub SparesAll : ℕ → List Call → Type 0
SparesAll xid [] = Unit {0}
SparesAll xid (c ∷ cs) = Spares xid c × SparesAll xid cs

run-Keeps :
    (tm : TransactionManager) (xid : ℕ) (cs : List Call)
    → IsValid tm
    → Fits tm cs
    → SparesAll xid cs
    → IsActive tm xid
    → Keeps tm xid (run tm cs)
unfolding run
run-Keeps tm xid [] v f s a = (a, refl)
run-Keeps tm xid (c ∷ cs) v f s a =
    let (a', e) = step-Keeps tm xid c v s.0 a in
    let (a'', e') = run-Keeps (step tm c) xid cs (step-IsValid tm c f.0 v) f.1 s.1 a' in
    (a'', e' ∙ e)

-- The snapshot that a transaction gets when it begins holds exactly the transactions that are
-- active then, and it stays the same through any calls that do not end the transaction.
pub get_snapshot-run-begin :
    (tm : TransactionManager) (cs : List Call)
    → IsValid tm
    → Fits tm (begins ∷ cs)
    → SparesAll tm.next_xid cs
    → get_snapshot (run (begin tm).0 cs) (begin tm).1 ≡ ok (active_transactions tm)
unfolding begin step
get_snapshot-run-begin tm cs v f s =
    let (_, e) = run-Keeps _ tm.next_xid cs (step-IsValid tm begins f.0 v) f.1 s started in
    e ∙ taken
  where
    started : IsActive (begin tm).0 tm.next_xid
    started = (1, ground (arith, find-insert tm.next_xid tm.next_xid 1 tm.xid2cid))

    taken : get_snapshot (begin tm).0 tm.next_xid ≡ ok (active_transactions tm)
    taken = snapshot_found _ tm.next_xid _ (
        rw (find-insert tm.next_xid tm.next_xid (active_transactions tm) tm.xid2active_set)
          (ground (arith, nat_eq_iff tm.next_xid tm.next_xid)))
