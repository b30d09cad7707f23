-- ===== src/Transaction/Invariant.antt =====
-- The tables of the transaction manager agree, and its ids are fresh.
use database_hw.Prelude.{
  ℕ, ◌+◌, ◌%◌, ◌^◌, ◌≤◌, ◌<◌, ◌≡◌, refl, ◌⊎◌, inl, inr, none, some, List, [], ◌∷◌, find, insert,
  erase, eq_nat, find-insert, find-erase, ltb, arith, Bool-cases, Option-cases,
}
use database_hw.Result.{ok, throw, xid_not_found}
use database_hw.Lock.{release_locks}
use database_hw.Lock.Safety.{IsSafe, release_locks-IsSafe}
use database_hw.Transaction.{
  TransactionManager, Call, begins, commits, rolls_back, takes_cid, sets_next, begin, commit,
  rollback, get_cid_and_increment, set_next_xid, active_transactions, after, step, run,
}

-- A transaction is active when it has a command id.
abbrev pub IsActive : TransactionManager → ℕ → Type 0
IsActive tm xid = (cid : ℕ) × (find xid tm.xid2cid ≡ some cid)

pub record IsValid (tm : TransactionManager) : Type 0 where
  pub paired :
      (xid : ℕ)
      → (find xid tm.xid2cid ≡ none → find xid tm.xid2active_set ≡ none)
        × (find xid tm.xid2active_set ≡ none → find xid tm.xid2cid ≡ none)
  pub fresh : (xid : ℕ) → tm.next_xid ≤ xid → find xid tm.xid2cid ≡ none
  pub safe : IsSafe tm.lock_manager

-- The next id is not the last that 32 bits hold.
abbrev pub Room : TransactionManager → Type 0
Room tm = tm.next_xid + 1 < 2 ^ 32

begin-IsValid : (tm : TransactionManager) → Room tm → IsValid tm → IsValid (begin tm).0
unfolding begin
begin-IsValid tm h v = record {
  paired = λ xid. ground (
    arith,
    find-insert tm.next_xid xid (active_transactions tm) tm.xid2active_set,
    find-insert tm.next_xid xid 1 tm.xid2cid,
    v.paired xid,
  );
  fresh = λ xid le. ground (arith, find-insert tm.next_xid xid 1 tm.xid2cid, v.fresh xid);
  safe = v.safe;
}

-- The manager after the end of a transaction.
abbrev pub finish : TransactionManager → ℕ → TransactionManager
finish tm xid = record tm {
  lock_manager = release_locks xid tm.lock_manager;
  xid2cid = erase xid tm.xid2cid;
  xid2active_set = erase xid tm.xid2active_set;
}

pub commit_cases :
    (tm : TransactionManager) (xid : ℕ)
    → (commit tm xid ≡ throw xid_not_found) ⊎ (commit tm xid ≡ ok (finish tm xid))
unfolding commit
commit_cases tm xid = elim (Option-cases (find xid tm.xid2cid)) [
  | inl none_cid ↦ inl (rw (none_cid, commit))
  | inr (cid, some_cid) ↦ elim (Option-cases (find xid tm.xid2active_set)) [
    | inl none_set ↦ inl (rw (some_cid, none_set, commit))
    | inr (set, some_set) ↦ inr (rw (some_cid, some_set, commit))
  ]
]

pub get_cid_cases :
    (tm : TransactionManager) (xid : ℕ)
    → (get_cid_and_increment tm xid ≡ throw xid_not_found)
      ⊎ ((cid : ℕ) × (find xid tm.xid2cid ≡ some cid)
          × (get_cid_and_increment tm xid
              ≡ ok (record tm { xid2cid = insert xid ((cid + 1) % 2 ^ 32) tm.xid2cid }, cid)))
unfolding get_cid_and_increment
get_cid_cases tm xid = elim (Option-cases (find xid tm.xid2cid)) [
  | inl e ↦ inl (rw (e, get_cid_and_increment))
  | inr (cid, e) ↦ inr (cid, e, rw (e, get_cid_and_increment))
]

pub finish-IsValid : (tm : TransactionManager) (xid : ℕ) → IsValid tm → IsValid (finish tm xid)
finish-IsValid tm xid v = record {
  paired = λ b.
      ground (arith, find-erase xid b tm.xid2active_set, find-erase xid b tm.xid2cid, v.paired b);
  fresh = λ b le. ground (arith, find-erase xid b tm.xid2cid, v.fresh b);
  safe = release_locks-IsSafe xid tm.lock_manager v.safe;
}

get_cid-IsValid :
    (tm : TransactionManager) (xid : ℕ)
    → IsValid tm
    → IsValid (after tm (get_cid_and_increment tm xid) (λ r. r.0))
get_cid-IsValid tm xid v = elim (get_cid_cases tm xid) [
  | inl e ↦ rw (e, after) v
  | inr (cid, held, e) ↦
      let next : ℕ = (cid + 1) % 2 ^ 32 in
      rw (e, after)
        (record {
          paired = λ b. ground (arith, find-insert xid b next tm.xid2cid, v.paired b);
          fresh = λ b le. ground (arith, find-insert xid b next tm.xid2cid, v.fresh b);
          safe = v.safe;
        })
]

commit-IsValid :
    (tm : TransactionManager) (xid : ℕ) → IsValid tm → IsValid (after tm (commit tm xid) (λ t. t))
commit-IsValid tm xid v = elim (commit_cases tm xid) [
  | inl e ↦ rw (e, after) v
  | inr e ↦ rw (e, after) (finish-IsValid tm xid v)
]

set_next_xid-IsValid :
    (tm : TransactionManager) (xid : ℕ) → IsValid tm → IsValid (set_next_xid tm xid)
unfolding set_next_xid
set_next_xid-IsValid tm xid v = elim (Bool-cases (ltb tm.next_xid xid)) [
  | inl e ↦
      rw e (record { paired = v.paired; fresh = λ b le. v.fresh b (ground arith); safe = v.safe })
  | inr e ↦ rw e v
]

-- The source's two functions have one body.
pub rollback-commit : (tm : TransactionManager) (xid : ℕ) → rollback tm xid ≡ commit tm xid
unfolding rollback commit
rollback-commit tm xid = refl

pub step-IsValid : (tm : TransactionManager) (c : Call) → Room tm → IsValid tm → IsValid (step tm c)
unfolding step
step-IsValid tm begins h v = begin-IsValid tm h v
step-IsValid tm (commits xid) h v = commit-IsValid tm xid v
step-IsValid tm (rolls_back xid) h v = rw rollback-commit (commit-IsValid tm xid v)
step-IsValid tm (takes_cid xid) h v = get_cid-IsValid tm xid v
step-IsValid tm (sets_next xid) h v = set_next_xid-IsValid tm xid v

-- No call finds the last id used up.
abbrev pub Fits : TransactionManager → List Call → Type 0
Fits tm [] = Unit {0}
Fits tm (c ∷ cs) = Room tm × Fits (step tm c) cs

-- After any calls the tables of the manager agree: a transaction has a command id exactly when it
-- has a snapshot, no id in use is the next or a later one, and the lock map is safe.
pub run-IsValid :
    (tm : TransactionManager) (cs : List Call) → Fits tm cs → IsValid tm → IsValid (run tm cs)
unfolding run
run-IsValid tm [] f v = v
run-IsValid tm (c ∷ cs) f v = run-IsValid (step tm c) cs f.1 (step-IsValid tm c f.0 v)
