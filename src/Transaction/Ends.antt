-- ===== src/Transaction/Ends.antt =====
-- What the end of a transaction does, and when it is refused.
use database_hw.Prelude.{
  ℕ, ◌≡◌, refl, ◌⊎◌, inl, inr, none, [], find, eq_nat, find-erase, find-insert, arith, Option-cases,
}
use database_hw.Result.{ok, throw, xid_not_found}
use database_hw.Lock.{locks, release_locks}
use database_hw.Transaction.{
  TransactionManager, commit, rollback, get_snapshot, get_cid_and_increment,
}
use database_hw.Transaction.Invariant.{IsActive, IsValid, finish, rollback-commit, finish-IsValid}

-- The transaction is not known.
pub record Refused (tm : TransactionManager) (xid : ℕ) : Type 0 where
  pub inactive : ¬ IsActive tm xid
  pub commits : commit tm xid ≡ throw xid_not_found
  pub rolls_back : rollback tm xid ≡ throw xid_not_found
  pub takes_cid : get_cid_and_increment tm xid ≡ throw xid_not_found
  pub snapshot : get_snapshot tm xid ≡ throw xid_not_found

-- The transaction ended: the manager knows it no more, and it holds no lock.
pub record Ended (tm : TransactionManager) (xid : ℕ) : Type 0 where
  pub active : IsActive tm xid
  pub commits : commit tm xid ≡ ok (finish tm xid)
  pub rolls_back : rollback tm xid ≡ ok (finish tm xid)
  pub valid : IsValid (finish tm xid)
  pub unlocked : locks xid (finish tm xid).lock_manager ≡ []
  pub refused : Refused (finish tm xid) xid

inactive-Refused :
    (tm : TransactionManager) (xid : ℕ) → IsValid tm → find xid tm.xid2cid ≡ none → Refused tm xid
unfolding commit rollback get_snapshot get_cid_and_increment
inactive-Refused tm xid v e = record {
  inactive = λ a. ground (arith, a.1);
  commits = rw (e, commit) refl;
  rolls_back = rw (e, rollback) refl;
  takes_cid = rw (e, get_cid_and_increment) refl;
  snapshot = rw ((v.paired xid).0 e, get_snapshot) refl;
}

-- In a manager whose tables agree, a transaction that is not active is refused by every call, and
-- an active one ends by `Commit` and by `Rollback` alike: afterwards the tables agree, it holds no
-- lock, and every call on it is refused.
pub commit-rollback :
    (tm : TransactionManager) (xid : ℕ) → IsValid tm → Refused tm xid ⊎ Ended tm xid
unfolding commit release_locks
commit-rollback tm xid v = elim (Option-cases (find xid tm.xid2cid)) [
  | inl e ↦ inl (inactive-Refused tm xid v e)
  | inr (cid, e) ↦ elim (Option-cases (find xid tm.xid2active_set)) [
    | inl none_set ↦ absurd (ground (arith, (v.paired xid).1 none_set))
    | inr (set, some_set) ↦
        let done : commit tm xid ≡ ok (finish tm xid) = rw (e, some_set, commit) refl in
        let valid = finish-IsValid tm xid v in
        inr (record {
          active = (cid, e);
          commits = done;
          rolls_back = rw (rollback-commit) done;
          valid = valid;
          unlocked = ground (arith, find-insert xid xid [] tm.lock_manager);
          refused =
              inactive-Refused (finish tm xid) xid valid
                (ground (arith, find-erase xid xid tm.xid2cid));
        })
  ]
]
