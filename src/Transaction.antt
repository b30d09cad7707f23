-- ===== src/Transaction.antt =====
-- src/transaction/transaction_manager.{h,cpp}: transaction ids, command ids and snapshots. A set of
-- ids is a list; xids and cids are 32 bits wide.
pub mod Invariant
pub mod Ends
pub mod Snapshot
mod Tests
use database_hw.Prelude.{
  ℕ, ◌+◌, ◌%◌, ◌^◌, ◌≡◌, Option, none, some, List, [], ◌∷◌, map, find, insert, erase, eq_nat, ltb,
  if◌then◌else◌,
}
use database_hw.Result.{Result, ok, throw, undefined, DbException, xid_not_found}
use database_hw.Lock.{LockMap, release_locks}

pub record TransactionManager : Type 0 where
  pub lock_manager : LockMap
  pub next_xid : ℕ
  pub xid2cid : List (ℕ × ℕ)
  pub xid2active_set : List (ℕ × List ℕ)

abbrev pub first_cid : ℕ
first_cid = 1

abbrev pub init : LockMap → ℕ → TransactionManager
init locks next_xid = record {
  lock_manager = locks;
  next_xid = next_xid;
  xid2cid = [];
  xid2active_set = [];
}

unfoldable pub get_cid_and_increment : TransactionManager → ℕ → Result (TransactionManager × ℕ)
get_cid_and_increment tm xid = elim (find xid tm.xid2cid) [
  | none ↦ throw xid_not_found
  | some cid ↦ ok (record tm { xid2cid = insert xid ((cid + 1) % 2 ^ 32) tm.xid2cid }, cid)
]

unfoldable pub set_next_xid : TransactionManager → ℕ → TransactionManager
set_next_xid tm next_xid =
    if ltb tm.next_xid next_xid then record tm { next_xid = next_xid } else tm

-- `GetActiveTransactions`.
abbrev pub active_transactions : TransactionManager → List ℕ
active_transactions tm = map (λ e. e.0) tm.xid2cid

unfoldable pub begin : TransactionManager → TransactionManager × ℕ
begin tm =
    let xid = tm.next_xid in
    (
      record tm {
        next_xid = (xid + 1) % 2 ^ 32;
        xid2active_set = insert xid (active_transactions tm) tm.xid2active_set;
        xid2cid = insert xid first_cid tm.xid2cid;
      },
      xid,
    )

-- `Commit`; the body of `Rollback` is the same.
unfoldable pub commit : TransactionManager → ℕ → Result TransactionManager
commit tm xid = elim (find xid tm.xid2cid) [
  | none ↦ throw xid_not_found
  | some _ ↦ elim (find xid tm.xid2active_set) [
    | none ↦ throw xid_not_found
    | some _ ↦ ok (record tm {
      lock_manager = release_locks xid tm.lock_manager;
      xid2cid = erase xid tm.xid2cid;
      xid2active_set = erase xid tm.xid2active_set;
    })
  ]
]

unfoldable pub rollback : TransactionManager → ℕ → Result TransactionManager
rollback tm xid = elim (find xid tm.xid2cid) [
  | none ↦ throw xid_not_found
  | some _ ↦ elim (find xid tm.xid2active_set) [
    | none ↦ throw xid_not_found
    | some _ ↦ ok (record tm {
      lock_manager = release_locks xid tm.lock_manager;
      xid2cid = erase xid tm.xid2cid;
      xid2active_set = erase xid tm.xid2active_set;
    })
  ]
]

unfoldable pub get_snapshot : TransactionManager → ℕ → Result (List ℕ)
get_snapshot tm xid = elim (find xid tm.xid2active_set) [
  | none ↦ throw xid_not_found
  | some active ↦ ok active
]

-- The calls that change the manager.
pub data Call : Type 0 where
  begins : Call
  commits rolls_back takes_cid : ℕ → Call
  sets_next : ℕ → Call

abbrev pub after {ℓ} :
    {A : Type ℓ} → TransactionManager → Result A → (A → TransactionManager) → TransactionManager
after tm (ok a) f = f a
after tm (throw e) f = tm
after tm undefined f = tm

unfoldable pub step : TransactionManager → Call → TransactionManager
step tm begins = (begin tm).0
step tm (commits xid) = after tm (commit tm xid) (λ t. t)
step tm (rolls_back xid) = after tm (rollback tm xid) (λ t. t)
step tm (takes_cid xid) = after tm (get_cid_and_increment tm xid) (λ r. r.0)
step tm (sets_next xid) = set_next_xid tm xid

unfoldable pub run : TransactionManager → List Call → TransactionManager
run tm [] = tm
run tm (c ∷ cs) = run (step tm c) cs
