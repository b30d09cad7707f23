-- ===== src/Transaction/Tests.antt =====
-- Runs of src/transaction/transaction_manager.cpp, and the theorems at them.
use database_hw.Prelude.{◌⊎◌, ◌≡◌, refl, List, [], ◌∷◌, arith}
use database_hw.Result.{ok}
use database_hw.Lock.{release_locks}
use database_hw.Transaction.{
  TransactionManager, Call, begins, commits, rolls_back, takes_cid, init, begin, commit, rollback,
  get_cid_and_increment, get_snapshot, active_transactions, step, run,
}
use database_hw.Transaction.Invariant.{IsValid, Fits, run-IsValid}
use database_hw.Transaction.Ends.{Refused, Ended, commit-rollback}
use database_hw.Transaction.Snapshot.{SparesAll, get_snapshot-run-begin}

abbrev empty : TransactionManager
empty = init [] 1

empty-IsValid : IsValid empty
empty-IsValid = record {
  paired = λ xid. (λ h. refl, λ h. refl);
  fresh = λ xid h. refl;
  safe = record { distinct = tt; single = λ xid. tt; admit = λ a b ne l k hl hk. absurd hl };
}

-- Two transactions begin, the first takes a command id, and both end.
abbrev calls : List Call
calls = begins ∷ begins ∷ takes_cid 1 ∷ commits 1 ∷ rolls_back 2 ∷ []

calls-Fits : Fits empty calls
unfolding step begin commit rollback get_cid_and_increment release_locks
calls-Fits = (omega arith, (omega arith, (omega arith, (omega arith, (omega arith, tt)))))

run-IsValid_example : IsValid (run empty calls)
run-IsValid_example = run-IsValid empty calls calls-Fits empty-IsValid

-- With transactions 1 and 2 active, 3 begins, and 2 ends.
abbrev two_active : TransactionManager
two_active = run empty (begins ∷ begins ∷ [])

two-Fits : Fits empty (begins ∷ begins ∷ [])
unfolding step begin
two-Fits = (omega arith, (omega arith, tt))

two_active-IsValid : IsValid two_active
two_active-IsValid = run-IsValid empty (begins ∷ begins ∷ []) two-Fits empty-IsValid

others : Fits two_active (begins ∷ commits 2 ∷ begins ∷ [])
unfolding run step begin commit release_locks
others = (omega arith, (omega arith, (omega arith, tt)))

spared : SparesAll two_active.next_xid (commits 2 ∷ begins ∷ [])
unfolding run step begin
spared = (omega arith, (tt, tt))

get_snapshot-run-begin_example :
    get_snapshot (run (begin two_active).0 (commits 2 ∷ begins ∷ [])) (begin two_active).1
    ≡ ok (active_transactions two_active)
get_snapshot-run-begin_example =
    get_snapshot-run-begin two_active (commits 2 ∷ begins ∷ []) two_active-IsValid others spared

runs : (active_transactions two_active ≡ 1 ∷ 2 ∷ []) × (get_snapshot two_active 2 ≡ ok (1 ∷ []))
unfolding run step begin get_snapshot
runs = (refl, refl)

commit-rollback_example : Refused two_active 2 ⊎ Ended two_active 2
commit-rollback_example = commit-rollback two_active 2 two_active-IsValid
