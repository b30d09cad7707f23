-- ===== src/Lock/Safety.antt =====
-- When a lock map is safe: what two transactions hold at the same time is compatible.
use database_hw.Prelude.{
  ℕ, nat_ne, ◌≡◌, refl, ◌≢◌, inl, inr, Bool, true, none, List, [], ◌∷◌, arith, all, Has, nat_eq,
  nat_eq_iff, Bool-cases, if◌then◌else◌, find, insert, find-insert, insert-insert, eq_nat, ◌∙◌,
}
use database_hw.Lock.{Lock, LockMap, compatible, locks, others_pass, release_locks}
use database_hw.Lock.Modes.{compatible_comm}
use database_hw.Lock.Claims.{same_resource, Single}

-- Two locks that may be held by two transactions at once.
abbrev pub admits : Lock → Lock → Bool
admits l k = if same_resource l k then compatible l.lock_type k.lock_type else true

pub admits_comm : (l k : Lock) → admits l k ≡ admits k l
admits_comm l k = ground (arith, compatible_comm l.lock_type k.lock_type)

-- Each key once, as in the standard map.
abbrev pub Distinct : LockMap → Type 0
Distinct [] = Unit {0}
Distinct ((j, ls) ∷ m) = (find j m ≡ none) × Distinct m

pub record IsSafe (m : LockMap) : Type 0 where
  pub distinct : Distinct m
  pub single : (xid : ℕ) → Single (locks xid m)
  pub admit :
      (a b : ℕ) → a ≢ b → (l k : Lock) → Has l (locks a m) → Has k (locks b m) → admits l k ≡ true

pub locks-insert :
    (a b : ℕ) (ls : List Lock) (m : LockMap)
    → locks b (insert a ls m) ≡ (if nat_eq a b then ls else locks b m)
locks-insert a b ls m = ground (arith, find-insert a b ls m)

pub Distinct-insert : (a : ℕ) (ls : List Lock) (m : LockMap) → Distinct m → Distinct (insert a ls m)
Distinct-insert a ls [] d = (refl, tt)
Distinct-insert a ls ((j, ks) ∷ m) d =
    ground (arith, Distinct-insert a ls m d.1, find-insert a j ls m)

-- What the last loops of the operations check.
pub others_pass-locks :
    (p : Lock → Bool) (xid b : ℕ) (m : LockMap)
    → others_pass p xid m ≡ true
    → xid ≢ b
    → all p (locks b m) ≡ true
others_pass-locks p xid b [] h ne = refl
others_pass-locks p xid b ((j, ls) ∷ m) h ne = ground (arith, others_pass-locks p xid b m)

pub locks-others_pass :
    (p : Lock → Bool) (xid : ℕ) (m : LockMap)
    → Distinct m
    → ((b : ℕ) → xid ≢ b → all p (locks b m) ≡ true)
    → others_pass p xid m ≡ true
locks-others_pass p xid [] d h = refl
locks-others_pass p xid ((j, ls) ∷ m) d h = ground (arith, h j, locks-others_pass p xid m d.1 later)
  where
    later : (b : ℕ) → xid ≢ b → all p (locks b m) ≡ true
    later b ne = ground (arith, h b ne, d.0)

-- A change to the locks of one transaction keeps the map safe if they suit the others.
pub insert-IsSafe :
    (xid : ℕ) (ls : List Lock) (m : LockMap)
    → IsSafe m
    → Single ls
    → ((b : ℕ) → xid ≢ b → (l k : Lock) → Has l ls → Has k (locks b m) → admits l k ≡ true)
    → IsSafe (insert xid ls m)
insert-IsSafe xid ls m v u h = record {
  distinct = Distinct-insert xid ls m v.distinct;
  single = λ a. rw (locks-insert xid a ls m) (ground (arith, v.single a));
  admit = λ a b ne l k hl hk.
      let hl' = rw (locks-insert xid a ls m) at hl in
      let hk' = rw (locks-insert xid b ls m) at hk in
      elim (Bool-cases (nat_eq xid a)) [
        | inl ea ↦
            let ne' : xid ≢ b = ground (arith, ne) in
            h b ne' l k (rw ea at hl') (rw (nat_ne xid b ne') at hk')
        | inr ea ↦ elim (Bool-cases (nat_eq xid b)) [
          | inl eb ↦
              let ne' : xid ≢ a = ground arith in
              admits_comm l k ∙ h a ne' k l (rw eb at hk') (rw ea at hl')
          | inr eb ↦ v.admit a b ne l k (rw ea at hl') (rw eb at hk')
        ]
      ];
}

-- `ReleaseLocks` keeps a safe map safe.
pub release_locks-IsSafe : (xid : ℕ) (m : LockMap) → IsSafe m → IsSafe (release_locks xid m)
unfolding release_locks
release_locks-IsSafe xid m v = insert-IsSafe xid [] m v tt (λ b ne l k hl hk. absurd hl)

-- What a transaction held, it holds no more; the others hold what they held.
abbrev pub Releases : ℕ → LockMap → LockMap → Type 0
Releases xid m m' = IsSafe m' × (locks xid m' ≡ []) × ((b : ℕ) → xid ≢ b → locks b m' ≡ locks b m)

pub release_locks-insert :
    (xid : ℕ) (ls : List Lock) (m : LockMap)
    → IsSafe m
    → Releases xid m (release_locks xid (insert xid ls m))
unfolding release_locks
release_locks-insert xid ls m v = (
  rw once (release_locks-IsSafe xid m v),
  rw (once, locks-insert xid xid [] m) (ground (arith, nat_eq_iff xid xid)),
  λ b ne. rw (once, locks-insert xid b [] m, nat_ne xid b ne),
)
  where
    once : insert xid [] (insert xid ls m) ≡ insert xid [] m
    once = insert-insert xid [] ls m
