-- ===== src/Lock/Tables.antt =====
-- `LockTable` keeps the lock map safe, and answers exactly whether it is.
use database_hw.Prelude.{
  ℕ, ◌≡◌, refl, ◌≢◌, ◌⊎◌, ◌↔◌, inl, inr, true, false, not, Option, none, some, List, [], ◌∷◌, ◌++◌,
  arith, all, all-Has, Has-all, Has, Has-append, append-Has, nat_eq_iff, nat_ne, Bool-cases,
  Option-cases, if◌then◌else◌, map, insert, eq_nat, sym, subst,
}
use database_hw.Lock.{
  LockType, Lock, LockMap, is_table_lock, upgrade, locks, others_pass, release_locks, upgrade_table,
  claim_table, allows_table, lock_table, new_table_lock,
}
use database_hw.Lock.Modes.{compatible_comm}
use database_hw.Lock.Claims.{
  same_resource, Single, Single-retype, Single-append, retype, last_mode, last_mode_none,
  last_mode_found, map-Has, last_mode-Has, Has-map,
}
use database_hw.Lock.Safety.{
  IsSafe, admits, insert-IsSafe, others_pass-locks, locks-others_pass, locks-insert, Releases,
  release_locks-insert,
}

module _ (oid : ℕ) (t : LockType) where
  abbrev asked : Lock → LockType
  asked l = if is_table_lock oid l then upgrade l.lock_type t else l.lock_type

  upgrade_table_lem :
      (ls : List Lock) (now : Option LockType)
      → upgrade_table oid t ls now
        ≡ (map (retype asked) ls, last_mode (is_table_lock oid) asked ls now)
  unfolding upgrade_table last_mode
  upgrade_table_lem [] now = refl
  upgrade_table_lem (l ∷ ls) now = elim (Bool-cases (is_table_lock oid l)) [
    | inl e ↦ rw e (rw (upgrade_table_lem ls (some (upgrade l.lock_type t))))
    | inr e ↦ rw e (rw (upgrade_table_lem ls now))
  ]

  one_table :
      (l k : Lock)
      → is_table_lock oid l ≡ true
      → is_table_lock oid k ≡ true
      → same_resource l k ≡ true
  one_table l k h h' = ground arith

  elsewhere :
      (ls : List Lock) (k : Lock)
      → Has k (map (retype asked) ls)
      → is_table_lock oid k ≡ false
      → Has k ls
  elsewhere ls k m h =
      let (a, ha, e) = Has-map (retype asked) k ls m in
      let same : k ≡ a = ground arith in subst (λ l. Has l ls) (sym same) ha

  claim_table_new :
      (ls : List Lock)
      → last_mode (is_table_lock oid) asked ls none ≡ none
      → claim_table oid t ls ≡ (map (retype asked) ls ++ (new_table_lock oid t ∷ []), t)
  unfolding claim_table
  claim_table_new ls e = ground (arith, upgrade_table_lem ls none)

  claim_table_old :
      (ls : List Lock) (v : LockType)
      → last_mode (is_table_lock oid) asked ls none ≡ some v
      → claim_table oid t ls ≡ (map (retype asked) ls, v)
  unfolding claim_table
  claim_table_old ls v e = ground (arith, upgrade_table_lem ls none)

  -- The lock on the table has the mode that `LockTable` goes on with; the others are as before.
  claim_table-Has :
      (ls : List Lock) (k : Lock)
      → Single ls
      → Has k (claim_table oid t ls).0
      → ((is_table_lock oid k ≡ true) × (k.lock_type ≡ (claim_table oid t ls).1))
        ⊎ ((is_table_lock oid k ≡ false) × Has k ls)
  claim_table-Has ls k u = elim (Option-cases (last_mode (is_table_lock oid) asked ls none)) [
    | inl e ↦ rw (claim_table_new ls e) λ m. elim (Has-append k _ _ m) [
      | inl old ↦ elim (Bool-cases (is_table_lock oid k)) [
        | inl on ↦ absurd (ground (arith, mode ls k u old on))
        | inr off ↦ inr (off, elsewhere ls k old off)
      ]
      | inr (inl new) ↦ inl (ground arith, ground arith)
      | inr (inr more) ↦ absurd more
    ]
    | inr (v, e) ↦ rw (claim_table_old ls v e) λ m. elim (Bool-cases (is_table_lock oid k)) [
      | inl on ↦ inl (on, ground (arith, mode ls k u m on))
      | inr off ↦ inr (off, elsewhere ls k m off)
    ]
  ]
    where
      mode :
          (ls : List Lock) (k : Lock)
          → Single ls
          → Has k (map (retype asked) ls)
          → is_table_lock oid k ≡ true
          → last_mode (is_table_lock oid) asked ls none ≡ some k.lock_type
      mode = last_mode-Has (is_table_lock oid) asked one_table (λ l mode. refl)

  claim_table-Single : (ls : List Lock) → Single ls → Single (claim_table oid t ls).0
  claim_table-Single ls u = elim (Option-cases (last_mode (is_table_lock oid) asked ls none)) [
    | inl e ↦ rw (claim_table_new ls e) (
        Single-append _ _ (Single-retype asked ls u)
          (unlike ls (last_mode_none (is_table_lock oid) asked ls e)))
    | inr (v, e) ↦ rw (claim_table_old ls v e) (Single-retype asked ls u)
  ]
    where
      unlike :
          (ls : List Lock)
          → all (λ k. not (is_table_lock oid k)) ls ≡ true
          → all (λ k. not (same_resource k (new_table_lock oid t))) (map (retype asked) ls) ≡ true
      unlike [] h = refl
      unlike (l ∷ ls) h = ground (arith, unlike ls)

  -- There is a lock on the table in that mode.
  claim_table_held :
      (ls : List Lock)
      → Single ls
      → (k : Lock) × Has k (claim_table oid t ls).0
        × (is_table_lock oid k ≡ true)
        × (k.lock_type ≡ (claim_table oid t ls).1)
  claim_table_held ls u = elim (Option-cases (last_mode (is_table_lock oid) asked ls none)) [
    | inl e ↦ rw (claim_table_new ls e) (
      new_table_lock oid t,
      append-Has _ (map (retype asked) ls) _ (inr (inl refl)),
      ground arith,
      refl,
    )
    | inr (v, e) ↦
        rw (claim_table_old ls v e) (elim (last_mode_found (is_table_lock oid) asked ls none v e) [
          | inl absurdity ↦ absurd (ground arith)
          | inr (l, h, on, g) ↦ (retype asked l, map-Has (retype asked) l ls h, on, g)
        ])
  ]

module _ (xid : ℕ) (t : LockType) (oid : ℕ) (m : LockMap) where
  claim : List Lock × LockType
  claim = claim_table oid t (locks xid m)

  claim_suits :
      IsSafe m
      → others_pass (allows_table oid claim.1) xid (insert xid claim.0 m) ≡ true
      → (b : ℕ) → xid ≢ b
      → (l k : Lock) → Has l claim.0
      → Has k (locks b m)
      → admits l k ≡ true
  unfolding claim
  claim_suits v h b ne l k hl hk = elim (claim_table-Has oid t (locks xid m) l (v.single xid) hl) [
    | inl (on, e) ↦ ground (arith, compatible_comm l.lock_type k.lock_type, all-Has _ _ pass k hk)
    | inr (off, old) ↦ v.admit xid b ne l k old hk
  ]
    where
      pass : all (allows_table oid claim.1) (locks b m) ≡ true
      pass =
          rw (locks-insert xid b claim.0 m, nat_ne xid b ne) at (others_pass-locks _ xid b _ h ne)

  granted-IsSafe : IsSafe m → (lock_table xid t oid m).1 ≡ true → IsSafe (lock_table xid t oid m).0
  unfolding lock_table claim
  granted-IsSafe v h =
      insert-IsSafe xid claim.0 m v (claim_table-Single oid t _ (v.single xid)) (claim_suits v h)

  IsSafe-granted : IsSafe m → IsSafe (lock_table xid t oid m).0 → (lock_table xid t oid m).1 ≡ true
  unfolding lock_table claim
  IsSafe-granted v w = locks-others_pass _ xid _ w.distinct λ b ne.
      Has-all (allows_table oid claim.1) (locks b (insert xid claim.0 m)) λ k hk.
        let (l, hl, on, e) = claim_table_held oid t (locks xid m) (v.single xid) in
        let mine : Has l (locks xid (insert xid claim.0 m)) =
          rw (locks-insert xid xid claim.0 m, (nat_eq_iff xid xid).1 refl) hl in
        ground (arith, compatible_comm l.lock_type k.lock_type, w.admit xid b ne l k mine hk)

  -- On a safe lock map, `LockTable` returns true exactly when the map that it leaves is safe: any
  -- two locks that two transactions hold on one table or one row are compatible.
  pub lock_table-IsSafe_iff :
      IsSafe m → ((lock_table xid t oid m).1 ≡ true) ↔ IsSafe (lock_table xid t oid m).0
  lock_table-IsSafe_iff v = (granted-IsSafe v, IsSafe-granted v)

  -- Whatever `LockTable` answered on a safe lock map, a release of the transaction's locks leads
  -- to a safe lock map, in which it holds nothing and the others hold what they held.
  pub release_locks-lock_table :
      IsSafe m → Releases xid m (release_locks xid (lock_table xid t oid m).0)
  unfolding lock_table
  release_locks-lock_table v = release_locks-insert xid _ m v
