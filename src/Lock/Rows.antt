-- ===== src/Lock/Rows.antt =====
-- `LockRow` keeps the lock map safe, and answers exactly whether it is.
pub mod Covers
use database_hw.Prelude.{
  ℕ, ◌≡◌, refl, ◌≢◌, ◌⊎◌, ◌↔◌, inl, inr, Bool, true, false, not, Option, none, some, List, [], ◌∷◌,
  arith, all, all-Has, Has-all, Has, nat_eq_iff, nat_ne, Bool-cases, if◌then◌else◌, map, insert,
  eq_nat, sym, ap, subst,
}
use database_hw.Types.{Rid, rid_eq_iff}
use database_hw.Lock.{
  LockType, Lock, LockMap, RowClaim, is_table_lock, is_row_lock, upgrade, intention, locks,
  others_pass, upgrade_row, claim_row, allows_row, lock_row, new_table_lock, new_row_lock, settle,
}
use database_hw.Lock.Modes.{compatible_comm}
use database_hw.Lock.Claims.{
  same_resource, same_table, same_row, Single, Single-retype, retype, last_mode, last_mode_none,
  last_mode-Has, Has-map, settle-Has, Has-settle, settle-Single, settle_held,
}
use database_hw.Lock.Safety.{
  IsSafe, admits, insert-IsSafe, others_pass-locks, locks-others_pass, locks-insert,
}

module _ (oid : ℕ) (r : Rid) (t : LockType) where
  abbrev on_table : Lock → Bool
  on_table = is_table_lock oid

  abbrev on_row : Lock → Bool
  on_row = is_row_lock oid r

  abbrev asked : Lock → LockType
  asked l =
      if on_table l
      then upgrade l.lock_type (intention t)
      else if on_row l
      then upgrade l.lock_type t
      else l.lock_type

  upgrade_row_lem :
      (ls : List Lock) (tnow rnow : Option LockType)
      → upgrade_row oid r t ls tnow rnow ≡ record {
        held = map (retype asked) ls;
        table_now = last_mode on_table asked ls tnow;
        row_now = last_mode on_row asked ls rnow;
      }
  unfolding upgrade_row last_mode
  upgrade_row_lem [] tnow rnow = refl
  upgrade_row_lem (l ∷ ls) tnow rnow = elim (Bool-cases (on_table l)) [
    | inl e ↦
        let off : on_row l ≡ false = ground arith in
        rw (e, off, upgrade_row_lem ls (some (upgrade l.lock_type (intention t))) rnow) refl
    | inr e ↦ elim (Bool-cases (on_row l)) [
      | inl f ↦ rw (e, f, upgrade_row_lem ls tnow (some (upgrade l.lock_type t))) refl
      | inr f ↦ rw (e, f, upgrade_row_lem ls tnow rnow) refl
    ]
  ]

  one_table : (l k : Lock) → on_table l ≡ true → on_table k ≡ true → same_resource l k ≡ true
  one_table l k h h' = ground arith

  one_row : (l k : Lock) → on_row l ≡ true → on_row k ≡ true → same_resource l k ≡ true
  one_row l k h h' = ground arith

  abbrev base : List Lock → List Lock
  base ls = map (retype asked) ls

  abbrev with_row : List Lock → List Lock × LockType
  with_row ls = settle (last_mode on_row asked ls none) (new_row_lock oid r t) (base ls)

  abbrev with_both : List Lock → List Lock × LockType
  with_both ls =
      settle (last_mode on_table asked ls none) (new_table_lock oid (intention t)) (with_row ls).0

  claim_row_lem :
      (ls : List Lock)
      → claim_row oid r t ls ≡ ((with_both ls).0, (with_both ls).1, (with_row ls).1)
  unfolding claim_row
  claim_row_lem ls = ap result (upgrade_row_lem ls none none)
    where
      result : RowClaim → List Lock × LockType × LockType
      result c =
          let a = settle c.row_now (new_row_lock oid r t) c.held in
          let b = settle c.table_now (new_table_lock oid (intention t)) a.0 in (b.0, b.1, a.1)

  -- A lock of the transaction is on the table or on the row, in the modes that the operation goes
  -- on with, or it is an old lock elsewhere.
  abbrev ClaimedRow : Lock → List Lock → List Lock × LockType × LockType → Type 0
  ClaimedRow k ls c =
      ((on_table k ≡ true) × (k.lock_type ≡ c.1))
      ⊎ ((on_row k ≡ true) × (k.lock_type ≡ c.2))
      ⊎ ((on_table k ≡ false) × (on_row k ≡ false) × Has k ls)

  kept :
      (ls : List Lock) (k : Lock)
      → Single ls
      → Has k (base ls)
      → ClaimedRow k ls ((with_both ls).0, (with_both ls).1, (with_row ls).1)
  kept ls k u m = elim (Bool-cases (on_table k)) [
    | inl e ↦
        inl (e, ground (arith, last_mode-Has on_table asked one_table (λ l o. refl) ls k u m e))
    | inr e ↦ elim (Bool-cases (on_row k)) [
      | inl f ↦
          inr (inl (f, ground (arith, last_mode-Has on_row asked one_row (λ l o. refl) ls k u m f)))
      | inr f ↦
          let (a, ha, q) = Has-map (retype asked) k ls m in
          let same : k ≡ a = ground arith in inr (inr (e, f, subst (λ l. Has l ls) (sym same) ha))
    ]
  ]

  claim_row-ClaimedRow :
      (ls : List Lock) (k : Lock)
      → Single ls
      → Has k (claim_row oid r t ls).0
      → ClaimedRow k ls (claim_row oid r t ls)
  claim_row-ClaimedRow ls k u = rw (claim_row_lem ls) λ m.
      elim (settle-Has (last_mode on_table asked ls none) _ (with_row ls).0 k m) [
        | inr (e, f) ↦ inl (ground arith, ground arith)
        | inl m' ↦ elim (settle-Has (last_mode on_row asked ls none) _ (base ls) k m') [
          | inr (e, f) ↦ inr (inl (ground (arith, rid_eq_iff r r), ground arith))
          | inl old ↦ kept ls k u old
        ]
      ]

  unlike_row :
      (ls : List Lock)
      → all (λ k. not (on_row k)) ls ≡ true
      → all (λ k. not (same_resource k (new_row_lock oid r t))) (base ls) ≡ true
  unlike_row [] h = refl
  unlike_row (l ∷ ls) h = ground (arith, unlike_row ls, rid_eq_iff r r)

  unlike_table :
      (ls : List Lock)
      → all (λ k. not (on_table k)) ls ≡ true
      → all (λ k. not (same_resource k (new_table_lock oid (intention t)))) ls ≡ true
  unlike_table [] h = refl
  unlike_table (l ∷ ls) h = ground (arith, unlike_table ls)

  off_table-base :
      (ls : List Lock)
      → all (λ k. not (on_table k)) ls ≡ true
      → all (λ k. not (on_table k)) (with_row ls).0 ≡ true
  off_table-base ls h =
      Has-all (λ k. not (on_table k)) (with_row ls).0
        λ k m. elim (settle-Has (last_mode on_row asked ls none) _ (base ls) k m) [
          | inr (e, f) ↦ ground arith
          | inl m' ↦
              let (a, ha, q) = Has-map (retype asked) k ls m' in ground (arith, all-Has _ ls h a ha)
        ]

  with_row-Single : (ls : List Lock) → Single ls → Single (with_row ls).0
  with_row-Single ls u =
      settle-Single _ _ _ (Single-retype asked ls u)
        λ e. unlike_row ls (last_mode_none on_row asked ls e)

  claim_row-Single : (ls : List Lock) → Single ls → Single (claim_row oid r t ls).0
  claim_row-Single ls u = rw (claim_row_lem ls) (
      settle-Single (last_mode on_table asked ls none) _ (with_row ls).0 (with_row-Single ls u)
        λ e. unlike_table (with_row ls).0 (off_table-base ls (last_mode_none on_table asked ls e)))

  claim_row_held :
      (ls : List Lock)
      → ((k : Lock) × Has k (claim_row oid r t ls).0
          × (on_table k ≡ true)
          × (k.lock_type ≡ (claim_row oid r t ls).1))
        × ((k : Lock) × Has k (claim_row oid r t ls).0
            × (on_row k ≡ true)
            × (k.lock_type ≡ (claim_row oid r t ls).2))
  claim_row_held ls = rw (claim_row_lem ls) (
    settle_held on_table asked ls _ (with_row ls).0 (ground arith) (λ l o. refl)
        (λ k m. Has-settle _ _ (base ls) k m),
    (let (k, m, e, q) =
          settle_held on_row asked ls (new_row_lock oid r t) (base ls)
            (ground (arith, rid_eq_iff r r)) (λ l o. refl) (λ k m. m) in
        (k, Has-settle _ _ (with_row ls).0 k m, e, q)),
  )

module _ (xid : ℕ) (t : LockType) (oid : ℕ) (r : Rid) (m : LockMap) where
  claim : List Lock × LockType × LockType
  claim = claim_row oid r t (locks xid m)

  claim_suits :
      IsSafe m
      → others_pass (allows_row oid r claim.1 claim.2) xid (insert xid claim.0 m) ≡ true
      → (b : ℕ) → xid ≢ b
      → (l k : Lock) → Has l claim.0
      → Has k (locks b m)
      → admits l k ≡ true
  unfolding claim
  claim_suits v h b ne l k hl hk =
      let pass : all (allows_row oid r claim.1 claim.2) (locks b m) ≡ true =
        rw (locks-insert xid b claim.0 m, nat_ne xid b ne) at (others_pass-locks _ xid b _ h ne) in
      let allowed = all-Has _ (locks b m) pass k hk in
      elim (claim_row-ClaimedRow oid r t (locks xid m) l (v.single xid) hl) [
        | inl (on, e) ↦ ground (arith, compatible_comm l.lock_type k.lock_type, allowed)
        | inr (inl (on, e)) ↦
            ground (arith, compatible_comm l.lock_type k.lock_type, allowed, same_row oid r l k on)
        | inr (inr (off, off', old)) ↦ v.admit xid b ne l k old hk
      ]

  granted-IsSafe : IsSafe m → (lock_row xid t oid r m).1 ≡ true → IsSafe (lock_row xid t oid r m).0
  unfolding lock_row claim
  granted-IsSafe v h =
      insert-IsSafe xid claim.0 m v (claim_row-Single oid r t _ (v.single xid)) (claim_suits v h)

  IsSafe-granted : IsSafe m → IsSafe (lock_row xid t oid r m).0 → (lock_row xid t oid r m).1 ≡ true
  unfolding lock_row claim
  IsSafe-granted v w = locks-others_pass _ xid _ w.distinct λ b ne.
      Has-all (allows_row oid r claim.1 claim.2) (locks b (insert xid claim.0 m)) λ k hk.
        let (held_table, held_row) = claim_row_held oid r t (locks xid m) in
        let on_table = mine b ne k hk w held_table.0 held_table.1 in
        let on_row = mine b ne k hk w held_row.0 held_row.1 in
        ground (
          arith,
          compatible_comm held_table.0.lock_type k.lock_type,
          compatible_comm held_row.0.lock_type k.lock_type,
          on_table,
          on_row,
          held_table.2,
          held_table.3,
          held_row.2,
          held_row.3,
          same_table oid held_table.0 k held_table.2,
          same_row oid r held_row.0 k held_row.2,
        )
    where
      mine :
          (b : ℕ)
          → xid ≢ b
          → (k : Lock) → Has k (locks b (insert xid claim.0 m))
          → IsSafe (insert xid claim.0 m)
          → (l : Lock) → Has l claim.0
          → admits l k ≡ true
      mine b ne k hk w l hl =
          w.admit xid b ne l k (rw (locks-insert xid xid claim.0 m, (nat_eq_iff xid xid).1 refl) hl)
            hk

  -- On a safe lock map, `LockRow` returns true exactly when the map that it leaves is safe: any two
  -- locks that two transactions hold on one table or one row are compatible.
  pub lock_row-IsSafe_iff :
      IsSafe m → ((lock_row xid t oid r m).1 ≡ true) ↔ IsSafe (lock_row xid t oid r m).0
  lock_row-IsSafe_iff v = (granted-IsSafe v, IsSafe-granted v)
