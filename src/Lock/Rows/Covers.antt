-- ===== src/Lock/Rows/Covers.antt =====
-- The locks that `LockRow` leaves with the transaction, granted or not: they cover what it asked for
-- and what it held.
use database_hw.Prelude.{
  ℕ, ◌≡◌, ◌≢◌, refl, sym, subst, inl, inr, Bool, true, false, Option-cases, none, List, Has,
  Bool-cases, arith,
}
use database_hw.Types.{Rid}
use database_hw.Lock.{
  LockType, six, Lock, LockMap, is_table_lock, is_row_lock, compatible, upgrade, intention, locks,
  claim_row, lock_row, new_table_lock, new_row_lock, settle,
}
use database_hw.Lock.Claims.{retype, last_mode, last_mode_found, Has-settle, map-Has}
use database_hw.Lock.Safety.{locks-insert}
use database_hw.Lock.Rows.{asked, on_table, on_row, base, with_row, claim_row_lem, claim_row_held}

-- A mode that tolerates no mode which the other does not.
abbrev pub Covers : LockType → LockType → Type 0
Covers a b = (c : LockType) → compatible c b ≡ false → compatible c a ≡ false

upgrade-Covers_held : (a b : LockType) → Covers (upgrade a b) a
unfolding compatible upgrade
upgrade-Covers_held a b c h = ground (arith, h)

upgrade-Covers_asked : (a b : LockType) → b ≢ six → Covers (upgrade a b) b
unfolding compatible upgrade
upgrade-Covers_asked a b other c h = ground (arith, other, h)

intention_lem : (t : LockType) → intention t ≢ six
intention_lem t e = ground (arith, e)

-- What holds for the mode of a new lock and for every upgraded mode holds for the mode settled on.
settled :
    (P : LockType → Type 0) (p : Lock → Bool) (g : Lock → LockType) (ls : List Lock) (new : Lock)
    (all_locks : List Lock)
    → P new.lock_type
    → ((l : Lock) → p l ≡ true → P (g l))
    → P (settle (last_mode p g ls none) new all_locks).1
settled P p g ls new all_locks fresh old = elim (Option-cases (last_mode p g ls none)) [
  | inl e ↦ rw e fresh
  | inr (v, e) ↦ elim (last_mode_found p g ls none v e) [
    | inl missing ↦ absurd (ground (arith, missing))
    | inr (l, m, hit, same) ↦ rw e (subst P same (old l hit))
  ]
]

module _ (oid : ℕ) (r : Rid) (t : LockType) (ls : List Lock) where
  table_mode : Covers (claim_row oid r t ls).1 (intention t)
  table_mode =
      subst (λ (c : List Lock × LockType × LockType). Covers c.1 (intention t))
        (sym (claim_row_lem oid r t ls))
        (settled (λ k. Covers k (intention t)) (on_table oid r t) (asked oid r t) ls
          (new_table_lock oid (intention t)) (with_row oid r t ls).0 (λ c h. h)
          (λ l hit.
            subst (λ k. Covers k (intention t)) (ground (arith, hit))
              (upgrade-Covers_asked l.lock_type (intention t) (intention_lem t))))

  row_mode : t ≢ six → Covers (claim_row oid r t ls).2 t
  row_mode plain =
      subst (λ (c : List Lock × LockType × LockType). Covers c.2 t) (sym (claim_row_lem oid r t ls))
        (settled (λ k. Covers k t) (on_row oid r t) (asked oid r t) ls (new_row_lock oid r t)
          (base oid r t ls) (λ c h. h)
          (λ l hit.
            subst (λ k. Covers k t) (ground (arith, hit))
              (upgrade-Covers_asked l.lock_type t plain)))

  asked-Covers : (l : Lock) → Covers (asked oid r t l) l.lock_type
  asked-Covers l = elim (Bool-cases (on_table oid r t l)) [
    | inl e ↦
        subst (λ k. Covers k l.lock_type) (ground (arith, e))
          (upgrade-Covers_held l.lock_type (intention t))
    | inr e ↦ elim (Bool-cases (on_row oid r t l)) [
      | inl f ↦
          subst (λ k. Covers k l.lock_type) (ground (arith, e, f))
            (upgrade-Covers_held l.lock_type t)
      | inr f ↦ subst (λ k. Covers k l.lock_type) (ground (arith, e, f)) (λ c h. h)
    ]
  ]

  held_covered :
      (l : Lock)
      → Has l ls
      → (k : Lock) × Has k (claim_row oid r t ls).0
        × (k ≡ record l { lock_type = k.lock_type })
        × Covers k.lock_type l.lock_type
  held_covered l m = (
    retype (asked oid r t) l,
    subst (λ (c : List Lock × LockType × LockType). Has (retype (asked oid r t) l) c.0)
        (sym (claim_row_lem oid r t ls))
        (Has-settle _ _ (with_row oid r t ls).0 _
          (Has-settle _ _ (base oid r t ls) _ (map-Has (retype (asked oid r t)) l ls m))),
    refl,
    asked-Covers l,
  )

-- Whatever `LockRow` answers for a mode other than SIX, the transaction is left with a lock on the
-- table and one on the row, which tolerate no mode that the intention, and the mode asked for, do not
-- tolerate, and, for each lock that it held, with the same lock in a mode that tolerates no more.
pub lock_row-Covers :
    (xid : ℕ) (t : LockType) (oid : ℕ) (r : Rid) (m : LockMap)
    → t ≢ six
    → ((k : Lock) × Has k (locks xid (lock_row xid t oid r m).0)
        × (is_table_lock oid k ≡ true)
        × Covers k.lock_type (intention t))
      × ((k : Lock) × Has k (locks xid (lock_row xid t oid r m).0)
          × (is_row_lock oid r k ≡ true)
          × Covers k.lock_type t)
      × ((l : Lock)
          → Has l (locks xid m)
          → (k : Lock) × Has k (locks xid (lock_row xid t oid r m).0)
            × (k ≡ record l { lock_type = k.lock_type })
            × Covers k.lock_type l.lock_type)
unfolding lock_row
lock_row-Covers xid t oid r m plain =
    let claim = claim_row oid r t (locks xid m) in
    let kept : locks xid (lock_row xid t oid r m).0 ≡ claim.0 =
      ground (arith, locks-insert xid xid claim.0 m) in
    let ((k, hk, ek, qk), (j, hj, ej, qj)) = claim_row_held oid r t (locks xid m) in
    rw kept (
      (k, hk, ek, subst (λ x. Covers x (intention t)) (sym qk) (table_mode oid r t (locks xid m))),
      (j, hj, ej, subst (λ x. Covers x t) (sym qj) (row_mode oid r t (locks xid m) plain)),
      held_covered oid r t (locks xid m),
    )
