-- ===== src/Lock/Claims.antt =====
-- What a transaction's own locks are after the first loops of `LockTable` and `LockRow`.
use database_hw.Prelude.{
  ℕ, ◌≡◌, refl, ◌⊎◌, inl, inr, Bool, true, false, not, Option, none, some, List, [], ◌∷◌, ◌++◌,
  arith, all, all-append, map, sym, ap, ◌∙◌, all-Has, Has, Has-append, append-Has, Bool-cases,
  if◌then◌else◌, Option-cases,
}
use database_hw.Types.{Rid}
use database_hw.Lock.{LockType, Lock, table, row, is_table_lock, is_row_lock, settle}

-- Whether two locks are on one table, or on one row.
abbrev pub same_resource : Lock → Lock → Bool
same_resource l k = elim l.lock_granularity [
  | table ↦ is_table_lock l.oid k
  | row ↦ elim l.rid [ none ↦ false | some r ↦ is_row_lock l.oid r k ]
]

-- A transaction holds one lock at most on each table and on each row.
abbrev pub Single : List Lock → Type 0
Single [] = Unit {0}
Single (l ∷ ls) = (all (λ k. not (same_resource l k)) ls ≡ true) × Single ls

pub same_table :
    (oid : ℕ) (l k : Lock) → is_table_lock oid l ≡ true → same_resource l k ≡ is_table_lock oid k
same_table oid l k h = ground arith

pub same_row :
    (oid : ℕ) (r : Rid) (l k : Lock)
    → is_row_lock oid r l ≡ true
    → same_resource l k ≡ is_row_lock oid r k
same_row oid r l k h = ground arith

pub Has-map :
    {A : Type 0} (f : A → A) (k : A) (ls : List A)
    → Has k (map f ls)
    → (l : A) × Has l ls × (k ≡ f l)
Has-map f k [] m = absurd m
Has-map f k (l ∷ ls) (inl e) = (l, inl refl, e)
Has-map f k (l ∷ ls) (inr m) = let (a, h, e) = Has-map f k ls m in (a, inr h, e)

pub map-Has : {A : Type 0} (f : A → A) (l : A) (ls : List A) → Has l ls → Has (f l) (map f ls)
map-Has f l (k ∷ ls) (inl e) = inl (ap f e)
map-Has f l (k ∷ ls) (inr m) = inr (map-Has f l ls m)
map-Has f l [] m = absurd m

-- Both loops give each lock a new mode, and note the last mode among the locks of a kind.
abbrev pub retype : (Lock → LockType) → Lock → Lock
retype g l = record l { lock_type = g l }

unfoldable pub last_mode :
    (Lock → Bool) → (Lock → LockType) → List Lock → Option LockType → Option LockType
last_mode p g [] now = now
last_mode p g (l ∷ ls) now = last_mode p g ls (if p l then some (g l) else now)

pub Single-retype : (g : Lock → LockType) (ls : List Lock) → Single ls → Single (map (retype g) ls)
Single-retype g [] u = tt
Single-retype g (l ∷ ls) u = (rw (kept l ls) u.0, Single-retype g ls u.1)
  where
    kept :
        (l : Lock) (ls : List Lock)
        → all (λ k. not (same_resource l k)) (map (retype g) ls)
          ≡ all (λ k. not (same_resource l k)) ls
    kept l [] = refl
    kept l (k ∷ ks) = ground (arith, kept l ks)

pub Single-append :
    (ls : List Lock) (n : Lock)
    → Single ls
    → all (λ k. not (same_resource k n)) ls ≡ true
    → Single (ls ++ (n ∷ []))
Single-append [] n u h = (refl, tt)
Single-append (l ∷ ls) n u h =
    (rw (all-append _ ls (n ∷ [])) (ground arith), Single-append ls n u.1 (ground arith))

-- A kind of locks that are all on one resource, whatever their mode.
module _ (p : Lock → Bool) (g : Lock → LockType) where
  last_mode-some :
      (ls : List Lock) (u : LockType) → (v : LockType) × (last_mode p g ls (some u) ≡ some v)
  unfolding last_mode
  last_mode-some [] u = (u, refl)
  last_mode-some (l ∷ ls) u = elim (Bool-cases (p l)) [
    | inl e ↦ rw e (last_mode-some ls (g l))
    | inr e ↦ rw e (last_mode-some ls u)
  ]

  -- No mode noted: no lock of the kind.
  pub last_mode_none :
      (ls : List Lock) → last_mode p g ls none ≡ none → all (λ k. not (p k)) ls ≡ true
  unfolding last_mode
  last_mode_none [] h = refl
  last_mode_none (l ∷ ls) h = ground (arith, last_mode-some ls (g l), last_mode_none ls)

  -- A mode noted is the new mode of a lock of the kind.
  pub last_mode_found :
      (ls : List Lock) (now : Option LockType) (v : LockType)
      → last_mode p g ls now ≡ some v
      → (now ≡ some v) ⊎ ((l : Lock) × Has l ls × (p l ≡ true) × (g l ≡ v))
  unfolding last_mode
  last_mode_found [] now v h = inl h
  last_mode_found (l ∷ ls) now v h = elim (last_mode_found ls _ v h) [
    | inl e ↦ elim (Bool-cases (p l)) [
      | inl hit ↦ inr (l, inl refl, hit, ground arith)
      | inr off ↦ inl (ground arith)
    ]
    | inr (k, m, hit, e) ↦ inr (k, inr m, hit, e)
  ]

  last_mode_miss :
      (ls : List Lock) (now : Option LockType)
      → all (λ k. not (p k)) ls ≡ true
      → last_mode p g ls now ≡ now
  unfolding last_mode
  last_mode_miss [] now h = refl
  last_mode_miss (l ∷ ls) now h = ground (arith, last_mode_miss ls now)

  module _ (one_place : (l k : Lock) → p l ≡ true → p k ≡ true → same_resource l k ≡ true)
      (any_mode : (l : Lock) (t : LockType) → p (record l { lock_type = t }) ≡ p l) where
    alone :
        (l : Lock) (ls : List Lock)
        → p l ≡ true
        → all (λ k. not (same_resource l k)) ls ≡ true
        → all (λ k. not (p k)) ls ≡ true
    alone l [] h u = refl
    alone l (k ∷ ls) h u = ground (arith, alone l ls, one_place l k)

    -- The mode noted is the one of every lock of the kind.
    pub last_mode-Has :
        (ls : List Lock) (k : Lock)
        → Single ls
        → Has k (map (retype g) ls)
        → p k ≡ true
        → last_mode p g ls none ≡ some k.lock_type
    unfolding last_mode
    last_mode-Has [] k u m h = absurd m
    last_mode-Has (l ∷ ls) k u (inl e) h =
        let pl : p l ≡ true = sym (any_mode l (g l)) ∙ (rw (← e) h) in
        ground (arith, pl, last_mode_miss ls (some (g l)), alone l ls pl u.0)
    last_mode-Has (l ∷ ls) k u (inr m) h = elim (Bool-cases (p l)) [
      | inl pl ↦
          let (a, ha, e) = Has-map (retype g) k ls m in
          let pa : p a ≡ true = sym (any_mode a (g a)) ∙ (rw (← e) h) in
          absurd (ground (arith, all-Has _ ls (alone l ls pl u.0) a ha))
      | inr np ↦ rw np (last_mode-Has ls k u.1 m h)
    ]

pub settle-Has :
    (now : Option LockType) (new : Lock) (ls : List Lock) (k : Lock)
    → Has k (settle now new ls).0
    → Has k ls ⊎ ((k ≡ new) × (now ≡ none))
settle-Has none new ls k m = elim (Has-append k ls _ m) [
  | inl old ↦ inl old
  | inr (inl e) ↦ inr (e, refl)
  | inr (inr more) ↦ absurd more
]
settle-Has (some v) new ls k m = inl m

pub Has-settle :
    (now : Option LockType) (new : Lock) (ls : List Lock) (k : Lock)
    → Has k ls
    → Has k (settle now new ls).0
Has-settle none new ls k m = append-Has k ls _ (inl m)
Has-settle (some v) new ls k m = m

pub settle-Single :
    (now : Option LockType) (new : Lock) (ls : List Lock)
    → Single ls
    → (now ≡ none → all (λ k. not (same_resource k new)) ls ≡ true)
    → Single (settle now new ls).0
settle-Single none new ls u h = Single-append ls new u (h refl)
settle-Single (some v) new ls u h = u

-- After `settle` there is a lock of the kind in the mode that it returns.
pub settle_held :
    (p : Lock → Bool) (g : Lock → LockType) (ls : List Lock) (new : Lock) (all_locks : List Lock)
    → p new ≡ true
    → ((l : Lock) (t : LockType) → p (record l { lock_type = t }) ≡ p l)
    → ((k : Lock) → Has k (map (retype g) ls) → Has k all_locks)
    → let c = settle (last_mode p g ls none) new all_locks in
      (k : Lock) × Has k c.0 × (p k ≡ true) × (k.lock_type ≡ c.1)
settle_held p g ls new all_locks h any_mode sub = elim (Option-cases (last_mode p g ls none)) [
  | inl e ↦ rw e (new, append-Has new all_locks _ (inr (inl refl)), h, refl)
  | inr (v, e) ↦ rw e (elim (last_mode_found p g ls none v e) [
    | inl absurdity ↦ absurd (ground arith)
    | inr (l, m, on, q) ↦ (retype g l, sub _ (map-Has (retype g) l ls m), any_mode l (g l) ∙ on, q)
  ])
]
