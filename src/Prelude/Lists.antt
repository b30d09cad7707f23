-- ===== src/Prelude/Lists.antt =====
-- Lists measured and indexed by native numbers, membership and quantifiers by recursion.
use Prim.Native.Nat.{ℕ, zero, suc, ◌+◌, ◌≤◌, ◌<◌}
use mathlib.Core.Path.{◌≡◌, refl, ap}
use mathlib.Core.Logic.{◌≢◌, ◌⊎◌, inl, inr}
use mathlib.Core.Bool.{Bool, true, ◌&&◌}
use mathlib.Core.List.{List, [], ◌∷◌, ◌++◌}
use mathlib.Core.Option.{Option, none, some}
use native.Mathlib.Omega.{arith}

module _ {ℓ} {A : Type ℓ} where
  abbrev pub length : List A → ℕ
  length [] = 0
  length (x ∷ xs) = suc (length xs)

  abbrev pub get_elem? : List A → ℕ → Option A
  get_elem? [] i = none
  get_elem? (x ∷ xs) zero = some x
  get_elem? (x ∷ xs) (suc i) = get_elem? xs i

  pub get_elem?-lt : (xs : List A) (i : ℕ) → i < length xs → get_elem? xs i ≢ none
  get_elem?-lt [] i h = absurd (omega arith)
  get_elem?-lt (x ∷ xs) zero h = λ e. ground arith
  get_elem?-lt (x ∷ xs) (suc i) h = get_elem?-lt xs i (omega arith)

  -- A write out of bounds changes nothing.
  abbrev pub set : List A → ℕ → A → List A
  set [] i v = []
  set (x ∷ xs) zero v = v ∷ xs
  set (x ∷ xs) (suc i) v = x ∷ set xs i v

  -- The first `k` elements, or all.
  abbrev pub take : ℕ → List A → List A
  take _ [] = []
  take zero (x ∷ xs) = []
  take (suc k) (x ∷ xs) = x ∷ take k xs

  pub length-append : (xs ys : List A) → length (xs ++ ys) ≡ length xs + length ys
  length-append [] ys = omega arith
  length-append (x ∷ xs) ys = omega (arith, length-append xs ys)

  pub length-set : (xs : List A) (i : ℕ) (v : A) → length (set xs i v) ≡ length xs
  length-set [] i v = refl
  length-set (x ∷ xs) zero v = refl
  length-set (x ∷ xs) (suc i) v = ap suc (length-set xs i v)

  pub take_of_length-le : (k : ℕ) (l : List A) → length l ≤ k → take k l ≡ l
  take_of_length-le k [] few = refl
  take_of_length-le zero (x ∷ rest) few = absurd (omega arith)
  take_of_length-le (suc k) (x ∷ rest) few = ap (◌∷◌ x) (take_of_length-le k rest (omega arith))

  -- Every element passes the test.
  abbrev pub all : (A → Bool) → List A → Bool
  all p [] = true
  all p (x ∷ xs) = p x && all p xs

pub all-append {ℓ} :
    {A : Type ℓ} (p : A → Bool) (xs ys : List A) → all p (xs ++ ys) ≡ (all p xs && all p ys)
all-append p [] ys = refl
all-append p (x ∷ xs) ys = ground (arith, all-append p xs ys)

-- Membership, as a sum that the tactics take apart.
abbrev pub Has : {A : Type 0} → A → List A → Type 0
Has a [] = ⊥
Has a (x ∷ xs) = (a ≡ x) ⊎ Has a xs

pub all-Has :
    {A : Type 0} (p : A → Bool) (xs : List A) → all p xs ≡ true → (a : A) → Has a xs → p a ≡ true
all-Has p [] h a m = absurd m
all-Has p (x ∷ xs) h a (inl e) = ground arith
all-Has p (x ∷ xs) h a (inr m) = all-Has p xs (ground arith) a m

pub Has-all :
    {A : Type 0} (p : A → Bool) (xs : List A) → ((a : A) → Has a xs → p a ≡ true) → all p xs ≡ true
Has-all p [] h = refl
Has-all p (x ∷ xs) h = ground (arith, h x (inl refl), Has-all p xs (λ a m. h a (inr m)))

pub Has-append : {A : Type 0} (a : A) (xs ys : List A) → Has a (xs ++ ys) → Has a xs ⊎ Has a ys
Has-append a [] ys m = inr m
Has-append a (x ∷ xs) ys (inl e) = inl (inl e)
Has-append a (x ∷ xs) ys (inr m) = elim (Has-append a xs ys m) [
  | inl l ↦ inl (inr l)
  | inr r ↦ inr r
]

pub append-Has : {A : Type 0} (a : A) (xs ys : List A) → Has a xs ⊎ Has a ys → Has a (xs ++ ys)
append-Has a [] ys (inl m) = absurd m
append-Has a [] ys (inr m) = m
append-Has a (x ∷ xs) ys (inl (inl e)) = inl e
append-Has a (x ∷ xs) ys (inl (inr m)) = inr (append-Has a xs ys (inl m))
append-Has a (x ∷ xs) ys (inr m) = inr (append-Has a xs ys (inr m))
