-- ===== src/Prelude/Maps.antt =====
-- The standard maps as association lists: `find`, `m[k] = v` and `erase`.
use mathlib.Core.Path.{◌≡◌, refl, sym, ap, ◌∙◌}
use mathlib.Core.List.{List, [], ◌∷◌, ◌++◌, append-nil, append_assoc}
use mathlib.Core.Bool.{false}
use mathlib.Core.Option.{Option, none, some}
use native.Mathlib.Omega.{arith}
use database_hw.Prelude.Tests.{Key, ◌==◌, if◌then◌else◌}

module _ {ℓ κ} {K : Type ℓ} {V : Type κ} ⦃keys : Key K⦄ where
  abbrev pub find : K → List (K × V) → Option V
  find k [] = none
  find k ((j, v) ∷ m) = if j == k then some v else find k m

  abbrev pub insert : K → V → List (K × V) → List (K × V)
  insert k v [] = (k, v) ∷ []
  insert k v ((j, w) ∷ m) = if j == k then (k, v) ∷ m else (j, w) ∷ insert k v m

  abbrev pub erase : K → List (K × V) → List (K × V)
  erase k [] = []
  erase k ((j, v) ∷ m) = if j == k then erase k m else (j, v) ∷ erase k m

  pub find-insert :
      (k j : K) (v : V) (m : List (K × V))
      → find j (insert k v m) ≡ (if k == j then some v else find j m)
  find-insert k j v [] = refl
  find-insert k j v ((i, w) ∷ m) = ground (
    arith,
    keys.same_key_iff k j,
    keys.same_key_iff i k,
    keys.same_key_iff i j,
    find-insert k j v m,
  )

  pub find-erase :
      (k j : K) (m : List (K × V)) → find j (erase k m) ≡ (if k == j then none else find j m)
  find-erase k j [] = ground arith
  find-erase k j ((i, w) ∷ m) =
      ground (
        arith,
        keys.same_key_iff k j,
        keys.same_key_iff i k,
        keys.same_key_iff i j,
        find-erase k j m,
      )

  pub insert-insert :
      (k : K) (v w : V) (m : List (K × V)) → insert k v (insert k w m) ≡ insert k v m
  insert-insert k v w [] = ground (arith, keys.same_key_iff k k)
  insert-insert k v w ((j, u) ∷ m) =
      ground (arith, keys.same_key_iff j k, keys.same_key_iff k k, insert-insert k v w m)

  -- No entry has the key.
  abbrev pub NoEntry : K → List (K × V) → Type 0
  NoEntry k [] = Unit {0}
  NoEntry k ((j, v) ∷ m) = (j == k ≡ false) × NoEntry k m

  -- The entries written one after the other, and a list of entries with each key once.
  abbrev pub insert_all : List (K × V) → List (K × V) → List (K × V)
  insert_all m [] = m
  insert_all m ((k, v) ∷ rest) = insert_all (insert k v m) rest

  abbrev pub Unique : List (K × V) → List (K × V) → Type 0
  Unique m [] = Unit {0}
  Unique m ((k, v) ∷ rest) = NoEntry k m × Unique (m ++ (k, v) ∷ []) rest

  insert-NoEntry :
      (k : K) (v : V) (m : List (K × V)) → NoEntry k m → insert k v m ≡ m ++ (k, v) ∷ []
  insert-NoEntry k v [] h = refl
  insert-NoEntry k v ((j, w) ∷ m) h = ground (arith, h.0, insert-NoEntry k v m h.1)

  pub insert_all-Unique : (m rest : List (K × V)) → Unique m rest → insert_all m rest ≡ m ++ rest
  insert_all-Unique m [] u = sym (append-nil m)
  insert_all-Unique m ((k, v) ∷ rest) u =
      ap (λ (l : List (K × V)). insert_all l rest) (insert-NoEntry k v m u.0)
      ∙ insert_all-Unique (m ++ (k, v) ∷ []) rest u.1
      ∙ append_assoc m ((k, v) ∷ []) rest
