-- ===== src/Value/Compare/Order.antt =====
-- The comparisons of values are one order.
use database_hw.Prelude.{
  ℕ, ◌-◌, ◌^◌, ◌<◌, ◌≡◌, refl, sym, ap, ap₂, ltb, nat_eq, if◌then◌else◌, ◌⊎◌, inl, inr, true, false,
  List, [], ◌∷◌, arith, Bool-cases,
}
use database_hw.Result.{ok}
use database_hw.Value.{Value, int, char, varchar}
use database_hw.Value.Compare.{
  Ieee, str_less, str_equal, less, equal, greater, biased, int_less, max, min,
}

-- Two integers that are set, or two strings of one type.
pub data Comparable : Value → Value → Type 0 where
  ints : (a b : ℕ) → a < 2 ^ 32 → b < 2 ^ 32 → Comparable (int a) (int b)
  chars : (s t : List ℕ) → Comparable (char s) (char t)
  varchars : (s t : List ℕ) → Comparable (varchar s) (varchar t)

-- Integers in two's complement, and their order.
pub data ℤ : Type 0 where
  pos : ℕ → ℤ
  negsuc : ℕ → ℤ

abbrev pub to_int : ℕ → ℤ
to_int n = if ltb n (2 ^ 31) then pos n else negsuc (2 ^ 32 - 1 - n)

abbrev pub Below : ℤ → ℤ → Type 0
Below (pos a) (pos b) = a < b
Below (pos a) (negsuc b) = ⊥
Below (negsuc a) (pos b) = Unit {0}
Below (negsuc a) (negsuc b) = b < a

-- The order of a dictionary.
abbrev pub Lexicographic : List ℕ → List ℕ → Type 0
Lexicographic s [] = ⊥
Lexicographic [] (b ∷ t) = Unit {0}
Lexicographic (a ∷ s) (b ∷ t) = (a < b) ⊎ ((a ≡ b) × Lexicographic s t)

-- A value that lies before another in the order of its type.
abbrev pub Precedes : Value → Value → Type 0
Precedes (int a) (int b) = Below (to_int a) (to_int b)
Precedes (char s) (char t) = Lexicographic s t
Precedes (varchar s) (varchar t) = Lexicographic s t
Precedes _ _ = ⊥

trichotomy : (a b : ℕ) → (a < b) ⊎ ((a ≡ b) ⊎ (b < a))
trichotomy a b = ground arith

str_trichotomy :
    (s t : List ℕ)
    → (Lexicographic s t × (str_less s t ≡ true) × (str_equal s t ≡ false) × (str_less t s ≡ false))
      ⊎ (((s ≡ t) × (str_less s t ≡ false) × (str_equal s t ≡ true) × (str_less t s ≡ false))
          ⊎ (Lexicographic t s
              × (str_less s t ≡ false)
              × (str_equal s t ≡ false)
              × (str_less t s ≡ true)))
unfolding str_less str_equal
str_trichotomy [] [] = inr (inl (refl, refl, refl, refl))
str_trichotomy [] (b ∷ t) = inl (tt, refl, refl, refl)
str_trichotomy (a ∷ s) [] = inr (inr (tt, refl, refl, refl))
str_trichotomy (a ∷ s) (b ∷ t) = elim (trichotomy a b) [
  | inl h ↦ inl (inl h, ground (arith, h), ground (arith, h), ground (arith, h))
  | inr (inr h) ↦ inr (inr (inl h, ground (arith, h), ground (arith, h), ground (arith, h)))
  | inr (inl e) ↦ elim (str_trichotomy s t) [
    | inl (p, x, y, z) ↦
        inl (inr (e, p), ground (arith, e, x), ground (arith, e, y), ground (arith, e, z))
    | inr (inl (p, x, y, z)) ↦
        inr (inl (ap₂ ◌∷◌ e p, ground (arith, e, x), ground (arith, e, y), ground (arith, e, z)))
    | inr (inr (p, x, y, z)) ↦
        inr (inr (inr (sym e, p), ground (arith, e, x), ground (arith, e, y), ground (arith, e, z)))
  ]
]

str_less_trans : (s t u : List ℕ) → str_less s t ≡ true → str_less t u ≡ true → str_less s u ≡ true
unfolding str_less
str_less_trans [] [] [] h k = ground arith
str_less_trans [] [] (c ∷ u) h k = ground arith
str_less_trans [] (b ∷ t) [] h k = ground arith
str_less_trans [] (b ∷ t) (c ∷ u) h k = ground arith
str_less_trans (a ∷ s) [] u h k = ground arith
str_less_trans (a ∷ s) (b ∷ t) [] h k = ground arith
str_less_trans (a ∷ s) (b ∷ t) (c ∷ u) h k = ground (arith, str_less_trans s t u)

biased-Below :
    (a b : ℕ) → a < 2 ^ 32 → b < 2 ^ 32 → biased a < biased b → Below (to_int a) (to_int b)
biased-Below a b ha hb h = elim (Bool-cases (ltb a (2 ^ 31))) [
  | inl x ↦ elim (Bool-cases (ltb b (2 ^ 31))) [
    | inl y ↦ ground (arith, x, y, h)
    | inr y ↦ ground (arith, x, y, h, hb)
  ]
  | inr x ↦ elim (Bool-cases (ltb b (2 ^ 31))) [
    | inl y ↦ ground (arith, x, y, h)
    | inr y ↦ ground (arith, x, y, h, ha, hb)
  ]
]

-- Two integers of 32 bits: what is said of them as integers, and of their patterns.
int_trichotomy :
    (a b : ℕ)
    → a < 2 ^ 32
    → b < 2 ^ 32
    → (Below (to_int a) (to_int b)
        × (int_less a b ≡ true)
        × (nat_eq a b ≡ false)
        × (int_less b a ≡ false))
      ⊎ (((a ≡ b) × (int_less a b ≡ false) × (nat_eq a b ≡ true) × (int_less b a ≡ false))
          ⊎ (Below (to_int b) (to_int a)
              × (int_less a b ≡ false)
              × (nat_eq a b ≡ false)
              × (int_less b a ≡ true)))
int_trichotomy a b ha hb = elim (trichotomy (biased a) (biased b)) [
  | inl h ↦ inl (biased-Below a b ha hb h, ground (arith, h), ground (arith, h), ground (arith, h))
  | inr (inl e) ↦
      let same : a ≡ b = omega (arith, e, ha, hb) in
      inr (inl (same, ground (arith, e), ground (arith, same), ground (arith, e)))
  | inr (inr h) ↦
      inr (inr (biased-Below b a hb ha h, ground (arith, h), ground (arith, h), ground (arith, h)))
]

-- Of two set integers, which are in two's complement, or of two strings of one type, none of `Less`,
-- `Equal` and `Greater` throws, and one of them is true: `Less` when the first lies before the second
-- in the order of the integers, or of a dictionary for strings, `Equal` when they are the same, and
-- `Greater` when the second lies before the first.
pub less-equal-greater :
    (f : Ieee) (a b : Value)
    → Comparable a b
    → (Precedes a b
        × (less f a b ≡ ok true)
        × (equal f a b ≡ ok false)
        × (greater f a b ≡ ok false))
      ⊎ (((a ≡ b) × (less f a b ≡ ok false) × (equal f a b ≡ ok true) × (greater f a b ≡ ok false))
          ⊎ (Precedes b a
              × (less f a b ≡ ok false)
              × (equal f a b ≡ ok false)
              × (greater f a b ≡ ok true)))
unfolding less equal greater
less-equal-greater f _ _ (ints a b ha hb) = elim (int_trichotomy a b ha hb) [
  | inl (p, x, y, z) ↦ inl (p, ap ok x, ap ok y, ap ok z)
  | inr (inl (p, x, y, z)) ↦ inr (inl (ap int p, ap ok x, ap ok y, ap ok z))
  | inr (inr (p, x, y, z)) ↦ inr (inr (p, ap ok x, ap ok y, ap ok z))
]
less-equal-greater f _ _ (chars s t) = elim (str_trichotomy s t) [
  | inl (p, x, y, z) ↦ inl (p, ap ok x, ap ok y, ap ok z)
  | inr (inl (p, x, y, z)) ↦ inr (inl (ap char p, ap ok x, ap ok y, ap ok z))
  | inr (inr (p, x, y, z)) ↦ inr (inr (p, ap ok x, ap ok y, ap ok z))
]
less-equal-greater f _ _ (varchars s t) = elim (str_trichotomy s t) [
  | inl (p, x, y, z) ↦ inl (p, ap ok x, ap ok y, ap ok z)
  | inr (inl (p, x, y, z)) ↦ inr (inl (ap varchar p, ap ok x, ap ok y, ap ok z))
  | inr (inr (p, x, y, z)) ↦ inr (inr (p, ap ok x, ap ok y, ap ok z))
]

-- `Less` is transitive on set integers, and on strings of one type.
pub less_trans :
    (f : Ieee) (a b c : Value)
    → Comparable a b
    → Comparable b c
    → less f a b ≡ ok true
    → less f b c ≡ ok true
    → less f a c ≡ ok true
unfolding less
less_trans f _ _ _ (ints a b ha hb) (ints _ c _ hc) h k = ground arith
less_trans f _ _ _ (chars s t) (chars _ u) h k = ground (arith, str_less_trans s t u)
less_trans f _ _ _ (varchars s t) (varchars _ u) h k = ground (arith, str_less_trans s t u)

-- `Max` of two set integers is one of them, and not less than either; `Min` is one of them, and
-- neither is less than it.
pub max-min :
    (f : Ieee) (a b : ℕ)
    → (m n : Value) × (max f (int a) (int b) ≡ ok m)
      × (min f (int a) (int b) ≡ ok n)
      × ((m ≡ int a) ⊎ (m ≡ int b))
      × ((n ≡ int a) ⊎ (n ≡ int b))
      × (less f m (int a) ≡ ok false)
      × (less f m (int b) ≡ ok false)
      × (less f (int a) n ≡ ok false)
      × (less f (int b) n ≡ ok false)
unfolding max min less
max-min f a b = elim (Bool-cases (int_less a b)) [
  | inl h ↦ (
    int b,
    int a,
    rw h refl,
    ground arith,
    inr refl,
    inl refl,
    ground arith,
    ground arith,
    ground arith,
    ground arith,
  )
  | inr h ↦ elim (Bool-cases (int_less b a)) [
    | inl k ↦ (
      int a,
      int b,
      rw h refl,
      rw k refl,
      inl refl,
      inr refl,
      ground arith,
      ground arith,
      ground arith,
      ground arith,
    )
    | inr k ↦ (
      int a,
      int a,
      rw h refl,
      rw k refl,
      inl refl,
      inl refl,
      ground arith,
      ground arith,
      ground arith,
      ground arith,
    )
  ]
]
