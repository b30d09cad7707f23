-- ===== src/Lru/Oldest.antt =====
-- The victim is the frame whose last use lies furthest back.
use database_hw.Prelude.{
  ℕ, suc, ◌≤◌, ◌<◌, ◌≡◌, ◌≢◌, refl, sym, subst, inl, inr, List, [], ◌∷◌, nat_eq, Has, length,
  if◌then◌else◌, arith, Bool-cases, nat_eq-cases,
}
use database_hw.Result.{Result, ok, throw, undefined}
use database_hw.Lru.{BufferVec, erase_first, access, last_of, evict}

-- The calls of the pool, the latest first.
pub data Use : Type 0 where
  accesses : ℕ → Use
  evicts : Use

abbrev pub rest_of : BufferVec → Result (ℕ × BufferVec) → BufferVec
rest_of v (ok r) = r.1
rest_of v (throw e) = v
rest_of v undefined = v

unfoldable pub frames : List Use → BufferVec
frames [] = []
frames (accesses f ∷ past) = access (frames past) f
frames (evicts ∷ past) = let v = frames past in rest_of v (evict v)

-- When a frame was last accessed: the number of the call, from 1.
unfoldable pub last_access : List Use → ℕ → ℕ
last_access [] f = 0
last_access (accesses g ∷ past) f =
    let earlier = last_access past f in if nat_eq f g then suc (length past) else earlier
last_access (evicts ∷ past) f = last_access past f

last_access-le : (past : List Use) (f : ℕ) → last_access past f ≤ length past
unfolding last_access
last_access-le [] f = omega arith
last_access-le (accesses g ∷ past) f = ground (arith, last_access-le past f)
last_access-le (evicts ∷ past) f = omega (arith, last_access-le past f)

-- From the latest used on, by a measure of use.
abbrev pub Recent : (ℕ → ℕ) → BufferVec → Type 0
Recent used [] = Unit {0}
Recent used (f ∷ fs) = ((g : ℕ) → Has g fs → used g < used f) × Recent used fs

Has-erase_first : (f g : ℕ) (fs : BufferVec) → Has g (erase_first f fs) → Has g fs
unfolding erase_first
Has-erase_first f g [] h = h
Has-erase_first f g (x ∷ fs) h = ground (arith, Has-erase_first f g fs)

erase_first-Recent :
    (used : ℕ → ℕ) (f : ℕ) (fs : BufferVec) → Recent used fs → Recent used (erase_first f fs)
unfolding erase_first
erase_first-Recent used f [] r = tt
erase_first-Recent used f (x ∷ fs) r = elim (Bool-cases (nat_eq x f)) [
  | inl e ↦ rw e r.1
  | inr e ↦ rw e (λ g h. r.0 g (Has-erase_first f g fs h), erase_first-Recent used f fs r.1)
]

-- What is erased is there no more.
erase_first-gone :
    (used : ℕ → ℕ) (f : ℕ) (fs : BufferVec) → Recent used fs → ¬ Has f (erase_first f fs)
unfolding erase_first
erase_first-gone used f [] r h = h
erase_first-gone used f (x ∷ fs) r h = elim (nat_eq-cases x f) [
  | inl e ↦ ground (arith, r.0 f)
  | inr e ↦ ground (arith, erase_first-gone used f fs r.1)
]

Recent-same :
    (used used' : ℕ → ℕ) (fs : BufferVec)
    → ((g : ℕ) → Has g fs → used' g ≡ used g)
    → Recent used fs
    → Recent used' fs
Recent-same used used' [] same r = tt
Recent-same used used' (f ∷ fs) same r = (
  λ g h. ground (arith, same g (inr h), same f (inl refl), r.0 g h),
  Recent-same used used' fs (λ g h. same g (inr h)) r.1,
)

evict-Recent : (used : ℕ → ℕ) (v : BufferVec) → Recent used v → Recent used (rest_of v (evict v))
unfolding evict
evict-Recent used [] r = tt
evict-Recent used (f ∷ fs) r = erase_first-Recent used (last_of f (f ∷ fs)) (f ∷ fs) r

frames-Recent : (past : List Use) → Recent (last_access past) (frames past)
unfolding frames last_access access
frames-Recent [] = tt
frames-Recent (accesses f ∷ past) =
    let earlier = frames-Recent past in
    let v = frames past in
    let still : Recent (last_access past) (erase_first f v) =
      erase_first-Recent (last_access past) f v earlier in
    (
      λ g h. ground (arith, last_access-le past g, erase_first-gone (last_access past) f v earlier),
      Recent-same (last_access past) (last_access (accesses f ∷ past)) (erase_first f v)
          (λ g h. ground (arith, erase_first-gone (last_access past) f v earlier)) still,
    )
frames-Recent (evicts ∷ past) =
    Recent-same (last_access past) (last_access (evicts ∷ past)) _ (λ g h. refl)
      (evict-Recent (last_access past) (frames past) (frames-Recent past))

last_of-oldest :
    (used : ℕ → ℕ) (f : ℕ) (fs : BufferVec)
    → Recent used (f ∷ fs)
    → Has (last_of f fs) (f ∷ fs) × ((g : ℕ) → Has g (f ∷ fs) → used (last_of f fs) ≤ used g)
unfolding last_of
last_of-oldest used f [] r = (inl refl, λ g h. ground arith)
last_of-oldest used f (x ∷ fs) r =
    let (there, oldest) = last_of-oldest used x fs r.1 in
    (inr there, λ g h. ground (arith, oldest g, oldest x (inl refl), r.0 x (inl refl)))

erase_first-others : (f g : ℕ) (fs : BufferVec) → g ≢ f → Has g fs → Has g (erase_first f fs)
unfolding erase_first
erase_first-others f g [] ne h = h
erase_first-others f g (x ∷ fs) ne h = ground (arith, erase_first-others f g fs ne)

-- A frame of the strategy that goes, and what is left: it was last accessed before all others, it
-- is there no more, and the others still are.
pub record Victim (past : List Use) (v : ℕ) (rest : BufferVec) : Type 0 where
  pub held : Has v (frames past)
  pub oldest : (g : ℕ) → Has g (frames past) → last_access past v ≤ last_access past g
  pub gone : ¬ Has v rest
  pub others : (g : ℕ) → g ≢ v → Has g (frames past) → Has g rest

evict-Victim_of :
    (past : List Use) (v : BufferVec) (f : ℕ)
    → Recent (last_access past) v
    → v ≡ frames past
    → Has f v
    → (victim : ℕ) × (rest : BufferVec) × (evict v ≡ ok (victim, rest)) × Victim past victim rest
unfolding evict last_of
evict-Victim_of past [] f r e h = absurd h
evict-Victim_of past (x ∷ fs) f r e h =
    let used = last_access past in
    let victim = last_of x fs in
    let (there, oldest) = last_of-oldest used x fs r in
    (
      victim,
      erase_first victim (x ∷ fs),
      refl,
      record {
        held = subst (Has victim) e there;
        oldest = λ g k. oldest g (subst (Has g) (sym e) k);
        gone = erase_first-gone used victim (x ∷ fs) r;
        others = λ g ne k. erase_first-others victim g (x ∷ fs) ne (subst (Has g) (sym e) k);
      },
    )

-- After any accesses and evictions, of which some left a frame with the strategy, `Evict` returns a
-- frame whose last access lies before those of all others, and takes this frame only away.
pub evict-Victim :
    (past : List Use) (f : ℕ)
    → Has f (frames past)
    → (victim : ℕ) × (rest : BufferVec) × (evict (frames past) ≡ ok (victim, rest))
      × Victim past victim rest
evict-Victim past f h = evict-Victim_of past (frames past) f (frames-Recent past) refl h
