-- ===== src/BufferPool/Frames.antt =====
-- The frames of the pool, the map from keys to frames, and the pages that the pool stands for.
use database_hw.Prelude.{
  ℕ, zero, suc, ◌<◌, ◌≤◌, ◌≡◌, refl, inl, inr, Bool, false, Option, none, some, List, [], ◌∷◌, ◌++◌,
  nat_eq, length, get_elem?, set, find, Has, if◌then◌else◌, arith,
}
use database_hw.Types.{TablePageid, eq_table_pageid}
use database_hw.Result.{ok}
use database_hw.Bytes.{Memory}
use database_hw.Lru.{BufferVec, erase_first, access, last_of, evict}
use database_hw.BufferPool.{BufferPool, BufferPoolEntry, buffer_size}

module _ {ℓ} {A : Type ℓ} where
  pub get_elem?-set :
      (xs : List A) (i j : ℕ) (v : A)
      → i < length xs
      → get_elem? (set xs i v) j ≡ (if nat_eq j i then some v else get_elem? xs j)
  get_elem?-set [] i j v h = absurd (omega arith)
  get_elem?-set (x ∷ xs) zero zero v h = ground arith
  get_elem?-set (x ∷ xs) zero (suc j) v h = ground arith
  get_elem?-set (x ∷ xs) (suc i) zero v h = ground arith
  get_elem?-set (x ∷ xs) (suc i) (suc j) v h = ground (arith, get_elem?-set xs i j v)

  pub get_elem?-append :
      (xs : List A) (j : ℕ) (v : A)
      → get_elem? (xs ++ v ∷ []) j ≡ (if nat_eq j (length xs) then some v else get_elem? xs j)
  get_elem?-append [] zero v = ground arith
  get_elem?-append [] (suc j) v = ground arith
  get_elem?-append (x ∷ xs) zero v = ground arith
  get_elem?-append (x ∷ xs) (suc j) v = ground (arith, get_elem?-append xs j v)

  pub get_elem?-bound : (xs : List A) (i : ℕ) (v : A) → get_elem? xs i ≡ some v → i < length xs
  get_elem?-bound [] i v e = absurd (ground (arith, e))
  get_elem?-bound (x ∷ xs) zero v e = omega arith
  get_elem?-bound (x ∷ xs) (suc i) v e = omega (arith, get_elem?-bound xs i v e)

  pub get_elem?-there : (xs : List A) (i : ℕ) → i < length xs → (v : A) × (get_elem? xs i ≡ some v)
  get_elem?-there [] i h = absurd (omega arith)
  get_elem?-there (x ∷ xs) zero h = (x, refl)
  get_elem?-there (x ∷ xs) (suc i) h = get_elem?-there xs i (omega arith)

-- The strategy only knows frames of the buffer.
abbrev pub AllFrames : BufferVec → Type 0
AllFrames v = (f : ℕ) → Has f v → f < buffer_size

Has-erase : (f g : ℕ) (v : BufferVec) → Has g (erase_first f v) → Has g v
unfolding erase_first
Has-erase f g [] h = h
Has-erase f g (x ∷ v) h = ground (arith, Has-erase f g v)

pub access-AllFrames :
    (v : BufferVec) (f : ℕ) → f < buffer_size → AllFrames v → AllFrames (access v f)
unfolding access
access-AllFrames v f small all g (inl e) = omega (arith, e)
access-AllFrames v f small all g (inr h) = all g (Has-erase f g v h)

last_of-Has : (f : ℕ) (v : BufferVec) → Has (last_of f v) (f ∷ v)
unfolding last_of
last_of-Has f [] = inl refl
last_of-Has f (x ∷ v) = inr (last_of-Has x v)

-- A strategy that knows a frame gives one up.
pub evict-frame :
    (v : BufferVec) (f : ℕ)
    → Has f v
    → AllFrames v
    → (victim : ℕ) × (rest : BufferVec) × (evict v ≡ ok (victim, rest))
      × (victim < buffer_size)
      × AllFrames rest
unfolding evict last_of
evict-frame [] f h all = absurd h
evict-frame (x ∷ v) f h all =
    let victim = last_of x v in
    (
      victim,
      erase_first victim (x ∷ v),
      refl,
      all victim (last_of-Has x v),
      λ g k. all g (Has-erase victim g (x ∷ v) k),
    )

module _ (db : ℕ) where
  -- The map and the frames agree, the buffer is not larger than it may be, its pages are of the
  -- database, and the strategy knows a frame when there is one.
  pub record Framed (s : BufferPool) : Type 0 where
    pub mapped :
        (key : TablePageid) (i : ℕ)
        → find key s.hashmap ≡ some i
        → (e : BufferPoolEntry) × (get_elem? s.buffers i ≡ some e) × (e.key ≡ key)
    pub keyed :
        (i : ℕ) (e : BufferPoolEntry)
        → get_elem? s.buffers i ≡ some e
        → find e.key s.hashmap ≡ some i
    pub own : (i : ℕ) (e : BufferPoolEntry) → get_elem? s.buffers i ≡ some e → e.db_oid ≡ db
    pub bounded : length s.buffers ≤ buffer_size
    pub frames : AllFrames s.buffer_strategy
    pub known : 0 < length s.buffers → (f : ℕ) × Has f s.buffer_strategy

  -- A page of the buffer that is not dirty is as on the disk, but for one key.
  abbrev pub CleanBut : (TablePageid → Bool) → BufferPool → Type 0
  CleanBut spared s =
      (i : ℕ) (e : BufferPoolEntry)
      → get_elem? s.buffers i ≡ some e
      → e.page.dirty ≡ false
      → spared e.key ≡ false
      → e.page.bytes ≡ s.disk db e.key

  abbrev pub bytes_of : Option BufferPoolEntry → Memory → Memory
  bytes_of none m = m
  bytes_of (some e) m = e.page.bytes

  -- The bytes of a page as the pool answers for them: its frame's, or the disk's.
  abbrev pub view : BufferPool → TablePageid → Memory
  view s key = elim (find key s.hashmap) [
    | none ↦ s.disk db key
    | some i ↦ bytes_of (get_elem? s.buffers i) (s.disk db key)
  ]
