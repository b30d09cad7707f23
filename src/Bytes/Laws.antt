-- ===== src/Bytes/Laws.antt =====
-- What is written is read back, and nothing else changes.
use database_hw.Prelude.{
  ℕ, zero, suc, ◌+◌, ◌/◌, ◌^◌, ◌≤◌, ◌<◌, ◌≡◌, refl, ◌⊎◌, List, [], ◌∷◌, ◌++◌, length, arith, ap,
  ap₂, subst, fun_ext, ◌∙◌,
}
use native.Mathlib.Nat.{pow-suc}
use database_hw.Bytes.{Memory, write, read, le_bytes, of_le, put_int, get_int}

pub length-le_bytes : (n v : ℕ) → length (le_bytes n v) ≡ n
unfolding le_bytes
length-le_bytes zero v = refl
length-le_bytes (suc n) v = ap suc (length-le_bytes n (v / 256))

pub length-read : (m : Memory) (at n : ℕ) → length (read m at n) ≡ n
unfolding read
length-read m at zero = refl
length-read m at (suc n) = ap suc (length-read m (suc at) n)

pub of_le-le_bytes : (n v : ℕ) → v < 256 ^ n → of_le (le_bytes n v) ≡ v
unfolding of_le le_bytes
of_le-le_bytes zero v h = omega arith
of_le-le_bytes (suc n) v h =
    omega (arith, of_le-le_bytes n (v / 256) (omega (arith, pow-suc 256 n)))

-- A byte outside the part written.
pub write_outside :
    (m : Memory) (at : ℕ) (bs : List ℕ) (i : ℕ)
    → (i < at) ⊎ (at + length bs ≤ i)
    → write m at bs i ≡ m i
unfolding write
write_outside m at [] i h = refl
write_outside m at (b ∷ bs) i h = ground (arith, write_outside m (suc at) bs i)

-- Memories that agree on a part read alike there.
pub read_same :
    (m m' : Memory) (from n : ℕ)
    → ((i : ℕ) → from ≤ i → i < from + n → m i ≡ m' i)
    → read m from n ≡ read m' from n
unfolding read
read_same m m' from zero h = refl
read_same m m' from (suc n) h =
    ap₂ ◌∷◌ (h from (omega arith) (omega arith))
      (read_same m m' (suc from) n (λ i lo hi. h i (omega arith) (omega arith)))

pub write_here : (m : Memory) (at b : ℕ) (bs : List ℕ) → write m at (b ∷ bs) at ≡ b
unfolding write
write_here m at b bs = ground arith

pub read-write_self : (m : Memory) (at : ℕ) (bs : List ℕ) → read (write m at bs) at (length bs) ≡ bs
unfolding write read
read-write_self m at [] = refl
read-write_self m at (b ∷ bs) = ap₂ ◌∷◌ (ground arith) (
    read_same _ (write m (suc at) bs) (suc at) (length bs) (λ i lo hi. ground arith)
    ∙ read-write_self m (suc at) bs)

-- A part that is read apart from the part written.
pub read-write_apart :
    (m : Memory) (at : ℕ) (bs : List ℕ) (from n : ℕ)
    → (from + n ≤ at) ⊎ (at + length bs ≤ from)
    → read (write m at bs) from n ≡ read m from n
unfolding read
read-write_apart m at bs from zero h = refl
read-write_apart m at bs from (suc n) h =
    ground (arith, write_outside m at bs from, read-write_apart m at bs (suc from) n)

-- An integer that fits its width is read back.
pub get_int-put_int :
    (m : Memory) (at width v : ℕ) → v < 256 ^ width → get_int (put_int m at width v) at width ≡ v
get_int-put_int m at width v h =
    subst (λ n. of_le (read (put_int m at width v) at n) ≡ v) (length-le_bytes width v)
      (ap of_le (read-write_self m at (le_bytes width v)) ∙ of_le-le_bytes width v h)

pub get_int-write_apart :
    (m : Memory) (at : ℕ) (bs : List ℕ) (from width : ℕ)
    → (from + width ≤ at) ⊎ (at + length bs ≤ from)
    → get_int (write m at bs) from width ≡ get_int m from width
get_int-write_apart m at bs from width h = ap of_le (read-write_apart m at bs from width h)

-- A write depends on the memory under it byte by byte.
write_over :
    (m m' : Memory) (at : ℕ) (bs : List ℕ) (i : ℕ) → m i ≡ m' i → write m at bs i ≡ write m' at bs i
unfolding write
write_over m m' at [] i h = h
write_over m m' at (b ∷ bs) i h = ground (arith, write_over m m' (suc at) bs i)

write-append_at :
    (m : Memory) (at : ℕ) (xs ys : List ℕ) (i : ℕ)
    → write (write m at xs) (at + length xs) ys i ≡ write m at (xs ++ ys) i
unfolding write
write-append_at m at [] ys i = let e : at + 0 ≡ at = omega arith in rw e
write-append_at m at (x ∷ xs) ys i =
    let e : at + suc (length xs) ≡ suc at + length xs = omega arith in
    rw e (
      ground (
        arith,
        write-append_at m (suc at) xs ys i,
        write_outside (write m at (x ∷ xs)) (suc at + length xs) ys i,
        write_over (write m at (x ∷ xs)) (write m (suc at) xs) (suc at + length xs) ys i,
      ))

-- Two writes one behind the other are one write.
pub write-append :
    (m : Memory) (at : ℕ) (xs ys : List ℕ)
    → write (write m at xs) (at + length xs) ys ≡ write m at (xs ++ ys)
write-append m at xs ys = fun_ext (write-append_at m at xs ys)

-- The bytes stand at an address.
abbrev pub Holds : Memory → ℕ → List ℕ → Type 0
Holds m at bs = read m at (length bs) ≡ bs

pub Holds_head : (m : Memory) (at b : ℕ) (bs : List ℕ) → Holds m at (b ∷ bs) → m at ≡ b
unfolding read
Holds_head m at b bs h = ground arith

pub Holds-append :
    (m : Memory) (at : ℕ) (xs ys : List ℕ)
    → Holds m at (xs ++ ys)
    → Holds m at xs × Holds m (at + length xs) ys
unfolding read
Holds-append m at [] ys h = let e : at + 0 ≡ at = omega arith in (refl, rw e h)
Holds-append m at (x ∷ xs) ys h =
    let e : at + suc (length xs) ≡ suc at + length xs = omega arith in
    let rest = Holds-append m (suc at) xs ys (ground arith) in
    (ap₂ ◌∷◌ (ground arith) rest.0, rw e rest.1)

pub Holds_int :
    (m : Memory) (at width v : ℕ)
    → v < 256 ^ width
    → Holds m at (le_bytes width v)
    → get_int m at width ≡ v
Holds_int m at width v h held =
    subst (λ n. of_le (read m at n) ≡ v) (length-le_bytes width v)
      (ap of_le held ∙ of_le-le_bytes width v h)
