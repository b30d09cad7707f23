-- ===== src/Lru/Tests.antt =====
-- A run of src/storage/lru_buffer_strategy.cpp, and the theorem at it.
use database_hw.Prelude.{ℕ, ◌≡◌, refl, inl, inr, List, [], ◌∷◌, Has}
use database_hw.Result.{ok}
use database_hw.Lru.{BufferVec, erase_first, access, last_of, evict}
use database_hw.Lru.Oldest.{Use, accesses, frames, Victim, evict-Victim}

-- Frames 0, 1 and 2 are accessed, and 0 again: 1 is the oldest.
abbrev past : List Use
past = accesses 0 ∷ accesses 2 ∷ accesses 1 ∷ accesses 0 ∷ []

runs : evict (frames past) ≡ ok (1, 0 ∷ 2 ∷ [])
unfolding frames access erase_first evict last_of
runs = refl

held : Has 2 (frames past)
unfolding frames access erase_first
held = inr (inl refl)

evict-Victim_example :
    (victim : ℕ) × (rest : BufferVec) × (evict (frames past) ≡ ok (victim, rest))
    × Victim past victim rest
evict-Victim_example = evict-Victim past 2 held
