-- ===== src/Lru.antt =====
-- src/storage/lru_buffer_strategy.{h,cpp}: the order in which the frames of the buffer pool are
-- given up. `access_map` is read and written by nothing.
pub mod Oldest
mod Tests
use database_hw.Prelude.{ℕ, List, [], ◌∷◌, nat_eq, if◌then◌else◌}
use database_hw.Result.{Result, ok, undefined}

-- `buffer_vec`, the frames from the last used to the first used.
abbrev pub BufferVec : Type 0
BufferVec = List ℕ

-- `buffer_vec.erase(std::find(…))`: the first occurrence, if any, goes.
unfoldable pub erase_first : ℕ → BufferVec → BufferVec
erase_first frame_no [] = []
erase_first frame_no (f ∷ fs) = if nat_eq f frame_no then fs else f ∷ erase_first frame_no fs

unfoldable pub access : BufferVec → ℕ → BufferVec
access buffer_vec frame_no = frame_no ∷ erase_first frame_no buffer_vec

-- The loop of `Evict`, from the first frame on.
unfoldable pub last_of : ℕ → BufferVec → ℕ
last_of victim [] = victim
last_of victim (i ∷ rest) = last_of i rest

-- `Evict` reads the first frame, whether there is one or not.
unfoldable pub evict : BufferVec → Result (ℕ × BufferVec)
evict [] = undefined
evict (f ∷ fs) = let victim = last_of f (f ∷ fs) in ok (victim, erase_first victim (f ∷ fs))
