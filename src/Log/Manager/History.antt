-- ===== src/Log/Manager/History.antt =====
-- The records that a log manager has appended, the newest first, as a list beside the state: how
-- they follow one another, and where each of them is.
use database_hw.Prelude.{
  ℕ, ◌+◌, ◌^◌, ◌<◌, ◌≤◌, ◌≡◌, ◌≢◌, ◌⊎◌, refl, sym, subst, inl, inr, List, [], ◌∷◌, ◌++◌, Bool, true,
  false, not, ◌&&◌, Option, none, some, nat_eq, leb, find, Has, eq_nat, if◌then◌else◌, arith,
}
use database_hw.Types.{eq_table_pageid, null_lsn}
use database_hw.Bytes.Laws.{Holds}
use database_hw.Log.Record.{
  Body, commit, rollback, begin_checkpoint, end_checkpoint, LogRecord, get_size,
}
use database_hw.Log.Record.RoundTrip.{Fits, log_bytes}
use database_hw.Log.File.{LogFile}
use database_hw.Log.Manager.{LogManager, ddl_xid}

abbrev pub is_checkpoint : Body → Bool
is_checkpoint begin_checkpoint = true
is_checkpoint (end_checkpoint att dpt) = true
is_checkpoint _ = false

abbrev pub ends : Body → Bool
ends commit = true
ends rollback = true
ends _ = false

-- The record is one of the transaction.
abbrev pub belongs : ℕ → LogRecord → Bool
belongs xid r = nat_eq r.xid xid && not (is_checkpoint r.body)

-- The lsn of the transaction's last record, if the transaction goes on.
unfoldable pub last : ℕ → List LogRecord → Option ℕ
last xid [] = none
last xid (r ∷ h) =
    let earlier = last xid h in
    if belongs xid r then (if ends r.body then none else some r.lsn) else earlier

-- What a transaction that goes on has done, the newest first.
unfoldable pub pending : ℕ → List LogRecord → List LogRecord
pending xid [] = []
pending xid (r ∷ h) =
    let earlier = pending xid h in
    if belongs xid r then (if ends r.body then [] else r ∷ earlier) else earlier

abbrev pub lsn_of : Option ℕ → ℕ
lsn_of none = null_lsn
lsn_of (some lsn) = lsn

-- Only a checkpoint's record may be longer than `MAX_LOG_SIZE`; 255 bytes are left for a record.
abbrev pub Short : LogRecord → Type 0
Short r = is_checkpoint r.body ≡ false → get_size r ≤ 269

-- The records lie one behind the other up to an lsn, and each names the one before of its
-- transaction.
abbrev pub History : ℕ → List LogRecord → Type 0
History next [] = Unit {0}
History next (r ∷ h) =
    (r.lsn + get_size r ≡ next)
    × (13 ≤ get_size r)
    × Fits r
    × Short r
    × (is_checkpoint r.body ≡ false → r.xid ≢ ddl_xid → r.prev_lsn ≡ lsn_of (last r.xid h))
    × History r.lsn h

-- The record is in the file, as `flushed_lsn_` tells.
abbrev pub written : LogManager → LogRecord → Bool
written s r = not (nat_eq s.flushed_lsn null_lsn) && leb r.lsn s.flushed_lsn

abbrev pub OnDisk : LogFile → LogRecord → Type 0
OnDisk file r = Holds file.bytes r.lsn (log_bytes r)

-- What the buffer holds, in the order of the lsns.
unfoldable pub unwritten : LogManager → List LogRecord → List LogRecord
unwritten s [] = []
unwritten s (r ∷ h) =
    let earlier = unwritten s h in if written s r then earlier else earlier ++ r ∷ []

-- The invariant of a log manager, for lsns that fit the offsets of the log file.
pub record IsValid (s : LogManager) (h : List LogRecord) : Type 0 where
  pub small : s.next_lsn < 2 ^ 32
  pub flushed : (s.flushed_lsn ≡ null_lsn) ⊎ (s.flushed_lsn < s.next_lsn)
  pub history : History s.next_lsn h
  pub buffer : s.log_buffer ≡ unwritten s h
  pub disk : (r : LogRecord) → Has r h → written s r ≡ true → OnDisk s.disk r
  pub active : (xid : ℕ) → xid ≢ ddl_xid → find xid s.att ≡ last xid h

pub History-lt :
    (next : ℕ) (h : List LogRecord) (q : LogRecord)
    → History next h
    → Has q h
    → (q.lsn + get_size q ≤ next) × (q.lsn < next) × Fits q × Short q
History-lt next [] q ok m = absurd m
History-lt next (r ∷ h) q (at, size, fits, short, prev, rest) (inl e) =
    subst (λ (x : LogRecord). (x.lsn + get_size x ≤ next) × (x.lsn < next) × Fits x × Short x)
      (sym e) (omega arith, omega arith, fits, short)
History-lt next (r ∷ h) q (at, size, fits, short, prev, rest) (inr m) =
    let (end, below, f, s) = History-lt r.lsn h q rest m in (omega arith, omega arith, f, s)

pub unwritten_same :
    (s s' : LogManager) (h : List LogRecord)
    → s'.flushed_lsn ≡ s.flushed_lsn
    → unwritten s' h ≡ unwritten s h
unfolding unwritten
unwritten_same s s' [] same = refl
unwritten_same s s' (r ∷ h) same = ground (arith, same, unwritten_same s s' h same)
