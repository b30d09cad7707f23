-- ===== src/Log/Manager/Valid.antt =====
-- The operations of the log manager keep its invariant.
use database_hw.Prelude.{
  ℕ, ◌^◌, ◌<◌, ◌≤◌, ◌≡◌, ◌≢◌, ◌⊎◌, refl, sym, subst, ◌∙◌, inl, inr, List, [], ◌∷◌, true, not, ◌||◌,
  Bool-cases, nat_eq-cases, Has, arith,
}
use database_hw.Types.{null_lsn}
use database_hw.Log.Record.{LogRecord}
use database_hw.Log.Manager.{LogManager, FlushRun, end_flush, flush, flush_loop, no_flush, stays}
use database_hw.Log.Manager.History.{History-lt, IsValid, written, unwritten}
use database_hw.Log.Manager.Flush.{Flushed, left, flush_run, flush_run-Flushed}

module _ (s : LogManager) (lsn next : ℕ) (small : next < 2 ^ 32) where
  end_written :
      (h : List LogRecord) (run : FlushRun) (r : LogRecord)
      → Flushed s lsn next h run
      → Has r h
      → r.lsn < next
      → written (end_flush s run) r ≡ (written s r || not (stays lsn r))
  end_written h run r flushed m below = elim (nat_eq-cases run.max_lsn null_lsn) [
    | inl none ↦ elim (Bool-cases (written s r)) [
      | inl is ↦ ground (arith, none, is)
      | inr is ↦ let reached = flushed.reached r m is in ground (arith, none, is, reached)
    ]
    | inr max ↦
        let (a, b, c) = flushed.greatest max in
        elim (Bool-cases (written s r)) [
          | inl is ↦ ground (arith, is, a, b, c, below)
          | inr is ↦ elim (Bool-cases (stays lsn r)) [
            | inl st ↦ ground (arith, is, st, a, b, c, below)
            | inr st ↦ ground (arith, is, st, flushed.reached r m is st, a, b, c, below)
          ]
        ]
  ]

  unwritten-left :
      (whole h : List LogRecord) (run : FlushRun)
      → Flushed s lsn next whole run
      → ((r : LogRecord) → Has r h → Has r whole × (r.lsn < next))
      → unwritten (end_flush s run) h ≡ left s lsn h
  unfolding unwritten
  unwritten-left whole [] run flushed sub = refl
  unwritten-left whole (r ∷ h) run flushed sub =
      let (m, below) = sub r (inl refl) in
      let e = end_written whole run r flushed m below in
      let rest = unwritten-left whole h run flushed (λ q n. sub q (inr n)) in
      ground (arith, e, rest)

-- What `Flush` leaves in the file and in the buffer, which has what is not in the file.
pub record Durable (s s' : LogManager) (lsn : ℕ) (h : List LogRecord) : Type 0 where
  pub valid : IsValid s' h
  pub reached : (r : LogRecord) → Has r h → (lsn ≡ null_lsn) ⊎ (r.lsn ≤ lsn) → written s' r ≡ true
  pub kept : (r : LogRecord) → Has r h → lsn ≢ null_lsn → lsn < r.lsn → written s' r ≡ written s r
  pub att : s'.att ≡ s.att
  pub dpt : s'.dpt ≡ s.dpt
  pub next_lsn : s'.next_lsn ≡ s.next_lsn
  pub master_record : s'.master_record ≡ s.master_record
  pub started : s.flushed_lsn ≢ null_lsn → s'.flushed_lsn ≢ null_lsn

-- A flush up to an lsn, in a state that agrees with a history of the log, leaves one that does:
-- every record of the history up to this lsn, or every one if the lsn is null, is in the file; a
-- record behind the lsn is in the file only if it was before, and in the buffer otherwise; the tables,
-- the next lsn and the master record stay, and `flushed_lsn_` is set if it was.
pub flush-Durable :
    (s : LogManager) (lsn : ℕ) (h : List LogRecord) → IsValid s h → Durable s (flush s lsn) lsn h
unfolding flush
flush-Durable s lsn h valid =
    let run = flush_run s lsn h in
    let flushed = flush_run-Flushed s lsn s.next_lsn h valid.small valid.history valid.disk in
    let below : (r : LogRecord) → Has r h → r.lsn < s.next_lsn =
      λ r m. (History-lt s.next_lsn h r valid.history m).1 in
    let now : (r : LogRecord)
        → Has r h
        → written (end_flush s run) r ≡ (written s r || not (stays lsn r)) =
      λ r m. end_written s lsn s.next_lsn valid.small h run r flushed m (below r m) in
    subst
      (λ (b : List LogRecord). Durable s (end_flush s (flush_loop lsn b (no_flush s.disk))) lsn h)
      (sym valid.buffer)
      (record {
        valid = record {
          small = valid.small;
          flushed = ground (arith, valid.flushed, flushed.greatest);
          history = valid.history;
          buffer =
              flushed.kept
              ∙ sym (
                  unwritten-left s lsn s.next_lsn valid.small h h run flushed
                    (λ r m. (m, below r m)));
          disk = λ r m is. flushed.disk r m (ground (arith, is, now r m));
          active = valid.active;
        };
        reached = λ r m up. ground (arith, up, now r m);
        kept = λ r m some_lsn above. ground (arith, some_lsn, above, now r m);
        att = refl;
        dpt = refl;
        next_lsn = refl;
        master_record = refl;
        started = λ set. ground (arith, set);
      })
