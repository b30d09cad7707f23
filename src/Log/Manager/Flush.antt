-- ===== src/Log/Manager/Flush.antt =====
-- What the loop of `Flush` writes, keeps and finds to be the greatest lsn.
use database_hw.Prelude.{
  nat_eq-cases, ℕ, ◌+◌, ◌^◌, ◌<◌, ◌≤◌, ◌≡◌, ◌≢◌, ◌⊎◌, refl, sym, subst, ap, ap₂, ◌∙◌, inl, inr,
  List, [], ◌∷◌, ◌++◌, Bool, true, false, length, Has, if◌then◌else◌, arith,
}
use database_hw.Types.{null_lsn}
use database_hw.Bytes.{Memory, write, read}
use database_hw.Bytes.Laws.{Holds, read_same, read-write_self, read-write_apart, write_outside}
use database_hw.Log.Record.{LogRecord, get_size}
use database_hw.Log.Record.RoundTrip.{Fits, log_bytes, serialize_to_lem, length-log_bytes}
use database_hw.Log.File.{LogFile, write_log}
use database_hw.Log.Manager.{
  LogManager, FlushRun, no_flush, flush_one, flush_loop, stays, write_record,
}
use database_hw.Log.Manager.History.{History, History-lt, OnDisk, written, unwritten}

pub write_record_lem :
    (f : LogFile) (r : LogRecord)
    → Fits r
    → r.lsn < 2 ^ 32
    → (write_record f r).bytes ≡ write f.bytes r.lsn (log_bytes r)
unfolding write_log
write_record_lem f r fits small =
    let run = serialize_to_lem r (λ i. 0) 0 in
    let size = length-log_bytes r.lsn r.xid r.prev_lsn r.body fits in
    ap₂ (λ (at : ℕ) (bytes : List ℕ). write f.bytes at bytes) (omega (arith, small))
      (ap₂ (λ (p : Memory × ℕ) (n : ℕ). read p.0 0 n) run (sym size)
        ∙ read-write_self (λ i. 0) 0 (log_bytes r))

flush_loop-append :
    (lsn : ℕ) (xs ys : List LogRecord) (run : FlushRun)
    → flush_loop lsn (xs ++ ys) run ≡ flush_loop lsn ys (flush_loop lsn xs run)
unfolding flush_loop
flush_loop-append lsn [] ys run = refl
flush_loop-append lsn (x ∷ xs) ys run = flush_loop-append lsn xs ys _

module _ (s : LogManager) (lsn : ℕ) where
  abbrev pub left : List LogRecord → List LogRecord
  left [] = []
  left (r ∷ h) = if written s r then left h else if stays lsn r then left h ++ r ∷ [] else left h

  pub record Flushed (next : ℕ) (h : List LogRecord) (run : FlushRun) : Type 0 where
    pub reached :
        (r : LogRecord)
        → Has r h
        → written s r ≡ false
        → stays lsn r ≡ false
        → (run.max_lsn ≢ null_lsn) × (r.lsn ≤ run.max_lsn)
    pub greatest :
        run.max_lsn ≢ null_lsn
        → ((lsn ≡ null_lsn) ⊎ (run.max_lsn ≤ lsn))
          × ((s.flushed_lsn ≡ null_lsn) ⊎ (s.flushed_lsn < run.max_lsn))
          × (run.max_lsn < next)
    pub kept : run.kept ≡ left h
    pub disk :
        (r : LogRecord) → Has r h → (written s r ≡ true) ⊎ (stays lsn r ≡ false) → OnDisk run.file r
    pub beyond : (i : ℕ) → next ≤ i → run.file.bytes i ≡ s.disk.bytes i

  module _ (r : LogRecord) (h : List LogRecord) (next : ℕ) (longer : r.lsn < next)
      (run : FlushRun) where
    written-Flushed :
        written s r ≡ true → OnDisk run.file r → Flushed r.lsn h run → Flushed next (r ∷ h) run
    written-Flushed is here flushed = record {
      reached =
          λ q m no go. elim m [ inl e ↦ absurd (ground arith) | inr m ↦ flushed.reached q m no go ];
      greatest = λ ne. let (a, b, c) = flushed.greatest ne in (a, b, omega (arith, c, longer));
      kept = ground (arith, is, flushed.kept);
      disk = λ q m c. elim m [
        | inl e ↦ subst (OnDisk run.file) (sym e) here
        | inr m ↦ flushed.disk q m c
      ];
      beyond = λ i far. flushed.beyond i (omega (arith, far, longer));
    }

    kept-Flushed :
        written s r ≡ false
        → stays lsn r ≡ true
        → Flushed r.lsn h run
        → Flushed next (r ∷ h) (record run { kept = run.kept ++ r ∷ [] })
    kept-Flushed is stay flushed = record {
      reached =
          λ q m no go. elim m [ inl e ↦ absurd (ground arith) | inr m ↦ flushed.reached q m no go ];
      greatest = λ ne. let (a, b, c) = flushed.greatest ne in (a, b, omega (arith, c, longer));
      kept = ground (arith, is, stay, flushed.kept);
      disk = λ q m c. elim m [ inl e ↦ absurd (ground arith) | inr m ↦ flushed.disk q m c ];
      beyond = λ i far. flushed.beyond i (omega (arith, far, longer));
    }

    put-Flushed :
        written s r ≡ false
        → stays lsn r ≡ false
        → Fits r
        → r.lsn + get_size r ≤ next
        → next < 2 ^ 32
        → History r.lsn h
        → Flushed r.lsn h run
        → Flushed next (r ∷ h) (flush_one run r)
    put-Flushed is go fits end small history flushed =
        let newest : (flush_one run r).max_lsn ≡ r.lsn = elim (nat_eq-cases run.max_lsn null_lsn) [
          | inl none ↦ ground (arith, none)
          | inr max ↦ let (a, b, c) = flushed.greatest max in ground (arith, c)
        ] in
        let stored = write_record_lem run.file r fits (omega (arith, longer, small)) in
        record {
          reached = λ q m no going. elim m [
            | inl e ↦ (
              λ null. omega (arith, newest, null, longer, small),
              omega (arith, newest, ap (λ (x : LogRecord). x.lsn) e),
            )
            | inr m ↦
                let (a, below, c, d) = History-lt r.lsn h q history m in
                (λ null. omega (arith, newest, null, longer, small), omega (arith, newest, below))
          ];
          greatest = λ ne. ground (arith, newest, is, go, longer);
          kept = ground (arith, is, go, flushed.kept);
          disk = λ q m c.
              subst (λ (bytes : Memory). Holds bytes q.lsn (log_bytes q)) (sym stored)
                (elim m [
                  | inl e ↦
                      subst
                        (λ (x : LogRecord).
                          Holds (write run.file.bytes r.lsn (log_bytes r)) x.lsn (log_bytes x))
                        (sym e) (read-write_self run.file.bytes r.lsn (log_bytes r))
                  | inr m ↦
                      let (a, below, f, d) = History-lt r.lsn h q history m in
                      let size = length-log_bytes q.lsn q.xid q.prev_lsn q.body f in
                      read-write_apart run.file.bytes r.lsn (log_bytes r) q.lsn
                        (length (log_bytes q)) (inl (omega (arith, size, a)))
                      ∙ flushed.disk q m c
                ]);
          beyond = λ i far.
              ap (λ (bytes : Memory). bytes i) stored
              ∙ write_outside run.file.bytes r.lsn (log_bytes r) i (
                  inr
                    (omega (arith, far, end, length-log_bytes r.lsn r.xid r.prev_lsn r.body fits)))
              ∙ flushed.beyond i (omega (arith, far, longer));
        }

  abbrev pub flush_run : List LogRecord → FlushRun
  flush_run h = flush_loop lsn (unwritten s h) (no_flush s.disk)

  -- The record that the history adds is written already, stays, or is written now.
  flush_more :
      (r : LogRecord) (h : List LogRecord)
      → flush_run (r ∷ h) ≡ (
          if written s r
          then flush_run h
          else if stays lsn r
          then record (flush_run h) { kept = (flush_run h).kept ++ r ∷ [] }
          else flush_one (flush_run h) r)
  unfolding unwritten flush_loop
  flush_more r h = ground (arith, flush_loop-append lsn (unwritten s h) (r ∷ []) (no_flush s.disk))

  grown :
      (r : LogRecord) (h : List LogRecord) (next : ℕ) (w t : Bool)
      → next < 2 ^ 32
      → History next (r ∷ h)
      → ((q : LogRecord) → Has q (r ∷ h) → written s q ≡ true → OnDisk s.disk q)
      → Flushed r.lsn h (flush_run h)
      → written s r ≡ w
      → stays lsn r ≡ t
      → Flushed next (r ∷ h) (
          if w
          then flush_run h
          else if t
          then record (flush_run h) { kept = (flush_run h).kept ++ r ∷ [] }
          else flush_one (flush_run h) r)
  grown r h next true t small (at, size, fits, short, prev, history) disk before is stay =
      let same =
        read_same (flush_run h).file.bytes s.disk.bytes r.lsn (length (log_bytes r))
          (λ i lo hi. before.beyond i lo) in
      written-Flushed r h next (omega arith) (flush_run h) is (same ∙ disk r (inl refl) is) before
  grown r h next false true small (at, size, fits, short, prev, history) disk before is stay =
      kept-Flushed r h next (omega arith) (flush_run h) is stay before
  grown r h next false false small (at, size, fits, short, prev, history) disk before is stay =
      put-Flushed r h next (omega arith) (flush_run h) is stay fits (omega arith) small history
        before

  pub flush_run-Flushed :
      (next : ℕ) (h : List LogRecord)
      → next < 2 ^ 32
      → History next h
      → ((r : LogRecord) → Has r h → written s r ≡ true → OnDisk s.disk r)
      → Flushed next h (flush_run h)
  unfolding unwritten flush_loop
  flush_run-Flushed next [] small history disk = record {
    reached = λ r m. absurd m;
    greatest = λ ne. absurd (ne refl);
    kept = refl;
    disk = λ r m. absurd m;
    beyond = λ i far. refl;
  }
  flush_run-Flushed next (r ∷ h) small ok disk =
      let (at, size, fits, short, prev, history) = ok in
      let before = flush_run-Flushed r.lsn h (omega arith) history (λ q m. disk q (inr m)) in
      subst (Flushed next (r ∷ h)) (sym (flush_more r h))
        (grown r h next (written s r) (stays lsn r) small ok disk before refl refl)
