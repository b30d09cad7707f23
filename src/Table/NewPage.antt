-- ===== src/Table/NewPage.antt =====
-- The insertion in a new page, with its log records.
use database_hw.Prelude.{
  ℕ, ◌^◌, ◌<◌, ◌≤◌, ◌≡◌, ap, ◌∙◌, Bool, true, List, eq_nat, Bool-cases, inl, inr, arith,
}
use database_hw.Result.{Result, ok, ◌>>=◌}
use database_hw.Record.{Record, Column}
use database_hw.Record.RoundTrip.{CanStore}
use database_hw.TablePage
use database_hw.TablePage.{
  get_record_count, get_next_page_id, get_free_space_size, get_upper, set_page_lsn, max_record_size,
}
use database_hw.TablePage.Marks.{init-IsValid}
use database_hw.TablePage.Space.{get_int-same}
use database_hw.TablePage.Stored.{stamped, stamped-CanStore, insert_record-get_record}
use database_hw.Log.Manager.{LogManager}
use database_hw.Table.{
  Table, page_at, fresh, log_insertion, with_rid, append_new_page, log_new_page, insert_in_new_page,
}
use database_hw.Table.InPage.{
  Took, Took-set_page_lsn, IsActive, append_new_page_log-runs, Placed, log_insertion-Placed,
}

-- The new page, before its record.
abbrev pub new_page_of : TablePage.Page → TablePage.Page
new_page_of p = TablePage.init (fresh p)

module _ (oid xid cid : ℕ) (write_log : Bool) (columns : List Column) (t : Table) (prev k : ℕ) where
  log_new_page-runs :
      (s : Record) (p p1 : TablePage.Page)
      → (write_log ≡ true → IsActive t.log_manager xid)
      → Took columns k s p p1
      → (log : LogManager) × (p2 : TablePage.Page) × (log_new_page oid xid cid write_log t prev k p1
          ≡ ok (record t { log_manager = log }, p2))
        × (write_log ≡ true → IsActive log xid)
        × Took columns k s p p2
  unfolding append_new_page
  log_new_page-runs s p p1 active took = elim (Bool-cases write_log) [
    | inr off ↦ (t.log_manager, p1, ground (arith, off), active, took)
    | inl on ↦
        let ((log, lsn), run, still) =
          append_new_page_log-runs t.log_manager xid oid prev k (active on) in
        (
          log,
          set_page_lsn p1 lsn,
          ground (arith, on, run),
          λ e. still,
          Took-set_page_lsn columns k s p p1 lsn took,
        )
  ]

  -- A record that is not too large is stored in a new page, as its only record.
  pub insert_in_new_page-Placed :
      (r : Record)
      → (write_log ≡ true → IsActive t.log_manager xid)
      → CanStore columns r
      → xid < 2 ^ 32
      → cid < 2 ^ 32
      → r.size ≤ max_record_size
      → (t' : Table) × (insert_in_new_page oid xid cid write_log t prev k r
          ≡ with_rid k 0 (stamped r xid cid) t')
        × Placed oid columns t k (stamped r xid cid) (new_page_of (page_at oid t k)) t'
  unfolding insert_in_new_page
  insert_in_new_page-Placed r active c hx hc size =
      let p = new_page_of (page_at oid t k) in
      let s = stamped r xid cid in
      let n = get_record_count p.bytes in
      let (v, count, link, room) = init-IsValid (fresh (page_at oid t k)) in
      let (p1, run, dirty, formed, counted, stored, kept, low) =
        insert_record-get_record p r xid cid columns k v c hx hc (omega arith) in
      let took : Took columns k s p p1 = record {
        formed = formed;
        counted = counted;
        stored = stored;
        kept = kept;
        link = get_int-same p1.bytes p.bytes 8 4 (λ i lo hi. low i hi);
      } in
      let (log, p2, logged, active2, took2) = log_new_page-runs s p p1 active took in
      let t1 : Table = record t { log_manager = log } in
      let (t', inserted, placed) =
        log_insertion-Placed oid xid cid write_log columns t1 k active2 n s p p2
          (stamped-CanStore columns r xid cid c hx hc) took2 in
      (
        t',
        ap
              (λ (x : Result (TablePage.Page × ℕ × Record)).
                x >>= λ (y : TablePage.Page × ℕ × Record).
                log_new_page oid xid cid write_log t prev k y.0 >>= λ (z : Table × TablePage.Page).
                log_insertion oid xid cid write_log z.0 k y.1 z.1 y.2 >>= with_rid k y.1 y.2)
              run
            ∙ ap
                (λ (x : Result (Table × TablePage.Page)). x >>= λ (z : Table × TablePage.Page).
                  log_insertion oid xid cid write_log z.0 k n z.1 s >>= with_rid k n s)
                logged
            ∙ ap (λ (x : Result Table). x >>= with_rid k n s) inserted
            ∙ ap (λ (slot_id : ℕ). with_rid k slot_id s t') count,
        record { page = placed.page; log = placed.log; same = placed.same; took = placed.took },
      )
