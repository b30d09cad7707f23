-- ===== src/Table/InPage.antt =====
-- The insertion in one page, with its log records.
use database_hw.Prelude.{
  ℕ, suc, ◌+◌, ◌^◌, ◌<◌, ◌≤◌, ◌≡◌, refl, ap, ◌∙◌, Bool, true, some, List, find, eq_nat, nat_eq,
  find-insert, Bool-cases, inl, inr, arith,
}
use database_hw.Types.{Rid, null_xid}
use database_hw.Result.{Result, ok, ◌>>=◌}
use database_hw.Bytes.{Memory, read}
use database_hw.Record.{Record, Column}
use database_hw.Record.RoundTrip.{CanStore, serialize_to-deserialize_from_record}
use database_hw.TablePage
use database_hw.TablePage.{
  get_record_count, get_next_page_id, get_free_space_size, get_upper, set_page_lsn, max_record_size,
}
use database_hw.TablePage.Space
use database_hw.TablePage.Space.{get_int-same}
use database_hw.TablePage.Stored.{
  stamped, stamped-CanStore, KeepsRecords, Gets, insert_record-get_record,
}
use database_hw.Log.Manager.{
  LogManager, append_insert_log, append_new_page_log, add_new_page, with_last, ddl_xid, add_log,
}
use database_hw.Table.{
  Table, page_at, set_page, append_insertion, log_insertion, with_rid, insert_in_page,
}
use database_hw.Table.Frame.{
  count-SameFrom, IsValid-SameFrom, KeepsRecords-SameFrom, get_record-KeepsRecords,
  set_page_lsn-SameFrom, KeepsRecords-trans,
}

-- The page has the record in its next slot, and is as before otherwise, up to its lsn.
pub record Took (columns : List Column) (k : ℕ) (s : Record) (p p' : TablePage.Page) : Type 0 where
  pub formed : Space.IsValid p'.bytes
  pub counted : get_record_count p'.bytes ≡ suc (get_record_count p.bytes)
  pub stored : Gets p' (record { page_id = k; slot_id = get_record_count p.bytes }) columns s
  pub kept : KeepsRecords p.bytes p'.bytes
  pub link : get_next_page_id p'.bytes ≡ get_next_page_id p.bytes

-- The lsn of a page is not part of that.
pub Took-set_page_lsn :
    (columns : List Column) (k : ℕ) (s : Record) (p p' : TablePage.Page) (lsn : ℕ)
    → Took columns k s p p'
    → Took columns k s p (set_page_lsn p' lsn)
Took-set_page_lsn columns k s p p' lsn t =
    let q = set_page_lsn p' lsn in
    let low = set_page_lsn-SameFrom p' lsn in
    let same = λ (i : ℕ) (h : 12 ≤ i). low i (omega arith) in
    let count = count-SameFrom p'.bytes q.bytes same in
    let kept = KeepsRecords-SameFrom p'.bytes q.bytes same t.formed in
    let counted = t.counted in
    let rid : Rid = record { page_id = k; slot_id = get_record_count p.bytes } in
    record {
      formed = IsValid-SameFrom p'.bytes q.bytes same t.formed;
      counted = count ∙ counted;
      stored = record {
        got = t.stored.got;
        run = get_record-KeepsRecords p' q rid columns kept (omega arith) ∙ t.stored.run;
        values = t.stored.values;
        header = t.stored.header;
        at = t.stored.at;
        valid = t.stored.valid;
      };
      kept = KeepsRecords-trans p.bytes p'.bytes q.bytes t.kept kept (omega arith);
      link = get_int-same q.bytes p'.bytes 8 4 (λ i lo hi. low i lo) ∙ t.link;
    }

-- The transaction has records in the log.
abbrev pub IsActive : LogManager → ℕ → Type 0
IsActive log_manager xid = (prev : ℕ) × (find xid log_manager.att ≡ some prev)

with_last-runs :
    {A : Type 0} (s : LogManager) (xid : ℕ) (f : ℕ → A) (prev : ℕ)
    → find xid s.att ≡ some prev
    → with_last s xid f ≡ ok (f prev)
unfolding with_last
with_last-runs s xid f prev e = rw (with_last, e) refl

append_insert_log-runs :
    (s : LogManager) (xid oid page_id slot_id offset size : ℕ) (raw : List ℕ)
    → IsActive s xid
    → (l : LogManager × ℕ) × (append_insert_log s xid oid page_id slot_id offset size raw ≡ ok l)
unfolding append_insert_log
append_insert_log-runs s xid oid page_id slot_id offset size raw (prev, e) =
    (_, with_last-runs s xid _ prev e)

add_new_page-IsActive :
    (s : LogManager) (xid lsn prev oid prev_page_id page_id : ℕ)
    → IsActive s xid
    → IsActive (add_new_page s xid prev oid prev_page_id page_id) xid
unfolding add_log
add_new_page-IsActive s xid lsn prev oid prev_page_id page_id (p, e) =
    elim (Bool-cases (nat_eq xid ddl_xid)) [
      | inl ddl ↦ (p, ground (arith, ddl, e))
      | inr user ↦ (s.next_lsn, ground (arith, user, find-insert xid xid s.next_lsn s.att))
    ]

pub append_new_page_log-runs :
    (s : LogManager) (xid oid prev_page_id page_id : ℕ)
    → IsActive s xid
    → (l : LogManager × ℕ) × (append_new_page_log s xid oid prev_page_id page_id ≡ ok l)
      × IsActive l.0 xid
unfolding append_new_page_log
append_new_page_log-runs s xid oid prev_page_id page_id (prev, e) =
    elim (Bool-cases (nat_eq xid ddl_xid)) [
      | inl ddl ↦ (
        (add_new_page s xid null_xid oid prev_page_id page_id, s.next_lsn),
        ground (arith, ddl),
        add_new_page-IsActive s xid s.next_lsn null_xid oid prev_page_id page_id (prev, e),
      )
      | inr user ↦ (
        (add_new_page s xid prev oid prev_page_id page_id, s.next_lsn),
        ground (
          arith,
          user,
          with_last-runs {A = LogManager × ℕ} s xid
              (λ (prev : ℕ). (add_new_page s xid prev oid prev_page_id page_id, s.next_lsn)) prev e,
        ),
        add_new_page-IsActive s xid s.next_lsn prev oid prev_page_id page_id (prev, e),
      )
    ]

-- The table with the page in its place, and another log.
pub record Placed (oid : ℕ) (columns : List Column) (t : Table) (k : ℕ) (s : Record)
    (p : TablePage.Page) (t' : Table) : Type 0 where
  pub page : TablePage.Page
  pub log : LogManager
  pub same : t' ≡ record (set_page oid t k page) { log_manager = log }
  pub took : Took columns k s p page

module _ (oid xid cid : ℕ) (write_log : Bool) (columns : List Column) (t : Table) (k : ℕ)
    (active : write_log ≡ true → IsActive t.log_manager xid) where
  abbrev finish : TablePage.Page → LogManager × ℕ → Result Table
  finish p1 l = ok (set_page oid (record t { log_manager = l.0 }) k (set_page_lsn p1 l.1))

  append_insertion-Placed :
      (slot_id : ℕ) (s : Record) (p p1 : TablePage.Page)
      → IsActive t.log_manager xid
      → CanStore columns s
      → Took columns k s p p1
      → (t' : Table) × (append_insertion oid xid cid write_log t k slot_id p1 s ≡ ok t')
        × Placed oid columns t k s p t'
  unfolding append_insertion
  append_insertion-Placed slot_id s p p1 on c took =
      let (m, run, back, exact, outside) =
        serialize_to-deserialize_from_record columns s s.rid (λ i. 0) 0 c in
      let ((log, lsn), appended) =
        append_insert_log-runs t.log_manager xid oid k slot_id (get_upper p1.bytes) s.size
          (read m 0 (s.size + 30)) on in
      let page = set_page_lsn p1 lsn in
      let t' : Table = record (set_page oid t k page) { log_manager = log } in
      (
        t',
        ap
              (λ (w : Result (Memory × ℕ)). w >>= λ (w : Memory × ℕ).
                append_insert_log t.log_manager xid oid k slot_id (get_upper p1.bytes) s.size
                  (read w.0 0 (s.size + 30))
                >>= finish p1)
              run
            ∙ ap (λ (l : Result (LogManager × ℕ)). l >>= finish p1) appended,
        record {
          page = page;
          log = log;
          same = refl;
          took = Took-set_page_lsn columns k s p p1 lsn took;
        },
      )

  pub log_insertion-Placed :
      (slot_id : ℕ) (s : Record) (p p1 : TablePage.Page)
      → CanStore columns s
      → Took columns k s p p1
      → (t' : Table) × (log_insertion oid xid cid write_log t k slot_id p1 s ≡ ok t')
        × Placed oid columns t k s p t'
  log_insertion-Placed slot_id s p p1 c took = elim (Bool-cases write_log) [
    | inl on ↦
        let (t', run, placed) = append_insertion-Placed slot_id s p p1 (active on) c took in
        (t', ground (arith, on, run), placed)
    | inr off ↦ (
      set_page oid t k p1,
      ground (arith, off),
      record { page = p1; log = t.log_manager; same = refl; took = took },
    )
  ]

  -- A record that finds room in a well-formed page is stored there, with the ids.
  pub insert_in_page-Placed :
      (r : Record)
      → CanStore columns r
      → xid < 2 ^ 32
      → cid < 2 ^ 32
      → Space.IsValid (page_at oid t k).bytes
      → r.size ≤ get_free_space_size (page_at oid t k).bytes
      → (t' : Table) × (insert_in_page oid xid cid write_log t k r
          ≡ with_rid k (get_record_count (page_at oid t k).bytes) (stamped r xid cid) t')
        × Placed oid columns t k (stamped r xid cid) (page_at oid t k) t'
  unfolding insert_in_page
  insert_in_page-Placed r c hx hc v room =
      let p = page_at oid t k in
      let s = stamped r xid cid in
      let n = get_record_count p.bytes in
      let (p1, run, dirty, formed, counted, stored, kept, low) =
        insert_record-get_record p r xid cid columns k v c hx hc room in
      let took : Took columns k s p p1 = record {
        formed = formed;
        counted = counted;
        stored = stored;
        kept = kept;
        link = get_int-same p1.bytes p.bytes 8 4 (λ i lo hi. low i hi);
      } in
      let (t', logged, placed) =
        log_insertion-Placed n s p p1 (stamped-CanStore columns r xid cid c hx hc) took in
      (
        t',
        ap
              (λ (x : Result (TablePage.Page × ℕ × Record)).
                x >>= λ (y : TablePage.Page × ℕ × Record).
                log_insertion oid xid cid write_log t k y.1 y.0 y.2 >>= with_rid k y.1 y.2)
              run
            ∙ ap (λ (x : Result Table). x >>= with_rid k n s) logged,
        placed,
      )
