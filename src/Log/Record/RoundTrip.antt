-- ===== src/Log/Record/RoundTrip.antt =====
-- A log record that was serialised is deserialised to itself.
use database_hw.Prelude.{
  ℕ, ◌+◌, ◌*◌, ◌^◌, ◌<◌, ◌≤◌, ◌≡◌, ◌⊎◌, refl, sym, ap, ap₂, subst, ◌∙◌, List, [], ◌∷◌, ◌++◌, length,
  length-append, take_of_length-le, Unique, insert_all-Unique, eq_nat, arith,
}
use database_hw.Types.{eq_table_pageid}
use database_hw.Result.{ok}
use database_hw.Bytes.{Memory, write, read, get_int, le_bytes}
use database_hw.Bytes.Laws.{
  length-le_bytes, read-write_self, write-append, write_outside, Holds, Holds-append, Holds_int,
}
use database_hw.Log.Record.{
  LogRecord, ActiveTable, DirtyTable, get_att, get_dpt, Body, begin, commit, rollback,
  begin_checkpoint, insertion, deletion, new_page, end_checkpoint, type_code, base_fields,
  att_fields, dpt_fields, insertion_fields, deletion_fields, new_page_fields, end_checkpoint_fields,
  body_fields, raw_bytes, get_size, serialize_to, simple_deserialize_from,
  insertion_deserialize_from, deletion_deserialize_from, new_page_deserialize_from,
  end_checkpoint_deserialize_from, deserialize_from,
}
use database_hw.Log.Record.Fields.{
  fields_bytes, widths, AllFit, Reads, length-fields_bytes, put_fields_lem, Holds-Reads, after_att,
  after_dpt, get_att_lem, get_dpt_lem, widths-att_fields, widths-dpt_fields, widths-append,
}

-- The copied record has its size, the tables of a checkpoint are maps.
abbrev pub BodyOk : Body → Type 0
BodyOk (insertion oid page_id slot_id page_offset record_size raw_record) =
    length raw_record ≡ record_size
BodyOk (end_checkpoint att dpt) =
    Unique [] att × Unique [] dpt × (29 + length att * 12 + length dpt * 16 < 2 ^ 32)
BodyOk _ = Unit {0}

-- Every member fits its width.
unfoldable pub Fits : LogRecord → Type 0
Fits r = AllFit (base_fields r ++ body_fields r.body) × BodyOk r.body

unfoldable pub log_bytes : LogRecord → List ℕ
log_bytes r = fields_bytes (base_fields r ++ body_fields r.body) ++ raw_bytes r.body

pub serialize_to_lem :
    (r : LogRecord) (m : Memory) (at : ℕ)
    → serialize_to r m at ≡ (write m at (log_bytes r), at + length (log_bytes r))
unfolding serialize_to log_bytes
serialize_to_lem r m at =
    let fields = fields_bytes (base_fields r ++ body_fields r.body) in
    let raw = raw_bytes r.body in
    let run = put_fields_lem (base_fields r ++ body_fields r.body) m at in
    ap (λ (p : Memory × ℕ). (write p.0 p.1 raw, p.1 + length raw)) run
    ∙ ap₂ (λ (mem : Memory) (k : ℕ). (mem, k)) (write-append m at fields raw)
        (omega (arith, length-append fields raw))

-- The record with the members of its kind.
abbrev pub Of : (lsn xid prev_lsn : ℕ) → Body → LogRecord
Of lsn xid prev_lsn body = record { lsn = lsn; xid = xid; prev_lsn = prev_lsn; body = body }

get_size_lem :
    (lsn xid prev_lsn : ℕ) (body : Body)
    → AllFit (body_fields body)
    → BodyOk body
    → 13 + widths (body_fields body) + length (raw_bytes body) ≡ get_size (Of lsn xid prev_lsn body)
unfolding get_size body_fields insertion_fields deletion_fields new_page_fields
    end_checkpoint_fields
get_size_lem lsn xid prev_lsn begin fit good = refl
get_size_lem lsn xid prev_lsn commit fit good = refl
get_size_lem lsn xid prev_lsn rollback fit good = refl
get_size_lem lsn xid prev_lsn begin_checkpoint fit good = refl
get_size_lem lsn xid prev_lsn (insertion oid page_id slot_id page_offset record_size raw)
      (a, (b, (c, (d, (e, f))))) good =
    let whole = ap length (take_of_length-le record_size raw (omega (arith, good))) in
    omega (arith, whole, good, e)
get_size_lem lsn xid prev_lsn (deletion oid page_id slot_id) fit good = refl
get_size_lem lsn xid prev_lsn (new_page oid prev_page_id page_id) fit good = refl
get_size_lem lsn xid prev_lsn (end_checkpoint att dpt) fit (a, d, small) =
    let parts = widths-append (att_fields att) ((8, length dpt) ∷ dpt_fields dpt) in
    omega (arith, parts, widths-att_fields att, widths-dpt_fields dpt, small)

pub length-log_bytes :
    (lsn xid prev_lsn : ℕ) (body : Body)
    → Fits (Of lsn xid prev_lsn body)
    → length (log_bytes (Of lsn xid prev_lsn body)) ≡ get_size (Of lsn xid prev_lsn body)
unfolding log_bytes Fits
length-log_bytes lsn xid prev_lsn body ((t, (x, (p, fit))), good) =
    let r = Of lsn xid prev_lsn body in
    let fields = base_fields r ++ body_fields body in
    omega (
      arith,
      length-append (fields_bytes fields) (raw_bytes body),
      length-fields_bytes fields,
      get_size_lem lsn xid prev_lsn body fit good,
    )

abbrev tables : ActiveTable × ℕ → Memory → ℕ → Body
tables p m at = end_checkpoint p.0 (get_dpt (get_int m (at + p.1) 8) m at (p.1 + 8) []).0

read_back :
    (lsn xid prev_lsn : ℕ) (body : Body) (m : Memory) (at : ℕ)
    → get_int m at 1 ≡ type_code body
    → Reads m (at + 1) 0 ((4, xid) ∷ (8, prev_lsn) ∷ body_fields body)
    → BodyOk body
    → Holds m (at + 1 + (12 + widths (body_fields body))) (raw_bytes body)
    → deserialize_from lsn m at ≡ ok (Of lsn xid prev_lsn body)
unfolding deserialize_from simple_deserialize_from insertion_deserialize_from
    deletion_deserialize_from new_page_deserialize_from end_checkpoint_deserialize_from body_fields
    insertion_fields deletion_fields new_page_fields end_checkpoint_fields
read_back lsn xid prev_lsn begin m at type (x, (p, rest)) good held = ground (arith, type, x, p)
read_back lsn xid prev_lsn commit m at type (x, (p, rest)) good held = ground (arith, type, x, p)
read_back lsn xid prev_lsn rollback m at type (x, (p, rest)) good held = ground (arith, type, x, p)
read_back lsn xid prev_lsn begin_checkpoint m at type (x, (p, rest)) good held =
    ground (arith, type, x, p)
read_back lsn xid prev_lsn (deletion oid page_id slot_id) m at type (x, (p, (o, (g, (s, rest)))))
      good held =
    ground (arith, type, x, p, o, g, s)
read_back lsn xid prev_lsn (new_page oid prev_page_id page_id) m at type
      (x, (p, (o, (g, (s, rest))))) good held =
    ground (arith, type, x, p, o, g, s)
read_back lsn xid prev_lsn (insertion oid page_id slot_id page_offset record_size raw) m at type
      (x, (p, (o, (g, (s, (f, (z, rest))))))) good held =
    let whole = take_of_length-le record_size raw (omega (arith, good)) in
    let kept = subst (λ (l : List ℕ). read m (at + 1 + 26) (length l) ≡ l) whole held in
    let copied : read m (at + 1 + 26) (get_int m (at + 1 + 24) 2) ≡ raw =
      ap (read m (at + 1 + 26)) (z ∙ sym good) ∙ kept in
    ground (arith, type, x, p, o, g, s, f, z, copied)
read_back lsn xid prev_lsn (end_checkpoint att dpt) m at type (x, (p, (n, rest))) (a, d, small)
      held =
    let (run, (count, more)) =
      get_att_lem att ((8, length dpt) ∷ dpt_fields dpt) m (at + 1) 20 [] rest in
    let end = after_att att 20 in
    let atts : get_att (get_int m (at + 1 + 12) 8) m (at + 1) 20 [] ≡ (att, end) =
      ap (λ (k : ℕ). get_att k m (at + 1) 20 []) n
      ∙ run
      ∙ ap (λ (l : ActiveTable). (l, end)) (insert_all-Unique [] att a) in
    let dpts : get_dpt (get_int m (at + 1 + end) 8) m (at + 1) (end + 8) []
        ≡ (dpt, after_dpt dpt (end + 8)) =
      ap (λ (k : ℕ). get_dpt k m (at + 1) (end + 8) []) count
      ∙ get_dpt_lem dpt m (at + 1) (end + 8) [] more
      ∙ ap (λ (l : DirtyTable). (l, after_dpt dpt (end + 8))) (insert_all-Unique [] dpt d) in
    ground (arith, type)
    ∙ ap ok (
        ap₂
          (λ (x' p' : ℕ). record {
            lsn = lsn;
            xid = x';
            prev_lsn = p';
            body = tables (get_att (get_int m (at + 1 + 12) 8) m (at + 1) 20 []) m (at + 1);
          })
          x p
        ∙ ap (λ (q : ActiveTable × ℕ). Of lsn xid prev_lsn (tables q m (at + 1))) atts
        ∙ ap (λ (q : DirtyTable × ℕ). Of lsn xid prev_lsn (end_checkpoint att q.0)) dpts)

pub Fits-size : (r : LogRecord) → Fits r → 13 ≤ get_size r
unfolding Fits
Fits-size r ((t, (x, (p, fit))), good) =
    omega (arith, get_size_lem r.lsn r.xid r.prev_lsn r.body fit good)

pub stored-deserialize_from :
    (lsn xid prev_lsn : ℕ) (body : Body) (m : Memory) (at : ℕ)
    → Fits (Of lsn xid prev_lsn body)
    → Holds m at (log_bytes (Of lsn xid prev_lsn body))
    → deserialize_from lsn m at ≡ ok (Of lsn xid prev_lsn body)
unfolding Fits log_bytes fields_bytes
stored-deserialize_from lsn xid prev_lsn body m at ((t, (x, (p, fit))), good) held =
    let fields = (4, xid) ∷ (8, prev_lsn) ∷ body_fields body in
    let (values, raw) =
      Holds-append m at (fields_bytes ((1, type_code body) ∷ fields)) (raw_bytes body) held in
    let (type, rest) =
      Holds-append m at (le_bytes 1 (type_code body)) (fields_bytes fields) values in
    let size : at + length (fields_bytes ((1, type_code body) ∷ fields))
        ≡ at + 1 + (12 + widths (body_fields body)) =
      omega (arith, length-fields_bytes ((1, type_code body) ∷ fields)) in
    let first : at + length (le_bytes 1 (type_code body)) ≡ at + 1 + 0 =
      omega (arith, length-le_bytes 1 (type_code body)) in
    read_back lsn xid prev_lsn body m at (Holds_int m at 1 (type_code body) t type)
      (Holds-Reads fields m (at + 1) 0 (x, (p, fit))
        (subst (λ (k : ℕ). Holds m k (fields_bytes fields)) first rest))
      good (subst (λ (k : ℕ). Holds m k (raw_bytes body)) size raw)

-- A record whose members fit their widths is read back from where it was written, the address
-- behind it is as far as `get_size` says, and no other byte changes.
pub serialize_to-deserialize_from_log :
    (r : LogRecord) (m : Memory) (at : ℕ)
    → Fits r
    → (deserialize_from r.lsn (serialize_to r m at).0 at ≡ ok r)
      × ((serialize_to r m at).1 ≡ at + get_size r)
      × ((i : ℕ) → (i < at) ⊎ (at + get_size r ≤ i) → (serialize_to r m at).0 i ≡ m i)
serialize_to-deserialize_from_log r m at fits =
    let run = serialize_to_lem r m at in
    let size = length-log_bytes r.lsn r.xid r.prev_lsn r.body fits in
    (
      ap (λ (p : Memory × ℕ). deserialize_from r.lsn p.0 at) run
          ∙ stored-deserialize_from r.lsn r.xid r.prev_lsn r.body (write m at (log_bytes r)) at fits
              (read-write_self m at (log_bytes r)),
      ap (λ (p : Memory × ℕ). p.1) run ∙ ap (◌+◌ at) size,
      λ i apart.
          ap (λ (p : Memory × ℕ). p.0 i) run
          ∙ write_outside m at (log_bytes r) i (ground (arith, size, apart)),
    )

-- The tables of a checkpoint alone, behind the type.
pub stored-end_checkpoint_deserialize_from :
    (lsn xid prev_lsn : ℕ) (att : ActiveTable) (dpt : DirtyTable) (m : Memory) (at : ℕ)
    → Fits (Of lsn xid prev_lsn (end_checkpoint att dpt))
    → Holds m at (log_bytes (Of lsn xid prev_lsn (end_checkpoint att dpt)))
    → end_checkpoint_deserialize_from lsn m (at + 1) ≡ Of lsn xid prev_lsn (end_checkpoint att dpt)
unfolding log_bytes fields_bytes deserialize_from
stored-end_checkpoint_deserialize_from lsn xid prev_lsn att dpt m at fits held =
    let body = end_checkpoint att dpt in
    let fields = (4, xid) ∷ (8, prev_lsn) ∷ body_fields body in
    let (values, raw) =
      Holds-append m at (fields_bytes ((1, type_code body) ∷ fields)) (raw_bytes body) held in
    let (type, rest) =
      Holds-append m at (le_bytes 1 (type_code body)) (fields_bytes fields) values in
    let seven : get_int m at 1 ≡ 7 = Holds_int m at 1 7 (omega arith) type in
    ground (arith, seven, stored-deserialize_from lsn xid prev_lsn body m at fits held)
