-- ===== src/Log/Record/Fields.antt =====
-- Fields that are written one behind the other are read back.
use database_hw.Prelude.{
  ℕ, ◌+◌, ◌*◌, ◌^◌, ◌<◌, ◌≡◌, refl, sym, ap, ap₂, subst, ◌∙◌, List, [], ◌∷◌, ◌++◌, length,
  length-append, insert, insert_all, eq_nat, arith,
}
use database_hw.Types.{TablePageid, eq_table_pageid}
use database_hw.Bytes.{Memory, write, put_int, get_int, le_bytes}
use database_hw.Bytes.Laws.{length-le_bytes, write-append, Holds, Holds-append, Holds_int}
use database_hw.Log.Record.{
  ActiveTable, DirtyTable, put_fields, att_fields, dpt_fields, get_att, get_dpt,
}

unfoldable pub fields_bytes : List (ℕ × ℕ) → List ℕ
fields_bytes [] = []
fields_bytes ((width, v) ∷ fields) = le_bytes width v ++ fields_bytes fields

abbrev pub widths : List (ℕ × ℕ) → ℕ
widths [] = 0
widths ((width, v) ∷ fields) = width + widths fields

-- Every value fits its width.
abbrev pub AllFit : List (ℕ × ℕ) → Type 0
AllFit [] = Unit {0}
AllFit ((width, v) ∷ fields) = (v < 256 ^ width) × AllFit fields

-- The fields stand in the memory, from an offset on.
abbrev pub Reads : Memory → ℕ → ℕ → List (ℕ × ℕ) → Type 0
Reads m at offset [] = Unit {0}
Reads m at offset ((width, v) ∷ fields) =
    (get_int m (at + offset) width ≡ v) × Reads m at (offset + width) fields

pub length-fields_bytes : (fields : List (ℕ × ℕ)) → length (fields_bytes fields) ≡ widths fields
unfolding fields_bytes
length-fields_bytes [] = refl
length-fields_bytes ((width, v) ∷ fields) = omega (
  arith,
  length-append (le_bytes width v) (fields_bytes fields),
  length-le_bytes width v,
  length-fields_bytes fields,
)

pub put_fields_lem :
    (fields : List (ℕ × ℕ)) (m : Memory) (at : ℕ)
    → put_fields fields m at ≡ (write m at (fields_bytes fields), at + length (fields_bytes fields))
unfolding put_fields fields_bytes write
put_fields_lem [] m at = ap (λ (k : ℕ). (m, k)) (omega arith)
put_fields_lem ((width, v) ∷ fields) m at =
    let size = length-le_bytes width v in
    let total = length-append (le_bytes width v) (fields_bytes fields) in
    put_fields_lem fields (put_int m at width v) (at + width)
    ∙ ap₂ (λ (mem : Memory) (k : ℕ). (mem, k))
        (ap (λ (k : ℕ). write (put_int m at width v) (at + k) (fields_bytes fields)) (sym size)
          ∙ write-append m at (le_bytes width v) (fields_bytes fields))
        (omega arith)

pub Holds-Reads :
    (fields : List (ℕ × ℕ)) (m : Memory) (at offset : ℕ)
    → AllFit fields
    → Holds m (at + offset) (fields_bytes fields)
    → Reads m at offset fields
unfolding fields_bytes
Holds-Reads [] m at offset fit held = tt
Holds-Reads ((width, v) ∷ fields) m at offset fit held =
    let parts = Holds-append m (at + offset) (le_bytes width v) (fields_bytes fields) held in
    let next : at + offset + length (le_bytes width v) ≡ at + (offset + width) =
      omega (arith, length-le_bytes width v) in
    (
      Holds_int m (at + offset) width v fit.0 parts.0,
      Holds-Reads fields m at (offset + width) fit.1
          (subst (λ (k : ℕ). Holds m k (fields_bytes fields)) next parts.1),
    )

-- The offsets behind the tables, as the loops count them.
abbrev pub after_att : ActiveTable → ℕ → ℕ
after_att [] offset = offset
after_att (e ∷ att) offset = after_att att (offset + 4 + 8)

abbrev pub after_dpt : DirtyTable → ℕ → ℕ
after_dpt [] offset = offset
after_dpt (e ∷ dpt) offset = after_dpt dpt (offset + 4 + 4 + 8)

pub get_att_lem :
    (att : ActiveTable) (rest : List (ℕ × ℕ)) (m : Memory) (at offset : ℕ) (before : ActiveTable)
    → Reads m at offset (att_fields att ++ rest)
    → (get_att (length att) m at offset before ≡ (insert_all before att, after_att att offset))
      × Reads m at (after_att att offset) rest
unfolding get_att att_fields
get_att_lem [] rest m at offset before r = (refl, r)
get_att_lem ((xid, lsn) ∷ att) rest m at offset before (is_xid, (is_lsn, r)) =
    let (run, left) = get_att_lem att rest m at (offset + 4 + 8) (insert xid lsn before) r in
    (
      ap₂ (λ (k v : ℕ). get_att (length att) m at (offset + 4 + 8) (insert k v before)) is_xid
            is_lsn
          ∙ run,
      left,
    )

pub get_dpt_lem :
    (dpt : DirtyTable) (m : Memory) (at offset : ℕ) (before : DirtyTable)
    → Reads m at offset (dpt_fields dpt)
    → get_dpt (length dpt) m at offset before ≡ (insert_all before dpt, after_dpt dpt offset)
unfolding get_dpt dpt_fields
get_dpt_lem [] m at offset before r = refl
get_dpt_lem ((page, lsn) ∷ dpt) m at offset before (is_oid, (is_page, (is_lsn, r))) =
    ap₂
      (λ (k : TablePageid) (v : ℕ).
        get_dpt (length dpt) m at (offset + 4 + 4 + 8) (insert k v before))
      (ap₂ (λ (o i : ℕ). record { table_oid = o; page_id = i }) is_oid is_page) is_lsn
    ∙ get_dpt_lem dpt m at (offset + 4 + 4 + 8) (insert page lsn before) r

pub widths-att_fields : (att : ActiveTable) → widths (att_fields att) ≡ length att * 12
unfolding att_fields
widths-att_fields [] = refl
widths-att_fields ((xid, lsn) ∷ att) = omega (arith, widths-att_fields att)

pub widths-dpt_fields : (dpt : DirtyTable) → widths (dpt_fields dpt) ≡ length dpt * 16
unfolding dpt_fields
widths-dpt_fields [] = refl
widths-dpt_fields ((page, lsn) ∷ dpt) = omega (arith, widths-dpt_fields dpt)

pub widths-append : (xs ys : List (ℕ × ℕ)) → widths (xs ++ ys) ≡ widths xs + widths ys
widths-append [] ys = omega arith
widths-append ((width, v) ∷ xs) ys = omega (arith, widths-append xs ys)
