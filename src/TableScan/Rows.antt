-- ===== src/TableScan/Rows.antt =====
-- What a scan yields, of the records that are ahead of it.
use database_hw.Prelude.{
  ℕ, zero, suc, ◌<◌, ◌≡◌, sym, ◌∙◌, inl, inr, Bool, true, false, Option, none, some, List, [], ◌∷◌,
  nat_eq, length, if◌then◌else◌, subst, arith, Bool-cases,
}
use database_hw.Types.{Rid, null_page_id}
use database_hw.Result.{Result, ok}
use database_hw.Record.{Record, Column}
use database_hw.Visibility.{IsolationLevel}
use database_hw.Log.Undo.{Pages}
use database_hw.TableScan.{read_at, is_skipped, advance, skip_invisible, get_next_record}

module _ (pages : Pages) (oid : ℕ) (columns : List Column) (xid : ℕ) (level : IsolationLevel)
    (cid : ℕ) (active_xids : List ℕ) where
  abbrev pub skipped : Record → Bool
  skipped = is_skipped pages oid columns xid level cid active_xids

  abbrev pub next_rid : Rid → Rid
  next_rid = advance pages oid columns xid level cid active_xids

  abbrev pub get_next : ℕ → Rid → Option (Result (Rid × Option Record))
  get_next = get_next_record pages oid columns xid level cid active_xids

  abbrev pub read : Rid → Result Record
  read = read_at pages oid columns xid level cid active_xids

  -- The records that the isolation level lets the scan see.
  unfoldable pub visible : List Record → List Record
  visible [] = []
  visible (r ∷ rs) = if skipped r then visible rs else r ∷ visible rs

  -- The records from a place on, in the order of the scan's steps.
  pub data Ahead : Rid → List Record → Type 0 where
    at_end : {rid : Rid} → nat_eq rid.page_id null_page_id ≡ true → Ahead rid []
    at_row :
        {rid : Rid} (r : Record) (rs : List Record)
        → nat_eq rid.page_id null_page_id ≡ false
        → read rid ≡ ok r
        → Ahead (next_rid rid) rs
        → Ahead rid (r ∷ rs)

  -- With fuel above the bound, the calls are answered with these records, then with null for ever.
  abbrev pub Scans : ℕ → Rid → List Record → Type 0
  Scans bound rid [] =
      (end : Rid) × ((fuel : ℕ) → bound < fuel → get_next fuel rid ≡ some (ok (end, none)))
      × ((fuel : ℕ) → get_next fuel end ≡ some (ok (end, none)))
  Scans bound rid (r ∷ rs) =
      (after : Rid) × ((fuel : ℕ) → bound < fuel → get_next fuel rid ≡ some (ok (after, some r)))
      × Scans bound after rs

  Scans-mono :
      (rs : List Record) (bound : ℕ) (rid : Rid) → Scans bound rid rs → Scans (suc bound) rid rs
  Scans-mono [] bound rid (end, run, stays) = (end, λ f h. run f (omega arith), stays)
  Scans-mono (r ∷ rs) bound rid (after, run, rest) =
      (after, λ f h. run f (omega arith), Scans-mono rs bound after rest)

  -- An invisible record costs one round.
  get_next-skip :
      (fuel : ℕ) (rid : Rid) (r : Record)
      → nat_eq rid.page_id null_page_id ≡ false
      → read rid ≡ ok r
      → skipped r ≡ true
      → get_next (suc fuel) rid ≡ get_next fuel (next_rid rid)
  unfolding get_next_record skip_invisible advance
  get_next-skip fuel rid r page e s = ground (arith, page, e, s)

  Scans-skip :
      (rs : List Record) (bound : ℕ) (rid next : Rid)
      → ((fuel : ℕ) → get_next (suc fuel) rid ≡ get_next fuel next)
      → Scans bound next rs
      → Scans (suc bound) rid rs
  Scans-skip [] bound rid next e (end, run, stays) = (end, λ f h. step f h, stays)
    where
      step : (f : ℕ) → suc bound < f → get_next f rid ≡ some (ok (end, none))
      step zero h = elim h [ ]
      step (suc f) h = e f ∙ run f (omega arith)
  Scans-skip (r ∷ rs) bound rid next e (after, run, rest) =
      (after, λ f h. step f h, Scans-mono rs bound after rest)
    where
      step : (f : ℕ) → suc bound < f → get_next f rid ≡ some (ok (after, some r))
      step zero h = elim h [ ]
      step (suc f) h = e f ∙ run f (omega arith)

  get_next-row :
      (fuel : ℕ) (rid : Rid) (r : Record)
      → nat_eq rid.page_id null_page_id ≡ false
      → read rid ≡ ok r
      → skipped r ≡ false
      → 0 < fuel
      → get_next fuel rid ≡ some (ok (next_rid rid, some r))
  unfolding get_next_record skip_invisible
  get_next-row zero rid r page e s h = elim h [ ]
  get_next-row (suc fuel) rid r page e s h = ground (arith, page, e, s)

  at_null :
      (fuel : ℕ) (rid : Rid)
      → nat_eq rid.page_id null_page_id ≡ true
      → get_next fuel rid ≡ some (ok (rid, none))
  unfolding get_next_record
  at_null fuel rid page = ground (arith, page)

  pub Ahead-Scans :
      (rid : Rid) (rs : List Record) → Ahead rid rs → Scans (length rs) rid (visible rs)
  unfolding visible
  Ahead-Scans rid [] (at_end page) = (rid, λ f h. at_null f rid page, λ f. at_null f rid page)
  Ahead-Scans rid (r ∷ rs) (at_row _ _ page e rest) =
      let ih = Ahead-Scans (next_rid rid) rs rest in
      elim (Bool-cases (skipped r)) [
        | inl s ↦
            subst
              (λ (b : Bool). Scans (suc (length rs)) rid (if b then visible rs else r ∷ visible rs))
              (sym s)
              (Scans-skip (visible rs) (length rs) rid (next_rid rid)
                (λ (f : ℕ). get_next-skip f rid r page e s) ih)
        | inr s ↦
            subst
              (λ (b : Bool). Scans (suc (length rs)) rid (if b then visible rs else r ∷ visible rs))
              (sym s)
              (
                next_rid rid,
                λ f h. get_next-row f rid r page e s (omega arith),
                Scans-mono (visible rs) (length rs) (next_rid rid) ih,
              )
      ]
