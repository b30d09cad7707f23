-- ===== src/BufferPool/Flush.antt =====
-- A flush leaves the disk with the pages that the pool stood for.
use database_hw.Prelude.{
  ℕ, zero, suc, ◌+◌, ◌<◌, ◌≤◌, ◌≡◌, ◌≢◌, refl, sym, ap, subst, ◌∙◌, inl, inr, true, none, some,
  nat_eq-cases, Bool-cases, Option-cases, length, List, [], get_elem?, find, find-erase, arith,
}
use database_hw.Types.{TablePageid, eq_table_pageid, table_pageid_eq_iff}
use database_hw.Result.{Result, ok, ◌>>=◌}
use database_hw.Bytes.{Memory}
use database_hw.BufferPool.{BufferPool, BufferPoolEntry, flush_entry, flush_pages, flush, clear}
use database_hw.BufferPool.Frames.{
  Framed, CleanBut, view, AllFrames, get_elem?-bound, get_elem?-there,
}
use database_hw.BufferPool.Install.{none_spared, view-none, view-some}
use database_hw.BufferPool.Add.{Flushed, flush_entry-Flushed, flush_entry-strategy, flush_page-runs}
use database_hw.BufferPool.Refine.{Models}

module _ (db : ℕ) (s : BufferPool) (f : Framed db s) (clean : CleanBut db none_spared s) where
  -- The frames below the `i`th are on the disk and have no keys; the others are as they were.
  record FlushedTo (i : ℕ) (s' : BufferPool) : Type 0 where
    buffers : s'.buffers ≡ s.buffers
    strategy : s'.buffer_strategy ≡ s.buffer_strategy
    absent :
        (k : TablePageid)
        → find k s.hashmap ≡ none
        → (find k s'.hashmap ≡ none) × (s'.disk db k ≡ s.disk db k)
    below :
        (k : TablePageid) (j : ℕ)
        → find k s.hashmap ≡ some j
        → j < i
        → (find k s'.hashmap ≡ none) × (s'.disk db k ≡ view db s k)
    above :
        (k : TablePageid) (j : ℕ)
        → find k s.hashmap ≡ some j
        → i ≤ j
        → (find k s'.hashmap ≡ some j) × (s'.disk db k ≡ s.disk db k)

  step-FlushedTo :
      (i : ℕ) (s' s'' : BufferPool) (g : BufferPoolEntry)
      → get_elem? s.buffers i ≡ some g
      → FlushedTo i s'
      → Flushed db s' s'' g
      → s''.buffer_strategy ≡ s'.buffer_strategy
      → FlushedTo (suc i) s''
  step-FlushedTo i s' s'' g there t h strategy =
      let held = f.keyed i g there in
      let at = view-some db s g.key i g held there in
      let here = t.above g.key i held (omega arith) in
      let find_erased =
        λ (k : TablePageid). ap (find k) h.hashmap ∙ find-erase g.key k s'.hashmap in
      let other_key = λ (k : TablePageid) (ne : k ≢ g.key).
        let found : find k s''.hashmap ≡ find k s'.hashmap =
          find_erased k ∙ ground (arith, table_pageid_eq_iff g.key k, ne) in
        found in
      let other_disk = λ (k : TablePageid) (ne : k ≢ g.key).
        let disk : s''.disk db k ≡ s'.disk db k =
          h.disk k ∙ ground (arith, table_pageid_eq_iff k g.key, ne) in
        disk in
      let apart = λ (k : TablePageid) (j : ℕ) (found : find k s.hashmap ≡ some j) (away : j ≢ i).
        let ne : k ≢ g.key =
          λ p. ground (arith, ap (λ (x : TablePageid). find x s.hashmap) p, found, held, away) in
        ne in
      let written : s''.disk db g.key ≡ view db s g.key = elim (Bool-cases g.page.dirty) [
        | inl dirty ↦ h.disk g.key ∙ ground (arith, dirty, table_pageid_eq_iff g.key g.key) ∙ sym at
        | inr dry ↦
            h.disk g.key ∙ ground (arith, dry) ∙ here.1 ∙ sym (clean i g there dry refl) ∙ sym at
      ] in
      record {
        buffers = h.buffers ∙ t.buffers;
        strategy = strategy ∙ t.strategy;
        absent = λ k nowhere.
            let ne : k ≢ g.key =
              λ p. ground (arith, ap (λ (x : TablePageid). find x s.hashmap) p, nowhere, held) in
            (other_key k ne ∙ (t.absent k nowhere).0, other_disk k ne ∙ (t.absent k nowhere).1);
        below = λ k j found h'. elim (nat_eq-cases j i) [
          | inr away ↦
              let ne = apart k j found away in
              let was = t.below k j found (omega arith) in
              (other_key k ne ∙ was.0, other_disk k ne ∙ was.1)
          | inl same ↦
              let (x, at_x, key_x) = f.mapped k j found in
              let it : x ≡ g = ground (arith, at_x, there, same) in
              let k_is : k ≡ g.key = sym key_x ∙ ap (λ (y : BufferPoolEntry). y.key) it in
              (
                find_erased k ∙ ground (arith, table_pageid_eq_iff g.key k, k_is),
                ap (s''.disk db) k_is ∙ written ∙ ap (view db s) (sym k_is),
              )
        ];
        above = λ k j found h'.
            let ne = apart k j found (λ e. absurd (omega (arith, e))) in
            let was = t.above k j found (omega arith) in
            (other_key k ne ∙ was.0, other_disk k ne ∙ was.1);
      }

  flush_pages-FlushedTo :
      (left i : ℕ) (s' : BufferPool)
      → i + left ≡ length s.buffers
      → FlushedTo i s'
      → (s'' : BufferPool) × (flush_pages left i s' ≡ ok s'') × FlushedTo (length s.buffers) s''
  unfolding flush_pages
  flush_pages-FlushedTo zero i s' e t = (
    s',
    refl,
    subst (λ (n : ℕ). FlushedTo n s') (let same : i ≡ length s.buffers = omega arith in same) t,
  )
  flush_pages-FlushedTo (suc left) i s' e t =
      let (g, there) = get_elem?-there s.buffers i (omega arith) in
      let now : get_elem? s'.buffers i ≡ some g =
        ap (λ (b : List BufferPoolEntry). get_elem? b i) t.buffers ∙ there in
      let s'' = flush_entry s' g in
      let next =
        step-FlushedTo i s' s'' g there t (flush_entry-Flushed db s' g (f.own i g there))
          (flush_entry-strategy db s' g) in
      let (end, run, flushed) = flush_pages-FlushedTo left (suc i) s'' (omega arith) next in
      (
        end,
        ap (λ (x : Result BufferPool). x >>= flush_pages left (suc i))
              (flush_page-runs db s' i g now)
            ∙ run,
        flushed,
      )

module _ (db : ℕ) (m : TablePageid → Memory) (s : BufferPool) where
  -- A pool with no frames stands for what is on the disk.
  pub no_frames-Models :
      s.buffers ≡ []
      → AllFrames s.buffer_strategy
      → ((k : TablePageid) → find k s.hashmap ≡ none)
      → ((k : TablePageid) → s.disk db k ≡ m k)
      → Models db m s
  no_frames-Models none_left frames no_keys disk =
      let nothing = λ (i : ℕ) (e : BufferPoolEntry) (at : get_elem? s.buffers i ≡ some e).
        let bad : i < 0 = omega (arith, get_elem?-bound s.buffers i e at, ap length none_left) in
        bad in
      record {
        framed = record {
          mapped = λ k i found. absurd (ground (arith, found, no_keys k));
          keyed = λ i e at. absurd (omega (arith, nothing i e at));
          own = λ i e at. absurd (omega (arith, nothing i e at));
          bounded = omega (arith, ap length none_left);
          frames = frames;
          known = λ h. absurd (omega (arith, h, ap length none_left));
        };
        clean = λ i e at dry spared. absurd (omega (arith, nothing i e at));
        reads = λ k. view-none db s k (no_keys k) ∙ disk k;
      }

module _ (db : ℕ) (m : TablePageid → Memory) (s : BufferPool) where
  -- `Flush` of the users' pages returns; afterwards no page is in memory, and the disk and the pool
  -- have the pages of the map, so that they stay when the memory is lost.
  pub flush-Models :
      Models db m s
      → (s' : BufferPool) × (flush s true ≡ ok s')
        × Models db m s'
        × Models db m (clear s')
        × ((k : TablePageid) → s'.disk db k ≡ m k)
  unfolding flush
  flush-Models v =
      let f = v.framed in
      let (s1, run, t) =
        flush_pages-FlushedTo db s f v.clean (length s.buffers) 0 s (omega arith) (record {
          buffers = refl;
          strategy = refl;
          absent = λ k e. (e, refl);
          below = λ k j e h. absurd (omega arith);
          above = λ k j e h. (e, refl);
        }) in
      let s' : BufferPool = record s1 { buffers = [] } in
      let all : (k : TablePageid) → (find k s'.hashmap ≡ none) × (s'.disk db k ≡ view db s k) = λ k.
        elim (Option-cases (find k s.hashmap)) [
          | inl nowhere ↦
              let was = t.absent k nowhere in (was.0, was.1 ∙ sym (view-none db s k nowhere))
          | inr (j, found) ↦
              let (g, there, key) = f.mapped k j found in
              t.below k j found (get_elem?-bound s.buffers j g there)
        ] in
      let disk : (k : TablePageid) → s'.disk db k ≡ m k = λ k. (all k).1 ∙ v.reads k in
      let frames : AllFrames s1.buffer_strategy = subst AllFrames (sym t.strategy) f.frames in
      (
        s',
        ap (λ (x : Result BufferPool). x >>= λ (s1 : BufferPool). ok (record s1 { buffers = [] }))
            run,
        no_frames-Models db m s' refl frames (λ k. (all k).0) disk,
        no_frames-Models db m (clear s') refl frames (λ k. refl) disk,
        disk,
      )
