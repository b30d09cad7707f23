-- ===== src/BufferPool/Add.antt =====
-- `AddToBuffer` installs the page in a frame, which a victim may have to leave.
use database_hw.Prelude.{
  ℕ, ◌<◌, ◌≡◌, ◌≢◌, refl, sym, ap, subst, ◌∙◌, inl, inr, false, ◌&&◌, none, some, List, [], ◌∷◌,
  nat_eq, Bool-cases, length, length-append, length-set, get_elem?, set, find, erase, insert,
  find-insert, find-erase, if◌then◌else◌, ◌==◌, arith,
}
use database_hw.Types.{TablePageid, eq_table_pageid, table_pageid_eq_iff}
use database_hw.Result.{Result, ok, ◌>>=◌}
use database_hw.TablePage.{Page}
use database_hw.Lru.{BufferVec, access, evict}
use database_hw.BufferPool.{
  BufferPool, BufferPoolEntry, buffer_size, is_system, entry_at, flush_entry, flush_page,
  replace_victim, push_entry, add_to_buffer,
}
use database_hw.BufferPool.Frames.{
  Framed, CleanBut, view, AllFrames, access-AllFrames, evict-frame, get_elem?-set, get_elem?-append,
  get_elem?-bound, get_elem?-there,
}
use database_hw.BufferPool.Install.{none_spared, view-some, Installs}

module _ (db : ℕ) where
  -- An entry's page was written if it had to be, and its key is in the map no more.
  pub record Flushed (s s' : BufferPool) (g : BufferPoolEntry) : Type 0 where
    pub hashmap : s'.hashmap ≡ erase g.key s.hashmap
    pub buffers : s'.buffers ≡ s.buffers
    pub disk :
        (k : TablePageid)
        → s'.disk db k ≡ (if g.page.dirty && k == g.key then g.page.bytes else s.disk db k)

  pub flush_entry-Flushed :
      (s : BufferPool) (g : BufferPoolEntry) → g.db_oid ≡ db → Flushed s (flush_entry s g) g
  flush_entry-Flushed s g own = elim (Bool-cases g.page.dirty) [
    | inl dirty ↦ record {
      hashmap = ground (arith, dirty);
      buffers = ground (arith, dirty);
      disk = λ k. ground (arith, dirty, own);
    }
    | inr dry ↦ record {
      hashmap = ground (arith, dry);
      buffers = ground (arith, dry);
      disk = λ k. ground (arith, dry);
    }
  ]

  pub flush_entry-strategy :
      (s : BufferPool) (g : BufferPoolEntry) → (flush_entry s g).buffer_strategy ≡ s.buffer_strategy
  flush_entry-strategy s g = elim (Bool-cases g.page.dirty) [
    | inl dirty ↦ ground (arith, dirty)
    | inr dry ↦ ground (arith, dry)
  ]

  pub flush_page-runs :
      (s : BufferPool) (i : ℕ) (g : BufferPoolEntry)
      → get_elem? s.buffers i ≡ some g
      → flush_page s i ≡ ok (flush_entry s g)
  unfolding flush_page
  flush_page-runs s i g e = rw (entry_at, e) refl

  module _ (s : BufferPool) (f : Framed db s) (clean : CleanBut db none_spared s) where
    -- The page of an entry is then on the disk as it was in the pool.
    pub disk-Flushed :
        (s' : BufferPool) (i : ℕ) (g : BufferPoolEntry)
        → get_elem? s.buffers i ≡ some g
        → Flushed s s' g
        → s'.disk db g.key ≡ view db s g.key
    disk-Flushed s' i g there h = elim (Bool-cases g.page.dirty) [
      | inl dirty ↦
          h.disk g.key
          ∙ ground (arith, dirty, table_pageid_eq_iff g.key g.key)
          ∙ sym (view-some db s g.key i g (f.keyed i g there) there)
      | inr dry ↦
          h.disk g.key
          ∙ ground (arith, dry)
          ∙ sym (clean i g there dry refl)
          ∙ sym (view-some db s g.key i g (f.keyed i g there) there)
    ]

    abbrev replaced : BufferPool → BufferPoolEntry → ℕ → BufferPool
    replaced s1 e victim = record s1 {
      buffer_strategy = access s1.buffer_strategy victim;
      buffers = set s1.buffers victim e;
      hashmap = insert e.key victim s1.hashmap;
    }

    replaced-Installs :
        (s1 : BufferPool) (e g : BufferPoolEntry) (victim : ℕ)
        → find e.key s.hashmap ≡ none
        → e.db_oid ≡ db
        → victim < buffer_size
        → get_elem? s.buffers victim ≡ some g
        → Flushed s s1 g
        → AllFrames s1.buffer_strategy
        → Installs db s (replaced s1 e victim) victim e
    unfolding access
    replaced-Installs s1 e g victim absent own small there h frames =
        let held = f.keyed victim g there in
        let find_erased =
          λ (k : TablePageid). ap (find k) h.hashmap ∙ find-erase g.key k s.hashmap in
        let is_g = λ (k : TablePageid) (found : find k s.hashmap ≡ some victim).
          let (x, at, key) = f.mapped k victim found in
          let same : x ≡ g = ground (arith, at, there) in
          let kg : k ≡ g.key = sym key ∙ ap (λ (y : BufferPoolEntry). y.key) same in kg in
        let not_g = λ (k : TablePageid) (away : find k s.hashmap ≢ some victim).
          let ne : k ≢ g.key = λ p. away (ap (λ (x : TablePageid). find x s.hashmap) p ∙ held) in
          ne in
        record {
          absent = absent;
          here =
              find-insert e.key e.key victim s1.hashmap
              ∙ ground (arith, table_pageid_eq_iff e.key e.key);
          gone = λ k ne found. ground (
            arith,
            find-insert e.key k victim s1.hashmap,
            find_erased k,
            table_pageid_eq_iff e.key k,
            table_pageid_eq_iff g.key k,
            is_g k found,
            ne,
          );
          stay = λ k ne away. ground (
            arith,
            find-insert e.key k victim s1.hashmap,
            find_erased k,
            table_pageid_eq_iff e.key k,
            table_pageid_eq_iff g.key k,
            not_g k away,
            ne,
          );
          frame = λ j.
              ap (λ (b : List BufferPoolEntry). get_elem? (set b victim e) j) h.buffers
              ∙ get_elem?-set s.buffers victim j e (get_elem?-bound s.buffers victim g there);
          written = λ k found.
              ap (s1.disk db) (is_g k found)
              ∙ disk-Flushed s1 victim g there h
              ∙ ap (view db s) (sym (is_g k found));
          unwritten =
              λ k away. h.disk k ∙ ground (arith, not_g k away, table_pageid_eq_iff k g.key);
          own = own;
          bounded = omega (arith, length-set s1.buffers victim e, ap length h.buffers, f.bounded);
          frames = access-AllFrames s1.buffer_strategy victim small frames;
          known = (victim, inl refl);
        }

    pushed-Installs :
        (e : BufferPoolEntry)
        → find e.key s.hashmap ≡ none
        → e.db_oid ≡ db
        → length s.buffers < buffer_size
        → Installs db s (push_entry s e) (length s.buffers) e
    unfolding access
    pushed-Installs e absent own small =
        let end = length s.buffers in
        let nobody = λ (k : TablePageid) (found : find k s.hashmap ≡ some end).
          let (x, at, key) = f.mapped k end found in
          let bad : end < end = get_elem?-bound s.buffers end x at in bad in
        record {
          absent = absent;
          here =
              find-insert e.key e.key end s.hashmap
              ∙ ground (arith, table_pageid_eq_iff e.key e.key);
          gone = λ k ne found. absurd (omega (arith, nobody k found));
          stay = λ k ne away.
              ground (arith, find-insert e.key k end s.hashmap, table_pageid_eq_iff e.key k, ne);
          frame = λ j. get_elem?-append s.buffers j e;
          written = λ k found. absurd (omega (arith, nobody k found));
          unwritten = λ k away. refl;
          own = own;
          bounded = omega (arith, length-append s.buffers (e ∷ []));
          frames = access-AllFrames s.buffer_strategy end small f.frames;
          known = (end, inl refl);
        }

    -- A page that is not in the pool is added to it, whether a frame is free or not.
    pub add_to_buffer-Installs :
        (key : TablePageid) (page : Page)
        → is_system db ≡ false
        → find key s.hashmap ≡ none
        → (s' : BufferPool) × (i : ℕ) × (add_to_buffer s db key page ≡ ok s')
          × Installs db s s' i (record { db_oid = db; key = key; page = page })
    unfolding add_to_buffer
    add_to_buffer-Installs key page user absent =
        let e : BufferPoolEntry = record { db_oid = db; key = key; page = page } in
        elim (Bool-cases (nat_eq (length s.buffers) buffer_size)) [
          | inr free ↦ (
            push_entry s e,
            length s.buffers,
            rw (user, free) refl,
            pushed-Installs e absent refl (ground (arith, free, f.bounded)),
          )
          | inl full ↦
              let (some_frame, held) = f.known (ground (arith, full)) in
              let (victim, rest, run, small, frames) =
                evict-frame s.buffer_strategy some_frame held f.frames in
              let (g, there) = get_elem?-there s.buffers victim (ground (arith, full, small)) in
              let s0 : BufferPool = record s { buffer_strategy = rest } in
              let s1 = flush_entry s0 g in
              let h = flush_entry-Flushed s0 g (f.own victim g there) in
              let strategy = flush_entry-strategy s0 g in
              let start : add_to_buffer s db key page
                  ≡ (evict s.buffer_strategy >>= replace_victim s e) =
                rw (user, full) refl in
              (
                replaced s1 e victim,
                victim,
                start
                    ∙ ap (λ (x : Result (ℕ × BufferVec)). x >>= replace_victim s e) run
                    ∙ ap
                        (λ (x : Result BufferPool).
                          x >>= λ (s1 : BufferPool). ok (replaced s1 e victim))
                        (flush_page-runs s0 victim g there),
                replaced-Installs s1 e g victim absent refl small there
                    (record { hashmap = h.hashmap; buffers = h.buffers; disk = h.disk })
                    (subst AllFrames (sym strategy) frames),
              )
        ]
