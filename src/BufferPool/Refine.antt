-- ===== src/BufferPool/Refine.antt =====
-- The pool and the disk are one map from keys to pages.
use database_hw.Prelude.{
  ℕ, ◌≡◌, refl, sym, ap, ◌∙◌, inl, inr, false, none, some, Bool-cases, Option-cases, get_elem?,
  find, if◌then◌else◌, ◌==◌, arith,
}
use database_hw.Types.{TablePageid, eq_table_pageid, table_pageid_eq_iff}
use database_hw.Result.{Result, ok, ◌>>=◌}
use database_hw.Bytes.{Memory}
use database_hw.TablePage.{Page}
use database_hw.Lru.{access}
use database_hw.BufferPool.{BufferPool, BufferPoolEntry, is_system, entry_at, load_page, get_page}
use database_hw.BufferPool.Frames.{Framed, CleanBut, view, access-AllFrames, get_elem?-bound}
use database_hw.BufferPool.Install.{
  none_spared, view-none, view-some, Installs, view-Installs, Framed-Installs, CleanBut-Installs,
}
use database_hw.BufferPool.Add.{add_to_buffer-Installs}

module _ (db : ℕ) where
  -- The pool stands for a map from keys to the bytes of pages.
  pub record Models (m : TablePageid → Memory) (s : BufferPool) : Type 0 where
    pub framed : Framed db s
    pub clean : CleanBut db none_spared s
    pub reads : (k : TablePageid) → view db s k ≡ m k

  -- The key's page is in a frame.
  abbrev pub InPool : BufferPool → TablePageid → Type 0
  InPool s key =
      (i : ℕ) × (e : BufferPoolEntry) × (find key s.hashmap ≡ some i)
      × (get_elem? s.buffers i ≡ some e)
      × (e.key ≡ key)

  abbrev pub updated : (TablePageid → Memory) → TablePageid → Memory → TablePageid → Memory
  updated m key bytes = λ k. if k == key then bytes else m k

  module _ (user : is_system db ≡ false) (m : TablePageid → Memory) (s : BufferPool)
      (key : TablePageid) where
    hit :
        (i : ℕ) (e : BufferPoolEntry)
        → Models m s
        → find key s.hashmap ≡ some i
        → get_elem? s.buffers i ≡ some e
        → get_page s db key ≡ ok (record s { buffer_strategy = access s.buffer_strategy i }, e.page)
    unfolding get_page
    hit i e v found there = rw (user, found, entry_at, there) refl

    touched :
        (i : ℕ) (e : BufferPoolEntry)
        → Models m s
        → get_elem? s.buffers i ≡ some e
        → Models m (record s { buffer_strategy = access s.buffer_strategy i })
    unfolding access
    touched i e v there = record {
      framed = record {
        mapped = v.framed.mapped;
        keyed = v.framed.keyed;
        own = v.framed.own;
        bounded = v.framed.bounded;
        frames =
            access-AllFrames s.buffer_strategy i
              (omega (arith, get_elem?-bound s.buffers i e there, v.framed.bounded))
              v.framed.frames;
        known = λ h. (i, inl refl);
      };
      clean = v.clean;
      reads = v.reads;
    }

    miss : find key s.hashmap ≡ none → get_page s db key ≡ load_page s db key
    unfolding get_page
    miss absent = rw (user, absent) refl

    loaded :
        (s' : BufferPool) (i : ℕ)
        → Models m s
        → Installs db s s' i (record {
          db_oid = db;
          key = key;
          page = record { bytes = s.disk db key; dirty = false };
        })
        → Models m s'
    loaded s' i v n =
        let e : BufferPoolEntry = record {
          db_oid = db;
          key = key;
          page = record { bytes = s.disk db key; dirty = false };
        } in
        let but = CleanBut-Installs db s s' i e v.framed n v.clean in
        let kept : s'.disk db key ≡ s.disk db key =
          n.unwritten key (λ p. ground (arith, p, n.absent)) in
        let f' = Framed-Installs db s s' i e v.framed n in
        record {
          framed = f';
          clean = λ j g there dry spared. elim (Bool-cases (g.key == key)) [
            | inr other ↦ but j g there dry other
            | inl same ↦
                let k : g.key ≡ key = (table_pageid_eq_iff g.key key).0 same in
                let at : j ≡ i = ground (
                  arith,
                  f'.keyed j g there,
                  ap (λ (x : TablePageid). find x s'.hashmap) k,
                  n.here,
                ) in
                let it : g ≡ e = ground (arith, there, n.frame j, at) in
                ap (λ (x : BufferPoolEntry). x.page.bytes) it ∙ sym kept ∙ ap (s'.disk db) (sym k)
          ];
          reads = λ k.
              view-Installs db s s' i e v.framed n k
              ∙ elim (Bool-cases (k == key))
                  as (λ x. (if k == key then s.disk db key else view db s k) ≡ m k) [
                    | inl same ↦
                        let here : k ≡ key = (table_pageid_eq_iff k key).0 same in
                        rw same (sym (view-none db s key n.absent) ∙ v.reads key ∙ ap m (sym here))
                    | inr other ↦ rw other (v.reads k)
                  ];
        }

    -- For a user's database, `GetPage` returns the page of the map, from a frame or from the disk,
    -- with the victim's page written to the disk where one has to leave; the pool goes on to stand
    -- for the same map, and the page is in a frame.
    pub get_page-Models :
        Models m s
        → (s' : BufferPool) × (p : Page) × (get_page s db key ≡ ok (s', p))
          × (p.bytes ≡ m key)
          × Models m s'
          × InPool s' key
    get_page-Models v = elim (Option-cases (find key s.hashmap)) [
      | inr (i, found) ↦
          let (e, there, same) = v.framed.mapped key i found in
          (
            record s { buffer_strategy = access s.buffer_strategy i },
            e.page,
            hit i e v found there,
            sym (view-some db s key i e found there) ∙ v.reads key,
            touched i e v there,
            (i, e, found, there, same),
          )
      | inl absent ↦
          let page : Page = record { bytes = s.disk db key; dirty = false } in
          let (s', i, run, n) = add_to_buffer-Installs db s v.framed v.clean key page user absent in
          (
            s',
            page,
            miss absent
                ∙ ap (λ (x : Result BufferPool). x >>= λ (s1 : BufferPool). ok (s1, page)) run,
            sym (view-none db s key absent) ∙ v.reads key,
            loaded s' i v n,
            (
              i,
              record { db_oid = db; key = key; page = page },
              n.here,
              n.frame i ∙ ground arith,
              refl,
            ),
          )
    ]
