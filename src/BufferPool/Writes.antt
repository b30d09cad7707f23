-- ===== src/BufferPool/Writes.antt =====
-- Writes through the pointer to a page of the pool, and new pages.
use database_hw.Prelude.{
  ℕ, ◌≡◌, ◌≢◌, refl, sym, ap, ◌∙◌, inl, inr, true, false, none, some, nat_eq, nat_eq-cases,
  Bool-cases, Option-cases, length-set, get_elem?, find, if◌then◌else◌, ◌==◌, arith,
}
use database_hw.Types.{TablePageid, eq_table_pageid, table_pageid_eq_iff}
use database_hw.Result.{Result, ok, ◌>>=◌}
use database_hw.Bytes.{Memory}
use database_hw.TablePage.{Page}
use database_hw.BufferPool.{
  BufferPool, BufferPoolEntry, is_system, entry_at, new_page, write_through, write_frame,
}
use database_hw.BufferPool.Frames.{Framed, CleanBut, view, get_elem?-set, get_elem?-bound}
use database_hw.BufferPool.Install.{
  none_spared, view-none, view-some, view-Installs, Framed-Installs, CleanBut-Installs,
}
use database_hw.BufferPool.Add.{add_to_buffer-Installs}
use database_hw.BufferPool.Refine.{Models, InPool, updated}

module _ (db : ℕ) (s : BufferPool) (key : TablePageid) (page : Page) where
  write_through-runs :
      (i : ℕ) (e : BufferPoolEntry)
      → find key s.hashmap ≡ some i
      → get_elem? s.buffers i ≡ some e
      → write_through s key page ≡ ok (write_frame s i e page)
  unfolding write_through
  write_through-runs i e found there = rw (write_through, found, entry_at, there) refl

  module _ (i : ℕ) (e : BufferPoolEntry) (f : Framed db s) (there : get_elem? s.buffers i ≡ some e)
      (same : e.key ≡ key) where
    abbrev after : BufferPool
    after = write_frame s i e page

    get_elem?-write_frame :
        (j : ℕ)
        → get_elem? after.buffers j
          ≡ (if nat_eq j i then some (record e { page = page }) else get_elem? s.buffers j)
    get_elem?-write_frame j =
        get_elem?-set s.buffers i j (record e { page = page }) (get_elem?-bound s.buffers i e there)

    write_frame-Framed : Framed db after
    write_frame-Framed = record {
      mapped = λ k j found.
          let (g, at, key_g) = f.mapped k j found in
          elim (nat_eq-cases j i) [
            | inl here ↦
                let it : g ≡ e = ground (arith, at, there, here) in
                (
                  record e { page = page },
                  get_elem?-write_frame j ∙ ground (arith, here),
                  ap (λ (x : BufferPoolEntry). x.key) (sym it) ∙ key_g,
                )
            | inr away ↦ (g, get_elem?-write_frame j ∙ ground (arith, away) ∙ at, key_g)
          ];
      keyed = λ j g at. elim (nat_eq-cases j i) [
        | inl here ↦
            let it : g ≡ record e { page = page } =
              ground (arith, at, get_elem?-write_frame j, here) in
            ap (λ (x : BufferPoolEntry). find x.key s.hashmap) it
            ∙ f.keyed i e there
            ∙ ap (λ (x : ℕ). some x) (sym here)
        | inr away ↦
            let was : get_elem? s.buffers j ≡ some g =
              ground (arith, at, get_elem?-write_frame j, away) in
            f.keyed j g was
      ];
      own = λ j g at. elim (nat_eq-cases j i) [
        | inl here ↦
            let it : g ≡ record e { page = page } =
              ground (arith, at, get_elem?-write_frame j, here) in
            ap (λ (x : BufferPoolEntry). x.db_oid) it ∙ f.own i e there
        | inr away ↦
            let was : get_elem? s.buffers j ≡ some g =
              ground (arith, at, get_elem?-write_frame j, away) in
            f.own j g was
      ];
      bounded = omega (arith, length-set s.buffers i (record e { page = page }), f.bounded);
      frames = f.frames;
      known = λ h. f.known (omega (arith, length-set s.buffers i (record e { page = page }), h));
    }

    write_frame-CleanBut :
        page.dirty ≡ true
        → CleanBut db (λ (k : TablePageid). k == key) s
        → CleanBut db none_spared after
    write_frame-CleanBut dirty but j g at dry spared = elim (nat_eq-cases j i) [
      | inl here ↦
          let it : g ≡ record e { page = page } =
            ground (arith, at, get_elem?-write_frame j, here) in
          absurd (ground (arith, dirty, dry, ap (λ (x : BufferPoolEntry). x.page.dirty) it))
      | inr away ↦
          let was : get_elem? s.buffers j ≡ some g =
            ground (arith, at, get_elem?-write_frame j, away) in
          let other : (g.key == key) ≡ false = elim (Bool-cases (g.key == key)) [
            | inr no_match ↦ no_match
            | inl match ↦
                let k : g.key ≡ e.key = (table_pageid_eq_iff g.key key).0 match ∙ sym same in
                absurd (
                  ground (
                    arith,
                    f.keyed j g was,
                    f.keyed i e there,
                    ap (λ (x : TablePageid). find x s.hashmap) k,
                    away,
                  ))
          ] in
          but j g was dry other
    ]

    view-write_frame : (k : TablePageid) → view db after k ≡ updated db (view db s) key page.bytes k
    view-write_frame k = elim (Bool-cases (k == key)) [
      | inl match ↦
          let here : k ≡ e.key = (table_pageid_eq_iff k key).0 match ∙ sym same in
          let found : find k s.hashmap ≡ some i =
            ap (λ (x : TablePageid). find x s.hashmap) here ∙ f.keyed i e there in
          rw match (
            view-some db after k i (record e { page = page }) found
              (get_elem?-write_frame i ∙ ground arith))
      | inr other ↦ rw other (elim (Option-cases (find k s.hashmap)) [
        | inl nowhere ↦ view-none db after k nowhere ∙ sym (view-none db s k nowhere)
        | inr (j, found) ↦
            let (g, at, key_g) = f.mapped k j found in
            let away : j ≢ i = λ p.
              let it : g ≡ e = ground (arith, at, there, p) in
              let k_is : k ≡ key = sym key_g ∙ ap (λ (x : BufferPoolEntry). x.key) it ∙ same in
              ground (arith, (table_pageid_eq_iff k key).1 k_is, other) in
            view-some db after k j g found (get_elem?-write_frame j ∙ ground (arith, away) ∙ at)
            ∙ sym (view-some db s k j g found at)
      ])
    ]

  -- A dirty page that is written through the pointer is the map's page, when the others that are
  -- not dirty are as on the disk.
  pub write_through-updated :
      (m : TablePageid → Memory)
      → Framed db s
      → CleanBut db (λ (k : TablePageid). k == key) s
      → ((k : TablePageid)
          → updated db (view db s) key page.bytes k ≡ updated db m key page.bytes k)
      → InPool db s key
      → page.dirty ≡ true
      → (s' : BufferPool) × (write_through s key page ≡ ok s')
        × Models db (updated db m key page.bytes) s'
  write_through-updated m f but reads (i, e, found, there, same) dirty = (
    write_frame s i e page,
    write_through-runs i e found there,
    record {
      framed = write_frame-Framed i e f there same;
      clean = write_frame-CleanBut i e f there same dirty but;
      reads = λ k. view-write_frame i e f there same k ∙ reads k;
    },
  )

module _ (db : ℕ) (user : is_system db ≡ false) (m : TablePageid → Memory) (s : BufferPool)
    (key : TablePageid) where
  -- For a user's database and a key that no frame holds, `NewPage` and a first write through its
  -- pointer, which sets the dirty flag, return; the pool then stands for the map with the written page
  -- at the key.
  pub new_page-Models :
      (bytes : Memory) (page : Page)
      → Models db m s
      → find key s.hashmap ≡ none
      → page.dirty ≡ true
      → (s' : BufferPool) × (new_page s db key bytes
            >>= (λ (r : BufferPool × Page). write_through r.0 key page)
          ≡ ok s')
        × Models db (updated db m key page.bytes) s'
  unfolding new_page
  new_page-Models bytes page v absent dirty =
      let fresh : Page = record { bytes = bytes; dirty = false } in
      let e : BufferPoolEntry = record { db_oid = db; key = key; page = fresh } in
      let (s1, i, run, n) = add_to_buffer-Installs db s v.framed v.clean key fresh user absent in
      let (s', written, models) =
        write_through-updated db s1 key page m (Framed-Installs db s s1 i e v.framed n)
          (CleanBut-Installs db s s1 i e v.framed n v.clean)
          (λ k. ground (arith, view-Installs db s s1 i e v.framed n k, v.reads k))
          (i, e, n.here, n.frame i ∙ ground arith, refl) dirty in
      (
        s',
        ap
              (λ (x : Result BufferPool).
                x >>= (λ (s1 : BufferPool). ok (s1, fresh)) >>= λ (r : BufferPool × Page).
                write_through r.0 key page)
              run
            ∙ written,
        models,
      )
