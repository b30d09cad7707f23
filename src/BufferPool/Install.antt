-- ===== src/BufferPool/Install.antt =====
-- A new entry in a frame, and what the pool stands for then.
use database_hw.Prelude.{
  ℕ, ◌≤◌, ◌≡◌, ◌≢◌, refl, sym, ap, ◌∙◌, inl, inr, Bool, false, none, some, nat_eq, nat_eq-cases,
  Bool-cases, Option-cases, length, get_elem?, find, if◌then◌else◌, ◌==◌, Has, arith,
}
use database_hw.Types.{TablePageid, eq_table_pageid, table_pageid_eq_iff}
use database_hw.BufferPool.{BufferPool, BufferPoolEntry, buffer_size}
use database_hw.BufferPool.Frames.{Framed, CleanBut, view, AllFrames}

abbrev pub none_spared : TablePageid → Bool
none_spared key = false

module _ (db : ℕ) where
  pub view-none :
      (s : BufferPool) (k : TablePageid) → find k s.hashmap ≡ none → view db s k ≡ s.disk db k
  view-none s k e = rw (view, e) refl

  pub view-some :
      (s : BufferPool) (k : TablePageid) (i : ℕ) (e : BufferPoolEntry)
      → find k s.hashmap ≡ some i
      → get_elem? s.buffers i ≡ some e
      → view db s k ≡ e.page.bytes
  view-some s k i e found there = rw (view, found, there) refl

  -- The entry is in the frame, for its key, which had none; the key that had the frame has none, and
  -- its page is on the disk.
  pub record Installs (s s' : BufferPool) (i : ℕ) (e : BufferPoolEntry) : Type 0 where
    pub absent : find e.key s.hashmap ≡ none
    pub here : find e.key s'.hashmap ≡ some i
    pub gone : (k : TablePageid) → k ≢ e.key → find k s.hashmap ≡ some i → find k s'.hashmap ≡ none
    pub stay :
        (k : TablePageid)
        → k ≢ e.key
        → find k s.hashmap ≢ some i
        → find k s'.hashmap ≡ find k s.hashmap
    pub frame :
        (j : ℕ) → get_elem? s'.buffers j ≡ (if nat_eq j i then some e else get_elem? s.buffers j)
    pub written : (k : TablePageid) → find k s.hashmap ≡ some i → s'.disk db k ≡ view db s k
    pub unwritten : (k : TablePageid) → find k s.hashmap ≢ some i → s'.disk db k ≡ s.disk db k
    pub own : e.db_oid ≡ db
    pub bounded : length s'.buffers ≤ buffer_size
    pub frames : AllFrames s'.buffer_strategy
    pub known : (f : ℕ) × Has f s'.buffer_strategy

  module _ (s s' : BufferPool) (i : ℕ) (e : BufferPoolEntry) (f : Framed db s)
      (n : Installs s s' i e) where
    other_frame : (j : ℕ) → j ≢ i → get_elem? s'.buffers j ≡ get_elem? s.buffers j
    other_frame j ne = n.frame j ∙ ground (arith, ne)

    this_frame : get_elem? s'.buffers i ≡ some e
    this_frame = n.frame i ∙ ground arith

    pub view-Installs :
        (k : TablePageid) → view db s' k ≡ (if k == e.key then e.page.bytes else view db s k)
    view-Installs k = elim (Bool-cases (k == e.key)) [
      | inl same ↦
          let key : k ≡ e.key = (table_pageid_eq_iff k e.key).0 same in
          rw same (ap (view db s') key ∙ view-some s' e.key i e n.here this_frame)
      | inr other ↦
          let ne : k ≢ e.key = λ p. ground (arith, (table_pageid_eq_iff k e.key).1 p, other) in
          rw other (elim (Option-cases (find k s.hashmap)) [
            | inl nowhere ↦
                let ni : find k s.hashmap ≢ some i = λ p. ground (arith, p, nowhere) in
                view-none s' k (n.stay k ne ni ∙ nowhere)
                ∙ n.unwritten k ni
                ∙ sym (view-none s k nowhere)
            | inr (j, found) ↦ elim (nat_eq-cases j i) [
              | inl here ↦
                  let at : find k s.hashmap ≡ some i = found ∙ ap (λ (x : ℕ). some x) here in
                  view-none s' k (n.gone k ne at) ∙ n.written k at
              | inr away ↦
                  let ni : find k s.hashmap ≢ some i = λ p. ground (arith, p, found, away) in
                  let (g, there, key) = f.mapped k j found in
                  view-some s' k j g (n.stay k ne ni ∙ found) (other_frame j away ∙ there)
                  ∙ sym (view-some s k j g found there)
            ]
          ])
    ]

    pub Framed-Installs : Framed db s'
    Framed-Installs = record {
      mapped = λ k j found. elim (Bool-cases (k == e.key)) [
        | inl same ↦
            let key : k ≡ e.key = (table_pageid_eq_iff k e.key).0 same in
            let at : j ≡ i =
              ground (arith, found, n.here, ap (λ (x : TablePageid). find x s'.hashmap) key) in
            (e, ap (get_elem? s'.buffers) at ∙ this_frame, sym key)
        | inr other ↦
            let ne : k ≢ e.key = λ p. ground (arith, (table_pageid_eq_iff k e.key).1 p, other) in
            elim (Option-cases (find k s.hashmap)) [
              | inl nowhere ↦ absurd (ground (arith, n.stay k ne, nowhere, found))
              | inr (l, was) ↦ elim (nat_eq-cases l i) [
                | inl here ↦ absurd (ground (arith, n.gone k ne, was, here, found))
                | inr away ↦
                    let ni : find k s.hashmap ≢ some i = λ p. ground (arith, p, was, away) in
                    let at : l ≡ j = ground (arith, n.stay k ne ni, was, found) in
                    let (g, there, key) = f.mapped k l was in
                    (g, ap (get_elem? s'.buffers) (sym at) ∙ other_frame l away ∙ there, key)
              ]
            ]
      ];
      keyed = λ j g there. elim (nat_eq-cases j i) [
        | inl here ↦
            let at : g ≡ e = ground (arith, there, n.frame j, here) in
            ap (λ (x : BufferPoolEntry). find x.key s'.hashmap) at
            ∙ n.here
            ∙ ap (λ (x : ℕ). some x) (sym here)
        | inr away ↦
            let was : get_elem? s.buffers j ≡ some g = sym (other_frame j away) ∙ there in
            let found = f.keyed j g was in
            n.stay g.key
              (λ p. ground (arith, found, n.absent, ap (λ (x : TablePageid). find x s.hashmap) p))
              (λ p. ground (arith, found, p, away))
            ∙ found
      ];
      own = λ j g there. elim (nat_eq-cases j i) [
        | inl here ↦
            let at : g ≡ e = ground (arith, there, n.frame j, here) in
            ap (λ (x : BufferPoolEntry). x.db_oid) at ∙ n.own
        | inr away ↦ f.own j g (sym (other_frame j away) ∙ there)
      ];
      bounded = n.bounded;
      frames = n.frames;
      known = λ some_frame. n.known;
    }

    pub CleanBut-Installs :
        CleanBut db none_spared s → CleanBut db (λ (k : TablePageid). k == e.key) s'
    CleanBut-Installs clean j g there dry spared = elim (nat_eq-cases j i) [
      | inl here ↦
          absurd (ground (arith, there, n.frame j, here, spared, table_pageid_eq_iff e.key e.key))
      | inr away ↦
          let was : get_elem? s.buffers j ≡ some g = sym (other_frame j away) ∙ there in
          let found = f.keyed j g was in
          clean j g was dry refl ∙ sym (n.unwritten g.key (λ p. ground (arith, found, p, away)))
    ]
