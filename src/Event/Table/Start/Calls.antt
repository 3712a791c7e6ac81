-- ===== src/Event/Table/Start/Calls.antt =====
-- A callback that is registered under the name of its event.
use c_spock_bot.Prelude.{
  ap, inl, inr, ℕ, ◌+◌, ◌^◌, ◌≤◌, ◌<◌, ◌≡◌, refl, sym, ◌∙◌, arith, List, length, Bool, true, some,
  ℕ_discrete,
}
use mathlib.Core.Path.{subst}
use c_spock_bot.Outcome.{Outcome, ok}
use c_spock_bot.Event.{Entry, callback}
use c_spock_bot.Event.Callbacks.{Registered, reg_cb-Registered}
use c_spock_bot.Event.Table.{Hashes, Named, Eventcore, entry_at}
use c_spock_bot.Event.Table.Grown.{IsAt}
use c_spock_bot.Event.Table.Names.{Few, Has-entry, Keeps-Has}
use c_spock_bot.Event.Table.Agrees.{IsTable}
use c_spock_bot.Event.Table.Registered.{Registers, reg_event-Registers}
use c_spock_bot.Event.Table.Start.{reg_cb_at, reg_event_cb}
use c_spock_bot.Event.Table.Start.Replaced.{
  Replaced-cases, Replaced, put_callbacks-Replaced, Replaced-IsTable,
}

module _ (Cb : Type 0) (hashes : Hashes) (entry_size : ℕ) (memory : ℕ → Bool) where
  open hashes use {Name, Map, find_str, cleared, find-cleared}

  abbrev Event : Type 0
  Event = Named Cb hashes entry_size memory

  abbrev Core : Type 0
  Core = Eventcore Cb hashes entry_size memory

  abbrev read_entry : List Event → ℕ → Outcome Event
  read_entry = entry_at Cb hashes entry_size memory

  abbrev Has : List Event → ℕ → Name → Type 0
  Has = IsAt Cb hashes entry_size memory

  -- Callback `k` of event `h`.
  abbrev pub IsCalled : List Event → ℕ → ℕ → Cb → Type 0
  IsCalled es h k cb =
      (e : Event) × (read_entry es h ≡ ok e) × (callback Cb e.entry.cbs k ≡ ok (some cb))

  -- What the registration of `cb` as callback `k` of event `h`, of the name `n`, makes of the table:
  -- no event and no callback is lost, and `k` was the handle of none.
  pub record Calls (ev : Core) (n : Name) (cb : Cb) (h k : ℕ) (ev' : Core) : Type 0 where
    pub table : IsTable Cb hashes entry_size memory ev'
    pub named : Has ev'.entries h n
    pub called : IsCalled ev'.entries h k cb
    pub unused : (c : Cb) → IsCalled ev.entries h k c → 1 ≤ 0
    pub kept : (i j : ℕ) (c : Cb) → IsCalled ev.entries i j c → IsCalled ev'.entries i j c
    pub names : (i : ℕ) (m : Name) → Has ev.entries i m → Has ev'.entries i m
    pub one_more : length ev'.entries ≤ length ev.entries + 1
    pub few :
        (b : ℕ)
        → b < 2 ^ 62
        → Few Cb hashes entry_size memory ev.entries (b + 1)
        → Few Cb hashes entry_size memory ev'.entries b

  was_free :
      (ev : Core) (h k : ℕ) (e : Event) (entry : Entry Cb) (cb c : Cb)
      → read_entry ev.entries h ≡ ok e
      → Registered Cb e.entry cb k entry
      → IsCalled ev.entries h k c
      → 1 ≤ 0
  was_free ev h k e entry cb c read g (e', read', calls) =
      let same : e ≡ e' = cc in
      absurd (
        g.unused c
          (subst (λ (x : Event). callback Cb x.entry.cbs k ≡ ok (some c)) (sym same) calls))

  still_called :
      (ev : Core) (h k : ℕ) (e : Event) (entry : Entry Cb) (es' : List Event) (cb : Cb) (i j : ℕ)
      (c : Cb)
      → read_entry ev.entries h ≡ ok e
      → Registered Cb e.entry cb k entry
      → Replaced Cb hashes entry_size memory ev.entries h e entry es'
      → IsCalled ev.entries i j c
      → IsCalled es' i j c
  still_called ev h k e entry es' cb i j c read g r (e', read', calls) = elim (ℕ_discrete i h) [
    | no ne ↦ (e', r.others i ne ∙ read', calls)
    | yes eq ↦
        let at_h : IsCalled ev.entries h j c =
          subst (λ x. IsCalled ev.entries x j c) eq (e', read', calls) in
        let same : e ≡ at_h.0 = let both : ok e ≡ ok at_h.0 = sym read ∙ at_h.1 in cc in
        let here : callback Cb e.entry.cbs j ≡ ok (some c) =
          subst (λ (x : Event). callback Cb x.entry.cbs j ≡ ok (some c)) (sym same) at_h.2 in
        elim (ℕ_discrete j k) [
          | yes same_k ↦
              absurd (g.unused c (subst (λ x. callback Cb e.entry.cbs x ≡ ok (some c)) same_k here))
          | no ne ↦
              subst (λ x. IsCalled es' x j c) (sym eq)
                (record e { entry = entry }, r.here, g.changed.others j ne ∙ here)
        ]
  ]

  reg_cb_at-Calls :
      (ev : Core) (n : Name) (cb : Cb) (h : ℕ)
      → ((size : ℕ) → memory size ≡ true)
      → IsTable Cb hashes entry_size memory ev
      → Has ev.entries h n
      → Few Cb hashes entry_size memory ev.entries 1
      → (k : ℕ) × (ev' : Core) × (reg_cb_at Cb hashes entry_size memory ev h cb
          ≡ ok (some (k, ev')))
        × Calls ev n cb h k ev'
        × (length ev'.entries ≡ length ev.entries)
  unfolding reg_cb_at
  reg_cb_at-Calls ev n cb h room t named room_for =
      let (e, read, same) = Has-entry Cb hashes entry_size memory ev.entries h n named in
      let (k, entry, reg, g) =
        reg_cb-Registered Cb memory e.entry cb (t.callbacks h e read)
          (omega (arith, room_for h e read)) room in
      let (es', put, r) =
        put_callbacks-Replaced Cb hashes entry_size memory ev.entries h e entry read in
      (
        k,
        record ev { entries = es' },
        rw (read, reg, put) refl,
        record {
          table = Replaced-IsTable Cb hashes entry_size memory ev h e entry es' t read g.sound r;
          named = r.names h n named;
          called = (record e { entry = entry }, r.here, g.changed.here);
          unused = λ c was. was_free ev h k e entry cb c read g was;
          kept = λ i j c was. still_called ev h k e entry es' cb i j c read g r was;
          names = r.names;
          one_more = omega (arith, r.size);
          few = λ b below enough i x is.
              elim (Replaced-cases Cb hashes entry_size memory ev.entries h e entry es' i x r is) [
                | inl (eq, same) ↦
                    let same_size : length entry.cbs ≡ length x.entry.cbs =
                      ap (λ (y : Event). length y.entry.cbs) same in
                    omega (arith, g.one_more, enough h e read, same_size)
                | inr old ↦ omega (arith, enough i x old)
              ];
        },
        r.size,
      )

  pub still-Few :
      (ev : Core) (n : Name) (h : ℕ) (ev' : Core) (b : ℕ)
      → b ≤ 2 ^ 62
      → Registers Cb hashes entry_size memory ev n h ev'
      → Few Cb hashes entry_size memory ev.entries b
      → Few Cb hashes entry_size memory ev'.entries b
  still-Few ev n h ev' b below r enough i e read = elim (r.fresh i e read) [
    | inl old ↦ enough i e old
    | inr empty ↦ omega (arith, ap length empty)
  ]

  -- If memory is given and there are less than 2^62 events and less than 2^62 callbacks at each,
  -- `sbev_reg_event_cb` leaves a table in which
  -- the event of the name, which is registered where it was not, has the callback at a handle that no
  -- callback of the event had, and no event and no callback that was registered is lost.
  pub reg_event_cb-Calls :
      (ev : Core) (n : Name) (cb : Cb)
      → ((size : ℕ) → memory size ≡ true)
      → length ev.entries < 2 ^ 62
      → IsTable Cb hashes entry_size memory ev
      → Few Cb hashes entry_size memory ev.entries 1
      → (h : ℕ) × (k : ℕ) × (ev' : Core) × (reg_event_cb Cb hashes entry_size memory ev n cb
          ≡ ok (some ev'))
        × Calls ev n cb h k ev'
  unfolding reg_event_cb
  reg_event_cb-Calls ev n cb room small t room_for =
      let (h, ev1, reg, r) = reg_event-Registers Cb hashes entry_size memory ev n room small t in
      let (k, ev', put, c, size) =
        reg_cb_at-Calls ev1 n cb h room r.table r.named
          (still-Few ev n h ev1 1 (omega arith) r room_for) in
      (
        h,
        k,
        ev',
        rw (reg, put) refl,
        record {
          table = c.table;
          named = c.named;
          called = c.called;
          unused = λ c' (e, read, calls). c.unused c' (e, r.kept h e read, calls);
          kept = λ i j c' (e, read, calls). c.kept i j c' (e, r.kept i e read, calls);
          names = λ i m old.
              c.names i m
                (Keeps-Has Cb hashes entry_size memory ev.entries ev1.entries i m r.kept old);
          one_more = omega (arith, r.one_more, size);
          few = λ b below enough.
              c.few b below (still-Few ev n h ev1 (b + 1) (omega (arith, below)) r enough);
        },
      )
