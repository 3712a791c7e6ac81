-- ===== src/Net/Start/Handles.antt =====
-- The events of all packets, and the handlers of the network core, in the table of events.
use c_spock_bot.Prelude.{ℕ, ◌+◌, ◌^◌, ◌≤◌, ◌≡◌, refl, arith, List, length, Bool, true}
use c_spock_bot.Event.Table.{Hashes, Named, Eventcore, reg_event}
use c_spock_bot.Event.Table.Grown.{IsAt}
use c_spock_bot.Event.Table.Names.{Few, Keeps-Has}
use c_spock_bot.Event.Table.Agrees.{IsTable}
use c_spock_bot.Event.Table.Registered.{reg_event-Registers}
use c_spock_bot.Event.Table.Start.Calls.{IsCalled, still-Few, reg_event_cb-Calls}
use c_spock_bot.Net.Start.{each, reg_handles, reg_callback}
use c_spock_bot.Net.Start.Each.{Each, total, Does, Stays, Each-Stays, each-Does}

module _ (Cb : Type 0) (hashes : Hashes) (entry_size : ℕ) (memory : ℕ → Bool) where
  open hashes use {Name}

  abbrev Event : Type 0
  Event = Named Cb hashes entry_size memory

  abbrev Core : Type 0
  Core = Eventcore Cb hashes entry_size memory

  abbrev Has : List Event → ℕ → Name → Type 0
  Has = IsAt Cb hashes entry_size memory

  -- Room for `b` more events, and at each for `b` more callbacks.
  pub record Roomy (ev : Core) (b : ℕ) : Type 0 where
    pub table : IsTable Cb hashes entry_size memory ev
    pub small : length ev.entries + b ≤ 2 ^ 62
    pub few : Few Cb hashes entry_size memory ev.entries b

  -- No event and no callback is lost.
  pub record Kept (ev ev' : Core) : Type 0 where
    pub names : (i : ℕ) (n : Name) → Has ev.entries i n → Has ev'.entries i n
    pub calls :
        (i j : ℕ) (c : Cb)
        → IsCalled Cb hashes entry_size memory ev.entries i j c
        → IsCalled Cb hashes entry_size memory ev'.entries i j c

  pub Kept-refl : (ev : Core) → Kept ev ev
  Kept-refl ev = record { names = λ i n h. h; calls = λ i j c h. h }

  pub Kept-trans : (s t u : Core) → Kept s t → Kept t u → Kept s u
  Kept-trans s t u k l = record {
    names = λ i n h. l.names i n (k.names i n h);
    calls = λ i j c h. l.calls i j c (k.calls i j c h);
  }

  -- The handle is that of the event of this name.
  abbrev pub Handles : Core → Name → ℕ → Type 0
  Handles ev n h = Has ev.entries h n

  -- The event of this name calls this handler.
  abbrev pub Handled : Core → Name × Cb → Unit {0} → Type 0
  Handled ev (n, cb) u =
      (h : ℕ) × (k : ℕ) × Has ev.entries h n
      × IsCalled Cb hashes entry_size memory ev.entries h k cb

  abbrev one_each : {X : Type 0} → X → ℕ
  one_each x = 1

  reg_event-Does :
      ((size : ℕ) → memory size ≡ true)
      → Does Roomy Kept Kept-refl Kept-trans
          (reg_event Cb hashes entry_size memory)
          one_each
          Handles
  reg_event-Does room ev b n good =
      let (h, ev', run, r) =
        reg_event-Registers Cb hashes entry_size memory ev n room (omega (arith, good.small))
          good.table in
      (
        h,
        ev',
        run,
        record {
          table = r.table;
          small = omega (arith, r.one_more, good.small);
          few =
              still-Few Cb hashes entry_size memory ev n h ev' b (omega (arith, good.small)) r
                (λ i e read. omega (arith, good.few i e read));
        },
        record {
          names = λ i m old.
              Keeps-Has Cb hashes entry_size memory ev.entries ev'.entries i m r.kept old;
          calls = λ i j c (e, read, calls). (e, r.kept i e read, calls);
        },
        r.named,
      )

  reg_callback-Does :
      ((size : ℕ) → memory size ≡ true)
      → Does Roomy Kept Kept-refl Kept-trans
          (reg_callback Cb hashes entry_size memory)
          one_each
          Handled
  reg_callback-Does room ev b (n, cb) good =
      let (h, k, ev', run, c) =
        reg_event_cb-Calls Cb hashes entry_size memory ev n cb room (omega (arith, good.small))
          good.table (λ i e read. omega (arith, good.few i e read)) in
      (
        tt,
        ev',
        rw run refl,
        record {
          table = c.table;
          small = omega (arith, c.one_more, good.small);
          few = c.few b (omega (arith, good.small)) (λ i e read. omega (arith, good.few i e read));
        },
        record { names = c.names; calls = c.kept },
        (h, k, c.named, c.called),
      )

  Handles-Stays : Stays Roomy Kept Kept-refl Kept-trans Handles
  Handles-Stays ev ev' n h k here = k.names h n here

  Handled-Stays : Stays Roomy Kept Kept-refl Kept-trans Handled
  Handled-Stays ev ev' (n, cb) u kept (h, k, named, called) =
      (h, k, kept.names h n named, kept.calls h k cb called)

  -- How many names there are.
  abbrev pub packets : List (List (List Name)) → ℕ
  packets = total (total (total one_each))

  -- The handle of each state, direction and id is that of the event of this name.
  abbrev pub AllHandles : Core → List (List (List Name)) → List (List (List ℕ)) → Type 0
  AllHandles ev = Each (Each (Each (Handles ev)))

  pub reg_handles-Does :
      ((size : ℕ) → memory size ≡ true)
      → Does Roomy Kept Kept-refl Kept-trans
          (reg_handles Cb hashes entry_size memory)
          packets
          AllHandles
  unfolding reg_handles
  reg_handles-Does room =
      let ids_stay = Each-Stays Roomy Kept Kept-refl Kept-trans Handles Handles-Stays in
      let ids =
        each-Does Roomy Kept Kept-refl Kept-trans (reg_event Cb hashes entry_size memory) one_each
          Handles Handles-Stays (reg_event-Does room) in
      let directions_stay =
        Each-Stays Roomy Kept Kept-refl Kept-trans (λ ev. Each (Handles ev)) ids_stay in
      let directions =
        each-Does Roomy Kept Kept-refl Kept-trans (each (reg_event Cb hashes entry_size memory))
          (total one_each) (λ ev. Each (Handles ev)) ids_stay ids in
      each-Does Roomy Kept Kept-refl Kept-trans
        (each (each (reg_event Cb hashes entry_size memory))) (total (total one_each))
        (λ ev. Each (Each (Handles ev))) directions_stay directions

  pub AllHandles-Stays : Stays Roomy Kept Kept-refl Kept-trans AllHandles
  AllHandles-Stays =
      let ids_stay = Each-Stays Roomy Kept Kept-refl Kept-trans Handles Handles-Stays in
      let directions_stay =
        Each-Stays Roomy Kept Kept-refl Kept-trans (λ ev. Each (Handles ev)) ids_stay in
      Each-Stays Roomy Kept Kept-refl Kept-trans (λ ev. Each (Each (Handles ev))) directions_stay

  pub reg_callbacks-Does :
      ((size : ℕ) → memory size ≡ true)
      → Does Roomy Kept Kept-refl Kept-trans
          (each (reg_callback Cb hashes entry_size memory))
          (total one_each)
          (λ ev. Each (Handled ev))
  reg_callbacks-Does room =
      each-Does Roomy Kept Kept-refl Kept-trans (reg_callback Cb hashes entry_size memory) one_each
        Handled Handled-Stays (reg_callback-Does room)
