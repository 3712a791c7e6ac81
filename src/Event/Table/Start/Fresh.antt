-- ===== src/Event/Table/Start/Fresh.antt =====
-- A table of events as `sbev_init_event` leaves it.
use c_spock_bot.Prelude.{
  ℕ, ◌*◌, ◌%◌, ◌^◌, ◌≤◌, ◌≡◌, refl, sym, ◌∙◌, arith, List, length, Bool, true, false, some,
}
use mathlib.Core.Path.{subst}
use c_spock_bot.Outcome.{Outcome, ok}
use c_spock_bot.Event.Table.{Hashes, Named, Eventcore, entry_at}
use c_spock_bot.Event.Table.Grown.{IsAt}
use c_spock_bot.Event.Table.Names.{Keeps, Keeps-Has}
use c_spock_bot.Event.Table.Agrees.{IsTable}
use c_spock_bot.Event.Table.Registered.{reg_event-Registers}
use c_spock_bot.Event.Table.Start.{Own, empty_core, init_event}

module _ (Cb : Type 0) (hashes : Hashes) (entry_size : ℕ) (memory : ℕ → Bool) where
  open hashes use {Name, Map, find_str, cleared, find-cleared}

  abbrev Event : Type 0
  Event = Named Cb hashes entry_size memory

  abbrev Core : Type 0
  Core = Eventcore Cb hashes entry_size memory

  abbrev read_entry : List Event → ℕ → Outcome Event
  read_entry = entry_at Cb hashes entry_size memory

  abbrev Has : List Event → ℕ → Name → Type 0
  Has = IsAt Cb hashes entry_size memory

  abbrev OwnNames : Type 0
  OwnNames = Own Cb hashes entry_size memory

  empty_core-IsTable :
      (ev : Core) → IsTable Cb hashes entry_size memory (empty_core Cb hashes entry_size memory ev)
  empty_core-IsTable ev = record {
    listed = λ i n h. absurd (omega arith);
    found = λ n p h. let empty = find-cleared n in absurd (cc);
    handles = λ i e h. absurd (cc);
    in_room = omega arith;
    room = omega arith;
    few = omega arith;
    callbacks = λ i e h. absurd (cc);
  }

  -- The table with the handles of its own three events.
  record IsStarted (own : OwnNames) (ev : Core) : Type 0 where
    pub table : IsTable Cb hashes entry_size memory ev
    pub start : Has ev.entries ev.start own.start_name
    pub tick : Has ev.entries ev.tick own.tick_name
    pub kill : Has ev.entries ev.kill own.kill_name
    pub alive : ev.kill_flag ≡ false
    pub three : length ev.entries ≤ 3

  -- The handles of the core are no part of what makes a table.
  renumbered-IsTable :
      (ev : Core) (start tick kill : ℕ)
      → IsTable Cb hashes entry_size memory ev
      → IsTable Cb hashes entry_size memory (record ev { start = start; tick = tick; kill = kill })
  renumbered-IsTable ev start tick kill t = record {
    listed = t.listed;
    found = t.found;
    handles = t.handles;
    in_room = t.in_room;
    room = t.room;
    few = t.few;
    callbacks = t.callbacks;
  }

  stays :
      (es es' : List Event) (i : ℕ) (n : Name)
      → Keeps Cb hashes entry_size memory es es'
      → Has es i n
      → Has es' i n
  stays = Keeps-Has Cb hashes entry_size memory

  -- If `csb_init_plugin` succeeds and memory is given, `sbev_init_event` leaves, whatever the memory
  -- held, a table in which the handles for start, tick and kill are those of the events of these
  -- names, with the kill flag clear.
  init_event-IsStarted :
      (own : OwnNames) (ev : Core)
      → ((size : ℕ) → memory size ≡ true)
      → (ev' : Core) × (init_event Cb hashes entry_size memory true own ev ≡ ok (some ev'))
        × IsStarted own ev'
  unfolding init_event
  init_event-IsStarted own ev room =
      let fresh = empty_core Cb hashes entry_size memory ev in
      let (start, ev1, e1, r1) =
        reg_event-Registers Cb hashes entry_size memory fresh own.start_name room (omega arith)
          (empty_core-IsTable ev) in
      let (tick, ev2, e2, r2) =
        reg_event-Registers Cb hashes entry_size memory (record ev1 { start = start }) own.tick_name
          room (omega (arith, r1.one_more))
          (renumbered-IsTable ev1 start ev1.tick ev1.kill r1.table) in
      let (kill, ev3, e3, r3) =
        reg_event-Registers Cb hashes entry_size memory (record ev2 { tick = tick }) own.kill_name
          room (omega (arith, r1.one_more, r2.one_more))
          (renumbered-IsTable ev2 ev2.start tick ev2.kill r2.table) in
      (
        record ev3 { kill = kill },
        rw (room (entry_size * 20 % 2 ^ 64), e1, e2, e3) refl,
        record {
          table = renumbered-IsTable ev3 ev3.start ev3.tick kill r3.table;
          start =
              subst (λ h. Has ev3.entries h own.start_name) (sym (r3.start ∙ r2.start))
                (stays ev2.entries ev3.entries start own.start_name r3.kept
                  (stays ev1.entries ev2.entries start own.start_name r2.kept r1.named));
          tick =
              subst (λ h. Has ev3.entries h own.tick_name) (sym r3.tick)
                (stays ev2.entries ev3.entries tick own.tick_name r3.kept r2.named);
          kill = r3.named;
          alive = r3.flag ∙ (r2.flag ∙ r1.flag);
          three = omega (arith, r1.one_more, r2.one_more, r3.one_more);
        },
      )
