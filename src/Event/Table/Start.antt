-- ===== src/Event/Table/Start.antt =====
-- The start of a table of events, `sbev_init_event`, and its callbacks, `sbev_reg_event_cb`, in
-- src/event/sb_event.c.
pub mod Replaced
pub mod Calls
pub mod Fresh
use c_spock_bot.Prelude.{
  ℕ, zero, suc, ◌*◌, ◌%◌, ◌^◌, List, [], ◌∷◌, if◌then◌else◌, Bool, true, false, Option, none, some,
}
use c_spock_bot.Outcome.{Outcome, ok, fault, ◌>>=◌, unless_exit}
use c_spock_bot.Event.{Entry, reg_cb}
use c_spock_bot.Event.Table.{Hashes, Named, Eventcore, entry_at, reg_event}

module _ (Cb : Type 0) (hashes : Hashes) (entry_size : ℕ) (memory : ℕ → Bool) where
  open hashes use {Name, cleared}

  abbrev Core : Type 0
  Core = Eventcore Cb hashes entry_size memory

  abbrev Event : Type 0
  Event = Named Cb hashes entry_size memory

  -- The names of the three events that the core emits itself.
  pub record Own : Type 0 where
    pub start_name : Name
    pub tick_name : Name
    pub kill_name : Name

  -- Before the names are registered; `ev` is what the memory held, `array` the next allocation.
  abbrev pub empty_core : Core → Core
  empty_core ev = record ev {
    entries_map = cleared;
    max = 20;
    array = suc ev.array;
    entries = [];
    kill_flag = false;
  }

  -- `plugin` says whether `csb_init_plugin` succeeds.
  unfoldable pub init_event : Bool → Own → Core → Outcome (Option Core)
  init_event plugin own ev =
      if plugin
      then if memory (entry_size * 20 % 2 ^ 64)
        then (do
          r ← reg_event Cb hashes entry_size memory (empty_core ev) own.start_name
          unless_exit r (λ (start, ev). do
            r ← reg_event Cb hashes entry_size memory (record ev { start = start }) own.tick_name
            unless_exit r (λ (tick, ev). do
              r ← reg_event Cb hashes entry_size memory (record ev { tick = tick }) own.kill_name
              unless_exit r (λ (kill, ev). ok (some (record ev { kill = kill }))))))
        else ok none
      else ok none

  -- `ev->entries[i]`, its callbacks written.
  abbrev pub put_callbacks : List Event → ℕ → Entry Cb → Outcome (List Event)
  put_callbacks [] i entry = fault
  put_callbacks (e ∷ entries) zero entry = ok (record e { entry = entry } ∷ entries)
  put_callbacks (e ∷ entries) (suc i) entry = do
    entries ← put_callbacks entries i entry
    ok (e ∷ entries)

  -- `sbev_reg_cb`
  unfoldable pub reg_cb_at : Core → ℕ → Cb → Outcome (Option (ℕ × Core))
  reg_cb_at ev ev_handle cb = do
    ent ← entry_at Cb hashes entry_size memory ev.entries ev_handle
    r ← reg_cb Cb memory ent.entry cb
    unless_exit r (λ (ent_handle, entry). do
      entries ← put_callbacks ev.entries ev_handle entry
      ok (some (ent_handle, record ev { entries = entries })))

  unfoldable pub reg_event_cb : Core → Name → Cb → Outcome (Option Core)
  reg_event_cb ev nomen cb = do
    r ← reg_event Cb hashes entry_size memory ev nomen
    unless_exit r
        (λ (handle, ev). do r ← reg_cb_at ev handle cb; unless_exit r (λ (_, ev). ok (some ev)))

  -- `sbev_kill`
  abbrev pub kill_event : Core → Core
  kill_event ev = record ev { kill_flag = true }
