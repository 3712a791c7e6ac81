-- ===== src/Event/Table.antt =====
-- The table of events in src/event/sb_event.c: `sbev_init_event`, `sbev_reg_event` and the kill flag.
pub mod Agrees
pub mod Grown
pub mod Names
pub mod Registered
pub mod Start
use c_spock_bot.Prelude.{
  ℕ, zero, suc, ◌+◌, ◌*◌, ◌%◌, ◌^◌, ◌≡◌, ◌≢◌, List, [], ◌∷◌, ◌++◌, length, ◌==◌, ltb, if◌then◌else◌,
  Bool, true, false, ◌&&◌, Option, none, some,
}
use c_spock_bot.Outcome.{Outcome, ok, fault, ◌>>=◌}
use c_spock_bot.Event.{Entry, cb_size, handle_size}

-- A pointer to an entry: which array it points into, counted by their allocations, and its index.
pub record Address : Type 0 where
  pub array : ℕ
  pub index : ℕ

-- What the code relies on in uthash. A key is added only where it is not yet present.
pub record Hashes : Type 1 where
  pub Name : Type 0
  pub Map : Type 0
  pub same_name : (n m : Name) → Dec (n ≡ m)
  pub find_str : Map → Name → Option Address
  pub add_keyptr : Map → Name → Address → Map
  pub cleared : Map
  pub find-cleared : (n : Name) → find_str cleared n ≡ none
  pub find-add :
      (m : Map) (n : Name) (p : Address)
      → find_str m n ≡ none
      → find_str (add_keyptr m n p) n ≡ some p
  pub find-add_other :
      (m : Map) (n n' : Name) (p : Address)
      → n ≢ n'
      → find_str (add_keyptr m n p) n' ≡ find_str m n'

-- `sizeof(sbev_event_entry)` depends on libuv; `memory size` says whether `malloc` or `realloc` gives it.
module _ (Cb : Type 0) (hashes : Hashes) (entry_size : ℕ) (memory : ℕ → Bool) where
  open hashes use {Name, Map, find_str, add_keyptr, cleared}

  -- `sbev_event_entry`, its callbacks apart.
  pub record Named : Type 0 where
    pub nomen : Name
    pub handle : ℕ
    pub entry : Entry Cb

  -- `sbev_eventcore`. `array` counts the allocations of `entries`, which holds `cur` entries.
  pub record Eventcore : Type 0 where
    pub entries_map : Map
    pub array : ℕ
    pub entries : List Named
    pub max : ℕ
    pub start : ℕ
    pub tick : ℕ
    pub kill : ℕ
    pub kill_flag : Bool

  -- `ev->entries[i]`, read.
  abbrev pub entry_at : List Named → ℕ → Outcome Named
  entry_at [] i = fault
  entry_at (e ∷ entries) zero = ok e
  entry_at (e ∷ entries) (suc i) = entry_at entries i

  -- `find->handle`, through a pointer that must not be to a freed array.
  unfoldable pub handle_of : Eventcore → Address → Outcome ℕ
  handle_of ev p =
      if p.array == ev.array then (do e ← entry_at ev.entries p.index; ok e.handle) else fault

  -- `none` is the `exit` of `CHK_ALLOC`; the lock and the copy of the name do not fail here.
  unfoldable pub init_event_entry : Name → ℕ → Option Named
  init_event_entry nomen handle =
      if memory (cb_size * 20) && memory (handle_size * 20)
      then some (record {
        nomen = nomen;
        handle = handle;
        entry = record { cbs = []; max = 20; free_handles = []; free_max = 20 };
      })
      else none

  -- The loop that fills the map again, from entry `i` on.
  abbrev pub add_all : ℕ → ℕ → List Named → Map → Map
  add_all array i [] m = m
  add_all array i (e ∷ entries) m =
      add_all array (suc i) entries (add_keyptr m e.nomen (record { array = array; index = i }))

  -- `if(ev->cur == ev->max) ...`
  unfoldable pub grow_entries : Eventcore → Option Eventcore
  grow_entries ev =
      let max = ev.max * 2 % 2 ^ 64 in
      if length ev.entries == ev.max
      then if memory (entry_size * max % 2 ^ 64)
        then some (record ev {
          max = max;
          array = suc ev.array;
          entries_map = add_all (suc ev.array) 0 ev.entries cleared;
        })
        else none
      else some ev

  -- An entry behind the others, and its handle.
  abbrev pub put_entry : Eventcore → Option Named → Outcome (Option (ℕ × Eventcore))
  put_entry ev none = ok none
  put_entry ev (some e) =
      if ltb (length ev.entries) ev.max
      then ok (
          some (
            length ev.entries,
            record ev {
              entries = ev.entries ++ (e ∷ []);
              entries_map =
                  add_keyptr ev.entries_map e.nomen
                    (record { array = ev.array; index = length ev.entries });
            },
          ))
      else fault

  abbrev pub new_entry : Option Eventcore → Name → Outcome (Option (ℕ × Eventcore))
  new_entry none nomen = ok none
  new_entry (some ev) nomen = put_entry ev (init_event_entry nomen (length ev.entries))

  -- `sbev_reg_event` by what the map holds.
  abbrev pub reg_found : Eventcore → Name → Option Address → Outcome (Option (ℕ × Eventcore))
  reg_found ev nomen (some p) = do handle ← handle_of ev p; ok (some (handle, ev))
  reg_found ev nomen none = new_entry (grow_entries ev) nomen

  unfoldable pub reg_event : Eventcore → Name → Outcome (Option (ℕ × Eventcore))
  reg_event ev nomen = reg_found ev nomen (find_str ev.entries_map nomen)
