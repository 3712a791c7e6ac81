-- ===== src/Event/Loop.antt =====
-- The loops of src/event/sb_event.c that emit start, tick and kill, while others call `sbev_kill`.
-- A step is what lies between two accesses of the kill flag, emissions or waits: the flag is read and
-- written under the plugin's lock. Whether the wait for the counter of an emission ends is a
-- parameter, a test of the state in which the loop waits: with callbacks it does when their fibers are
-- done, and without callbacks the emission does not set the counter.
pub mod Ends
pub mod Told
use c_spock_bot.Prelude.{ℕ, zero, suc, List, [], ◌∷◌, if◌then◌else◌, Bool, true, false}

-- The events that the core emits itself, by their handles `ev->start`, `ev->tick` and `ev->kill`.
pub data OwnEvent : Type 0 where
  start_event tick_event kill_event : OwnEvent

-- An emission, or a call of `sbev_kill`.
pub data Act : Type 0 where
  emitted : OwnEvent → Act
  killed : Act

-- Where the fiber stands: before an emission, in the wait for its counter, before the test of the flag.
pub data Stand : Type 0 where
  starting start_wait : Stand
  checking ticking tick_wait killing kill_wait : Stand
  checking_once ticking_once once_wait : Stand
  returned : Stand

-- `acts` has the latest first.
pub record Loop : Type 0 where
  pub stand : Stand
  pub kill_flag : Bool
  pub acts : List Act

abbrev go_on : Loop → Stand → Loop
go_on l stand = record l { stand = stand }

-- A wait that does not end stays where it is.
abbrev wait_for : (Loop → Bool) → Loop → Stand → Loop
wait_for ends l stand = if ends l then go_on l stand else l

abbrev emit : Loop → OwnEvent → Stand → Loop
emit l own stand = record l { stand = stand; acts = emitted own ∷ l.acts }

-- A step of `sbev_start_event`, of `sbev_run_event_continous` from `checking` on, or of
-- `sbev_run_event_once` from `checking_once` on.
abbrev pub own_step : (Loop → Bool) → Bool → Loop → Stand → Loop
own_step ends continuous l starting = emit l start_event start_wait
own_step ends continuous l start_wait = wait_for ends l (if continuous then checking else returned)
own_step ends continuous l checking = go_on l (if l.kill_flag then killing else ticking)
own_step ends continuous l ticking = emit l tick_event tick_wait
own_step ends continuous l tick_wait = wait_for ends l checking
own_step ends continuous l killing = emit l kill_event kill_wait
own_step ends continuous l kill_wait = wait_for ends l returned
own_step ends continuous l checking_once = go_on l (if l.kill_flag then killing else ticking_once)
own_step ends continuous l ticking_once = emit l tick_event once_wait
own_step ends continuous l once_wait = wait_for ends l returned
own_step ends continuous l returned = l

-- `sbev_kill`
unfoldable pub call_kill : Loop → Loop
call_kill l = record l { kill_flag = true; acts = killed ∷ l.acts }

-- Whose step is next: the loop's own, or another's call of `sbev_kill`.
pub data Who : Type 0 where
  itself another : Who

unfoldable pub step : (Loop → Bool) → Bool → Loop → Who → Loop
step ends continuous l itself = own_step ends continuous l l.stand
step ends continuous l another = call_kill l

unfoldable pub run : (Loop → Bool) → Bool → Loop → List Who → Loop
run ends continuous l [] = l
run ends continuous l (who ∷ later) = run ends continuous (step ends continuous l who) later

-- `sbev_start_event` after `sbev_init_event`, and `sbev_run_event_once`.
abbrev pub begun : Loop
begun = record { stand = starting; kill_flag = false; acts = [] }

abbrev pub begun_once : Loop
begun_once = record { stand = checking_once; kill_flag = false; acts = [] }
