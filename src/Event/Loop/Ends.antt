-- ===== src/Event/Loop/Ends.antt =====
-- The end of a run of the loop.
use c_spock_bot.Prelude.{ℕ, suc, ◌-◌, ◌≤◌, ◌≡◌, refl, sym, arith, List, [], ◌∷◌, Bool, true, false}
use mathlib.Core.Path.{subst}
use c_spock_bot.Event.Loop.{
  Stand, starting, start_wait, checking, ticking, tick_wait, killing, kill_wait, checking_once,
  ticking_once, once_wait, returned, Loop, own_step, call_kill, Who, itself, another, step, run,
}

-- How many steps of its own the loop has left once the flag is set.
abbrev left : Stand → ℕ
left starting = 5
left start_wait = 4
left checking = 3
left ticking = 5
left tick_wait = 4
left killing = 2
left kill_wait = 1
left checking_once = 3
left ticking_once = 2
left once_wait = 1
left returned = 0

abbrev own_steps : List Who → ℕ
own_steps [] = 0
own_steps (itself ∷ later) = suc (own_steps later)
own_steps (another ∷ later) = own_steps later

left-most : (stand : Stand) → left stand ≤ 5
left-most starting = omega arith
left-most start_wait = omega arith
left-most checking = omega arith
left-most ticking = omega arith
left-most tick_wait = omega arith
left-most killing = omega arith
left-most kill_wait = omega arith
left-most checking_once = omega arith
left-most ticking_once = omega arith
left-most once_wait = omega arith
left-most returned = omega arith

left-returned : (stand : Stand) → left stand ≤ 0 → stand ≡ returned
left-returned returned h = refl
left-returned starting h = absurd (omega arith)
left-returned start_wait h = absurd (omega arith)
left-returned checking h = absurd (omega arith)
left-returned ticking h = absurd (omega arith)
left-returned tick_wait h = absurd (omega arith)
left-returned killing h = absurd (omega arith)
left-returned kill_wait h = absurd (omega arith)
left-returned checking_once h = absurd (omega arith)
left-returned ticking_once h = absurd (omega arith)
left-returned once_wait h = absurd (omega arith)

-- Every wait ends when the loop takes its next step.
module _ (ends : Loop → Bool) (all_end : (l : Loop) → ends l ≡ true) where
  left-own :
      (l : Loop) (stand : Stand)
      → l.stand ≡ stand
      → l.kill_flag ≡ true
      → ((own_step ends true l stand).kill_flag ≡ true)
        × (left (own_step ends true l stand).stand ≤ left stand - 1)
  left-own l starting at set = (set, omega arith)
  left-own l start_wait at set = rw (all_end l) (set, omega arith)
  left-own l checking at set = rw set (refl, omega arith)
  left-own l ticking at set = (set, omega arith)
  left-own l tick_wait at set = rw (all_end l) (set, omega arith)
  left-own l killing at set = (set, omega arith)
  left-own l kill_wait at set = rw (all_end l) (set, omega arith)
  left-own l checking_once at set = rw set (refl, omega arith)
  left-own l ticking_once at set = (set, omega arith)
  left-own l once_wait at set = rw (all_end l) (set, omega arith)
  left-own l returned at set = (set, rw at (omega arith))

  step-left :
      (l : Loop) (who : Who)
      → l.kill_flag ≡ true
      → ((step ends true l who).kill_flag ≡ true)
        × (left (step ends true l who).stand ≤ left l.stand - own_steps (who ∷ []))
  unfolding step call_kill
  step-left l itself set = left-own l l.stand refl set
  step-left l another set = (refl, omega arith)

  run-left :
      (l : Loop) (later : List Who)
      → l.kill_flag ≡ true
      → left (run ends true l later).stand ≤ left l.stand - own_steps later
  unfolding run
  run-left l [] set = omega arith
  run-left l (itself ∷ later) set =
      let (set', less) = step-left l itself set in
      omega (arith, less, run-left (step ends true l itself) later set')
  run-left l (another ∷ later) set =
      let (set', less) = step-left l another set in
      omega (arith, less, run-left (step ends true l another) later set')

  -- If the wait for the counter of each emission ends, which it need not where an event has no
  -- callbacks, then wherever the loop stands when the kill flag is set, it has returned after five more
  -- steps of its own, a wait being one, whatever others do between them.
  pub run-returned :
      (l : Loop) (later : List Who)
      → l.kill_flag ≡ true
      → 5 ≤ own_steps later
      → (run ends true l later).stand ≡ returned
  run-returned l later set enough =
      let few = left-most l.stand in
      left-returned (run ends true l later).stand (omega (arith, run-left l later set, few, enough))

-- A wait for the kill event that does not end keeps the loop from returning, with any number of steps.
pub run-waits :
    (ends : Loop → Bool) (l : Loop) (later : List Who)
    → ((m : Loop) → m.stand ≡ kill_wait → ends m ≡ false)
    → l.stand ≡ kill_wait
    → (run ends true l later).stand ≡ kill_wait
unfolding run step call_kill
run-waits ends l [] never at = at
run-waits ends l (itself ∷ later) never at =
    let waits : own_step ends true l kill_wait ≡ l = rw (never l at) refl in
    let stays : step ends true l itself ≡ l =
      subst (λ stand. own_step ends true l stand ≡ l) (sym at) waits in
    subst (λ m. (run ends true m later).stand ≡ kill_wait) (sym stays)
      (run-waits ends l later never at)
run-waits ends l (another ∷ later) never at = run-waits ends (call_kill l) later never at
