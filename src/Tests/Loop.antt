-- ===== src/Tests/Loop.antt =====
-- A loop that is stopped between two of its steps.
use c_spock_bot.Prelude.{ℕ, ◌≤◌, ◌≡◌, refl, arith, List, [], ◌∷◌, Bool, true}
use c_spock_bot.Event.Loop.{
  kill_event, checking, returned, call_kill, Loop, Who, itself, another, step, run, begun,
}
use c_spock_bot.Event.Loop.Told.{emissions, late, was_killed, ticked, run-Told}
use c_spock_bot.Event.Loop.Ends.{run-returned}

abbrev at_once : Loop → Bool
at_once l = true

-- The flag is set after it was tested: one more tick is emitted.
abbrev stopped : List Who
stopped =
    itself
    ∷ (itself ∷ (itself ∷ (another ∷ (itself ∷ (itself ∷ (itself ∷ (itself ∷ (itself ∷ []))))))))

run-Told_example :
    (n : ℕ) × (emissions (run at_once true begun stopped).acts ≡ kill_event ∷ ticked n)
    × (late (run at_once true begun stopped).acts ≤ 1)
    × (was_killed (run at_once true begun stopped).acts ≡ true)
unfolding run step call_kill
run-Told_example = run-Told at_once stopped refl

abbrev running : Loop
running = record { stand = checking; kill_flag = true; acts = [] }

run-returned_example : (run at_once true running stopped).stand ≡ returned
run-returned_example = run-returned at_once (λ l. refl) running stopped refl (omega arith)
