-- ===== src/Tests/Idle.antt =====
-- Three threads at an empty scheduler.
use c_spock_bot.Prelude.{ℕ, ◌≡◌, ◌≢◌, arith, [], ◌∷◌, false}
use c_spock_bot.Fibers.Idle.{busy, asleep, Workers, at_first, From}
use c_spock_bot.Fibers.Idle.Missed.{missed}

missed_example :
    (s : Workers ℕ) × From ℕ (at_first ℕ) s
    × (s.spots 4 ≡ asleep)
    × ((u : ℕ) → 4 ≢ u → s.spots u ≡ busy)
    × (s.shared.is_waiter ≡ false)
    × (s.shared.queues 1 ≡ 7 ∷ (8 ∷ []))
missed_example = missed ℕ 4 5 6 (omega arith) (omega arith) (omega arith) 9 (7 ∷ (8 ∷ []))
