-- ===== src/Fibers/Scheduler/Park.antt =====
-- A wait: `vgc_wait_for_counter` or `vgc_wait_for_counter2`, its jump, and what the scheduler does then.
use c_spock_bot.Prelude.{ℕ, suc, ◌<◌, ◌≡◌, ◌≢◌, refl, arith}
use c_spock_bot.Prelude.{List, [], ◌∷◌, ◌++◌, length, ◌==◌, if◌then◌else◌, ℕ_discrete}
use c_spock_bot.Prelude.{some, true, false}
use c_spock_bot.Outcome.{ok, ◌>>=◌}
use c_spock_bot.Fibers.Fiber.{Fiber, wait}
use c_spock_bot.Fibers.Queue.{BoundedQueue}
use c_spock_bot.Fibers.Threads.{update}
use c_spock_bot.Fibers.Threads.Moves.{update_same}
use c_spock_bot.Fibers.Scheduler.{
  Pointer, Counter, vgc_counter_acquire, vgc_counter_release, wait_fiber_len, Scheduler, minus_one,
  vgc_wait_for_counter, vgc_wait_for_counter2,
}
use c_spock_bot.Fibers.Scheduler.Contents.{Contents, Holds}
use c_spock_bot.Fibers.Scheduler.Waiters.{open_counter}

-- The waiters with one more where there is room for it.
abbrev pub joined : List ℕ → ℕ → List ℕ
joined ws f = if length ws == wait_fiber_len then ws else ws ++ (f ∷ [])

module _ (vgc_make : ℕ → ℕ → ℕ → ℕ) (queue : BoundedQueue Pointer) where
  abbrev Sched : Type 0
  Sched = Scheduler vgc_make queue

  -- A scheduler whose fiber `f` waits for counter `k`, this counter as given, and the rest of
  -- that fiber, every other fiber, every other counter and the queues unchanged.
  pub record Waiting (sched sched' : Sched) (f k : ℕ) (count : Counter) : Type 0 where
    pub state : (sched'.fibers f).state ≡ wait
    pub dependency : (sched'.fibers f).dependency_count ≡ some k
    pub priority : (sched'.fibers f).priority ≡ (sched.fibers f).priority
    pub own : sched'.fibers f ≡ record (sched.fibers f) { state = wait; dependency_count = some k }
    pub others : (g : ℕ) → f ≢ g → sched'.fibers g ≡ sched.fibers g
    pub counted : sched'.counters k ≡ count
    pub other_counters : (j : ℕ) → k ≢ j → sched'.counters j ≡ sched.counters j
    pub queues :
        (n : ℕ) (c : Contents) → Holds vgc_make queue n sched c → Holds vgc_make queue n sched' c

  -- With fewer than four waiters there `vgc_wait_for_counter2` does what `vgc_wait_for_counter` does,
  -- and its error is 0.
  pub vgc_wait_for_counter2-vgc_wait_for_counter :
      (sched : Sched) (f k m : ℕ) (ws : List ℕ)
      → sched.counters k ≡ open_counter m ws
      → length ws < wait_fiber_len
      → vgc_wait_for_counter2 vgc_make queue sched f k
        ≡ (do (on, sched') ← vgc_wait_for_counter vgc_make queue sched f k; ok (on, 0, sched'))
  unfolding vgc_wait_for_counter vgc_wait_for_counter2 vgc_counter_acquire
  vgc_wait_for_counter2-vgc_wait_for_counter sched f k m ws e room =
      let below : (length ws == wait_fiber_len) ≡ false = ground (arith, room) in
      elim (ℕ_discrete m 0) [
        | yes p ↦ rw (e, p) refl
        | no p ↦ let more : (m == 0) ≡ false = ground (arith, p) in rw (e, more, below) refl
      ]

  -- With four waiters at a counter that is not 0, `vgc_wait_for_counter2` goes on at once with the
  -- error -1, and the fibers and the counter are as they were.
  pub vgc_wait_for_counter2-full :
      (sched : Sched) (f k m : ℕ) (ws : List ℕ)
      → sched.counters k ≡ open_counter (suc m) ws
      → length ws ≡ wait_fiber_len
      → (sched' : Sched) × (vgc_wait_for_counter2 vgc_make queue sched f k
          ≡ ok (true, minus_one, sched'))
        × (sched'.fibers ≡ sched.fibers)
        × (sched'.counters k ≡ open_counter (suc m) ws)
  unfolding vgc_wait_for_counter2 vgc_counter_acquire vgc_counter_release
  vgc_wait_for_counter2-full sched f k m ws e full =
      let more : (suc m == 0) ≡ false = ground arith in
      (
        record sched { counters = update sched.counters k (open_counter (suc m) ws) },
        rw (e, more, full) refl,
        refl,
        update_same sched.counters k _,
      )

  -- One that is 0 goes on at once, with both functions, and the counter is as it was.
  pub vgc_wait_for_counter-zero :
      (sched : Sched) (f k : ℕ) (ws : List ℕ)
      → sched.counters k ≡ open_counter 0 ws
      → (sched' : Sched) × (vgc_wait_for_counter vgc_make queue sched f k ≡ ok (true, sched'))
        × (vgc_wait_for_counter2 vgc_make queue sched f k ≡ ok (true, 0, sched'))
        × (sched'.fibers ≡ sched.fibers)
        × (sched'.counters k ≡ open_counter 0 ws)
  unfolding vgc_wait_for_counter vgc_wait_for_counter2 vgc_counter_acquire vgc_counter_release
  vgc_wait_for_counter-zero sched f k ws e = (
    record sched { counters = update sched.counters k (open_counter 0 ws) },
    rw e refl,
    rw e refl,
    refl,
    update_same sched.counters k _,
  )
