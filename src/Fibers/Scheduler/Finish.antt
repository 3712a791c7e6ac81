-- ===== src/Fibers/Scheduler/Finish.antt =====
-- Fibers that are done: `settle` of the fibers of one counter, to the last.
use c_spock_bot.Prelude.{ℕ, suc, ◌+◌, ◌^◌, ◌≤◌, ◌<◌, ◌≡◌, refl, ap, ◌∙◌, arith}
use c_spock_bot.Prelude.{List, [], ◌∷◌, ◌++◌, append_assoc, length, length-append}
use mathlib.Core.List.{map}
use c_spock_bot.Prelude.{some, All}
use c_spock_bot.Outcome.{Outcome, ok, ◌>>=◌}
use c_spock_bot.Fibers.Fiber.{Fiber, done}
use c_spock_bot.Fibers.Queue.{BoundedQueue}
use c_spock_bot.Fibers.Scheduler.{
  Pointer, fiber, Counter, Scheduler, Result, returned, exited, count_down, free_fiber, retire,
  settle_state, settle,
}
use c_spock_bot.Fibers.Scheduler.Contents.{Contents, line, Holds, less}
use c_spock_bot.Fibers.Scheduler.Waiters.{woken, open_counter, count_down-last, count_down-more}

-- A fiber that is done and counts for counter `k`.
abbrev pub Finished : ℕ → Fiber → Type 0
Finished k x = (x.state ≡ done) × (x.parent_count ≡ some k)

abbrev pub freed : Contents → List ℕ → Contents
freed c fs = record c { pool = c.pool ++ map fiber fs }

freed-woken :
    (prio : ℕ → ℕ) (c : Contents) (ws : List ℕ) (f : ℕ) (fs : List ℕ)
    → freed (woken prio (freed c (f ∷ [])) ws) fs ≡ freed (woken prio c ws) (f ∷ fs)
freed-woken prio c ws f fs = simp append_assoc

module _ (vgc_make : ℕ → ℕ → ℕ → ℕ) (queue : BoundedQueue Pointer) where
  open queue use {size, push-room}

  abbrev Sched : Type 0
  Sched = Scheduler vgc_make queue

  -- The fibers that jump back one after another.
  abbrev pub settle_all : Sched → List ℕ → Outcome (Result vgc_make queue)
  settle_all sched [] = ok (returned 0 sched)
  settle_all sched (f ∷ fs) = do
    result ← settle vgc_make queue sched f
    elim result [ exited ↦ ok exited | returned code sched ↦ settle_all sched fs ]

  free_fiber-freed :
      (n : ℕ) (sched : Sched) (c : Contents) (f : ℕ)
      → Holds vgc_make queue (suc n) sched c
      → length c.pool < size
      → (sched' : Sched) × (free_fiber vgc_make queue sched f ≡ ok (returned 0 sched'))
        × Holds vgc_make queue n sched' (freed c (f ∷ []))
        × (sched'.fibers ≡ sched.fibers)
        × (sched'.counters ≡ sched.counters)
  unfolding free_fiber
  free_fiber-freed n sched c f h room =
      let r = push-room n sched.free_q_pool c.pool (fiber f) h.pool room in
      let l = less vgc_make queue n sched c h in
      (
        record sched { free_q_pool = r.0 },
        rw r.1 refl,
        record { hi = l.hi; mid = l.mid; lo = l.lo; pool = r.2 },
        refl,
        refl,
      )

  -- A finished fiber whose counter came down goes into the pool.
  settle-freed :
      (n : ℕ) (sched counted : Sched) (c : Contents) (f k : ℕ)
      → Finished k (sched.fibers f)
      → count_down vgc_make queue sched k ≡ ok counted
      → Holds vgc_make queue (suc n) counted c
      → length c.pool < size
      → (sched' : Sched) × (settle vgc_make queue sched f ≡ ok (returned 0 sched'))
        × Holds vgc_make queue n sched' (freed c (f ∷ []))
        × (sched'.fibers ≡ counted.fibers)
        × (sched'.counters ≡ counted.counters)
  unfolding settle settle_state retire
  settle-freed n sched counted c f k (e, parent) down h room =
      let r = free_fiber-freed n counted c f h room in
      (r.0, rw (e, parent, down) r.1, r.2, r.3, r.4)

  -- Let a counter be free and count fewer than 2^31 fibers, which have all finished and which it is
  -- the parent counter of. If its waiters have the priorities 0, 1 and 2, each of the three queues has
  -- room for all of the waiters, the pool has room for the fibers, and the counters of the queues stay
  -- in range for as many operations, then the scheduler, which takes
  -- up the finished fibers in this order, brings the counter to 0 and frees it, its waiters are behind
  -- the queues of their priorities in the order they came, and the fibers are in the pool.
  pub settle_all-woken :
      (n : ℕ) (sched : Sched) (c : Contents) (k f : ℕ) (fs ws : List ℕ) (memory : ℕ → Fiber)
      → Holds vgc_make queue (length fs + 1 + length ws + n) sched c
      → sched.fibers ≡ memory
      → sched.counters k ≡ open_counter (length fs + 1) ws
      → length fs + 1 < 2 ^ 31
      → All (λ g. Finished k (memory g)) (f ∷ fs)
      → All (λ w. (memory w).priority < 3) ws
      → ((p : ℕ) → length (line c p) + length ws ≤ size)
      → length c.pool + length fs < size
      → (sched' : Sched) × (settle_all sched (f ∷ fs) ≡ ok (returned 0 sched'))
        × Holds vgc_make queue n sched' (freed (woken (λ w. (memory w).priority) c ws) (f ∷ fs))
        × (sched'.counters k ≡ open_counter 0 ws)
  settle_all-woken n sched c k f [] ws memory h same e small ((d, parent), ps) low room space =
      let budget : 0 + 1 + length ws + n ≡ length ws + suc n = omega arith in
      let down =
        count_down-last vgc_make queue (suc n) sched c k ws (rw budget at h) e (rw same low) room in
      let r =
        settle-freed n sched down.0 (woken (λ w. (memory w).priority) c ws) f k
          (rw same (d, parent)) down.1 (rw same at down.2) (omega (arith, space)) in
      (r.0, rw r.1 refl, r.2, ap (λ (g : ℕ → Counter). g k) r.4 ∙ down.4)
  settle_all-woken n sched c k f (g ∷ fs) ws memory h same e small (p, ps) low room space =
      let budget : suc (length fs) + 1 + length ws + n ≡ suc (length fs + 1 + length ws + n) =
        omega arith in
      let many : suc (length fs) + 1 ≡ length fs + 2 = omega arith in
      let down =
        count_down-more vgc_make queue (suc (length fs + 1 + length ws + n)) sched c k (length fs)
          ws (rw budget at h) (rw many at e) (omega (arith, small)) in
      let r =
        settle-freed (length fs + 1 + length ws + n) sched down.0 c f k (rw same p) down.1 down.2
          (omega (arith, space)) in
      let rest =
        settle_all-woken n r.0 (freed c (f ∷ [])) k g fs ws memory r.2 (r.3 ∙ down.3 ∙ same)
          (ap (λ (g : ℕ → Counter). g k) r.4 ∙ down.4) (omega (arith, small)) ps low room
          (omega (arith, space, length-append c.pool (fiber f ∷ []))) in
      (
        rest.0,
        rw r.1 rest.1,
        rw (freed-woken (λ w. (memory w).priority) c ws f (g ∷ fs)) at rest.2,
        rest.3,
      )
