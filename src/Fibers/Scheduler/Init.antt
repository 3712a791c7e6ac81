-- ===== src/Fibers/Scheduler/Init.antt =====
-- `vgc_scheduler_init` of src/fibers/scheduler.c.
use c_spock_bot.Prelude.{
  ℕ, zero, suc, ◌+◌, ◌-◌, ◌^◌, ◌≤◌, ◌≡◌, refl, arith, List, [], ◌∷◌, ◌++◌, append-nil, append_assoc,
  length, length-append,
}
use c_spock_bot.Prelude.{ltb, ◌==◌, ◌||◌, if◌then◌else◌, true, false, bit_and, Option, none, some}
use mathlib.Core.List.{map}
use c_spock_bot.Outcome.{Outcome, ok, err, null, fault, stuck, ◌>>=◌}
use c_spock_bot.Fibers.Fiber.{Fiber, vgc_fiber_init}
use c_spock_bot.Fibers.Queue.{BoundedQueue}
use c_spock_bot.Fibers.Threads.{update}
use c_spock_bot.Fibers.Scheduler.{Pointer, fiber, Counter, Scheduler}
use c_spock_bot.Fibers.Scheduler.Contents.{Contents, Holds}

-- `n` numbers from `i` on.
abbrev pub numbers : ℕ → ℕ → List ℕ
numbers i zero = []
numbers i (suc n) = i ∷ numbers (suc i) n

module _ (vgc_make : ℕ → ℕ → ℕ → ℕ) (queue : BoundedQueue Pointer) (stack_at : ℕ → ℕ) where
  open queue use {Q, size, push, push-room, Holds-less}

  abbrev Sched : Type 0
  Sched = Scheduler vgc_make queue

  -- A call of `vgc_push` on the pool whose result is ignored.
  abbrev pooled : Sched → Outcome Q → Sched
  pooled sched (ok pool) = record sched { free_q_pool = pool }
  pooled sched (err k) = sched
  pooled sched null = sched
  pooled sched fault = sched
  pooled sched stuck = sched

  -- Fiber `i` with its stack of 1 MB at `stack_at i`.
  abbrev equipped : Sched → ℕ → Sched
  equipped sched i = record sched {
    fibers =
        update sched.fibers i
          (record (vgc_fiber_init (stack_at i) (2 ^ 20) (sched.fibers i)) { id = i });
  }

  -- The loop over the fibers, from fiber `i` on.
  unfoldable pub init_fibers : ℕ → ℕ → Sched → Sched
  init_fibers zero i sched = sched
  init_fibers (suc n) i sched =
      init_fibers n (suc i) (pooled (equipped sched i) (push sched.free_q_pool (fiber i)))

  abbrev zeroed : Q → (ℕ → Fiber) → (ℕ → Counter) → Sched
  zeroed q fibers counters = record {
    hi_q = q;
    mid_q = q;
    lo_q = q;
    free_q_pool = q;
    is_waiter = false;
    broadcasts = 0;
    fibers = fibers;
    counters = counters;
  }

  -- `none` where the size is refused; `fresh` is a new queue of the size, `fibers` and `counters` what
  -- the memory held.
  unfoldable pub vgc_scheduler_init :
      Outcome Q → (ℕ → Fiber) → (ℕ → Counter) → ℕ → Outcome (Option Sched)
  vgc_scheduler_init fresh fibers counters n =
      if ltb n 2 || (if bit_and n (n - 1) == 0 then false else true)
      then ok none
      else (do q ← fresh; ok (some (init_fibers n 0 (zeroed q fibers counters))))

  -- The loop puts every fiber behind the pool.
  init_fibers-Holds :
      (n i m : ℕ) (sched : Sched) (c : Contents)
      → Holds vgc_make queue (n + m) sched c
      → length c.pool + n ≤ size
      → Holds vgc_make queue m
          (init_fibers n i sched)
          (record c { pool = c.pool ++ map fiber (numbers i n) })
  unfolding init_fibers
  init_fibers-Holds zero i m sched c h room =
      let budget : 0 + m ≡ m = omega arith in
      let same : c ≡ record c { pool = c.pool ++ [] } = rw append-nil refl in
      rw (← same) (rw budget at h)
  init_fibers-Holds (suc n) i m sched c h room =
      let budget : suc n + m ≡ suc (n + m) = omega arith in
      let r =
        push-room (n + m) sched.free_q_pool c.pool (fiber i) (rw budget at h.pool)
          (omega (arith, room)) in
      let next =
        init_fibers-Holds n (suc i) m (pooled (equipped sched i) (ok r.0))
          (record c { pool = c.pool ++ (fiber i ∷ []) })
          (record {
            hi = Holds-less (n + m) sched.hi_q c.hi (rw budget at h.hi);
            mid = Holds-less (n + m) sched.mid_q c.mid (rw budget at h.mid);
            lo = Holds-less (n + m) sched.lo_q c.lo (rw budget at h.lo);
            pool = r.2;
          })
          (omega (arith, room, length-append c.pool (fiber i ∷ []))) in
      rw r.1 (rw (append_assoc c.pool (fiber i ∷ []) (map fiber (numbers (suc i) n))) at next)

  -- For a power of two from 2 on, with new queues of that size, and where memory is given for the fibers
  -- and their stacks, which the code does not test, `vgc_scheduler_init` makes a scheduler
  -- whose fibers are all free, in the order of their numbers, and in which nothing is queued.
  pub vgc_scheduler_init-Holds :
      (m : ℕ) (q : Q) (fibers : ℕ → Fiber) (counters : ℕ → Counter)
      → queue.Holds (size + m) q []
      → 2 ≤ size
      → bit_and size (size - 1) ≡ 0
      → (sched : Sched) × (vgc_scheduler_init (ok q) fibers counters size ≡ ok (some sched))
        × Holds vgc_make queue m sched
            (record { hi = []; mid = []; lo = []; pool = map fiber (numbers 0 size) })
  unfolding vgc_scheduler_init
  vgc_scheduler_init-Holds m q fibers counters h two power =
      let large : ltb size 2 ≡ false = ground (arith, two) in
      (
        init_fibers size 0 (zeroed q fibers counters),
        rw (large, power) refl,
        init_fibers-Holds size 0 m (zeroed q fibers counters)
            (record { hi = []; mid = []; lo = []; pool = [] })
            (record { hi = h; mid = h; lo = h; pool = h }) (omega arith),
      )
