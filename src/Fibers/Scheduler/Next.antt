-- ===== src/Fibers/Scheduler/Next.antt =====
-- Which fiber runs next.
use c_spock_bot.Prelude.{ℕ, ◌≡◌, refl, List, [], ◌∷◌, Option, none, some}
use c_spock_bot.Outcome.{Outcome, ok, err}
use c_spock_bot.Fibers.Queue.{BoundedQueue}
use c_spock_bot.Fibers.Scheduler.{Pointer, Scheduler, next_fiber}
use c_spock_bot.Fibers.Scheduler.Contents.{Contents, Holds}

-- The oldest pointer of the highest priority that has one, and what it leaves.
abbrev pub first :
    List Pointer → List Pointer → List Pointer → List Pointer → Option (Pointer × Contents)
first (x ∷ hi) mid lo pool = some (x, record { hi = hi; mid = mid; lo = lo; pool = pool })
first [] (x ∷ mid) lo pool = some (x, record { hi = []; mid = mid; lo = lo; pool = pool })
first [] [] (x ∷ lo) pool = some (x, record { hi = []; mid = []; lo = lo; pool = pool })
first [] [] [] pool = none

module _ (vgc_make : ℕ → ℕ → ℕ → ℕ) (queue : BoundedQueue Pointer) where
  open queue use {pop-first, pop-empty}

  -- A call takes what was chosen, or returns -1 where nothing was.
  abbrev pub Takes :
      ℕ → Outcome (Pointer × Scheduler vgc_make queue) → Option (Pointer × Contents) → Type 0
  Takes n call none = call ≡ err 0
  Takes n call (some (x, c)) =
      (sched' : Scheduler vgc_make queue) × (call ≡ ok (x, sched'))
      × Holds vgc_make queue n sched' c

  Takes-first :
      (n : ℕ) (sched : Scheduler vgc_make queue) (hi mid lo pool : List Pointer)
      → Holds vgc_make queue n sched (record { hi = hi; mid = mid; lo = lo; pool = pool })
      → Takes n (next_fiber vgc_make queue sched) (first hi mid lo pool)
  unfolding next_fiber
  Takes-first n sched (x ∷ hi) mid lo pool h =
      let r = pop-first n sched.hi_q hi x h.hi in
      (
        record sched { hi_q = r.0 },
        rw (r.1) refl,
        record { hi = r.2; mid = h.mid; lo = h.lo; pool = h.pool },
      )
  Takes-first n sched [] (x ∷ mid) lo pool h =
      let r = pop-first n sched.mid_q mid x h.mid in
      (
        record sched { mid_q = r.0 },
        rw (pop-empty n sched.hi_q h.hi, r.1) refl,
        record { hi = h.hi; mid = r.2; lo = h.lo; pool = h.pool },
      )
  Takes-first n sched [] [] (x ∷ lo) pool h =
      let r = pop-first n sched.lo_q lo x h.lo in
      (
        record sched { lo_q = r.0 },
        rw (pop-empty n sched.hi_q h.hi, pop-empty n sched.mid_q h.mid, r.1) refl,
        record { hi = h.hi; mid = h.mid; lo = r.2; pool = h.pool },
      )
  Takes-first n sched [] [] [] pool h =
      rw (pop-empty n sched.hi_q h.hi, pop-empty n sched.mid_q h.mid, pop-empty n sched.lo_q h.lo)
        refl

  -- The dequeues of `vgc_scheduler_run` take the oldest fiber of the highest priority that has one, and
  -- return -1 where all three queues are empty.
  pub next_fiber-first :
      (n : ℕ) (sched : Scheduler vgc_make queue) (c : Contents)
      → Holds vgc_make queue n sched c
      → Takes n (next_fiber vgc_make queue sched) (first c.hi c.mid c.lo c.pool)
  next_fiber-first n sched c h = Takes-first n sched c.hi c.mid c.lo c.pool h
