-- ===== src/Fibers/Scheduler/Jobs.antt =====
-- `vgc_enque_job` in its three outcomes.
use c_spock_bot.Prelude.{ℕ, suc, ◌<◌, ◌≡◌, ◌≢◌, refl, List, [], ◌∷◌, ◌++◌, length}
use c_spock_bot.Prelude.{Option, ap, ◌∙◌}
use c_spock_bot.Outcome.{ok}
use c_spock_bot.Fibers.Fiber.{Fiber, vgc_fiber_assign}
use c_spock_bot.Fibers.Queue.{BoundedQueue}
use c_spock_bot.Fibers.Threads.{update}
use c_spock_bot.Fibers.Threads.Moves.{update_same, update_other}
use c_spock_bot.Fibers.Scheduler.{
  Pointer, fiber, local, Job, Scheduler, returned, minus_one, give_back, assign, vgc_enque_job,
}
use c_spock_bot.Fibers.Scheduler.Contents.{
  Contents, line, lined_up, Holds, less, SameMemory, enqueue-room, enqueue-full,
}

module _ (vgc_make : ℕ → ℕ → ℕ → ℕ) (queue : BoundedQueue Pointer) where
  open queue use {size, pop-first, pop-empty, push-room}

  -- The fiber is set up for the job, and the others are left alone.
  pub record Assigned (sched sched' : Scheduler vgc_make queue) (f : ℕ) (job : Job)
      (count : Option ℕ) : Type 0 where
    pub user_data : (sched'.fibers f).user_data ≡ job.user_data
    pub priority : (sched'.fibers f).priority ≡ job.priority
    pub parent : (sched'.fibers f).parent_count ≡ count
    pub context :
        (sched'.fibers f).ctx
        ≡ vgc_make (sched.fibers f).stack_base (sched.fibers f).stack_limit job.proc
    pub stack_base : (sched'.fibers f).stack_base ≡ (sched.fibers f).stack_base
    pub stack_limit : (sched'.fibers f).stack_limit ≡ (sched.fibers f).stack_limit
    pub others : (g : ℕ) → f ≢ g → sched'.fibers g ≡ sched.fibers g
    pub counters : sched'.counters ≡ sched.counters

  assigned :
      (sched base sched' : Scheduler vgc_make queue) (f : ℕ) (job : Job) (count : Option ℕ)
      → base.fibers ≡ sched.fibers
      → base.counters ≡ sched.counters
      → SameMemory vgc_make queue (assign vgc_make queue base f job count) sched'
      → Assigned sched sched' f job count
  unfolding assign vgc_fiber_assign
  assigned sched base sched' f job count ef ec m =
      let at : (g : ℕ) → sched'.fibers g ≡ update sched.fibers f (made (sched.fibers f)) g = λ g.
        ap (λ (h : ℕ → Fiber). h g) m.same_fibers
        ∙ ap (λ (h : ℕ → Fiber). update h f (made (h f)) g) ef in
      let here : sched'.fibers f ≡ made (sched.fibers f) =
        at f ∙ update_same sched.fibers f (made (sched.fibers f)) in
      record {
        user_data = ap (λ (x : Fiber). x.user_data) here;
        priority = ap (λ (x : Fiber). x.priority) here;
        parent = ap (λ (x : Fiber). x.parent_count) here;
        context = ap (λ (x : Fiber). x.ctx) here;
        stack_base = ap (λ (x : Fiber). x.stack_base) here;
        stack_limit = ap (λ (x : Fiber). x.stack_limit) here;
        others = λ g ne. at g ∙ update_other sched.fibers f g (made (sched.fibers f)) ne;
        counters = m.same_counters ∙ ec;
      }
    where
      made : Fiber → Fiber
      made x = record x {
        ctx = vgc_make x.stack_base x.stack_limit job.proc;
        user_data = job.user_data;
        priority = job.priority;
        parent_count = count;
      }

  taken-Holds :
      (n : ℕ) (sched : Scheduler vgc_make queue) (c : Contents) (pool : queue.Q)
      (rest : List Pointer) (f : ℕ) (job : Job) (count : Option ℕ)
      → Holds vgc_make queue n sched c
      → queue.Holds n pool rest
      → Holds vgc_make queue n
          (assign vgc_make queue (record sched { free_q_pool = pool }) f job count)
          (record c { pool = rest })
  unfolding assign
  taken-Holds n sched c pool rest f job count h p = record {
    hi = h.hi;
    mid = h.mid;
    lo = h.lo;
    pool = p;
  }

  -- With a free fiber and room in the queue of the job's priority, `vgc_enque_job` returns 0, takes the
  -- oldest free fiber out of the pool, sets it up for the job, and puts it behind that queue.
  pub vgc_enque_job-queued :
      (n : ℕ) (sched : Scheduler vgc_make queue) (c : Contents) (rest : List Pointer) (f : ℕ)
      (job : Job) (count : Option ℕ)
      → Holds vgc_make queue (suc n) sched c
      → c.pool ≡ fiber f ∷ rest
      → job.priority < 3
      → length (line c job.priority) < size
      → (sched' : Scheduler vgc_make queue) × (vgc_enque_job vgc_make queue sched job count
          ≡ ok (returned 0 sched'))
        × Holds vgc_make queue n sched' (lined_up (record c { pool = rest }) job.priority (fiber f))
        × Assigned sched sched' f job count
  unfolding vgc_enque_job
  vgc_enque_job-queued n sched c rest f job count h e p room =
      let pool = pop-first (suc n) sched.free_q_pool rest (fiber f) (rw e at h.pool) in
      let base : Scheduler vgc_make queue = record sched { free_q_pool = pool.0 } in
      let taken = taken-Holds (suc n) sched c pool.0 rest f job count h pool.2 in
      let queued =
        enqueue-room vgc_make queue n (assign vgc_make queue base f job count)
          (record c { pool = rest }) job.priority (fiber f) taken p room in
      (
        queued.0,
        rw (pool.1, queued.1) refl,
        queued.2,
        assigned sched base queued.0 f job count refl refl queued.3,
      )

  -- Without a free fiber it returns -1 and changes nothing.
  pub vgc_enque_job-empty :
      (n : ℕ) (sched : Scheduler vgc_make queue) (c : Contents) (job : Job) (count : Option ℕ)
      → Holds vgc_make queue n sched c
      → c.pool ≡ []
      → vgc_enque_job vgc_make queue sched job count ≡ ok (returned minus_one sched)
  unfolding vgc_enque_job
  vgc_enque_job-empty n sched c job count h e =
      rw (pop-empty n sched.free_q_pool (rw e at h.pool)) refl

  -- With a free fiber but no room in the queue it returns -1, and what it puts back into the pool is
  -- not the fiber, which is in no queue any more, but the address of its local variable.
  pub vgc_enque_job-lost :
      (n : ℕ) (sched : Scheduler vgc_make queue) (c : Contents) (rest : List Pointer) (f : ℕ)
      (job : Job) (count : Option ℕ)
      → Holds vgc_make queue (suc n) sched c
      → c.pool ≡ fiber f ∷ rest
      → job.priority < 3
      → length (line c job.priority) ≡ size
      → length rest < size
      → (sched' : Scheduler vgc_make queue) × (vgc_enque_job vgc_make queue sched job count
          ≡ ok (returned minus_one sched'))
        × Holds vgc_make queue n sched' (record c { pool = rest ++ (local ∷ []) })
  unfolding vgc_enque_job give_back assign
  vgc_enque_job-lost n sched c rest f job count h e p tight space =
      let pool = pop-first (suc n) sched.free_q_pool rest (fiber f) (rw e at h.pool) in
      let base : Scheduler vgc_make queue = record sched { free_q_pool = pool.0 } in
      let taken = taken-Holds (suc n) sched c pool.0 rest f job count h pool.2 in
      let back = push-room n pool.0 rest local pool.2 space in
      let before = less vgc_make queue n sched c h in
      let refused =
        enqueue-full vgc_make queue (suc n) (assign vgc_make queue base f job count)
          (record c { pool = rest }) job.priority (fiber f) taken p tight in
      (
        record (assign vgc_make queue base f job count) { free_q_pool = back.0 },
        rw (pool.1, refused, back.1) refl,
        record { hi = before.hi; mid = before.mid; lo = before.lo; pool = back.2 },
      )
