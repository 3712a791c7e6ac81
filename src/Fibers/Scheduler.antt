-- ===== src/Fibers/Scheduler.antt =====
-- The scheduler of src/fibers/scheduler.c.
pub mod Batch
pub mod Contents
pub mod Finish
pub mod Init
pub mod Jobs
pub mod Next
pub mod Park
pub mod Waiters
use c_spock_bot.Prelude.{
  ℕ, zero, suc, ◌+◌, ◌-◌, ◌*◌, ◌%◌, ◌^◌, ◌≡◌, List, [], ◌∷◌, ◌++◌, length, Bool, true, false,
}
use c_spock_bot.Prelude.{ltb, ◌==◌, ◌||◌, if◌then◌else◌, Option, none, some, bit_and, ℕ_discrete}
use c_spock_bot.Outcome.{Outcome, ok, err, null, fault, stuck, ◌>>=◌}
use c_spock_bot.Fibers.Fiber.{Fiber, State, run, wait, done, start, resume, vgc_fiber_assign}
use c_spock_bot.Fibers.Queue.{BoundedQueue}
use c_spock_bot.Fibers.Threads.{update}

-- The pointers in the queues: to a fiber, or to the local variable `fiber` of `vgc_enque_job`.
pub data Pointer : Type 0 where
  fiber : ℕ → Pointer
  local : Pointer

-- `vgc_counter`: `counter` is the bit pattern of an `int`, the waiters name fibers.
pub record Counter : Type 0 where
  pub lock : ℕ
  pub counter : ℕ
  pub waiters : List ℕ

unfoldable pub vgc_counter_init : ℕ → Counter
vgc_counter_init count = record { lock = 0; counter = count; waiters = [] }

-- `vgc_counter_acquire` alone: it takes a free lock, and spins for ever on one that is taken.
unfoldable pub vgc_counter_acquire : Counter → Outcome Counter
vgc_counter_acquire count = if count.lock == 0 then ok (record count { lock = 1 }) else stuck

unfoldable pub vgc_counter_release : Counter → Counter
vgc_counter_release count = record count { lock = 0 }

-- `WAIT_FIBER_LEN`
abbrev pub wait_fiber_len : ℕ
wait_fiber_len = 4

unfoldable pub vgc_counter_add_waiter : Counter → ℕ → Outcome Counter
vgc_counter_add_waiter count f =
    if length count.waiters == wait_fiber_len
    then err 0
    else ok (record count { waiters = count.waiters ++ (f ∷ []) })

-- `if(f(...)) ...`: a negative result goes on with `failed`.
abbrev pub on_error : {A B : Type 0} → Outcome A → Outcome B → (A → Outcome B) → Outcome B
on_error (ok a) failed next = next a
on_error (err k) failed next = failed
on_error null failed next = null
on_error fault failed next = fault
on_error stuck failed next = stuck

pub record Job : Type 0 where
  pub proc : ℕ
  pub user_data : ℕ
  pub priority : ℕ

unfoldable pub vgc_job_init : ℕ → ℕ → ℕ → Job
vgc_job_init proc user_data priority = record {
  proc = proc;
  user_data = user_data;
  priority = priority;
}

-- The bit pattern of -1.
abbrev pub minus_one : ℕ
minus_one = 2 ^ 32 - 1

module _ (vgc_make : ℕ → ℕ → ℕ → ℕ) (queue : BoundedQueue Pointer) where
  open queue use {Q, push, pop}

  -- `vgc_scheduler` with the fibers and counters that its pointers name, and how often
  -- `vgc_enqueue` has woken the waiting threads.
  pub record Scheduler : Type 0 where
    pub hi_q : Q
    pub mid_q : Q
    pub lo_q : Q
    pub free_q_pool : Q
    pub is_waiter : Bool
    pub broadcasts : ℕ
    pub fibers : ℕ → Fiber
    pub counters : ℕ → Counter

  -- The result of a call that may end the program: an `int`, as its bit pattern, or `exit`.
  pub data Result : Type 0 where
    returned : ℕ → Scheduler → Result
    exited : Result

  -- What `vgc_enqueue` does behind its push.
  abbrev pub wake : Scheduler → Scheduler
  wake sched = record sched {
    broadcasts = if sched.is_waiter then sched.broadcasts + 1 else sched.broadcasts;
  }

  -- The `switch` on a priority: `FIBER_LO` is 0, `FIBER_MID` 1, `FIBER_HI` 2. A full queue and another
  -- priority are errors.
  unfoldable pub enqueue : Scheduler → ℕ → Pointer → Outcome Scheduler
  enqueue sched priority pointer =
      if priority == 2
      then (do q ← push sched.hi_q pointer; ok (wake (record sched { hi_q = q })))
      else if priority == 1
      then (do q ← push sched.mid_q pointer; ok (wake (record sched { mid_q = q })))
      else if priority == 0
      then (do q ← push sched.lo_q pointer; ok (wake (record sched { lo_q = q })))
      else err 0

  -- An access through a pointer; the local is no fiber.
  abbrev pub deref : Pointer → Outcome ℕ
  deref (fiber f) = ok f
  deref local = fault

  -- The label `err` of `vgc_enque_job`, which pushes `&fiber`.
  unfoldable pub give_back : Scheduler → Outcome Result
  give_back sched =
      on_error (push sched.free_q_pool local) (ok exited)
        (λ pool. ok (returned minus_one (record sched { free_q_pool = pool })))

  unfoldable pub assign : Scheduler → ℕ → Job → Option ℕ → Scheduler
  assign sched f job count = record sched {
    fibers = update sched.fibers f (record (vgc_fiber_assign vgc_make (sched.fibers f) job.proc) {
      user_data = job.user_data;
      priority = job.priority;
      parent_count = count;
    });
  }

  unfoldable pub vgc_enque_job : Scheduler → Job → Option ℕ → Outcome Result
  vgc_enque_job sched job count =
      on_error (pop sched.free_q_pool) (ok (returned minus_one sched)) (λ (pointer, pool). do
        f ← deref pointer
        let taken = assign (record sched { free_q_pool = pool }) f job count
        on_error (enqueue taken job.priority pointer) (give_back taken)
            (λ sched. ok (returned 0 sched)))

  abbrev pub reset_counter : Scheduler → Option ℕ → ℕ → Scheduler
  reset_counter sched none len = sched
  reset_counter sched (some c) len = record sched {
    counters = update sched.counters c (vgc_counter_init len);
  }

  unfoldable pub vgc_schedule_job : Scheduler → Job → Option ℕ → Outcome Result
  vgc_schedule_job sched job count = vgc_enque_job (reset_counter sched count 1) job count

  -- The loop of `vgc_schedule_jobs` from job `i` on.
  unfoldable pub enque_jobs : Scheduler → List Job → ℕ → Option ℕ → Outcome Result
  enque_jobs sched [] i count = ok (returned 0 sched)
  enque_jobs sched (job ∷ jobs) i count = do
    result ← vgc_enque_job sched job count
    elim result [
      | exited ↦ ok exited
      | returned code sched ↦
          if code == 0 then enque_jobs sched jobs (i + 1) count else ok (returned i sched)
    ]

  unfoldable pub vgc_schedule_jobs : Scheduler → List Job → Option ℕ → Outcome Result
  vgc_schedule_jobs sched jobs count =
      enque_jobs (reset_counter sched count (length jobs)) jobs 0 count

  -- A wait of fiber `f` up to its jump: whether it goes on at once (`true`), or jumps to the scheduler
  -- with the counter still locked.
  unfoldable pub vgc_wait_for_counter : Scheduler → ℕ → ℕ → Outcome (Bool × Scheduler)
  vgc_wait_for_counter sched f c = do
    count ← vgc_counter_acquire (sched.counters c)
    if count.counter == 0
        then ok
            (true, record sched { counters = update sched.counters c (vgc_counter_release count) })
        else ok (
          false,
          record sched {
            counters = update sched.counters c count;
            fibers =
                update sched.fibers f
                  (record (sched.fibers f) { state = wait; dependency_count = some c });
          },
        )

  -- The same with room for the waiter checked; the number is `*err`.
  unfoldable pub vgc_wait_for_counter2 : Scheduler → ℕ → ℕ → Outcome (Bool × ℕ × Scheduler)
  vgc_wait_for_counter2 sched f c = do
    count ← vgc_counter_acquire (sched.counters c)
    let released = record sched { counters = update sched.counters c (vgc_counter_release count) }
    if count.counter == 0
        then ok (true, 0, released)
        else if length count.waiters == wait_fiber_len
        then ok (true, minus_one, released)
        else ok (
          false,
          0,
          record sched {
            counters = update sched.counters c count;
            fibers =
                update sched.fibers f
                  (record (sched.fibers f) { state = wait; dependency_count = some c });
          },
        )

  -- The three dequeues of `vgc_scheduler_run`; `err 0` where all queues are empty.
  unfoldable pub next_fiber : Scheduler → Outcome (Pointer × Scheduler)
  next_fiber sched =
      on_error (pop sched.hi_q)
        (on_error (pop sched.mid_q)
          (do (pointer, q) ← pop sched.lo_q; ok (pointer, record sched { lo_q = q }))
          (λ (pointer, q). ok (pointer, record sched { mid_q = q })))
        (λ (pointer, q). ok (pointer, record sched { hi_q = q }))

  -- `fd->state = FIBER_RUN` before the jump to the fiber.
  unfoldable pub begin : Scheduler → ℕ → Scheduler
  begin sched f = record sched {
    fibers = update sched.fibers f (record (sched.fibers f) { state = run });
  }

  -- The `for` loop over the waiters, whose failures are ignored.
  unfoldable pub wake_waiters : Scheduler → List ℕ → Outcome Scheduler
  wake_waiters sched [] = ok sched
  wake_waiters sched (w ∷ waiters) =
      on_error (enqueue sched (sched.fibers w).priority (fiber w)) (wake_waiters sched waiters)
        (λ sched. wake_waiters sched waiters)

  -- The counter of a fiber that is done, which is locked here.
  unfoldable pub lower : Scheduler → ℕ → Counter → Outcome Scheduler
  lower sched c count = if count.counter == 2 ^ 31 then fault else (do
    let left = (count.counter + 2 ^ 32 - 1) % 2 ^ 32
    let counted = record sched {
      counters = update sched.counters c (record count { counter = left });
    }
    woken ← if left == 0 then wake_waiters counted count.waiters else ok counted
    ok (record woken {
      counters = update woken.counters c (vgc_counter_release (woken.counters c));
    }))

  unfoldable pub count_down : Scheduler → ℕ → Outcome Scheduler
  count_down sched c = do count ← vgc_counter_acquire (sched.counters c); lower sched c count

  unfoldable pub free_fiber : Scheduler → ℕ → Outcome Result
  free_fiber sched f =
      on_error (push sched.free_q_pool (fiber f)) (ok exited)
        (λ pool. ok (returned 0 (record sched { free_q_pool = pool })))

  -- A waiting fiber joins its counter; the result of the join is ignored.
  unfoldable pub park : Scheduler → ℕ → Option ℕ → Outcome Result
  park sched f none = fault
  park sched f (some c) =
      on_error (vgc_counter_add_waiter (sched.counters c) f)
        (ok (
          returned 0 (record sched {
            counters = update sched.counters c (vgc_counter_release (sched.counters c));
          })))
        (λ count. ok (
          returned 0
            (record sched { counters = update sched.counters c (vgc_counter_release count) })))

  unfoldable pub retire : Scheduler → ℕ → Option ℕ → Outcome Result
  retire sched f none = ok (returned 0 sched)
  retire sched f (some c) = do sched ← count_down sched c; free_fiber sched f

  -- The end of a round of `vgc_scheduler_run`, after the jump back from fiber `f`.
  unfoldable pub settle_state : State → Scheduler → ℕ → Outcome Result
  settle_state wait sched f = park sched f (sched.fibers f).dependency_count
  settle_state done sched f = retire sched f (sched.fibers f).parent_count
  settle_state start sched f = ok (returned 0 sched)
  settle_state resume sched f = ok (returned 0 sched)
  settle_state run sched f = ok (returned 0 sched)

  unfoldable pub settle : Scheduler → ℕ → Outcome Result
  settle sched f = settle_state (sched.fibers f).state sched f
