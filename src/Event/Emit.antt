-- ===== src/Event/Emit.antt =====
-- The emission of an event in src/event/sb_event.c: a job for each callback.
use c_spock_bot.Prelude.{ℕ, ◌+◌, ◌*◌, ◌%◌, ◌^◌, ◌≡◌, refl, List, [], ◌∷◌, length, All, Bool}
use c_spock_bot.Prelude.{◌&&◌, ◌==◌, if◌then◌else◌, Option, none, some}
use mathlib.Core.List.{map}
use c_spock_bot.Outcome.{Outcome, ok, fault, ◌>>=◌}
use c_spock_bot.Event.{Entry, cb_size}
use c_spock_bot.Fibers.Queue.{BoundedQueue}
use c_spock_bot.Fibers.Scheduler.{
  Pointer, Job, vgc_job_init, Scheduler, returned, exited, vgc_schedule_jobs,
}
use c_spock_bot.Fibers.Scheduler.Contents.{Contents}

-- The bytes of a `sbev_tramp_arg` and of a `vgc_job`.
abbrev arg_size : ℕ
arg_size = 32

abbrev job_size : ℕ
job_size = 24

module _ (Cb : Type 0) (malloc : ℕ → Bool) (arg_at : ℕ → ℕ) (trampoline : ℕ)
    (vgc_make : ℕ → ℕ → ℕ → ℕ) (queue : BoundedQueue Pointer) where
  -- `sbev_tramp_arg`
  pub record TrampArg : Type 0 where
    pub cbs : Option Cb
    pub ev_data : ℕ
    pub handle : ℕ

  -- What `sbev_trampoline` calls, and with what; a NULL cannot be called.
  abbrev pub called : TrampArg → Outcome (Cb × ℕ × ℕ)
  called arg = elim arg.cbs [ none ↦ fault | some cb ↦ ok (cb, arg.ev_data, arg.handle) ]

  abbrev pub tramp_args : List (Option Cb) → ℕ → ℕ → List TrampArg
  tramp_args [] ev_data handle = []
  tramp_args (cb ∷ cbs) ev_data handle =
      record { cbs = cb; ev_data = ev_data; handle = handle } ∷ tramp_args cbs ev_data handle

  -- The jobs from callback `i` on; `arg_at i` is where `malloc` has put argument `i`.
  unfoldable pub tramp_jobs : ℕ → List (Option Cb) → List Job
  tramp_jobs i [] = []
  tramp_jobs i (cb ∷ cbs) = vgc_job_init trampoline (arg_at i) 1 ∷ tramp_jobs (i + 1) cbs

  -- The scheduler with the arguments behind the jobs, or `exit`.
  pub data Emission : Type 0 where
    emitted : Scheduler vgc_make queue → List TrampArg → Emission
    ended : Emission

  unfoldable pub emit_event : Scheduler vgc_make queue → Entry Cb → ℕ → ℕ → ℕ → Outcome Emission
  emit_event sched ent handle ev_data count =
      let cur = length ent.cbs in
      let room =
        malloc (cb_size * cur % 2 ^ 64) && (malloc (job_size * cur % 2 ^ 64) && malloc arg_size) in
      if cur == 0
      then ok (emitted sched [])
      else if room
      then (do
        result ← vgc_schedule_jobs vgc_make queue sched (tramp_jobs 0 ent.cbs) (some count)
        elim result [
          | exited ↦ ok ended
          | returned code sched ↦
              if code == 0 then ok (emitted sched (tramp_args ent.cbs ev_data handle)) else ok ended
        ])
      else ok ended

  -- One fiber for each callback from `i` on: it starts the trampoline on its own stack, is passed the
  -- address of argument `i`, has the middle priority and counts for the counter.
  abbrev pub Runs : Scheduler vgc_make queue → ℕ → ℕ → List ℕ → Type 0
  Runs sched k i [] = Unit
  Runs sched k i (f ∷ fs) =
      ((sched.fibers f).ctx
        ≡ vgc_make (sched.fibers f).stack_base (sched.fibers f).stack_limit trampoline)
      × ((sched.fibers f).user_data ≡ arg_at i)
      × ((sched.fibers f).priority ≡ 1)
      × ((sched.fibers f).parent_count ≡ some k)
      × Runs sched k (i + 1) fs

  -- The arguments name the callbacks in their order, and each the event and its data.
  pub record Passed (args : List TrampArg) (cbs : List (Option Cb)) (handle ev_data : ℕ)
      : Type 0 where
    pub callbacks : map (λ (arg : TrampArg). arg.cbs) args ≡ cbs
    pub data_of : All (λ (arg : TrampArg). (arg.ev_data ≡ ev_data) × (arg.handle ≡ handle)) args

  -- Without callbacks nothing happens, and the counter is not set.
  pub emit_event-none :
      (sched : Scheduler vgc_make queue) (ent : Entry Cb) (handle ev_data k : ℕ)
      → length ent.cbs ≡ 0
      → emit_event sched ent handle ev_data k ≡ ok (emitted sched [])
  unfolding emit_event
  emit_event-none sched ent handle ev_data k none_yet = rw none_yet refl
