-- ===== src/Fibers/Scheduler/Batch.antt =====
-- `vgc_schedule_jobs` of jobs of the middle priority.
use c_spock_bot.Prelude.{ℕ, suc, ◌+◌, ◌≤◌, ◌≡◌, ◌≢◌, refl, ap, ◌∙◌, arith}
use c_spock_bot.Prelude.{List, [], ◌∷◌, ◌++◌, append-nil, append_assoc, length, length-append, All}
use mathlib.Core.List.{map}
use c_spock_bot.Prelude.{Option, some}
use c_spock_bot.Outcome.{ok}
use c_spock_bot.Fibers.Fiber.{Fiber}
use c_spock_bot.Fibers.Queue.{BoundedQueue}
use c_spock_bot.Fibers.Threads.{update}
use c_spock_bot.Fibers.Threads.Moves.{update_same}
use c_spock_bot.Fibers.Scheduler.{
  Pointer, fiber, Counter, vgc_counter_init, Job, Scheduler, returned, enque_jobs,
  vgc_schedule_jobs,
}
use c_spock_bot.Fibers.Scheduler.Contents.{Contents, Holds}
use c_spock_bot.Fibers.Scheduler.Jobs.{Assigned, vgc_enque_job-queued, vgc_enque_job-empty}

abbrev pub Distinct : List ℕ → Type 0
Distinct [] = Unit
Distinct (f ∷ fs) = All (λ g. g ≢ f) fs × Distinct fs

module _ (vgc_make : ℕ → ℕ → ℕ → ℕ) (queue : BoundedQueue Pointer) where
  open queue use {size}

  abbrev Sched : Type 0
  Sched = Scheduler vgc_make queue

  -- A fiber starts the job's function on the fiber's stack, has the job and counts for the counter.
  abbrev pub Has : Sched → Option ℕ → ℕ → Job → Type 0
  Has sched count f job =
      ((sched.fibers f).ctx
        ≡ vgc_make (sched.fibers f).stack_base (sched.fibers f).stack_limit job.proc)
      × ((sched.fibers f).user_data ≡ job.user_data)
      × ((sched.fibers f).priority ≡ job.priority)
      × ((sched.fibers f).parent_count ≡ count)

  -- The fibers have the jobs, one each.
  abbrev pub Have : Sched → Option ℕ → List ℕ → List Job → Type 0
  Have sched count [] jobs = jobs ≡ []
  Have sched count (f ∷ fs) [] = (f ∷ fs) ≡ []
  Have sched count (f ∷ fs) (job ∷ jobs) = Has sched count f job × Have sched count fs jobs

  -- The fibers that are taken from the pool.
  abbrev pub taken : Contents → List ℕ → List Pointer → Contents
  taken c fs rest = record c { mid = c.mid ++ map fiber fs; pool = rest }

  -- A fiber that was set up for a job keeps it while others are set up.
  Assigned-Has :
      (sched sched' later : Sched) (f : ℕ) (job : Job) (count : Option ℕ)
      → Assigned vgc_make queue sched sched' f job count
      → later.fibers f ≡ sched'.fibers f
      → Has later count f job
  Assigned-Has sched sched' later f job count a keep = (
    rw (keep, a.stack_base, a.stack_limit) a.context,
    ap (λ (x : Fiber). x.user_data) keep ∙ a.user_data,
    ap (λ (x : Fiber). x.priority) keep ∙ a.priority,
    ap (λ (x : Fiber). x.parent_count) keep ∙ a.parent,
  )

  enque_jobs-Have :
      (n i : ℕ) (sched : Sched) (c : Contents) (fs : List ℕ) (rest : List Pointer) (jobs : List Job)
      (count : Option ℕ)
      → Holds vgc_make queue (length jobs + n) sched c
      → c.pool ≡ map fiber fs ++ rest
      → length fs ≡ length jobs
      → All (λ job. job.priority ≡ 1) jobs
      → Distinct fs
      → length c.mid + length jobs ≤ size
      → (sched' : Sched) × (enque_jobs vgc_make queue sched jobs i count ≡ ok (returned 0 sched'))
        × Holds vgc_make queue n sched' (taken c fs rest)
        × (sched'.counters ≡ sched.counters)
        × ((g : ℕ) → All (λ f. f ≢ g) fs → sched'.fibers g ≡ sched.fibers g)
        × Have sched' count fs jobs
  unfolding enque_jobs
  enque_jobs-Have n i sched c [] rest [] count h pool same mid apart room =
      let budget : 0 + n ≡ n = omega arith in
      let whole : c ≡ taken c [] rest = rw (append-nil, ← pool) refl in
      (sched, refl, rw (← whole) (rw budget at h), refl, λ g ne. refl, refl)
  enque_jobs-Have n i sched c [] rest (job ∷ jobs) count h pool same mid apart room =
      let no : 1 ≤ 0 = omega (arith, same) in elim no [ ]
  enque_jobs-Have n i sched c (f ∷ fs) rest [] count h pool same mid apart room =
      let no : 1 ≤ 0 = omega (arith, same) in elim no [ ]
  enque_jobs-Have n i sched c (f ∷ fs) rest (job ∷ jobs) count h pool same (mid, mids) (new, apart)
        room =
      let budget : suc (length jobs) + n ≡ suc (length jobs + n) = omega arith in
      let q =
        vgc_enque_job-queued vgc_make queue (length jobs + n) sched c (map fiber fs ++ rest) f job
          count (rw budget at h) pool (omega (arith, mid)) (rw mid (omega (arith, room))) in
      let r =
        enque_jobs-Have n (i + 1) q.0
          (record c { mid = c.mid ++ (fiber f ∷ []); pool = map fiber fs ++ rest }) fs rest jobs
          count (rw mid at q.2) refl (omega (arith, same)) mids apart
          (omega (arith, room, length-append c.mid (fiber f ∷ []))) in
      let keep = r.4 f new in
      (
        r.0,
        rw q.1 r.1,
        rw (append_assoc c.mid (fiber f ∷ []) (map fiber fs)) at r.2,
        r.3 ∙ q.3.counters,
        λ g (ne, nes). r.4 g nes ∙ q.3.others g ne,
        (Assigned-Has sched q.0 r.0 f job count q.3 keep, r.5),
      )

  -- With a free fiber for each job and room for all, `vgc_schedule_jobs` returns 0: the jobs wait in
  -- their order behind the middle queue, each with a fiber of its own that counts for the counter,
  -- and the counter is their number.
  pub vgc_schedule_jobs-Have :
      (n : ℕ) (sched : Sched) (c : Contents) (fs : List ℕ) (rest : List Pointer) (jobs : List Job)
      (k : ℕ)
      → Holds vgc_make queue (length jobs + n) sched c
      → c.pool ≡ map fiber fs ++ rest
      → length fs ≡ length jobs
      → All (λ job. job.priority ≡ 1) jobs
      → Distinct fs
      → length c.mid + length jobs ≤ size
      → (sched' : Sched) × (vgc_schedule_jobs vgc_make queue sched jobs (some k)
          ≡ ok (returned 0 sched'))
        × Holds vgc_make queue n sched' (taken c fs rest)
        × (sched'.counters k ≡ vgc_counter_init (length jobs))
        × Have sched' (some k) fs jobs
  unfolding vgc_schedule_jobs
  vgc_schedule_jobs-Have n sched c fs rest jobs k h pool same mid apart room =
      let counted : Sched = record sched {
        counters = update sched.counters k (vgc_counter_init (length jobs));
      } in
      let r =
        enque_jobs-Have n 0 counted c fs rest jobs (some k)
          (record { hi = h.hi; mid = h.mid; lo = h.lo; pool = h.pool }) pool same mid apart room in
      (r.0, r.1, r.2, ap (λ (g : ℕ → Counter). g k) r.3 ∙ update_same sched.counters k _, r.5)

  -- Without a free fiber it returns 0 as well, and no job is scheduled.
  pub vgc_schedule_jobs-empty :
      (n : ℕ) (sched : Sched) (c : Contents) (job : Job) (jobs : List Job) (k : ℕ)
      → Holds vgc_make queue n sched c
      → c.pool ≡ []
      → (sched' : Sched) × (vgc_schedule_jobs vgc_make queue sched (job ∷ jobs) (some k)
          ≡ ok (returned 0 sched'))
        × Holds vgc_make queue n sched' c
        × (sched'.counters k ≡ vgc_counter_init (length jobs + 1))
  unfolding vgc_schedule_jobs enque_jobs
  vgc_schedule_jobs-empty n sched c job jobs k h pool =
      let count : suc (length jobs) ≡ length jobs + 1 = omega arith in
      let counted : Sched = record sched {
        counters = update sched.counters k (vgc_counter_init (length (job ∷ jobs)));
      } in
      let same : Holds vgc_make queue n counted c = record {
        hi = h.hi;
        mid = h.mid;
        lo = h.lo;
        pool = h.pool;
      } in
      (
        counted,
        rw (vgc_enque_job-empty vgc_make queue n counted c job (some k) same pool) refl,
        same,
        rw (← count) (update_same sched.counters k _),
      )
