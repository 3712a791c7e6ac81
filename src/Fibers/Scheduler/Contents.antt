-- ===== src/Fibers/Scheduler/Contents.antt =====
-- The scheduler by the contents of its queues.
use c_spock_bot.Prelude.{
  ℕ, suc, ◌<◌, ◌≡◌, refl, arith, List, [], ◌∷◌, ◌++◌, length, ◌==◌, if◌then◌else◌,
}
use c_spock_bot.Prelude.{◌⊎◌, inl, inr}
use c_spock_bot.Outcome.{ok, err}
use c_spock_bot.Fibers.Queue.{BoundedQueue}
use c_spock_bot.Fibers.Scheduler.{Pointer, Scheduler, wake, enqueue}

pub record Contents : Type 0 where
  pub hi : List Pointer
  pub mid : List Pointer
  pub lo : List Pointer
  pub pool : List Pointer

-- The queue of a priority, and the contents with a pointer behind it.
abbrev pub line : Contents → ℕ → List Pointer
line c priority = if priority == 2 then c.hi else if priority == 1 then c.mid else c.lo

abbrev pub lined_up : Contents → ℕ → Pointer → Contents
lined_up c priority x =
    if priority == 2
    then record c { hi = c.hi ++ (x ∷ []) }
    else if priority == 1
    then record c { mid = c.mid ++ (x ∷ []) }
    else record c { lo = c.lo ++ (x ∷ []) }

pub priorities : (p : ℕ) → p < 3 → (p ≡ 2) ⊎ ((p ≡ 1) ⊎ (p ≡ 0))
priorities p h = omega arith

module _ (vgc_make : ℕ → ℕ → ℕ → ℕ) (queue : BoundedQueue Pointer) where
  open queue use {Q, size, push, pop, push-room, push-full, Holds-less}

  abbrev Sched : Type 0
  Sched = Scheduler vgc_make queue

  -- The four queues hold the contents, and may be pushed on `n` times more.
  pub record Holds (n : ℕ) (sched : Sched) (c : Contents) : Type 0 where
    pub hi : queue.Holds n sched.hi_q c.hi
    pub mid : queue.Holds n sched.mid_q c.mid
    pub lo : queue.Holds n sched.lo_q c.lo
    pub pool : queue.Holds n sched.free_q_pool c.pool

  pub less : (n : ℕ) (sched : Sched) (c : Contents) → Holds (suc n) sched c → Holds n sched c
  less n sched c h = record {
    hi = Holds-less n sched.hi_q c.hi h.hi;
    mid = Holds-less n sched.mid_q c.mid h.mid;
    lo = Holds-less n sched.lo_q c.lo h.lo;
    pool = Holds-less n sched.free_q_pool c.pool h.pool;
  }

  -- The fibers and counters are the same.
  pub record SameMemory (s s' : Sched) : Type 0 where
    pub same_fibers : s'.fibers ≡ s.fibers
    pub same_counters : s'.counters ≡ s.counters

  -- A pointer is put behind the queue of its priority, where that has room.
  pub enqueue-room :
      (n : ℕ) (sched : Sched) (c : Contents) (priority : ℕ) (x : Pointer)
      → Holds (suc n) sched c
      → priority < 3
      → length (line c priority) < size
      → (sched' : Sched) × (enqueue vgc_make queue sched priority x ≡ ok sched')
        × Holds n sched' (lined_up c priority x)
        × SameMemory sched sched'
  unfolding enqueue
  enqueue-room n sched c priority x h p room = elim (priorities priority p) [
    | inl hi ↦
        let r = push-room n sched.hi_q c.hi x h.hi (rw hi at room) in
        (
          wake vgc_make queue (record sched { hi_q = r.0 }),
          rw (hi, r.1) refl,
          rw hi (record { hi = r.2; mid = l.mid; lo = l.lo; pool = l.pool }),
          record { same_fibers = refl; same_counters = refl },
        )
    | inr (inl mid) ↦
        let r = push-room n sched.mid_q c.mid x h.mid (rw mid at room) in
        (
          wake vgc_make queue (record sched { mid_q = r.0 }),
          rw (mid, r.1) refl,
          rw mid (record { hi = l.hi; mid = r.2; lo = l.lo; pool = l.pool }),
          record { same_fibers = refl; same_counters = refl },
        )
    | inr (inr lo) ↦
        let r = push-room n sched.lo_q c.lo x h.lo (rw lo at room) in
        (
          wake vgc_make queue (record sched { lo_q = r.0 }),
          rw (lo, r.1) refl,
          rw lo (record { hi = l.hi; mid = l.mid; lo = r.2; pool = l.pool }),
          record { same_fibers = refl; same_counters = refl },
        )
  ]
    where
      l : Holds n sched c
      l = less n sched c h

  -- A full queue refuses it.
  pub enqueue-full :
      (n : ℕ) (sched : Sched) (c : Contents) (priority : ℕ) (x : Pointer)
      → Holds n sched c
      → priority < 3
      → length (line c priority) ≡ size
      → enqueue vgc_make queue sched priority x ≡ err 0
  unfolding enqueue
  enqueue-full n sched c priority x h p e = elim (priorities priority p) [
    | inl hi ↦ rw (hi, push-full n sched.hi_q c.hi x h.hi (rw hi at e)) refl
    | inr (inl mid) ↦ rw (mid, push-full n sched.mid_q c.mid x h.mid (rw mid at e)) refl
    | inr (inr lo) ↦ rw (lo, push-full n sched.lo_q c.lo x h.lo (rw lo at e)) refl
  ]
