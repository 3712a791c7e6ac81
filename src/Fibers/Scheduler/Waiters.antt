-- ===== src/Fibers/Scheduler/Waiters.antt =====
-- Waiting for a counter, and being woken by it.
use c_spock_bot.Prelude.{ℕ, suc, ◌+◌, ◌-◌, ◌%◌, ◌^◌, ◌≤◌, ◌<◌, ◌≡◌, refl, ap, ◌∙◌, arith}
use c_spock_bot.Prelude.{
  List, [], ◌∷◌, ◌++◌, append-nil, append_assoc, length, length-append, ◌==◌, if◌then◌else◌,
}
use c_spock_bot.Prelude.{All, false, inl, inr}
use c_spock_bot.Outcome.{ok}
use c_spock_bot.Fibers.Fiber.{Fiber}
use c_spock_bot.Fibers.Queue.{BoundedQueue}
use c_spock_bot.Fibers.Threads.{update}
use c_spock_bot.Fibers.Threads.Moves.{update_same}
use c_spock_bot.Fibers.Scheduler.{
  Pointer, fiber, Counter, vgc_counter_acquire, vgc_counter_release, Scheduler, wake_waiters, lower,
  count_down,
}
use c_spock_bot.Fibers.Scheduler.Contents.{
  Contents, line, lined_up, priorities, Holds, SameMemory, enqueue-room,
}

-- The waiters of a priority, in their order.
abbrev pub arrivals : (ℕ → ℕ) → ℕ → List ℕ → List Pointer
arrivals prio p [] = []
arrivals prio p (w ∷ ws) = if prio w == p then fiber w ∷ arrivals prio p ws else arrivals prio p ws

-- Every waiter behind the queue of its priority.
abbrev pub woken : (ℕ → ℕ) → Contents → List ℕ → Contents
woken prio c ws = record c {
  hi = c.hi ++ arrivals prio 2 ws;
  mid = c.mid ++ arrivals prio 1 ws;
  lo = c.lo ++ arrivals prio 0 ws;
}

woken-cons :
    (prio : ℕ → ℕ) (c : Contents) (w : ℕ) (ws : List ℕ)
    → prio w < 3
    → woken prio (lined_up c (prio w) (fiber w)) ws ≡ woken prio c (w ∷ ws)
woken-cons prio c w ws h = elim (priorities (prio w) h) [
  | inl e ↦ rw e (simp append_assoc)
  | inr (inl e) ↦ rw e (simp append_assoc)
  | inr (inr e) ↦ rw e (simp append_assoc)
]

length-lined_up :
    (c : Contents) (p q : ℕ) (x : Pointer)
    → length (line (lined_up c q x) p) ≤ length (line c p) + 1
length-lined_up c p q x =
    ground (
      arith,
      length-append c.hi (x ∷ []),
      length-append c.mid (x ∷ []),
      length-append c.lo (x ∷ []),
    )

-- A counter that is not locked.
abbrev pub open_counter : ℕ → List ℕ → Counter
open_counter m ws = record { lock = 0; counter = m; waiters = ws }

module _ (vgc_make : ℕ → ℕ → ℕ → ℕ) (queue : BoundedQueue Pointer) where
  open queue use {size, push-room, Holds-less}

  abbrev Sched : Type 0
  Sched = Scheduler vgc_make queue

  wake_waiters-woken :
      (n : ℕ) (sched : Sched) (c : Contents) (ws : List ℕ) (prio : ℕ → ℕ)
      → Holds vgc_make queue (length ws + n) sched c
      → ((w : ℕ) → (sched.fibers w).priority ≡ prio w)
      → All (λ w. prio w < 3) ws
      → ((p : ℕ) → length (line c p) + length ws ≤ size)
      → (sched' : Sched) × (wake_waiters vgc_make queue sched ws ≡ ok sched')
        × Holds vgc_make queue n sched' (woken prio c ws)
        × SameMemory vgc_make queue sched sched'
  unfolding wake_waiters
  wake_waiters-woken n sched c [] prio h e small room =
      let budget : 0 + n ≡ n = omega arith in
      let same : c ≡ woken prio c [] = simp append-nil in
      (
        sched,
        refl,
        rw (← same) (rw budget at h),
        record { same_fibers = refl; same_counters = refl },
      )
  wake_waiters-woken n sched c (w ∷ ws) prio h e (p, small) room =
      let budget : suc (length ws) + n ≡ suc (length ws + n) = omega arith in
      let q =
        enqueue-room vgc_make queue (length ws + n) sched c (prio w) (fiber w) (rw budget at h) p
          (omega (arith, room (prio w))) in
      let rest =
        wake_waiters-woken n q.0 (lined_up c (prio w) (fiber w)) ws prio q.2
          (λ x. ap (λ (g : ℕ → Fiber). (g x).priority) q.3.same_fibers ∙ e x) small
          (λ p. omega (arith, room p, length-lined_up c p (prio w) (fiber w))) in
      (
        rest.0,
        rw (e w, q.1) rest.1,
        rw (woken-cons prio c w ws p) at rest.2,
        record {
          same_fibers = rest.3.same_fibers ∙ q.3.same_fibers;
          same_counters = rest.3.same_counters ∙ q.3.same_counters;
        },
      )

  pub count_down-last :
      (n : ℕ) (sched : Sched) (c : Contents) (k : ℕ) (ws : List ℕ)
      → Holds vgc_make queue (length ws + n) sched c
      → sched.counters k ≡ open_counter 1 ws
      → All (λ w. (sched.fibers w).priority < 3) ws
      → ((p : ℕ) → length (line c p) + length ws ≤ size)
      → (sched' : Sched) × (count_down vgc_make queue sched k ≡ ok sched')
        × Holds vgc_make queue n sched' (woken (λ w. (sched.fibers w).priority) c ws)
        × (sched'.fibers ≡ sched.fibers)
        × (sched'.counters k ≡ open_counter 0 ws)
  unfolding count_down lower vgc_counter_acquire vgc_counter_release
  count_down-last n sched c k ws h e small room =
      let counted : Sched = record sched {
        counters = update sched.counters k (record { lock = 1; counter = 0; waiters = ws });
      } in
      let r =
        wake_waiters-woken n counted c ws (λ w. (sched.fibers w).priority)
          (record { hi = h.hi; mid = h.mid; lo = h.lo; pool = h.pool }) (λ w. refl) small room in
      let at : r.0.counters k ≡ record { lock = 1; counter = 0; waiters = ws } =
        ap (λ (g : ℕ → Counter). g k) r.3.same_counters ∙ update_same sched.counters k _ in
      (
        record r.0 { counters = update r.0.counters k (vgc_counter_release (r.0.counters k)) },
        rw (e, r.1) refl,
        record { hi = r.2.hi; mid = r.2.mid; lo = r.2.lo; pool = r.2.pool },
        r.3.same_fibers,
        update_same r.0.counters k _ ∙ ap vgc_counter_release at,
      )

  lower-more :
      (n : ℕ) (sched : Sched) (c : Contents) (k m : ℕ) (ws : List ℕ)
      → Holds vgc_make queue n sched c
      → m + 2 < 2 ^ 31
      → (sched' : Sched) × (lower vgc_make queue sched k
            (record { lock = 1; counter = m + 2; waiters = ws })
          ≡ ok sched')
        × Holds vgc_make queue n sched' c
        × (sched'.fibers ≡ sched.fibers)
        × (sched'.counters k ≡ open_counter (m + 1) ws)
  unfolding lower vgc_counter_release
  lower-more n sched c k m ws h small =
      let below : (m + 2 == 2 ^ 31) ≡ false = ground arith in
      let more : (m + 1 == 0) ≡ false = ground arith in
      let left : (m + 2 + 2 ^ 32 - 1) % 2 ^ 32 ≡ m + 1 = omega arith in
      let counted : Sched = record sched {
        counters = update sched.counters k (record { lock = 1; counter = m + 1; waiters = ws });
      } in
      (
        record counted {
          counters = update counted.counters k (vgc_counter_release (counted.counters k));
        },
        rw (below, left, more) refl,
        record { hi = h.hi; mid = h.mid; lo = h.lo; pool = h.pool },
        refl,
        update_same counted.counters k _ ∙ ap vgc_counter_release (update_same sched.counters k _),
      )

  pub count_down-more :
      (n : ℕ) (sched : Sched) (c : Contents) (k m : ℕ) (ws : List ℕ)
      → Holds vgc_make queue n sched c
      → sched.counters k ≡ open_counter (m + 2) ws
      → m + 2 < 2 ^ 31
      → (sched' : Sched) × (count_down vgc_make queue sched k ≡ ok sched')
        × Holds vgc_make queue n sched' c
        × (sched'.fibers ≡ sched.fibers)
        × (sched'.counters k ≡ open_counter (m + 1) ws)
  unfolding count_down vgc_counter_acquire
  count_down-more n sched c k m ws h e small =
      let r = lower-more n sched c k m ws h small in (r.0, rw e r.1, r.2, r.3, r.4)
