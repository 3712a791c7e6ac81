-- ===== src/Fibers/Idle.antt =====
-- Threads without work: the dequeues and the sleep of `vgc_scheduler_run` in src/fibers/scheduler.c, and
-- the waking in `vgc_enqueue` of src/fibers/queue.c, a shared access at a time. The queues are lists here,
-- and the accesses are in one order. The source accesses `is_waiter` with memory_order_relaxed, which
-- allows what is reached here and more.
pub mod Missed
use c_spock_bot.Prelude.{
  ℕ, zero, suc, ◌<◌, ◌≡◌, List, [], ◌∷◌, ◌++◌, Bool, true, false, Option, none, some,
}
use c_spock_bot.Fibers.Threads.{update}

-- Where a thread stands. Queue 0 is `hi_q`, 1 is `mid_q`, 2 is `lo_q`.
pub data Spot : Type 0 where
  -- in a fiber, or in `main` before its first call
  busy : Spot
  -- before the dequeue of a queue without the lock, and before `uv_mutex_lock`
  try : ℕ → Spot
  locking : Spot
  -- with the lock: before `is_waiter` is set, and before a dequeue
  marking : Spot
  checking : ℕ → Spot
  -- in `uv_cond_wait`: without the lock, and woken, before it has the lock again
  asleep : Spot
  woken : Spot
  -- with the lock and a fiber: before `is_waiter` is cleared, and before `uv_mutex_unlock`
  unmarking : Spot
  leaving : Spot
  -- in `vgc_enqueue` behind the push: before the load of `is_waiter`, before the lock, the broadcast and
  -- the unlock
  pushed : Spot
  wake_locking : Spot
  wake_all : Spot
  wake_leaving : Spot

module _ (D : Type 0) where
  pub record Shared : Type 0 where
    pub queues : ℕ → List D
    pub is_waiter : Bool
    pub waiter_mux : Option ℕ

  -- What thread `t` does: an access, and where it stands then. A wait may end without a broadcast.
  pub data Act (t : ℕ) (m : Shared) : Spot → Shared → Spot → Type 0 where
    -- a fiber has jumped back
    look : Act t m busy m (try 0)
    take :
        {q : ℕ} {x : D} {xs : List D}
        → m.queues q ≡ x ∷ xs
        → Act t m (try q) (record m { queues = update m.queues q xs }) busy
    miss : {q : ℕ} → q < 2 → m.queues q ≡ [] → Act t m (try q) m (try (suc q))
    miss_all : {q : ℕ} → q ≡ 2 → m.queues q ≡ [] → Act t m (try q) m locking
    lock : m.waiter_mux ≡ none → Act t m locking (record m { waiter_mux = some t }) marking
    mark : Act t m marking (record m { is_waiter = true }) (checking 0)
    find :
        {q : ℕ} {x : D} {xs : List D}
        → m.queues q ≡ x ∷ xs
        → Act t m (checking q) (record m { queues = update m.queues q xs }) unmarking
    next : {q : ℕ} → q < 2 → m.queues q ≡ [] → Act t m (checking q) m (checking (suc q))
    sleep :
        {q : ℕ}
        → q ≡ 2
        → m.queues q ≡ []
        → Act t m (checking q) (record m { waiter_mux = none }) asleep
    stir : Act t m asleep m woken
    relock : m.waiter_mux ≡ none → Act t m woken (record m { waiter_mux = some t }) marking
    unmark : Act t m unmarking (record m { is_waiter = false }) leaving
    unlock : Act t m leaving (record m { waiter_mux = none }) busy
    -- a push of a fiber, and one that a full queue refuses
    push :
        (q : ℕ) (x : D)
        → q < 3
        → Act t m busy (record m { queues = update m.queues q (m.queues q ++ (x ∷ [])) }) pushed
    refused : Act t m busy m busy
    quiet : m.is_waiter ≡ false → Act t m pushed m busy
    alert : m.is_waiter ≡ true → Act t m pushed m wake_locking
    wake_lock :
        m.waiter_mux ≡ none → Act t m wake_locking (record m { waiter_mux = some t }) wake_all
    wake_unlock : Act t m wake_leaving (record m { waiter_mux = none }) busy

  pub record Workers : Type 0 where
    pub shared : Shared
    pub spots : ℕ → Spot

  -- `uv_cond_broadcast`
  abbrev pub stirred : Spot → Spot
  stirred asleep = woken
  stirred busy = busy
  stirred (try q) = try q
  stirred locking = locking
  stirred marking = marking
  stirred (checking q) = checking q
  stirred woken = woken
  stirred unmarking = unmarking
  stirred leaving = leaving
  stirred pushed = pushed
  stirred wake_locking = wake_locking
  stirred wake_all = wake_all
  stirred wake_leaving = wake_leaving

  pub data Turn (s : Workers) : Workers → Type 0 where
    act :
        (t : ℕ) {m : Shared} {p : Spot}
        → Act t s.shared (s.spots t) m p
        → Turn s (record { shared = m; spots = update s.spots t p })
    broadcast :
        (t : ℕ)
        → s.spots t ≡ wake_all
        → Turn s (record s { spots = update (λ u. stirred (s.spots u)) t wake_leaving })

  -- No fiber is queued, and no thread is in the scheduler yet.
  abbrev pub at_first : Workers
  at_first = record {
    shared = record { queues = λ q. []; is_waiter = false; waiter_mux = none };
    spots = λ t. busy;
  }

  pub data From (s : Workers) : Workers → Type 0 where
    still : From s s
    then_turn : {s' s'' : Workers} → From s s' → Turn s' s'' → From s s''
