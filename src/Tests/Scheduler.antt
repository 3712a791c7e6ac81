-- ===== src/Tests/Scheduler.antt =====
-- A scheduler on rings of two cells, with fibers 0 and 1 free.
use c_spock_bot.Prelude.{ℕ, ◌+◌, ◌*◌, ◌^◌, ◌%◌, ◌<◌, ◌≤◌, ◌≡◌, refl, arith, List, [], ◌∷◌, length}
use c_spock_bot.Prelude.{if◌then◌else◌, ◌==◌, none, some, false}
use c_spock_bot.Outcome.{ok}
use c_spock_bot.Fibers.Fiber.{Fiber, done, wait, vgc_fiber_init}
use c_spock_bot.Fibers.Fiber.Stack.{vgc_fiber_init-stack}
use c_spock_bot.Fibers.Queue.{BoundedQueue}
use c_spock_bot.Fibers.Queue.Ring.{ring_queue}
use c_spock_bot.Fibers.Ringbuf.{Cell, Ringbuf, number_cells, vgc_ringbuf_init}
use c_spock_bot.Fibers.Ringbuf.Contents.{Stands}
use c_spock_bot.Fibers.Ringbuf.Init.{vgc_ringbuf_init-Stands}
use c_spock_bot.Fibers.Ringbuf.Push.{pushed, pushed-Stands}
use c_spock_bot.Fibers.Scheduler.Init.{vgc_scheduler_init, vgc_scheduler_init-Holds}
use c_spock_bot.Tests.Ring.{known}
use c_spock_bot.Event.{Entry}
use c_spock_bot.Fibers.Scheduler.{
  Pointer, fiber, local, Job, Scheduler, returned, next_fiber, vgc_enque_job,
}
use c_spock_bot.Fibers.Scheduler.Contents.{Contents, line, lined_up, Holds}
use c_spock_bot.Fibers.Scheduler.Jobs.{Assigned, vgc_enque_job-queued}
use c_spock_bot.Fibers.Scheduler.Next.{first, Takes, next_fiber-first}
use c_spock_bot.Fibers.Scheduler.Waiters.{woken, open_counter}
use c_spock_bot.Fibers.Scheduler.Finish.{freed, settle_all, settle_all-woken}

abbrev vgc_make : ℕ → ℕ → ℕ → ℕ
vgc_make base limit proc = base + limit + proc

abbrev rings : BoundedQueue Pointer
rings = ring_queue Pointer 1

abbrev cell : ℕ → Cell Pointer
cell seq = record { seq = seq; item = local }

abbrev fresh : Ringbuf Pointer
fresh = record { bufmask = 1; buf = cell 0 ∷ (cell 1 ∷ []); head = 0; tail = 0 }

fresh-Stands : Stands Pointer 1 fresh []
unfolding vgc_ringbuf_init number_cells
fresh-Stands =
    known Pointer 1 (vgc_ringbuf_init Pointer fresh.buf 2) [] fresh refl
      (vgc_ringbuf_init-Stands Pointer 1 fresh.buf (omega arith) (omega arith) refl)

-- With one and with two items.
abbrev one : Pointer → Ringbuf Pointer
one x = pushed Pointer 1 fresh x

abbrev two : Pointer → Pointer → Ringbuf Pointer
two x y = pushed Pointer 1 (one x) y

one-Stands : (x : Pointer) → Stands Pointer 1 (one x) (x ∷ [])
one-Stands x = pushed-Stands Pointer 1 fresh [] x fresh-Stands (omega arith) (omega arith)

two-Stands : (x y : Pointer) → Stands Pointer 1 (two x y) (x ∷ (y ∷ []))
two-Stands x y =
    pushed-Stands Pointer 1 (one x) (x ∷ []) y (one-Stands x) (omega arith) (omega arith)

-- Fiber 3 is done with a job of counter 0, and the others wait.
abbrev memory : ℕ → Fiber
memory n = record {
  user_data = 0;
  ctx = 0;
  id = n;
  state = if n == 3 then done else wait;
  priority = 1;
  dependency_count = none;
  parent_count = some 0;
  stack_limit = 0;
  stack_base = 0;
}

-- Fiber 0 is free, fiber 2 is queued with priority 1, and every counter is 1.
abbrev idle : List ℕ → Scheduler vgc_make rings
idle ws = record {
  hi_q = fresh;
  mid_q = one (fiber 2);
  lo_q = fresh;
  free_q_pool = one (fiber 0);
  is_waiter = false;
  broadcasts = 0;
  fibers = memory;
  counters = λ k. open_counter 1 ws;
}

abbrev idle_contents : Contents
idle_contents = record { hi = []; mid = fiber 2 ∷ []; lo = []; pool = fiber 0 ∷ [] }

idle-Holds : (n : ℕ) (ws : List ℕ) → n < 1000 → Holds vgc_make rings n (idle ws) idle_contents
idle-Holds n ws small = record {
  hi = (fresh-Stands, omega arith);
  mid = (one-Stands (fiber 2), omega arith);
  lo = (fresh-Stands, omega arith);
  pool = (one-Stands (fiber 0), omega arith);
}

next_fiber-first_example :
    Takes vgc_make rings 3
      (next_fiber vgc_make rings (idle []))
      (first [] (fiber 2 ∷ []) [] (fiber 0 ∷ []))
next_fiber-first_example =
    next_fiber-first vgc_make rings 3 (idle []) idle_contents (idle-Holds 3 [] (omega arith))

abbrev job : Job
job = record { proc = 5; user_data = 6; priority = 1 }

vgc_enque_job-queued_example :
    (sched' : Scheduler vgc_make rings) × (vgc_enque_job vgc_make rings (idle []) job (some 7)
      ≡ ok (returned 0 sched'))
    × Holds vgc_make rings 3 sched' (lined_up (record idle_contents { pool = [] }) 1 (fiber 0))
    × Assigned vgc_make rings (idle []) sched' 0 job (some 7)
vgc_enque_job-queued_example =
    vgc_enque_job-queued vgc_make rings 3 (idle []) idle_contents [] 0 job (some 7)
      (idle-Holds 4 [] (omega arith)) refl (omega arith) (omega arith)

-- The queue of priority 1 is full.
abbrev tight : Scheduler vgc_make rings
tight = record (idle []) { mid_q = two (fiber 2) (fiber 4) }

abbrev tight_contents : Contents
tight_contents = record { hi = []; mid = fiber 2 ∷ (fiber 4 ∷ []); lo = []; pool = fiber 0 ∷ [] }

tight-Holds : Holds vgc_make rings 4 tight tight_contents
tight-Holds = record {
  hi = (fresh-Stands, omega arith);
  mid = (two-Stands (fiber 2) (fiber 4), omega arith);
  lo = (fresh-Stands, omega arith);
  pool = (one-Stands (fiber 0), omega arith);
}

line-room : (p : ℕ) → length (line idle_contents p) + 1 ≤ 2
line-room p = ground arith

settle_all-woken_example :
    (sched' : Scheduler vgc_make rings) × (settle_all vgc_make rings (idle (4 ∷ [])) (3 ∷ [])
      ≡ ok (returned 0 sched'))
    × Holds vgc_make rings 3 sched' (freed (woken (λ w. 1) idle_contents (4 ∷ [])) (3 ∷ []))
    × (sched'.counters 0 ≡ open_counter 0 (4 ∷ []))
settle_all-woken_example =
    settle_all-woken vgc_make rings 3 (idle (4 ∷ [])) idle_contents 0 3 [] (4 ∷ []) memory
      (idle-Holds 5 (4 ∷ []) (omega arith)) refl refl (omega arith) ((refl, refl), tt)
      (omega arith, tt) line-room (omega arith)

vgc_fiber_init-stack_example :
    ((vgc_fiber_init 1003 4096 (memory 3)).stack_base % 16 ≡ 0)
    × (1003 ≤ (vgc_fiber_init 1003 4096 (memory 3)).stack_base)
    × ((vgc_fiber_init 1003 4096 (memory 3)).stack_base < 1003 + 4096)
    × (1003 + 4096 ≤ (vgc_fiber_init 1003 4096 (memory 3)).stack_base + 16)
vgc_fiber_init-stack_example = vgc_fiber_init-stack 1003 4096 (memory 3) (omega arith)

-- An event with one callback, whose data is 42.
abbrev entry : Entry ℕ
entry = record { cbs = some 42 ∷ []; max = 20; free_handles = []; free_max = 20 }

-- No fiber is free.
abbrev busy_contents : Contents
busy_contents = record { hi = []; mid = fiber 2 ∷ []; lo = []; pool = [] }

vgc_scheduler_init-Holds_example :
    (sched : Scheduler vgc_make rings) × (vgc_scheduler_init vgc_make rings
        (λ i. 2 ^ 20 * i)
        (ok fresh)
        memory
        (λ k. open_counter 0 [])
        2
      ≡ ok (some sched))
    × Holds vgc_make rings 3 sched
        (record { hi = []; mid = []; lo = []; pool = fiber 0 ∷ (fiber 1 ∷ []) })
vgc_scheduler_init-Holds_example =
    vgc_scheduler_init-Holds vgc_make rings (λ i. 2 ^ 20 * i) 3 fresh memory
      (λ k. open_counter 0 []) (fresh-Stands, omega arith) (omega arith) refl
