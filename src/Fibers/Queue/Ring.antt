-- ===== src/Fibers/Queue/Ring.antt =====
-- The ring buffer, undisturbed by other threads, is a bounded queue.
use c_spock_bot.Prelude.{ℕ, ◌+◌, ◌^◌, ◌<◌, arith, List, [], ◌∷◌, true}
use c_spock_bot.Fibers.Ringbuf.{Ringbuf, vgc_push, vgc_pop}
use c_spock_bot.Fibers.Ringbuf.Contents.{Stands}
use c_spock_bot.Fibers.Ringbuf.Push.{vgc_push-pushed, pushed, pushed-Stands, vgc_push-full}
use c_spock_bot.Fibers.Ringbuf.Pop.{vgc_pop-popped, popped, popped-Stands, vgc_pop-empty}
use c_spock_bot.Fibers.Queue.{BoundedQueue}

module _ (D : Type 0) (k : ℕ) where
  abbrev pub RingHolds : ℕ → Ringbuf D → List D → Type 0
  RingHolds n rb items = Stands D k rb items × (rb.tail + n + 2 ^ k < 2 ^ 63)

  -- `vgc_push` and `vgc_pop` on `2 ^ k` cells.
  abbrev pub ring_queue : BoundedQueue D
  ring_queue = record {
    Q = Ringbuf D;
    size = 2 ^ k;
    push = λ rb d. vgc_push D (true ∷ []) rb d;
    pop = λ rb. vgc_pop D (true ∷ []) rb;
    Holds = RingHolds;
    push-room = λ n rb items d (h, b) room. (
      pushed D k rb d,
      vgc_push-pushed D k rb items d 0 [] h room,
      (pushed-Stands D k rb items d h room (omega arith), omega arith),
    );
    push-full = λ n rb items d (h, b) e. vgc_push-full D k rb items d [] true h e;
    pop-first = λ n rb items d (h, b). (
      popped D k rb d,
      vgc_pop-popped D k rb items d 0 [] h,
      (popped-Stands D k rb items d h, b),
    );
    pop-empty = λ n rb (h, b). vgc_pop-empty D k rb [] true h;
    Holds-less = λ n rb items (h, b). (h, omega arith);
  }
