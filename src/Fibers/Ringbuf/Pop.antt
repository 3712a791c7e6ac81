-- ===== src/Fibers/Ringbuf/Pop.antt =====
-- Pop on a ring buffer that stands for a queue.
use c_spock_bot.Prelude.{ℕ, zero, suc, ◌+◌, ◌%◌, ◌^◌, ◌≤◌, ◌<◌, ◌≡◌, ◌∙◌, arith}
use c_spock_bot.Prelude.{List, [], ◌∷◌, length, Bool, true}
use c_spock_bot.Prelude.{◌==◌, add_size, dec_lt}
use c_spock_bot.Prelude.Bits.{bit_and-low_mask}
use c_spock_bot.Outcome.{ok, err}
use c_spock_bot.Fibers.Ringbuf.{load, store, Ringbuf, pop_loop, vgc_pop}
use c_spock_bot.Fibers.Ringbuf.Cells.{load-store, load-store_other, length-store}
use c_spock_bot.Fibers.Ringbuf.Contents.{item_at-length, Free, Stands, cell_ne}
use c_spock_bot.Fibers.Ringbuf.Push.{
  spurious, signed_difference-same, signed_difference-less, oldest,
}
use native.Mathlib.Nat.{mod-lt, add-mod_right}

module _ (D : Type 0) where
  -- The buffer after a pop at the head.
  abbrev pub popped : ℕ → Ringbuf D → D → Ringbuf D
  popped k rb d = record rb {
    head = rb.head + 1;
    buf = store D rb.buf (rb.head % 2 ^ k) (record { seq = rb.head + 2 ^ k; item = d });
  }

  popped-elsewhere :
      (k : ℕ) (rb : Ringbuf D) (items : List D) (d : D) (i : ℕ)
      → Stands D k rb (d ∷ items)
      → suc i < 2 ^ k
      → load D (popped k rb d).buf ((rb.head + suc i) % 2 ^ k)
        ≡ load D rb.buf ((rb.head + suc i) % 2 ^ k)
  popped-elsewhere k rb items d i h hi =
      let here : rb.head + 0 ≡ rb.head = omega arith in
      let apart = cell_ne (2 ^ k) rb.head 0 (suc i) (omega arith) hi (omega arith) in
      load-store_other D rb.buf (rb.head % 2 ^ k) ((rb.head + suc i) % 2 ^ k) _ (rw here at apart)

  popped-Free :
      (k : ℕ) (rb : Ringbuf D) (items : List D) (d : D) (i : ℕ)
      → Stands D k rb (d ∷ items)
      → length items ≤ i
      → i < 2 ^ k
      → Free D k (popped k rb d) i
  popped-Free k rb items d i h lo hi =
      let next : rb.head + 1 + i ≡ rb.head + suc i = omega arith in
      elim (dec_lt (suc i) (2 ^ k)) [
        | yes inside ↦
            let old = h.free (suc i) (omega arith) inside in
            (old.0, rw next (popped-elsewhere k rb items d i h inside ∙ old.1))
        | no last ↦
            let around : rb.head + suc i ≡ rb.head + 2 ^ k = omega arith in
            (
              d,
              rw (next, around, add-mod_right rb.head (2 ^ k))
                  (load-store D rb.buf (rb.head % 2 ^ k) _
                    (rw h.room (mod-lt rb.head (omega (arith, h.cells))))),
            )
      ]

  pub popped-Stands :
      (k : ℕ) (rb : Ringbuf D) (items : List D) (d : D)
      → Stands D k rb (d ∷ items)
      → Stands D k (popped k rb d) items
  popped-Stands k rb items d h = record {
    cells = h.cells;
    masked = h.masked;
    room = length-store D rb.buf _ _ ∙ h.room;
    counted = omega (arith, h.counted);
    few = omega (arith, h.few);
    bounded = h.bounded;
    full = λ i d' e.
        let next : rb.head + 1 + i ≡ rb.head + suc i = omega arith in
        let below = item_at-length D items i d' e in
        rw next (popped-elsewhere k rb items d i h (omega (arith, h.few)) ∙ h.full (suc i) d' e);
    free = λ i lo hi. popped-Free k rb items d i h lo hi;
  }

  pop_loop-popped :
      (k : ℕ) (rb : Ringbuf D) (items : List D) (d : D) (failures : ℕ) (rest : List Bool)
      → Stands D k rb (d ∷ items)
      → pop_loop D (spurious failures rest) rb rb.head ≡ ok (d, popped k rb d)
  unfolding pop_loop
  pop_loop-popped k rb items d zero rest h =
      let same : (rb.head == rb.head) ≡ true = ground arith in
      let next : add_size rb.head 1 ≡ rb.head + 1 = omega (arith, h.bounded, h.counted) in
      let round : add_size (add_size rb.head rb.bufmask) 1 ≡ rb.head + 2 ^ k =
        omega (arith, h.masked, h.bounded, h.counted) in
      let index = bit_and-low_mask k rb.head rb.bufmask h.masked in
      rw (
        index,
        oldest D k rb items d h,
        next,
        signed_difference-same (rb.head + 1) (omega (arith, h.bounded, h.counted)),
        same,
        round,
        index,
        next,
      )
  pop_loop-popped k rb items d (suc n) rest h =
      let next : add_size rb.head 1 ≡ rb.head + 1 = omega (arith, h.bounded, h.counted) in
      rw
        (
          bit_and-low_mask k rb.head rb.bufmask h.masked,
          oldest D k rb items d h,
          next,
          signed_difference-same (rb.head + 1) (omega (arith, h.bounded, h.counted)),
        )
        (pop_loop-popped k rb items d n rest h)

  pub vgc_pop-popped :
      (k : ℕ) (rb : Ringbuf D) (items : List D) (d : D) (failures : ℕ) (rest : List Bool)
      → Stands D k rb (d ∷ items)
      → vgc_pop D (spurious failures rest) rb ≡ ok (d, popped k rb d)
  unfolding vgc_pop
  vgc_pop-popped k rb items d failures rest h = pop_loop-popped k rb items d failures rest h

  -- A pop on a ring buffer that is not empty, alone on it, takes the oldest item after any number of
  -- spurious failures of its exchange, and leaves the others.
  pub vgc_pop-Stands :
      (k : ℕ) (rb : Ringbuf D) (items : List D) (d : D) (failures : ℕ) (rest : List Bool)
      → Stands D k rb (d ∷ items)
      → (rb' : Ringbuf D) × (vgc_pop D (spurious failures rest) rb ≡ ok (d, rb'))
        × Stands D k rb' items
  unfolding vgc_pop
  vgc_pop-Stands k rb items d failures rest h =
      (popped k rb d, pop_loop-popped k rb items d failures rest h, popped-Stands k rb items d h)

  -- A pop on an empty ring buffer returns -1.
  pub vgc_pop-empty :
      (k : ℕ) (rb : Ringbuf D) (attempts : List Bool) (exchanged : Bool)
      → Stands D k rb []
      → vgc_pop D (exchanged ∷ attempts) rb ≡ err 0
  unfolding vgc_pop pop_loop
  vgc_pop-empty k rb attempts exchanged h =
      let here : rb.head + 0 ≡ rb.head = omega arith in
      let cell = h.free 0 (omega arith) (omega (arith, h.cells)) in
      let seen : load D rb.buf (rb.head % 2 ^ k) ≡ ok (record { seq = rb.head; item = cell.0 }) =
        rw here at (cell.1) in
      let next : add_size rb.head 1 ≡ rb.head + 1 = omega (arith, h.bounded, h.counted) in
      rw (
        bit_and-low_mask k rb.head rb.bufmask h.masked,
        seen,
        next,
        signed_difference-less rb.head (rb.head + 1) (omega arith)
            (omega (arith, h.bounded, h.counted)),
      )
