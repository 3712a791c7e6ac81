-- ===== src/Fibers/Ringbuf/Init.antt =====
-- A new ring buffer is empty.
use c_spock_bot.Prelude.{
  ℕ, zero, suc, ◌+◌, ◌-◌, ◌%◌, ◌^◌, ◌≤◌, ◌<◌, ◌≡◌, refl, ap, ◌∙◌, arith, List, [], ◌∷◌, length,
}
use c_spock_bot.Outcome.{ok}
use c_spock_bot.Fibers.Ringbuf.{Cell, load, Ringbuf, number_cells, vgc_ringbuf_init}
use c_spock_bot.Fibers.Ringbuf.Contents.{Stands}
use native.Mathlib.Nat.{mod-eq_of_lt}

module _ (D : Type 0) where
  abbrev numbered : ℕ → List (Cell D) → List (Cell D)
  numbered i [] = []
  numbered i (c ∷ buf) = record { seq = i; item = c.item } ∷ numbered (suc i) buf

  number_cells-numbered :
      (i : ℕ) (buf : List (Cell D)) → number_cells D (length buf) i buf ≡ ok (numbered i buf)
  unfolding number_cells
  number_cells-numbered i [] = refl
  number_cells-numbered i (c ∷ buf) = rw (number_cells-numbered (suc i) buf)

  length-numbered : (i : ℕ) (buf : List (Cell D)) → length (numbered i buf) ≡ length buf
  length-numbered i [] = refl
  length-numbered i (c ∷ buf) = omega (arith, length-numbered (suc i) buf)

  load-numbered :
      (i j : ℕ) (buf : List (Cell D))
      → j < length buf
      → (d : D) × (load D (numbered i buf) j ≡ ok (record { seq = i + j; item = d }))
  unfolding load
  load-numbered i j [] h = absurd (omega arith)
  load-numbered i zero (c ∷ buf) h =
      (c.item, ap (λ n. ok (record { seq = n; item = c.item })) (omega arith))
  load-numbered i (suc j) (c ∷ buf) h =
      let more = load-numbered (suc i) j buf (omega arith) in
      let next : suc i + j ≡ i + suc j = omega arith in
      (more.0, more.1 ∙ ap (λ n. ok (record { seq = n; item = more.0 })) next)

  -- `vgc_ringbuf_init` on `2 ^ k` cells, whatever they hold, with k from 1 to 61, makes a ring buffer
  -- that stands for the empty queue.
  pub vgc_ringbuf_init-Stands :
      (k : ℕ) (buf : List (Cell D))
      → 2 ≤ 2 ^ k
      → 2 ^ k < 2 ^ 63
      → length buf ≡ 2 ^ k
      → (rb : Ringbuf D) × (vgc_ringbuf_init D buf (2 ^ k) ≡ ok rb) × Stands D k rb []
  unfolding vgc_ringbuf_init
  vgc_ringbuf_init-Stands k buf cells bound room = (
    record { bufmask = 2 ^ k - 1; buf = numbered 0 buf; head = 0; tail = 0 },
    rw (← room, number_cells-numbered 0 buf),
    record {
      cells = cells;
      masked = omega arith;
      room = length-numbered 0 buf ∙ room;
      counted = refl;
      few = omega arith;
      bounded = omega arith;
      full = λ i d e. absurd (cc);
      free = λ i lo hi.
          let cell = load-numbered 0 i buf (omega arith) in
          let index : (0 + i) % 2 ^ k ≡ i = ap (λ n. n % 2 ^ k) (omega arith) ∙ mod-eq_of_lt hi in
          (cell.0, rw index cell.1);
    },
  )
