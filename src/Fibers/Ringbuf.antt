-- ===== src/Fibers/Ringbuf.antt =====
-- The bounded ring buffer of src/fibers/queue.c, run by one thread at a time.
pub mod Cells
pub mod Contents
pub mod Push
pub mod Pop
pub mod Init
use c_spock_bot.Prelude.{ℕ, zero, suc, ◌+◌, ◌-◌, ◌^◌, List, [], ◌∷◌, ltb, leb, ◌==◌, if◌then◌else◌}
use c_spock_bot.Prelude.{Bool, add_size, bit_and, ◌&&◌}
use c_spock_bot.Outcome.{Outcome, ok, err, fault, stuck, ◌>>=◌}

-- The sign of `(intptr_t)a - (intptr_t)b`; a difference that no `intptr_t` holds is undefined.
pub data Sign : Type 0 where
  negative naught positive : Sign

abbrev pub sign_of : ℕ → ℕ → Sign
sign_of a b = if a == b then naught else if ltb a b then negative else positive

unfoldable pub signed_difference : ℕ → ℕ → Outcome Sign
signed_difference a b =
    if ltb a (2 ^ 63)
    then if ltb b (2 ^ 63)
      then ok (sign_of a b)
      else if ltb (a + 2 ^ 64 - b) (2 ^ 63)
      then ok positive
      else fault
    else if ltb b (2 ^ 63)
    then if leb (b + 2 ^ 64 - a) (2 ^ 63) then ok negative else fault
    else ok (sign_of a b)

module _ (D : Type 0) where
  -- `vgc_cell`, with the pointers that the queue carries as `D`; `item` is the field `data`.
  pub record Cell : Type 0 where
    pub seq : ℕ
    pub item : D

  -- `vgc_ringbuf`: the words are `size_t`, `buf` is the memory that the pointer names.
  pub record Ringbuf : Type 0 where
    pub bufmask : ℕ
    pub buf : List Cell
    pub head : ℕ
    pub tail : ℕ

  -- An access to `buf[i]`; behind the memory it is undefined.
  unfoldable pub load : List Cell → ℕ → Outcome Cell
  load [] i = fault
  load (c ∷ buf) zero = ok c
  load (c ∷ buf) (suc i) = load buf i

  unfoldable pub store : List Cell → ℕ → Cell → List Cell
  store [] i c' = []
  store (c ∷ buf) zero c' = c' ∷ buf
  store (c ∷ buf) (suc i) c' = c ∷ store buf i c'

  -- The loop of `vgc_ringbuf_init`, from `i` on.
  unfoldable pub number_cells : ℕ → ℕ → List Cell → Outcome (List Cell)
  number_cells zero i buf = ok buf
  number_cells (suc n) i [] = fault
  number_cells (suc n) i (c ∷ buf) = do
    buf ← number_cells n (suc i) buf
    ok (record { seq = i; item = c.item } ∷ buf)

  unfoldable pub vgc_ringbuf_init : List Cell → ℕ → Outcome Ringbuf
  vgc_ringbuf_init buf size = do
    buf ← number_cells size 0 buf
    ok (record { bufmask = size - 1; buf = buf; head = 0; tail = 0 })

  -- The rounds of `for(;;)`. Each takes one entry of `attempts`: whether the weak exchange, if the
  -- round comes to it, succeeds; it may fail with nothing to fail for, and `pos` is then loaded
  -- again. Without an entry the loop has not ended. `err 0` is `return -1`, with nothing stored.
  unfoldable pub push_loop : List Bool → Ringbuf → ℕ → D → Outcome Ringbuf
  push_loop [] rb pos item = stuck
  push_loop (exchanged ∷ attempts) rb pos item =
      let again = push_loop attempts rb rb.tail item in
      do
        cell ← load rb.buf (bit_and pos rb.bufmask)
        dif ← signed_difference cell.seq pos
        elim dif [
          | naught ↦
              if exchanged && (rb.tail == pos)
              then ok (record rb {
                tail = add_size pos 1;
                buf =
                    store rb.buf (bit_and pos rb.bufmask)
                      (record { seq = add_size pos 1; item = item });
              })
              else again
          | negative ↦ err 0
          | positive ↦ again
        ]

  unfoldable pub vgc_push : List Bool → Ringbuf → D → Outcome Ringbuf
  vgc_push attempts rb item = push_loop attempts rb rb.tail item

  unfoldable pub pop_loop : List Bool → Ringbuf → ℕ → Outcome (D × Ringbuf)
  pop_loop [] rb pos = stuck
  pop_loop (exchanged ∷ attempts) rb pos =
      let again = pop_loop attempts rb rb.head in
      do
        cell ← load rb.buf (bit_and pos rb.bufmask)
        dif ← signed_difference cell.seq (add_size pos 1)
        elim dif [
          | naught ↦
              if exchanged && (rb.head == pos)
              then ok (
                cell.item,
                record rb {
                  head = add_size pos 1;
                  buf =
                      store rb.buf (bit_and pos rb.bufmask)
                        (record { seq = add_size (add_size pos rb.bufmask) 1; item = cell.item });
                },
              )
              else again
          | negative ↦ err 0
          | positive ↦ again
        ]

  unfoldable pub vgc_pop : List Bool → Ringbuf → Outcome (D × Ringbuf)
  vgc_pop attempts rb = pop_loop attempts rb rb.head
