-- ===== src/Fibers/Ringbuf/Push.antt =====
-- Push on a ring buffer that stands for a queue.
use c_spock_bot.Prelude.{ℕ, zero, suc, ◌+◌, ◌%◌, ◌^◌, ◌<◌, ◌≡◌, ◌≢◌, refl, sym, ap, ◌∙◌, arith}
use c_spock_bot.Prelude.{List, [], ◌∷◌, ◌++◌, length, length-append, some, Bool, true, false}
use c_spock_bot.Prelude.{◌==◌, add_size, bit_and, ℕ_discrete}
use c_spock_bot.Prelude.Bits.{bit_and-low_mask}
use mathlib.Core.Option.{some-injective}
use c_spock_bot.Outcome.{ok, err}
use c_spock_bot.Fibers.Ringbuf.{
  negative, naught, sign_of, signed_difference, load, store, Ringbuf, push_loop, vgc_push,
}
use c_spock_bot.Fibers.Ringbuf.Cells.{load-store, load-store_other, length-store}
use c_spock_bot.Fibers.Ringbuf.Contents.{
  item_at, item_at-end, item_at-append, item_at-length, Full, Stands, cell_ne,
}
use native.Mathlib.Nat.{mod-lt, add-mod_right}

-- `n` exchanges that fail for nothing, and one that succeeds.
abbrev pub spurious : ℕ → List Bool → List Bool
spurious zero rest = true ∷ rest
spurious (suc n) rest = false ∷ spurious n rest

signed_difference-small :
    (a b : ℕ) → a < 2 ^ 63 → b < 2 ^ 63 → signed_difference a b ≡ ok (sign_of a b)
unfolding signed_difference
signed_difference-small a b ha hb = ground arith

pub signed_difference-same : (a : ℕ) → a < 2 ^ 63 → signed_difference a a ≡ ok naught
signed_difference-same a h = signed_difference-small a a h h ∙ ground arith

pub signed_difference-less : (a b : ℕ) → a < b → b < 2 ^ 63 → signed_difference a b ≡ ok negative
signed_difference-less a b h hb = signed_difference-small a b (omega arith) hb ∙ ground arith

module _ (D : Type 0) where
  -- The buffer after a push at the tail.
  abbrev pub pushed : ℕ → Ringbuf D → D → Ringbuf D
  pushed k rb d = record rb {
    tail = rb.tail + 1;
    buf = store D rb.buf (rb.tail % 2 ^ k) (record { seq = rb.tail + 1; item = d });
  }

  pushed-elsewhere :
      (k : ℕ) (rb : Ringbuf D) (items : List D) (d : D) (i : ℕ)
      → Stands D k rb items
      → length items < 2 ^ k
      → i < 2 ^ k
      → i ≢ length items
      → load D (pushed k rb d).buf ((rb.head + i) % 2 ^ k) ≡ load D rb.buf ((rb.head + i) % 2 ^ k)
  pushed-elsewhere k rb items d i h space hi ne = rw h.counted (
      load-store_other D rb.buf ((rb.head + length items) % 2 ^ k) ((rb.head + i) % 2 ^ k) _
        (cell_ne (2 ^ k) rb.head (length items) i space hi (λ e. ne (sym e))))

  pushed-here :
      (k : ℕ) (rb : Ringbuf D) (items : List D) (d : D)
      → Stands D k rb items
      → Full D k (pushed k rb d) (length items) d
  pushed-here k rb items d h = rw (← h.counted) (
      load-store D rb.buf (rb.tail % 2 ^ k) _ (rw h.room (mod-lt rb.tail (omega (arith, h.cells)))))

  pushed-Full :
      (k : ℕ) (rb : Ringbuf D) (items : List D) (d : D) (i : ℕ) (d' : D)
      → Stands D k rb items
      → length items < 2 ^ k
      → item_at D (items ++ (d ∷ [])) i ≡ some d'
      → Full D k (pushed k rb d) i d'
  pushed-Full k rb items d i d' h space e = elim (ℕ_discrete i (length items)) [
    | yes at_end ↦
        let same : d ≡ d' =
          some-injective d d'
            (sym (item_at-end D items d) ∙ ap (item_at D (items ++ (d ∷ []))) (sym at_end) ∙ e) in
        rw (at_end, ← same) (pushed-here k rb items d h)
    | no ne ↦
        let size = length-append items (d ∷ []) in
        let below : i < length items = omega (arith, item_at-length D (items ++ (d ∷ [])) i d' e) in
        pushed-elsewhere k rb items d i h space (omega arith) ne
        ∙ h.full i d' (sym (item_at-append D items d i below) ∙ e)
  ]

  pub pushed-Stands :
      (k : ℕ) (rb : Ringbuf D) (items : List D) (d : D)
      → Stands D k rb items
      → length items < 2 ^ k
      → rb.tail + 1 + 2 ^ k < 2 ^ 63
      → Stands D k (pushed k rb d) (items ++ (d ∷ []))
  pushed-Stands k rb items d h space bound =
      let size = length-append items (d ∷ []) in
      record {
        cells = h.cells;
        masked = h.masked;
        room = length-store D rb.buf _ _ ∙ h.room;
        counted = omega (arith, h.counted);
        few = omega arith;
        bounded = bound;
        full = λ i d' e. pushed-Full k rb items d i d' h space e;
        free = λ i lo hi.
            let old = h.free i (omega arith) hi in
            (old.0, pushed-elsewhere k rb items d i h space hi (omega arith) ∙ old.1);
      }

  -- What a push finds at the tail of a queue that is not full.
  free_cell :
      (k : ℕ) (rb : Ringbuf D) (items : List D)
      → Stands D k rb items
      → length items < 2 ^ k
      → (d : D) × (load D rb.buf (bit_and rb.tail rb.bufmask)
          ≡ ok (record { seq = rb.tail; item = d }))
  free_cell k rb items h space =
      let cell = h.free (length items) (omega arith) space in
      (cell.0, rw (bit_and-low_mask k rb.tail rb.bufmask h.masked, h.counted) cell.1)

  push_loop-pushed :
      (k : ℕ) (rb : Ringbuf D) (items : List D) (d : D) (failures : ℕ) (rest : List Bool)
      → Stands D k rb items
      → length items < 2 ^ k
      → push_loop D (spurious failures rest) rb rb.tail d ≡ ok (pushed k rb d)
  unfolding push_loop
  push_loop-pushed k rb items d zero rest h space =
      let cell = free_cell k rb items h space in
      let same : (rb.tail == rb.tail) ≡ true = ground arith in
      let next : add_size rb.tail 1 ≡ rb.tail + 1 = omega (arith, h.bounded) in
      rw (
        cell.1,
        signed_difference-same rb.tail (omega (arith, h.bounded)),
        same,
        next,
        bit_and-low_mask k rb.tail rb.bufmask h.masked,
      )
  push_loop-pushed k rb items d (suc n) rest h space =
      let cell = free_cell k rb items h space in
      rw (cell.1, signed_difference-same rb.tail (omega (arith, h.bounded)))
        (push_loop-pushed k rb items d n rest h space)

  pub vgc_push-pushed :
      (k : ℕ) (rb : Ringbuf D) (items : List D) (d : D) (failures : ℕ) (rest : List Bool)
      → Stands D k rb items
      → length items < 2 ^ k
      → vgc_push D (spurious failures rest) rb d ≡ ok (pushed k rb d)
  unfolding vgc_push
  vgc_push-pushed k rb items d failures rest h space =
      push_loop-pushed k rb items d failures rest h space

  -- A push on a ring buffer with room, alone on it, succeeds after any number of spurious failures of
  -- its exchange, and puts the item behind the others; the counters are to stay below `2 ^ 63`.
  pub vgc_push-Stands :
      (k : ℕ) (rb : Ringbuf D) (items : List D) (d : D) (failures : ℕ) (rest : List Bool)
      → Stands D k rb items
      → length items < 2 ^ k
      → rb.tail + 1 + 2 ^ k < 2 ^ 63
      → (rb' : Ringbuf D) × (vgc_push D (spurious failures rest) rb d ≡ ok rb')
        × Stands D k rb' (items ++ (d ∷ []))
  unfolding vgc_push
  vgc_push-Stands k rb items d failures rest h space bound = (
    pushed k rb d,
    push_loop-pushed k rb items d failures rest h space,
    pushed-Stands k rb items d h space bound,
  )

  pub oldest :
      (k : ℕ) (rb : Ringbuf D) (items : List D) (d : D)
      → Stands D k rb (d ∷ items)
      → load D rb.buf (rb.head % 2 ^ k) ≡ ok (record { seq = rb.head + 1; item = d })
  oldest k rb items d h =
      let cell : load D rb.buf ((rb.head + 0) % 2 ^ k)
          ≡ ok (record { seq = rb.head + 0 + 1; item = d }) =
        h.full 0 d refl in
      let here : rb.head + 0 ≡ rb.head = omega arith in rw here at cell

  -- A push on a full ring buffer returns -1.
  pub vgc_push-full :
      (k : ℕ) (rb : Ringbuf D) (items : List D) (d : D) (attempts : List Bool) (exchanged : Bool)
      → Stands D k rb items
      → length items ≡ 2 ^ k
      → vgc_push D (exchanged ∷ attempts) rb d ≡ err 0
  unfolding vgc_push push_loop
  vgc_push-full k rb [] d attempts exchanged h e = absurd (omega (arith, h.cells))
  vgc_push-full k rb (x ∷ items) d attempts exchanged h e =
      let end : rb.tail ≡ rb.head + 2 ^ k = h.counted ∙ ap (λ n. rb.head + n) e in
      let around : rb.tail % 2 ^ k ≡ rb.head % 2 ^ k =
        ap (λ n. n % 2 ^ k) end ∙ add-mod_right rb.head (2 ^ k) in
      let behind =
        signed_difference-less (rb.head + 1) rb.tail (omega (arith, h.cells))
          (omega (arith, h.bounded)) in
      rw (bit_and-low_mask k rb.tail rb.bufmask h.masked, around, oldest k rb items x h, behind)
