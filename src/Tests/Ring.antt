-- ===== src/Tests/Ring.antt =====
-- A ring buffer of four cells.
use c_spock_bot.Prelude.{
  ℕ, ◌<◌, ◌≡◌, refl, sym, ap, ◌∙◌, arith, length, List, [], ◌∷◌, ◌++◌, true, false,
}
use c_spock_bot.Outcome.{Outcome, ok}
use c_spock_bot.Fibers.Ringbuf.{
  Cell, Ringbuf, number_cells, load, store, signed_difference, vgc_ringbuf_init, push_loop,
  vgc_push, vgc_pop,
}
use c_spock_bot.Fibers.Ringbuf.Contents.{Stands}
use c_spock_bot.Fibers.Ringbuf.Push.{vgc_push-Stands}
use c_spock_bot.Fibers.Ringbuf.Pop.{vgc_pop-Stands}
use c_spock_bot.Fibers.Ringbuf.Init.{vgc_ringbuf_init-Stands}

abbrev cell : Cell ℕ
cell = record { seq = 99; item = 0 }

abbrev memory : List (Cell ℕ)
memory = cell ∷ cell ∷ cell ∷ cell ∷ []

-- The ring buffer that a run is known to end in stands for what the run's result stands for.
pub known :
    (D : Type 0) (k : ℕ) (run : Outcome (Ringbuf D)) (items : List D) (r : Ringbuf D)
    → run ≡ ok r
    → (rb : Ringbuf D) × (run ≡ ok rb) × Stands D k rb items
    → Stands D k r items
known D k run items r e (rb, e', h) =
    let or_else : Outcome (Ringbuf D) → Ringbuf D = λ o. elim o [ ok x ↦ x | _ ↦ r ] in
    let same : rb ≡ r = ap or_else (sym e' ∙ e) in rw same at h

abbrev ring : ℕ → Cell ℕ → Cell ℕ → Cell ℕ → Cell ℕ → Ringbuf ℕ
ring tail a b c d = record { bufmask = 3; buf = a ∷ (b ∷ (c ∷ (d ∷ []))); head = 0; tail = tail }

abbrev holds : ℕ → ℕ → Cell ℕ
holds seq item = record { seq = seq; item = item }

abbrev fresh : Ringbuf ℕ
fresh = ring 0 (holds 0 0) (holds 1 0) (holds 2 0) (holds 3 0)

fresh-Stands : Stands ℕ 2 fresh []
unfolding vgc_ringbuf_init number_cells
fresh-Stands =
    known ℕ 2 (vgc_ringbuf_init ℕ memory 4) [] fresh refl
      (vgc_ringbuf_init-Stands ℕ 2 memory (omega arith) (omega arith) refl)

vgc_push-Stands_example :
    (rb' : Ringbuf ℕ) × (vgc_push ℕ (false ∷ true ∷ []) fresh 7 ≡ ok rb') × Stands ℕ 2 rb' (7 ∷ [])
vgc_push-Stands_example =
    vgc_push-Stands ℕ 2 fresh [] 7 1 [] fresh-Stands (omega arith) (omega arith)

-- After pushes of 7, 8, 9 and 10.
abbrev one : Ringbuf ℕ
one = ring 1 (holds 1 7) (holds 1 0) (holds 2 0) (holds 3 0)

abbrev two : Ringbuf ℕ
two = ring 2 (holds 1 7) (holds 2 8) (holds 2 0) (holds 3 0)

abbrev three : Ringbuf ℕ
three = ring 3 (holds 1 7) (holds 2 8) (holds 3 9) (holds 3 0)

abbrev filled : Ringbuf ℕ
filled = ring 4 (holds 1 7) (holds 2 8) (holds 3 9) (holds 4 10)

pushed_once :
    (rb r : Ringbuf ℕ) (items : List ℕ) (d : ℕ)
    → Stands ℕ 2 rb items
    → length items < 4
    → rb.tail < 100
    → vgc_push ℕ (true ∷ []) rb d ≡ ok r
    → Stands ℕ 2 r (items ++ (d ∷ []))
pushed_once rb r items d h space small e =
    known ℕ 2 (vgc_push ℕ (true ∷ []) rb d) (items ++ (d ∷ [])) r e
      (vgc_push-Stands ℕ 2 rb items d 0 [] h space (omega arith))

filled-Stands : Stands ℕ 2 filled (7 ∷ 8 ∷ 9 ∷ 10 ∷ [])
unfolding vgc_push push_loop load store signed_difference
filled-Stands =
    let a = pushed_once fresh one [] 7 fresh-Stands (omega arith) (omega arith) refl in
    let b = pushed_once one two (7 ∷ []) 8 a (omega arith) (omega arith) refl in
    let c = pushed_once two three (7 ∷ 8 ∷ []) 9 b (omega arith) (omega arith) refl in
    pushed_once three filled (7 ∷ 8 ∷ 9 ∷ []) 10 c (omega arith) (omega arith) refl

vgc_pop-Stands_example :
    (rb' : Ringbuf ℕ) × (vgc_pop ℕ (true ∷ []) filled ≡ ok (7, rb'))
    × Stands ℕ 2 rb' (8 ∷ 9 ∷ 10 ∷ [])
vgc_pop-Stands_example = vgc_pop-Stands ℕ 2 filled (8 ∷ 9 ∷ 10 ∷ []) 7 0 [] filled-Stands
