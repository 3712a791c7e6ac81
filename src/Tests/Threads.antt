-- ===== src/Tests/Threads.antt =====
-- Threads on a ring buffer of two cells.
use c_spock_bot.Prelude.{ℕ, ◌%◌, ◌≡◌, ◌≢◌, refl, arith, List, [], ◌∷◌, ap, length, All, ℕ_discrete}
use c_spock_bot.Outcome.{ok}
use c_spock_bot.Fibers.Ringbuf.{
  Cell, Ringbuf, load, store, signed_difference, number_cells, vgc_ringbuf_init,
}
use c_spock_bot.Fibers.Threads
use c_spock_bot.Fibers.Threads.{System, Reach, start, later, pick}
use c_spock_bot.Fibers.Threads.Fifo.{Matches, Distinct, returns-claims}
use c_spock_bot.Fibers.Threads.Race.{won, won-apart}

abbrev cell : ℕ → Cell ℕ
cell seq = record { seq = seq; item = 0 }

abbrev memory : List (Cell ℕ)
memory = cell 99 ∷ cell 99 ∷ []

abbrev new : Ringbuf ℕ
new = record { bufmask = 1; buf = cell 0 ∷ (cell 1 ∷ []); head = 0; tail = 0 }

-- Threads 0 and 1 start a push at the same position; 0 wins it, and 1 then wins the next.
two_pushes :
    (s : System ℕ) × Reach ℕ new s
    × (s.claims ≡ 7 ∷ (8 ∷ []))
    × (s.pc 0 ≡ Threads.push_data 7 0)
    × (s.pc 1 ≡ Threads.push_data 8 1)
unfolding ℕ_discrete load store signed_difference
two_pushes = (
  _,
  (later
      (later
        (later
          (later
            (later
              (later
                (later (later start (pick 0 (Threads.push_start {d = 7})))
                  (pick 1 (Threads.push_start {d = 8})))
                (pick 0 (Threads.push_ready refl refl)))
              (pick 1 (Threads.push_ready refl refl)))
            (pick 0 (Threads.push_won refl)))
          (pick 1 Threads.push_lost))
        (pick 1 (Threads.push_ready refl refl)))
      (pick 1 (Threads.push_won refl))),
  refl,
  refl,
  refl,
)

-- Threads 2 and 0 then pop at the same time, and 0 returns first.
two_pops :
    (s : System ℕ) × Reach ℕ new s
    × (s.claims ≡ 7 ∷ (8 ∷ []))
    × (s.returns ≡ (0, 7) ∷ ((1, 8) ∷ []))
unfolding ℕ_discrete load store signed_difference
two_pops = (
  _,
  (later
      (later
        (later
          (later
            (later
              (later
                (later
                  (later
                    (later
                      (later
                        (later
                          (later
                            (later
                              (later
                                (later
                                  (later
                                    (later
                                      (later
                                        (later
                                          (later
                                            (later
                                              (later start (pick 0 (Threads.push_start {d = 7})))
                                              (pick 1 (Threads.push_start {d = 8})))
                                            (pick 0 (Threads.push_ready refl refl)))
                                          (pick 1 (Threads.push_ready refl refl)))
                                        (pick 0 (Threads.push_won refl)))
                                      (pick 1 Threads.push_lost))
                                    (pick 1 (Threads.push_ready refl refl)))
                                  (pick 1 (Threads.push_won refl)))
                                (pick 1 (Threads.push_store refl)))
                              (pick 0 (Threads.push_store refl)))
                            (pick 1 (Threads.push_publish refl)))
                          (pick 0 (Threads.push_publish refl)))
                        (pick 2 Threads.pop_start))
                      (pick 2 (Threads.pop_ready refl refl)))
                    (pick 2 (Threads.pop_won refl)))
                  (pick 0 Threads.pop_start))
                (pick 0 (Threads.pop_ready refl refl)))
              (pick 0 (Threads.pop_won refl)))
            (pick 2 (Threads.pop_load refl)))
          (pick 0 (Threads.pop_load refl)))
        (pick 0 (Threads.pop_release refl)))
      (pick 2 (Threads.pop_release refl))),
  refl,
  refl,
)

new_run : vgc_ringbuf_init ℕ memory 2 ≡ ok new
unfolding vgc_ringbuf_init number_cells
new_run = refl

returns-claims_example :
    All (Matches ℕ two_pops.0.claims) two_pops.0.returns × Distinct ℕ two_pops.0.returns
returns-claims_example =
    returns-claims ℕ 1 memory new two_pops.0 (omega arith) (omega arith) refl new_run two_pops.1
      (omega (arith, ap length two_pops.2))

won-apart_example : 0 % 2 ≢ 1 % 2
won-apart_example =
    won-apart ℕ 1 memory new two_pushes.0 (omega arith) (omega arith) refl new_run two_pushes.1
      (omega (arith, ap length two_pushes.2)) 0 1 0 1 (omega arith) (ap (won ℕ) two_pushes.3)
      (ap (won ℕ) two_pushes.4)
