-- ===== src/Fibers/Threads/Race.antt =====
-- The data of a cell is never accessed by two threads at once.
use c_spock_bot.Prelude.{ℕ, ◌+◌, ◌%◌, ◌^◌, ◌≤◌, ◌<◌, ◌≡◌, ◌≢◌, sym, ap, ◌∙◌, arith}
use c_spock_bot.Prelude.{List, length, Option, none, some}
use c_spock_bot.Outcome.{ok}
use c_spock_bot.Fibers.Ringbuf.{Cell, Ringbuf, vgc_ringbuf_init}
use c_spock_bot.Fibers.Threads.{
  Pc, idle, push_pos, push_exchange, push_again, push_data, push_seq, pop_pos, pop_exchange,
  pop_again, pop_data, pop_seq, System, Reach,
}
use c_spock_bot.Fibers.Threads.Phases.{Phase, free, writing, written, full, reading, Frame, Knows}
use c_spock_bot.Fibers.Threads.Invariant.{frame}
use c_spock_bot.Fibers.Threads.Fifo.{reached-Inv}

abbrev owner : Phase → Option ℕ
owner (free p) = none
owner (writing p t) = some t
owner (written p t) = some t
owner (full p) = none
owner (reading p t) = some t

module _ (D : Type 0) where
  -- The position that a thread has won and not yet given up: it may access the data of that cell.
  abbrev pub won : Pc D → Option ℕ
  won (push_data d pos) = some pos
  won (push_seq pos) = some pos
  won (pop_data pos) = some pos
  won (pop_seq pos d) = some pos
  won idle = none
  won (push_pos d pos) = none
  won (push_exchange d pos) = none
  won (push_again d) = none
  won (pop_pos pos) = none
  won (pop_exchange pos) = none
  won pop_again = none

  Knows-owner :
      (f : Frame D) (phase : ℕ → Phase) (t : ℕ) (pc : Pc D) (pos : ℕ)
      → Knows D f phase t pc
      → won pc ≡ some pos
      → owner (phase (pos % f.size)) ≡ some t
  Knows-owner f phase t (push_data d q) pos k e = ground (arith, k, e)
  Knows-owner f phase t (push_seq q) pos k e = ground (arith, k, e)
  Knows-owner f phase t (pop_data q) pos k e = ground (arith, k, e)
  Knows-owner f phase t (pop_seq q d) pos k e = ground (arith, k, e)
  Knows-owner f phase t idle pos k e = absurd (cc)
  Knows-owner f phase t (push_pos d q) pos k e = absurd (cc)
  Knows-owner f phase t (push_exchange d q) pos k e = absurd (cc)
  Knows-owner f phase t (push_again d) pos k e = absurd (cc)
  Knows-owner f phase t (pop_pos q) pos k e = absurd (cc)
  Knows-owner f phase t (pop_exchange q) pos k e = absurd (cc)
  Knows-owner f phase t pop_again pos k e = absurd (cc)

  -- In every state that threads reach on a new ring buffer, with fewer than `2 ^ 63 - 2 ^ k` pushes
  -- won, the cells of two threads that have won positions and not yet given them up are different.
  pub won-apart :
      (k : ℕ) (memory : List (Cell D)) (rb : Ringbuf D) (s : System D)
      → 2 ≤ 2 ^ k
      → 2 ^ k < 2 ^ 63
      → length memory ≡ 2 ^ k
      → vgc_ringbuf_init D memory (2 ^ k) ≡ ok rb
      → Reach D rb s
      → length s.claims + 2 ^ k < 2 ^ 63
      → (t u p q : ℕ) → t ≢ u
      → won (s.pc t) ≡ some p
      → won (s.pc u) ≡ some q
      → p % 2 ^ k ≢ q % 2 ^ k
  won-apart k memory rb s two small room e reach bound t u p q ne ht hu same =
      let inv = reached-Inv D k memory rb s two small room e reach bound in
      let mine =
        Knows-owner (frame D k s.rb s.claims) inv.phase t (s.pc t) p (inv.agree.threads t) ht in
      let other =
        Knows-owner (frame D k s.rb s.claims) inv.phase u (s.pc u) q (inv.agree.threads u) hu in
      ne (single (sym mine ∙ ap (λ i. owner (inv.phase i)) same ∙ other))
    where
      single : {x y : ℕ} → some x ≡ some y → x ≡ y
      single e = ground arith
