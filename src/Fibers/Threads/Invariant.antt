-- ===== src/Fibers/Threads/Invariant.antt =====
-- Every move keeps the agreement, and what it does to the history.
use c_spock_bot.Prelude.{ℕ, ◌+◌, ◌%◌, ◌^◌, ◌≤◌, ◌<◌, ◌≡◌, ◌≢◌, sym, ◌∙◌, arith}
use c_spock_bot.Prelude.{List, [], ◌∷◌, length, length-append, some, add_size, bit_and}
use c_spock_bot.Prelude.Bits.{bit_and-low_mask}
use c_spock_bot.Outcome.{ok}
use c_spock_bot.Fibers.Ringbuf.{Cell, Ringbuf, load, signed_difference, naught}
use c_spock_bot.Fibers.Ringbuf.Contents.{item_at}
use c_spock_bot.Fibers.Threads
use c_spock_bot.Fibers.Threads.{update, Pc, Event, quiet, claimed, returned, At, Move, noted}
use c_spock_bot.Fibers.Threads.Phases.{
  Phase, free, writing, written, full, reading, Frame, Knows, Agree,
}
use c_spock_bot.Fibers.Threads.Moves.{update_same, quiet-Agree}
use c_spock_bot.Fibers.Threads.Turns.{
  signed_difference-naught, Fits-free, Fits-full, seen, claim-Agree, write-Agree, publish-Agree,
  take-Agree, release-Agree,
}
use native.Mathlib.Nat.{mod-lt}

module _ (D : Type 0) where
  abbrev pub frame : ℕ → Ringbuf D → List D → Frame D
  frame k rb claims = record { size = 2 ^ k; head = rb.head; tail = rb.tail; claims = claims }

  -- What the event of a thread's move says of the phases before and after it.
  abbrev pub Settles : ℕ → Ringbuf D → List D → ℕ → (ℕ → Phase) → (ℕ → Phase) → Event D → Type 0
  Settles k rb claims t phase phase' (returned pos d) =
      (pos < rb.head)
      × (item_at D claims pos ≡ some d)
      × (phase (pos % 2 ^ k) ≡ reading pos t)
      × ((u : ℕ) → phase' (pos % 2 ^ k) ≢ reading pos u)
  Settles k rb claims t phase phase' quiet = Unit {0}
  Settles k rb claims t phase phase' (claimed d) = Unit {0}

  -- The state after a move of thread `t`: it agrees, and no position below the head has a new reader.
  pub record Next (k : ℕ) (rb rb' : Ringbuf D) (claims : List D) (pc : ℕ → Pc D) (phase : ℕ → Phase)
      (t : ℕ) (p : Pc D) (e : Event D) : Type 0 where
    pub phase' : ℕ → Phase
    pub masked : rb'.bufmask + 1 ≡ 2 ^ k
    pub head_up : rb.head ≤ rb'.head
    pub agree : Agree D (frame k rb' (noted D claims e)) rb'.buf (update pc t p) phase'
    pub no_reader :
        (q u : ℕ) → q < rb.head → phase' (q % 2 ^ k) ≡ reading q u → phase (q % 2 ^ k) ≡ reading q u
    pub settles : Settles k rb' (noted D claims e) t phase phase' e

  no_new_reader :
      (phase : ℕ → Phase) (i x q u : ℕ) (new : Phase)
      → new ≢ reading q u
      → update phase i new x ≡ reading q u
      → phase x ≡ reading q u
  no_new_reader phase i x q u new ne e = ground (arith, e)

  module _ (k : ℕ) (rb : Ringbuf D) (claims : List D) (pc : ℕ → Pc D) (phase : ℕ → Phase) (t : ℕ)
      (masked : rb.bufmask + 1 ≡ 2 ^ k) (a : Agree D (frame k rb claims) rb.buf pc phase) where
    index : (pos : ℕ) → bit_and pos rb.bufmask ≡ pos % 2 ^ k
    index pos = bit_and-low_mask k pos rb.bufmask masked

    loaded : (pos : ℕ) (c : Cell D) → At D rb pos c → load D rb.buf (pos % 2 ^ k) ≡ ok c
    loaded pos c e = rw (index pos) at e

    unchanged :
        (p : Pc D) → Knows D (frame k rb claims) phase t p → Next k rb rb claims pc phase t p quiet
    unchanged p h = record {
      phase' = phase;
      masked = masked;
      head_up = omega arith;
      agree = quiet-Agree D (frame k rb claims) rb.buf pc phase t p a h;
      no_reader = λ q u lt e. e;
      settles = tt;
    }

    ready_to_push :
        (pos : ℕ) (c : Cell D)
        → rb.tail < 2 ^ 63
        → pos ≤ rb.tail
        → At D rb pos c
        → signed_difference c.seq pos ≡ ok naught
        → pos ≡ rb.tail
        → phase (pos % 2 ^ k) ≡ free pos
    ready_to_push pos c small le at e here =
        Fits-free D (frame k rb claims) pos (phase (pos % 2 ^ k)) c a.two
          (seen D (frame k rb claims) rb.buf pc phase t pos c a (loaded pos c at))
          (signed_difference-naught c.seq pos (omega arith) e) here

    ready_to_pop :
        (pos : ℕ) (c : Cell D)
        → rb.head + 1 < 2 ^ 63
        → pos ≤ rb.head
        → At D rb pos c
        → signed_difference c.seq (add_size pos 1) ≡ ok naught
        → pos ≡ rb.head
        → phase (pos % 2 ^ k) ≡ full pos
    ready_to_pop pos c small le at e here =
        let next : add_size pos 1 ≡ pos + 1 = omega arith in
        Fits-full D (frame k rb claims) pos (phase (pos % 2 ^ k)) c a.two
          (seen D (frame k rb claims) rb.buf pc phase t pos c a (loaded pos c at))
          (signed_difference-naught c.seq (pos + 1) (omega arith) (rw next at e)) here

    after_claim :
        (d : D) (pos : ℕ)
        → Knows D (frame k rb claims) phase t (Threads.push_exchange d pos)
        → rb.tail ≡ pos
        → rb.tail + 1 < 2 ^ 63
        → Next k rb
            (record rb { tail = add_size pos 1 })
            claims
            pc
            phase
            t
            (Threads.push_data d pos)
            (claimed d)
    after_claim d pos h e small =
        let next : add_size pos 1 ≡ rb.tail + 1 = omega arith in
        record {
          phase' = update phase (pos % 2 ^ k) (writing pos t);
          masked = masked;
          head_up = omega arith;
          agree = rw next (claim-Agree D (frame k rb claims) rb.buf pc phase t pos d a h e);
          no_reader =
              λ q u lt. no_new_reader phase (pos % 2 ^ k) (q % 2 ^ k) q u (writing pos t) (λ c. cc);
          settles = tt;
        }

    after_write :
        (d : D) (pos : ℕ) (c : Cell D)
        → Knows D (frame k rb claims) phase t (Threads.push_data d pos)
        → At D rb pos c
        → Next k rb
            (Threads.set_cell D rb pos (record { seq = c.seq; item = d }))
            claims
            pc
            phase
            t
            (Threads.push_seq pos)
            quiet
    after_write d pos c h at = record {
      phase' = update phase (pos % 2 ^ k) (written pos t);
      masked = masked;
      head_up = omega arith;
      agree =
          rw (index pos)
            (write-Agree D (frame k rb claims) rb.buf pc phase t pos d c a h (loaded pos c at));
      no_reader =
          λ q u lt. no_new_reader phase (pos % 2 ^ k) (q % 2 ^ k) q u (written pos t) (λ c. cc);
      settles = tt;
    }

    -- A position that a thread holds in a cell is claimed.
    held_lt : (pos : ℕ) → phase (pos % 2 ^ k) ≡ written pos t → pos < rb.tail
    held_lt pos was =
        let known = a.cells (pos % 2 ^ k) (mod-lt pos (omega (arith, a.two))) in
        let (live, le, q, it) = rw was at (known.2) in live.1

    after_publish :
        (pos : ℕ) (c : Cell D)
        → rb.tail < 2 ^ 63
        → Knows D (frame k rb claims) phase t (Threads.push_seq pos)
        → At D rb pos c
        → Next k rb
            (Threads.set_cell D rb pos (record { seq = add_size pos 1; item = c.item }))
            claims
            pc
            phase
            t
            Threads.idle
            quiet
    after_publish pos c small h at =
        let below : pos < rb.tail = held_lt pos h in
        let next : add_size pos 1 ≡ pos + 1 = omega arith in
        record {
          phase' = update phase (pos % 2 ^ k) (full pos);
          masked = masked;
          head_up = omega arith;
          agree =
              rw (next, index pos)
                (publish-Agree D (frame k rb claims) rb.buf pc phase t pos c a h (loaded pos c at));
          no_reader =
              λ q u lt. no_new_reader phase (pos % 2 ^ k) (q % 2 ^ k) q u (full pos) (λ c. cc);
          settles = tt;
        }

    after_take :
        (pos : ℕ)
        → Knows D (frame k rb claims) phase t (Threads.pop_exchange pos)
        → rb.head ≡ pos
        → rb.head + 1 < 2 ^ 63
        → Next k rb
            (record rb { head = add_size pos 1 })
            claims
            pc
            phase
            t
            (Threads.pop_data pos)
            quiet
    after_take pos h e small =
        let next : add_size pos 1 ≡ rb.head + 1 = omega arith in
        record {
          phase' = update phase (pos % 2 ^ k) (reading pos t);
          masked = masked;
          head_up = omega arith;
          agree = rw next (take-Agree D (frame k rb claims) rb.buf pc phase t pos a h e);
          no_reader = λ q u lt.
              no_new_reader phase (pos % 2 ^ k) (q % 2 ^ k) q u (reading pos t)
                (λ c. apart pos q u t c (omega arith));
          settles = tt;
        }
      where
        apart : (p q u v : ℕ) → reading p v ≡ reading q u → p ≢ q → ⊥
        apart p q u v c ne = ground arith

    after_load :
        (pos : ℕ) (c : Cell D)
        → Knows D (frame k rb claims) phase t (Threads.pop_data pos)
        → At D rb pos c
        → Next k rb rb claims pc phase t (Threads.pop_seq pos c.item) quiet
    after_load pos c was at =
        let (live, lt, q, it) =
          rw was at (seen D (frame k rb claims) rb.buf pc phase t pos c a (loaded pos c at)) in
        unchanged (Threads.pop_seq pos c.item) (was, it)

    after_release :
        (pos : ℕ) (d : D) (c : Cell D)
        → rb.tail + 2 ^ k < 2 ^ 63
        → Knows D (frame k rb claims) phase t (Threads.pop_seq pos d)
        → At D rb pos c
        → Next k rb
            (Threads.set_cell D rb pos
              (record { seq = add_size (add_size pos rb.bufmask) 1; item = c.item }))
            claims
            pc
            phase
            t
            Threads.idle
            (returned pos d)
    after_release pos d c small (was, have) at =
        let (live, lt, q, it) =
          rw was at (seen D (frame k rb claims) rb.buf pc phase t pos c a (loaded pos c at)) in
        let next : add_size (add_size pos rb.bufmask) 1 ≡ pos + 2 ^ k = omega (arith, live.1) in
        record {
          phase' = update phase (pos % 2 ^ k) (free (pos + 2 ^ k));
          masked = masked;
          head_up = omega arith;
          agree =
              rw (next, index pos)
                (release-Agree D (frame k rb claims) rb.buf pc phase t pos d c a (was, have)
                  (loaded pos c at));
          no_reader = λ q u lt.
              no_new_reader phase (pos % 2 ^ k) (q % 2 ^ k) q u (free (pos + 2 ^ k)) (λ c. cc);
          settles = (
            lt,
            have,
            was,
            λ u e. clash u (sym (update_same phase (pos % 2 ^ k) (free (pos + 2 ^ k))) ∙ e),
          );
        }
      where
        clash : (u : ℕ) → free (pos + 2 ^ k) ≢ reading pos u
        clash u e = cc

    -- Every move of thread `t` leads to such a state, as long as the counters are below `2 ^ 63`.
    pub Move-Next :
        {p p' : Pc D} {rb' : Ringbuf D} {e : Event D}
        → Move D rb p rb' p' e
        → Knows D (frame k rb claims) phase t p
        → length (noted D claims e) + 2 ^ k < 2 ^ 63
        → Next k rb rb' claims pc phase t p' e
    Move-Next (Threads.push_start {d}) h b = unchanged (Threads.push_pos d rb.tail) (omega arith)
    Move-Next (Threads.push_ready {d} {pos} {c} at e) h b =
        unchanged (Threads.push_exchange d pos)
          (h, ready_to_push pos c (omega (arith, a.counted)) h at e)
    Move-Next (Threads.push_full at e) h b = unchanged Threads.idle tt
    Move-Next (Threads.push_late {d} at e) h b = unchanged (Threads.push_again d) tt
    Move-Next (Threads.push_reload {d}) h b = unchanged (Threads.push_pos d rb.tail) (omega arith)
    Move-Next (Threads.push_lost {d}) h b = unchanged (Threads.push_pos d rb.tail) (omega arith)
    Move-Next (Threads.push_won {d} {pos} e) h b =
        after_claim d pos h e (omega (arith, a.counted, length-append claims (d ∷ [])))
    Move-Next (Threads.push_store {d} {pos} {c} at) h b = after_write d pos c h at
    Move-Next (Threads.push_publish {pos} {c} at) h b =
        after_publish pos c (omega (arith, a.counted)) h at
    Move-Next Threads.pop_start h b = unchanged (Threads.pop_pos rb.head) (omega arith)
    Move-Next (Threads.pop_ready {pos} {c} at e) h b =
        unchanged (Threads.pop_exchange pos)
          (h, ready_to_pop pos c (omega (arith, a.counted, a.ordered, a.two)) h at e)
    Move-Next (Threads.pop_empty at e) h b = unchanged Threads.idle tt
    Move-Next (Threads.pop_late at e) h b = unchanged Threads.pop_again tt
    Move-Next Threads.pop_reload h b = unchanged (Threads.pop_pos rb.head) (omega arith)
    Move-Next Threads.pop_lost h b = unchanged (Threads.pop_pos rb.head) (omega arith)
    Move-Next (Threads.pop_won {pos} e) h b =
        after_take pos h e (omega (arith, a.counted, a.ordered, a.two))
    Move-Next (Threads.pop_load {pos} {c} at) h b = after_load pos c h at
    Move-Next (Threads.pop_release {pos} {d} {c} at) h b =
        after_release pos d c (omega (arith, a.counted)) h at
