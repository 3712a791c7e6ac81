-- ===== src/Fibers/Threads.antt =====
-- `vgc_push` and `vgc_pop` of src/fibers/queue.c run by any number of threads on one ring buffer, a
-- shared access at a time.
pub mod Phases
pub mod Moves
pub mod Turns
pub mod Invariant
pub mod Fifo
pub mod Race
use c_spock_bot.Prelude.{ℕ, ◌≡◌, List, [], ◌∷◌, ◌++◌, add_size, bit_and, ℕ_discrete}
use c_spock_bot.Outcome.{ok}
use c_spock_bot.Fibers.Ringbuf.{
  Sign, negative, naught, positive, signed_difference, Cell, Ringbuf, load, store,
}
use mathlib.Core.Logic.{ite}

abbrev pub update {ℓ} : {A : Type ℓ} → (ℕ → A) → ℕ → A → ℕ → A
update f i a j = ite (ℕ_discrete i j) a (f j)

module _ (D : Type 0) where
  -- Where a thread stands, with its locals that are live there.
  pub data Pc : Type 0 where
    idle : Pc
    -- `vgc_push`: before the load of `seq`, before the exchange, before `pos` is loaded again, before
    -- the store of the data, before that of `seq`
    push_pos : D → ℕ → Pc
    push_exchange : D → ℕ → Pc
    push_again : D → Pc
    push_data : D → ℕ → Pc
    push_seq : ℕ → Pc
    -- `vgc_pop`, in the same places; the load of the data comes before the last store
    pop_pos : ℕ → Pc
    pop_exchange : ℕ → Pc
    pop_again : Pc
    pop_data : ℕ → Pc
    pop_seq : ℕ → D → Pc

  -- What a move settles: nothing, the position of a pushed item, or the return of a popped one.
  pub data Event : Type 0 where
    quiet : Event
    claimed : D → Event
    returned : ℕ → D → Event

  -- The access to `buf[pos & bufmask]`.
  abbrev pub At : Ringbuf D → ℕ → Cell D → Type 0
  At rb pos c = load D rb.buf (bit_and pos rb.bufmask) ≡ ok c

  abbrev pub set_cell : Ringbuf D → ℕ → Cell D → Ringbuf D
  set_cell rb pos c = record rb { buf = store D rb.buf (bit_and pos rb.bufmask) c }

  -- A shared access of one thread and what it does until the next. The exchanges are weak: they may
  -- fail at any time.
  pub data Move (rb : Ringbuf D) : Pc → Ringbuf D → Pc → Event → Type 0 where
    push_start : {d : D} → Move rb idle rb (push_pos d rb.tail) quiet
    push_ready :
        {d : D} {pos : ℕ} {c : Cell D}
        → At rb pos c
        → signed_difference c.seq pos ≡ ok naught
        → Move rb (push_pos d pos) rb (push_exchange d pos) quiet
    push_full :
        {d : D} {pos : ℕ} {c : Cell D}
        → At rb pos c
        → signed_difference c.seq pos ≡ ok negative
        → Move rb (push_pos d pos) rb idle quiet
    push_late :
        {d : D} {pos : ℕ} {c : Cell D}
        → At rb pos c
        → signed_difference c.seq pos ≡ ok positive
        → Move rb (push_pos d pos) rb (push_again d) quiet
    push_reload : {d : D} → Move rb (push_again d) rb (push_pos d rb.tail) quiet
    push_lost : {d : D} {pos : ℕ} → Move rb (push_exchange d pos) rb (push_pos d rb.tail) quiet
    push_won :
        {d : D} {pos : ℕ}
        → rb.tail ≡ pos
        → Move rb
            (push_exchange d pos)
            (record rb { tail = add_size pos 1 })
            (push_data d pos)
            (claimed d)
    push_store :
        {d : D} {pos : ℕ} {c : Cell D}
        → At rb pos c
        → Move rb
            (push_data d pos)
            (set_cell rb pos (record { seq = c.seq; item = d }))
            (push_seq pos)
            quiet
    push_publish :
        {pos : ℕ} {c : Cell D}
        → At rb pos c
        → Move rb
            (push_seq pos)
            (set_cell rb pos (record { seq = add_size pos 1; item = c.item }))
            idle
            quiet
    pop_start : Move rb idle rb (pop_pos rb.head) quiet
    pop_ready :
        {pos : ℕ} {c : Cell D}
        → At rb pos c
        → signed_difference c.seq (add_size pos 1) ≡ ok naught
        → Move rb (pop_pos pos) rb (pop_exchange pos) quiet
    pop_empty :
        {pos : ℕ} {c : Cell D}
        → At rb pos c
        → signed_difference c.seq (add_size pos 1) ≡ ok negative
        → Move rb (pop_pos pos) rb idle quiet
    pop_late :
        {pos : ℕ} {c : Cell D}
        → At rb pos c
        → signed_difference c.seq (add_size pos 1) ≡ ok positive
        → Move rb (pop_pos pos) rb pop_again quiet
    pop_reload : Move rb pop_again rb (pop_pos rb.head) quiet
    pop_lost : {pos : ℕ} → Move rb (pop_exchange pos) rb (pop_pos rb.head) quiet
    pop_won :
        {pos : ℕ}
        → rb.head ≡ pos
        → Move rb (pop_exchange pos) (record rb { head = add_size pos 1 }) (pop_data pos) quiet
    pop_load :
        {pos : ℕ} {c : Cell D} → At rb pos c → Move rb (pop_data pos) rb (pop_seq pos c.item) quiet
    pop_release :
        {pos : ℕ} {d : D} {c : Cell D}
        → At rb pos c
        → Move rb
            (pop_seq pos d)
            (set_cell rb pos (record { seq = add_size (add_size pos rb.bufmask) 1; item = c.item }))
            idle
            (returned pos d)

  -- The history beside the memory: the items in the order in which their pushes won the exchange, and
  -- the returns of pops with the position each had won, the last first.
  pub record System : Type 0 where
    pub rb : Ringbuf D
    pub pc : ℕ → Pc
    pub claims : List D
    pub returns : List (ℕ × D)

  abbrev pub noted : List D → Event → List D
  noted claims (claimed d) = claims ++ (d ∷ [])
  noted claims quiet = claims
  noted claims (returned pos d) = claims

  abbrev pub handed : List (ℕ × D) → Event → List (ℕ × D)
  handed returns (returned pos d) = (pos, d) ∷ returns
  handed returns quiet = returns
  handed returns (claimed d) = returns

  pub data Step (s : System) : System → Type 0 where
    pick :
        (t : ℕ) {rb : Ringbuf D} {p : Pc} {e : Event}
        → Move s.rb (s.pc t) rb p e
        → Step s (record {
          rb = rb;
          pc = update s.pc t p;
          claims = noted s.claims e;
          returns = handed s.returns e;
        })

  -- No thread is in a call yet.
  abbrev pub init : Ringbuf D → System
  init rb = record { rb = rb; pc = λ _. idle; claims = []; returns = [] }

  pub data Reach (rb : Ringbuf D) : System → Type 0 where
    start : Reach rb (init rb)
    later : {s s' : System} → Reach rb s → Step s s' → Reach rb s'
