-- ===== src/Fibers/Threads/Phases.antt =====
-- What the threads make of each cell.
use c_spock_bot.Prelude.{ℕ, ◌+◌, ◌%◌, ◌≤◌, ◌<◌, ◌≡◌, List, length, some}
use c_spock_bot.Outcome.{ok}
use c_spock_bot.Fibers.Ringbuf.{Cell, load}
use c_spock_bot.Fibers.Ringbuf.Contents.{item_at}
use c_spock_bot.Fibers.Threads.{
  Pc, idle, push_pos, push_exchange, push_again, push_data, push_seq, pop_pos, pop_exchange,
  pop_again, pop_data, pop_seq,
}

-- A cell by the position that it serves: free for a push, won by thread t's push, with the data stored,
-- full, or won by thread t's pop.
pub data Phase : Type 0 where
  free : ℕ → Phase
  writing : ℕ → ℕ → Phase
  written : ℕ → ℕ → Phase
  full : ℕ → Phase
  reading : ℕ → ℕ → Phase

module _ (D : Type 0) where
  -- The counters and the history that the phases depend on.
  pub record Frame : Type 0 where
    pub size : ℕ
    pub head : ℕ
    pub tail : ℕ
    pub claims : List D

  -- The position `p` is claimed and its cell not yet claimed for the next round.
  abbrev pub Live : Frame → ℕ → ℕ → Type 0
  Live f i p = (p % f.size ≡ i) × (p < f.tail) × (f.tail ≤ p + f.size)

  -- What a phase says of cell `i`.
  abbrev pub Fits : Frame → ℕ → Phase → Cell D → Type 0
  Fits f i (free p) c = (p % f.size ≡ i) × (f.tail ≤ p) × (c.seq ≡ p)
  Fits f i (writing p t) c = Live f i p × (f.head ≤ p) × (c.seq ≡ p)
  Fits f i (written p t) c =
      Live f i p × (f.head ≤ p) × (c.seq ≡ p) × (item_at D f.claims p ≡ some c.item)
  Fits f i (full p) c =
      Live f i p × (f.head ≤ p) × (c.seq ≡ p + 1) × (item_at D f.claims p ≡ some c.item)
  Fits f i (reading p t) c =
      Live f i p × (p < f.head) × (c.seq ≡ p + 1) × (item_at D f.claims p ≡ some c.item)

  -- What thread `t` may rely on where it stands.
  abbrev pub Knows : Frame → (ℕ → Phase) → ℕ → Pc D → Type 0
  Knows f phase t idle = Unit {0}
  Knows f phase t (push_pos d pos) = pos ≤ f.tail
  Knows f phase t (push_exchange d pos) =
      (pos ≤ f.tail) × (pos ≡ f.tail → phase (pos % f.size) ≡ free pos)
  Knows f phase t (push_again d) = Unit {0}
  Knows f phase t (push_data d pos) =
      (phase (pos % f.size) ≡ writing pos t) × (item_at D f.claims pos ≡ some d)
  Knows f phase t (push_seq pos) = phase (pos % f.size) ≡ written pos t
  Knows f phase t (pop_pos pos) = pos ≤ f.head
  Knows f phase t (pop_exchange pos) =
      (pos ≤ f.head) × (pos ≡ f.head → phase (pos % f.size) ≡ full pos)
  Knows f phase t pop_again = Unit {0}
  Knows f phase t (pop_data pos) = phase (pos % f.size) ≡ reading pos t
  Knows f phase t (pop_seq pos d) =
      (phase (pos % f.size) ≡ reading pos t) × (item_at D f.claims pos ≡ some d)

  -- The cells and the threads agree on the phases.
  pub record Agree (f : Frame) (buf : List (Cell D)) (pc : ℕ → Pc D) (phase : ℕ → Phase)
      : Type 0 where
    pub two : 2 ≤ f.size
    pub room : length buf ≡ f.size
    pub counted : f.tail ≡ length f.claims
    pub ordered : f.head ≤ f.tail
    pub cells : (i : ℕ) → i < f.size → (c : Cell D) × (load D buf i ≡ ok c) × Fits f i (phase i) c
    pub threads : (t : ℕ) → Knows f phase t (pc t)
