-- ===== src/Fibers/Threads/Moves.antt =====
-- A move of one thread keeps the agreement.
use c_spock_bot.Prelude.{ℕ, ◌+◌, ◌%◌, ◌≤◌, ◌<◌, ◌≡◌, ◌≢◌, sym, ap, ◌∙◌, arith, List, length, some}
use c_spock_bot.Prelude.{ℕ_discrete}
use c_spock_bot.Outcome.{ok}
use c_spock_bot.Fibers.Ringbuf.{Cell, load}
use c_spock_bot.Fibers.Ringbuf.Contents.{item_at}
use c_spock_bot.Fibers.Threads.{
  update, Pc, idle, push_pos, push_exchange, push_again, push_data, push_seq, pop_pos, pop_exchange,
  pop_again, pop_data, pop_seq,
}
use c_spock_bot.Fibers.Threads.Phases.{
  Phase, free, writing, written, full, reading, Frame, Live, Fits, Knows, Agree,
}
use native.Mathlib.Nat.{add-mod_right}

module _ {ℓ} {A : Type ℓ} where
  pub update_same : (f : ℕ → A) (i : ℕ) (a : A) → update f i a i ≡ a
  update_same f i a = ground arith

  pub update_other : (f : ℕ → A) (i j : ℕ) (a : A) → i ≢ j → update f i a j ≡ f j
  update_other f i j a ne = ground arith

-- Thread `u` does not hold the cell.
abbrev pub Foreign : ℕ → Phase → Type 0
Foreign u (free p) = Unit {0}
Foreign u (writing p t) = t ≢ u
Foreign u (written p t) = t ≢ u
Foreign u (full p) = Unit {0}
Foreign u (reading p t) = t ≢ u

writing_held : (u q : ℕ) (old : Phase) → Foreign u old → writing q u ≢ old
writing_held u q (writing x v) h e = ground arith
writing_held u q (free x) h e = cc
writing_held u q (written x v) h e = cc
writing_held u q (full x) h e = cc
writing_held u q (reading x v) h e = cc

written_held : (u q : ℕ) (old : Phase) → Foreign u old → written q u ≢ old
written_held u q (written x v) h e = ground arith
written_held u q (free x) h e = cc
written_held u q (writing x v) h e = cc
written_held u q (full x) h e = cc
written_held u q (reading x v) h e = cc

reading_held : (u q : ℕ) (old : Phase) → Foreign u old → reading q u ≢ old
reading_held u q (reading x v) h e = ground arith
reading_held u q (free x) h e = cc
reading_held u q (writing x v) h e = cc
reading_held u q (written x v) h e = cc
reading_held u q (full x) h e = cc

module _ (D : Type 0) where
  -- The counters go on, past positions of cell `i` only.
  pub record Advance (f f' : Frame D) (i : ℕ) : Type 0 where
    pub same : f'.size ≡ f.size
    pub head_up : f.head ≤ f'.head
    pub tail_up : f.tail ≤ f'.tail
    pub kept : (p : ℕ) (d : D) → item_at D f.claims p ≡ some d → item_at D f'.claims p ≡ some d
    pub head_past : (p : ℕ) → f.head ≤ p → p < f'.head → p % f.size ≡ i
    pub tail_past : (p : ℕ) → f.tail ≤ p → p < f'.tail → p % f.size ≡ i

  Live-other : (f f' : Frame D) (i j p : ℕ) → Advance f f' i → j ≢ i → Live D f j p → Live D f' j p
  Live-other f f' i j p a ne (at, below, room) =
      let next = add-mod_right p f.size in
      let past = a.tail_past (p + f.size) in
      (rw a.same at, omega (arith, a.tail_up), ground (arith, past, a.same))

  head-other :
      (f f' : Frame D) (i j p : ℕ)
      → Advance f f' i
      → j ≢ i
      → p % f.size ≡ j
      → f.head ≤ p
      → f'.head ≤ p
  head-other f f' i j p a ne at h = ground (arith, a.head_past p)

  -- The phases of the other cells stay true.
  Fits-other :
      (f f' : Frame D) (i j : ℕ) (ph : Phase) (c : Cell D)
      → Advance f f' i
      → j ≢ i
      → Fits D f j ph c
      → Fits D f' j ph c
  Fits-other f f' i j (free p) c a ne (at, le, e) = (rw a.same at, ground (arith, a.tail_past p), e)
  Fits-other f f' i j (writing p t) c a ne (live, le, e) =
      (Live-other f f' i j p a ne live, head-other f f' i j p a ne live.0 le, e)
  Fits-other f f' i j (written p t) c a ne (live, le, e, it) =
      (Live-other f f' i j p a ne live, head-other f f' i j p a ne live.0 le, e, a.kept p c.item it)
  Fits-other f f' i j (full p) c a ne (live, le, e, it) =
      (Live-other f f' i j p a ne live, head-other f f' i j p a ne live.0 le, e, a.kept p c.item it)
  Fits-other f f' i j (reading p t) c a ne (live, lt, e, it) =
      (Live-other f f' i j p a ne live, omega (arith, a.head_up), e, a.kept p c.item it)

  -- A cell goes from the phase `old` to the phase `new`, and nobody but thread `t` holds it before.
  pub record Turn (f f' : Frame D) (phase : ℕ → Phase) (i : ℕ) (old : Phase) (t : ℕ) : Type 0 where
    pub advance : Advance f f' i
    pub was : phase i ≡ old
    pub foreign : (u : ℕ) → u ≢ t → Foreign u old
    pub not_free : f'.tail ≡ f.tail → old ≢ free f.tail
    pub not_full : f'.head ≡ f.head → old ≢ full f.head

  stays :
      (phase : ℕ → Phase) (i x : ℕ) (old new q : Phase)
      → phase i ≡ old
      → q ≢ old
      → phase x ≡ q
      → update phase i new x ≡ q
  stays phase i x old new q was ne e = ground (arith, was, e)

  Knows-other :
      (f f' : Frame D) (phase : ℕ → Phase) (i : ℕ) (old new : Phase) (t u : ℕ) (p : Pc D)
      → Turn f f' phase i old t
      → u ≢ t
      → Knows D f phase u p
      → Knows D f' (update phase i new) u p
  Knows-other f f' phase i old new t u idle h ne k = tt
  Knows-other f f' phase i old new t u (push_pos d pos) h ne k = omega (arith, h.advance.tail_up)
  Knows-other f f' phase i old new t u (push_exchange d pos) h ne (le, k) = (
    omega (arith, h.advance.tail_up),
    λ e.
        let still : f'.tail ≡ f.tail = omega (arith, h.advance.tail_up) in
        let here : pos ≡ f.tail = omega arith in
        rw (h.advance.same) (
          stays phase i (pos % f.size) old new (free pos) h.was
            (λ c. h.not_free still (sym c ∙ ap free here)) (k here)),
  )
  Knows-other f f' phase i old new t u (push_again d) h ne k = tt
  Knows-other f f' phase i old new t u (push_data d pos) h ne (k, it) = (
    rw (h.advance.same) (
        stays phase i (pos % f.size) old new (writing pos u) h.was
          (writing_held u pos old (h.foreign u ne)) k),
    h.advance.kept pos d it,
  )
  Knows-other f f' phase i old new t u (push_seq pos) h ne k = rw (h.advance.same) (
      stays phase i (pos % f.size) old new (written pos u) h.was
        (written_held u pos old (h.foreign u ne)) k)
  Knows-other f f' phase i old new t u (pop_pos pos) h ne k = omega (arith, h.advance.head_up)
  Knows-other f f' phase i old new t u (pop_exchange pos) h ne (le, k) = (
    omega (arith, h.advance.head_up),
    λ e.
        let still : f'.head ≡ f.head = omega (arith, h.advance.head_up) in
        let here : pos ≡ f.head = omega arith in
        rw (h.advance.same) (
          stays phase i (pos % f.size) old new (full pos) h.was
            (λ c. h.not_full still (sym c ∙ ap full here)) (k here)),
  )
  Knows-other f f' phase i old new t u pop_again h ne k = tt
  Knows-other f f' phase i old new t u (pop_data pos) h ne k = rw (h.advance.same) (
      stays phase i (pos % f.size) old new (reading pos u) h.was
        (reading_held u pos old (h.foreign u ne)) k)
  Knows-other f f' phase i old new t u (pop_seq pos d) h ne (k, it) = (
    rw (h.advance.same) (
        stays phase i (pos % f.size) old new (reading pos u) h.was
          (reading_held u pos old (h.foreign u ne)) k),
    h.advance.kept pos d it,
  )

  -- The cell `i` of a buffer afterwards, all others as they were.
  pub record Stored (f f' : Frame D) (buf buf' : List (Cell D)) (i : ℕ) (new : Phase) : Type 0 where
    pub cell : Cell D
    pub here : load D buf' i ≡ ok cell
    pub fits : Fits D f' i new cell
    pub others : (j : ℕ) → j ≢ i → load D buf' j ≡ load D buf j
    pub length_same : length buf' ≡ length buf

  -- A thread turns the phase of a cell.
  pub Turn-Agree :
      (f f' : Frame D) (buf buf' : List (Cell D)) (pc : ℕ → Pc D) (phase : ℕ → Phase) (i : ℕ)
      (old new : Phase) (t : ℕ) (p : Pc D)
      → Agree D f buf pc phase
      → Turn f f' phase i old t
      → Stored f f' buf buf' i new
      → f'.tail ≡ length f'.claims
      → f'.head ≤ f'.tail
      → Knows D f' (update phase i new) t p
      → Agree D f' buf' (update pc t p) (update phase i new)
  Turn-Agree f f' buf buf' pc phase i old new t p a h s counted ordered k = record {
    two = rw (h.advance.same) a.two;
    room = s.length_same ∙ a.room ∙ sym h.advance.same;
    counted = counted;
    ordered = ordered;
    cells = λ j hj. cell j (omega (arith, h.advance.same));
    threads = thread;
  }
    where
      cell :
          (j : ℕ)
          → j < f.size
          → (c : Cell D) × (load D buf' j ≡ ok c) × Fits D f' j (update phase i new j) c
      cell j hj = elim (ℕ_discrete i j) [
        | yes e ↦ (s.cell, rw (← e) s.here, rw (← e, update_same phase i new) s.fits)
        | no ne ↦
            let old_cell = a.cells j hj in
            (
              old_cell.0,
              s.others j (λ e. ne (sym e)) ∙ old_cell.1,
              rw (update_other phase i j new ne)
                  (Fits-other f f' i j (phase j) old_cell.0 h.advance (λ e. ne (sym e)) old_cell.2),
            )
      ]

      thread : (u : ℕ) → Knows D f' (update phase i new) u (update pc t p u)
      thread u = elim (ℕ_discrete t u) [
        | yes e ↦ rw (← e, update_same pc t p) k
        | no ne ↦
            rw (update_other pc t u p ne)
              (Knows-other f f' phase i old new t u (pc u) h (λ e. ne (sym e)) (a.threads u))
      ]

  -- A thread that changes nothing that is shared.
  pub quiet-Agree :
      (f : Frame D) (buf : List (Cell D)) (pc : ℕ → Pc D) (phase : ℕ → Phase) (t : ℕ) (p : Pc D)
      → Agree D f buf pc phase
      → Knows D f phase t p
      → Agree D f buf (update pc t p) phase
  quiet-Agree f buf pc phase t p a k = record {
    two = a.two;
    room = a.room;
    counted = a.counted;
    ordered = a.ordered;
    cells = a.cells;
    threads = λ u. elim (ℕ_discrete t u) [
      | yes e ↦ rw (← e, update_same pc t p) k
      | no ne ↦ rw (update_other pc t u p ne) (a.threads u)
    ];
  }
