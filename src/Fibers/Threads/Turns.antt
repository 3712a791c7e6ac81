-- ===== src/Fibers/Threads/Turns.antt =====
-- The five moves that turn the phase of a cell, and what the loads of `seq` tell.
use c_spock_bot.Prelude.{ℕ, ◌+◌, ◌%◌, ◌^◌, ◌≤◌, ◌<◌, ◌≡◌, ◌≢◌, refl, sym, ap, ◌∙◌, arith}
use c_spock_bot.Prelude.{List, [], ◌∷◌, ◌++◌, length, length-append}
use c_spock_bot.Outcome.{ok}
use c_spock_bot.Fibers.Ringbuf.{Cell, load, store, signed_difference, naught}
use c_spock_bot.Fibers.Ringbuf.Cells.{load-store, load-store_other, length-store}
use c_spock_bot.Fibers.Ringbuf.Contents.{
  item_at, item_at-end, item_at-append, item_at-length, cell_ne,
}
use c_spock_bot.Fibers.Threads.{
  update, Pc, idle, push_exchange, push_data, push_seq, pop_exchange, pop_data, pop_seq,
}
use c_spock_bot.Fibers.Threads.Phases.{
  Phase, free, writing, written, full, reading, Frame, Fits, Knows, Agree,
}
use c_spock_bot.Fibers.Threads.Moves.{update_same, Foreign, Advance, Stored, Turn-Agree}
use native.Mathlib.Nat.{mod-lt, add-mod_right}

-- A difference of zero to a small word is an equality.
pub signed_difference-naught : (a b : ℕ) → b < 2 ^ 63 → signed_difference a b ≡ ok naught → a ≡ b
unfolding signed_difference
signed_difference-naught a b h e = ground arith

next_cell : (m p : ℕ) → 2 ≤ m → (p + 1) % m ≢ p % m
next_cell m p h e =
    let here : p + 0 ≡ p = omega arith in
    cell_ne m p 1 0 (omega arith) (omega arith) (omega arith) (e ∙ ap (λ n. n % m) (sym here))

module _ (D : Type 0) where
  -- A push that finds its position in `seq` at the tail finds the cell free.
  pub Fits-free :
      (f : Frame D) (pos : ℕ) (ph : Phase) (c : Cell D)
      → 2 ≤ f.size
      → Fits D f (pos % f.size) ph c
      → c.seq ≡ pos
      → pos ≡ f.tail
      → ph ≡ free pos
  Fits-free f pos (free p) c two h s e = ap free (sym h.2 ∙ s)
  Fits-free f pos (writing p t) c two (live, le, q) s e = absurd (omega arith)
  Fits-free f pos (written p t) c two (live, le, q, it) s e = absurd (omega arith)
  Fits-free f pos (full p) c two (live, le, q, it) s e =
      absurd (next_cell f.size p two (ap (λ n. n % f.size) (sym q ∙ s) ∙ sym live.0))
  Fits-free f pos (reading p t) c two (live, le, q, it) s e =
      absurd (next_cell f.size p two (ap (λ n. n % f.size) (sym q ∙ s) ∙ sym live.0))

  -- A pop that finds the position after its own at the head finds the cell full.
  pub Fits-full :
      (f : Frame D) (pos : ℕ) (ph : Phase) (c : Cell D)
      → 2 ≤ f.size
      → Fits D f (pos % f.size) ph c
      → c.seq ≡ pos + 1
      → pos ≡ f.head
      → ph ≡ full pos
  Fits-full f pos (free p) c two (at, le, q) s e =
      absurd (next_cell f.size pos two (ap (λ n. n % f.size) (sym s ∙ q) ∙ at))
  Fits-full f pos (writing p t) c two (live, le, q) s e =
      absurd (next_cell f.size pos two (ap (λ n. n % f.size) (sym s ∙ q) ∙ live.0))
  Fits-full f pos (written p t) c two (live, le, q, it) s e =
      absurd (next_cell f.size pos two (ap (λ n. n % f.size) (sym s ∙ q) ∙ live.0))
  Fits-full f pos (full p) c two (live, le, q, it) s e = ap full (omega arith)
  Fits-full f pos (reading p t) c two (live, le, q, it) s e = absurd (omega arith)

  -- Nothing but the phase changes in the frame.
  still : (f : Frame D) (i : ℕ) → Advance D f f i
  still f i = record {
    same = refl;
    head_up = omega arith;
    tail_up = omega arith;
    kept = λ p d h. h;
    head_past = λ p lo hi. absurd (omega arith);
    tail_past = λ p lo hi. absurd (omega arith);
  }

  stored-Stored :
      (f : Frame D) (buf : List (Cell D)) (i : ℕ) (new : Phase) (c : Cell D)
      → length buf ≡ f.size
      → i < f.size
      → Fits D f i new c
      → Stored D f f buf (store D buf i c) i new
  stored-Stored f buf i new c room hi fits = record {
    cell = c;
    here = load-store D buf i c (omega arith);
    fits = fits;
    others = λ j ne. load-store_other D buf i j c (λ e. ne (sym e));
    length_same = length-store D buf i c;
  }

  module _ (f : Frame D) (buf : List (Cell D)) (pc : ℕ → Pc D) (phase : ℕ → Phase) (t pos : ℕ) where
    index_lt : Agree D f buf pc phase → pos % f.size < f.size
    index_lt a = mod-lt pos (omega (arith, a.two))

    -- What the phase of the position's cell says of a cell that is loaded there.
    pub seen :
        (c : Cell D)
        → Agree D f buf pc phase
        → load D buf (pos % f.size) ≡ ok c
        → Fits D f (pos % f.size) (phase (pos % f.size)) c
    seen c a e =
        let known = a.cells (pos % f.size) (index_lt a) in rw (same (sym known.1 ∙ e)) at known.2
      where
        same : {x y : Cell D} → ok x ≡ ok y → x ≡ y
        same e = cc

    -- The exchange of a push succeeds.
    pub claim-Agree :
        (d : D)
        → Agree D f buf pc phase
        → Knows D f phase t (push_exchange d pos)
        → f.tail ≡ pos
        → Agree D
            (record f { tail = f.tail + 1; claims = f.claims ++ (d ∷ []) })
            buf
            (update pc t (push_data d pos))
            (update phase (pos % f.size) (writing pos t))
    claim-Agree d a (le, k) e =
        let was = k (sym e) in
        let old = a.cells (pos % f.size) (index_lt a) in
        let at = rw was at (old.2) in
        Turn-Agree D f (record f { tail = f.tail + 1; claims = f.claims ++ (d ∷ []) }) buf buf pc
          phase (pos % f.size) (free pos) (writing pos t) t (push_data d pos) a
          (record {
            advance = record {
              same = refl;
              head_up = omega arith;
              tail_up = omega arith;
              kept = λ p x h. item_at-append D f.claims d p (item_at-length D f.claims p x h) ∙ h;
              head_past = λ p lo hi. absurd (omega arith);
              tail_past = λ p lo hi. ap (λ n. n % f.size) (omega arith);
            };
            was = was;
            foreign = λ u ne. tt;
            not_free = λ c. absurd (omega arith);
            not_full = λ c b. cc;
          })
          (record {
            cell = old.0;
            here = old.1;
            fits = ((refl, omega arith, omega (arith, a.two)), omega (arith, a.ordered), at.2);
            others = λ j ne. refl;
            length_same = refl;
          })
          (omega (arith, a.counted, length-append f.claims (d ∷ []))) (omega (arith, a.ordered))
          (
            update_same phase (pos % f.size) (writing pos t),
            ap (item_at D (f.claims ++ (d ∷ []))) (sym e ∙ a.counted) ∙ item_at-end D f.claims d,
          )

    -- A turn that changes one cell and no counter.
    cell-Agree :
        (old new : Phase) (c : Cell D) (p : Pc D)
        → Agree D f buf pc phase
        → phase (pos % f.size) ≡ old
        → ((u : ℕ) → u ≢ t → Foreign u old)
        → old ≢ free f.tail
        → old ≢ full f.head
        → Fits D f (pos % f.size) new c
        → Knows D f (update phase (pos % f.size) new) t p
        → Agree D f (store D buf (pos % f.size) c) (update pc t p) (update phase (pos % f.size) new)
    cell-Agree old new c p a was foreign nfree nfull fits k =
        Turn-Agree D f f buf (store D buf (pos % f.size) c) pc phase (pos % f.size) old new t p a
          (record {
            advance = still f (pos % f.size);
            was = was;
            foreign = foreign;
            not_free = λ e. nfree;
            not_full = λ e. nfull;
          })
          (stored-Stored f buf (pos % f.size) new c a.room (index_lt a) fits) a.counted a.ordered k

    -- A push that won stores its data.
    pub write-Agree :
        (d : D) (c : Cell D)
        → Agree D f buf pc phase
        → Knows D f phase t (push_data d pos)
        → load D buf (pos % f.size) ≡ ok c
        → Agree D f
            (store D buf (pos % f.size) (record { seq = c.seq; item = d }))
            (update pc t (push_seq pos))
            (update phase (pos % f.size) (written pos t))
    write-Agree d c a (was, it) e =
        let (live, le, q) = rw was at (seen c a e) in
        cell-Agree (writing pos t) (written pos t) (record { seq = c.seq; item = d }) (push_seq pos)
          a was (λ u ne e. ne (sym e)) (λ e. cc) (λ e. cc) (live, le, q, it)
          (update_same phase (pos % f.size) (written pos t))

    -- A push publishes its cell.
    pub publish-Agree :
        (c : Cell D)
        → Agree D f buf pc phase
        → Knows D f phase t (push_seq pos)
        → load D buf (pos % f.size) ≡ ok c
        → Agree D f
            (store D buf (pos % f.size) (record { seq = pos + 1; item = c.item }))
            (update pc t idle)
            (update phase (pos % f.size) (full pos))
    publish-Agree c a was e =
        let (live, le, q, it) = rw was at (seen c a e) in
        cell-Agree (written pos t) (full pos) (record { seq = pos + 1; item = c.item }) idle a was
          (λ u ne e. ne (sym e)) (λ e. cc) (λ e. cc) (live, le, refl, it) tt

    -- The exchange of a pop succeeds.
    pub take-Agree :
        Agree D f buf pc phase
        → Knows D f phase t (pop_exchange pos)
        → f.head ≡ pos
        → Agree D
            (record f { head = f.head + 1 })
            buf
            (update pc t (pop_data pos))
            (update phase (pos % f.size) (reading pos t))
    take-Agree a (le, k) e =
        let was = k (sym e) in
        let old = a.cells (pos % f.size) (index_lt a) in
        let (live, low, q, it) = rw was at (old.2) in
        Turn-Agree D f (record f { head = f.head + 1 }) buf buf pc phase (pos % f.size) (full pos)
          (reading pos t) t (pop_data pos) a
          (record {
            advance = record {
              same = refl;
              head_up = omega arith;
              tail_up = omega arith;
              kept = λ p x h. h;
              head_past = λ p lo hi. ap (λ n. n % f.size) (omega arith);
              tail_past = λ p lo hi. absurd (omega arith);
            };
            was = was;
            foreign = λ u ne. tt;
            not_free = λ c b. cc;
            not_full = λ c. absurd (omega arith);
          })
          (record {
            cell = old.0;
            here = old.1;
            fits = (live, omega arith, q, it);
            others = λ j ne. refl;
            length_same = refl;
          })
          a.counted (omega arith) (update_same phase (pos % f.size) (reading pos t))

    -- A pop that has the data gives the cell back for the next round.
    pub release-Agree :
        (d : D) (c : Cell D)
        → Agree D f buf pc phase
        → Knows D f phase t (pop_seq pos d)
        → load D buf (pos % f.size) ≡ ok c
        → Agree D f
            (store D buf (pos % f.size) (record { seq = pos + f.size; item = c.item }))
            (update pc t idle)
            (update phase (pos % f.size) (free (pos + f.size)))
    release-Agree d c a (was, have) e =
        let (live, lt, q, it) = rw was at (seen c a e) in
        cell-Agree (reading pos t) (free (pos + f.size))
          (record { seq = pos + f.size; item = c.item }) idle a was (λ u ne e. ne (sym e)) (λ e. cc)
          (λ e. cc) (add-mod_right pos f.size, live.2, refl) tt
