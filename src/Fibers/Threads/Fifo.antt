-- ===== src/Fibers/Threads/Fifo.antt =====
-- First in, first out, under any interleaving.
use c_spock_bot.Prelude.{ℕ, ◌+◌, ◌-◌, ◌%◌, ◌^◌, ◌≤◌, ◌<◌, ◌≡◌, ◌≢◌, sym, ap, ◌∙◌, arith}
use c_spock_bot.Prelude.{List, [], ◌∷◌, length, length-append, some, All}
use c_spock_bot.Outcome.{Outcome, ok, err, null, fault, stuck, ◌>>=◌}
use c_spock_bot.Fibers.Ringbuf.{Cell, Ringbuf, number_cells, vgc_ringbuf_init}
use c_spock_bot.Fibers.Ringbuf.Contents.{item_at, item_at-append, item_at-length, Stands}
use c_spock_bot.Fibers.Ringbuf.Init.{vgc_ringbuf_init-Stands}
use c_spock_bot.Fibers.Threads.{
  update, Pc, Event, quiet, claimed, returned, System, noted, handed, Step, pick, init, Reach,
  start, later,
}
use c_spock_bot.Fibers.Threads.Phases.{Phase, free, reading, Agree}
use c_spock_bot.Fibers.Threads.Invariant.{frame, Settles, Next, Move-Next}
use native.Mathlib.Nat.{mod-eq_of_lt}

module _ (D : Type 0) where
  -- The position of no other return.
  abbrev pub Fresh : ℕ → List (ℕ × D) → Type 0
  Fresh pos [] = Unit {0}
  Fresh pos ((q, d) ∷ returns) = (q ≢ pos) × Fresh pos returns

  abbrev pub Distinct : List (ℕ × D) → Type 0
  Distinct [] = Unit {0}
  Distinct ((pos, d) ∷ returns) = Fresh pos returns × Distinct returns

  -- A return has the item that was claimed for its position.
  abbrev pub Matches : List D → ℕ × D → Type 0
  Matches claims (pos, d) = item_at D claims pos ≡ some d

  -- Its position is below the head and is read by nobody.
  abbrev pub Over : ℕ → ℕ → (ℕ → Phase) → ℕ × D → Type 0
  Over size head phase (pos, d) = (pos < head) × ((u : ℕ) → phase (pos % size) ≢ reading pos u)

  pub record Inv (k : ℕ) (s : System D) : Type 0 where
    pub masked : s.rb.bufmask + 1 ≡ 2 ^ k
    pub phase : ℕ → Phase
    pub agree : Agree D (frame D k s.rb s.claims) s.rb.buf s.pc phase
    pub matches : All (Matches s.claims) s.returns
    pub over : All (Over (2 ^ k) s.rb.head phase) s.returns
    pub distinct : Distinct s.returns

  All-map :
      {P Q : ℕ × D → Type 0} (returns : List (ℕ × D))
      → ((r : ℕ × D) → P r → Q r)
      → All P returns
      → All Q returns
  All-map [] f h = tt
  All-map (r ∷ returns) f (h, hs) = (f r h, All-map returns f hs)

  noted_keeps :
      (claims : List D) (e : Event D) (p : ℕ) (d : D)
      → item_at D claims p ≡ some d
      → item_at D (noted D claims e) p ≡ some d
  noted_keeps claims quiet p d h = h
  noted_keeps claims (returned q x) p d h = h
  noted_keeps claims (claimed x) p d h =
      item_at-append D claims x p (item_at-length D claims p d h) ∙ h

  length-noted : (claims : List D) (e : Event D) → length claims ≤ length (noted D claims e)
  length-noted claims quiet = omega arith
  length-noted claims (returned q x) = omega arith
  length-noted claims (claimed x) = omega (arith, length-append claims (x ∷ []))

  -- A position that a thread reads is that of no return.
  reading-Fresh :
      (size head : ℕ) (phase : ℕ → Phase) (returns : List (ℕ × D)) (pos t : ℕ)
      → phase (pos % size) ≡ reading pos t
      → All (Over size head phase) returns
      → Fresh pos returns
  reading-Fresh size head phase [] pos t h o = tt
  reading-Fresh size head phase ((q, d) ∷ returns) pos t h ((lt, unread), o) = (
    (λ same. unread t (ap (λ n. phase (n % size)) same ∙ h ∙ ap (λ n. reading n t) (sym same))),
    reading-Fresh size head phase returns pos t h o,
  )

  module _ (size head : ℕ) (claims : List D) (t : ℕ) (phase phase' : ℕ → Phase) where
    -- What an event adds to the returns matches, is over, and is new.
    Adds : Event D → Type 0
    Adds (returned pos d) =
        Matches claims (pos, d)
        × Over size head phase' (pos, d)
        × (phase (pos % size) ≡ reading pos t)
    Adds quiet = Unit {0}
    Adds (claimed d) = Unit {0}

    handed-All :
        (P : ℕ × D → Type 0) (returns : List (ℕ × D)) (e : Event D)
        → Adds e
        → ((pos : ℕ) (d : D)
            → Matches claims (pos, d)
            → Over size head phase' (pos, d)
            → P (pos, d))
        → All P returns
        → All P (handed D returns e)
    unfolding Adds
    handed-All P returns quiet h f hs = hs
    handed-All P returns (claimed d) h f hs = hs
    handed-All P returns (returned pos d) h f hs = (f pos d h.0 h.1, hs)

    handed-Distinct :
        (lower : ℕ) (returns : List (ℕ × D)) (e : Event D)
        → Adds e
        → All (Over size lower phase) returns
        → Distinct returns
        → Distinct (handed D returns e)
    unfolding Adds
    handed-Distinct lower returns quiet h o d = d
    handed-Distinct lower returns (claimed x) h o d = d
    handed-Distinct lower returns (returned pos x) h o d =
        (reading-Fresh size lower phase returns pos t h.2 o, d)

  Settles-Adds :
      (k : ℕ) (rb : Ringbuf D) (claims : List D) (t : ℕ) (phase phase' : ℕ → Phase) (e : Event D)
      → Settles D k rb claims t phase phase' e
      → Adds (2 ^ k) rb.head claims t phase phase' e
  unfolding Adds
  Settles-Adds k rb claims t phase phase' quiet h = tt
  Settles-Adds k rb claims t phase phase' (claimed d) h = tt
  Settles-Adds k rb claims t phase phase' (returned pos d) (lt, it, was, now) = (it, (lt, now), was)

  Next-Inv :
      (k : ℕ) (s : System D) (t : ℕ) (rb' : Ringbuf D) (p : Pc D) (e : Event D) (inv : Inv k s)
      → Next D k s.rb rb' s.claims s.pc inv.phase t p e
      → Inv k (record {
        rb = rb';
        pc = update s.pc t p;
        claims = noted D s.claims e;
        returns = handed D s.returns e;
      })
  Next-Inv k s t rb' p e inv n =
      let adds = Settles-Adds k rb' (noted D s.claims e) t inv.phase n.phase' e n.settles in
      record {
        masked = n.masked;
        phase = n.phase';
        agree = n.agree;
        matches =
            handed-All (2 ^ k) rb'.head (noted D s.claims e) t inv.phase n.phase'
              (Matches (noted D s.claims e)) s.returns e adds (λ pos d m o. m)
              (All-map s.returns (λ (q, d) h. noted_keeps s.claims e q d h) inv.matches);
        over =
            handed-All (2 ^ k) rb'.head (noted D s.claims e) t inv.phase n.phase'
              (Over (2 ^ k) rb'.head n.phase') s.returns e adds (λ pos d m o. o)
              (All-map s.returns
                (λ (q, d) (lt, unread).
                  (omega (arith, n.head_up), λ u h. unread u (n.no_reader q u lt h)))
                inv.over);
        distinct =
            handed-Distinct (2 ^ k) rb'.head (noted D s.claims e) t inv.phase n.phase' s.rb.head
              s.returns e adds inv.over inv.distinct;
      }

  Step-Inv :
      {s s' : System D} (k : ℕ)
      → Step D s s'
      → length s'.claims + 2 ^ k < 2 ^ 63
      → Inv k s
      → Inv k s'
  Step-Inv {s} k (pick t {rb} {p} {e} mv) bound inv = Next-Inv k s t rb p e inv (
      Move-Next D k s.rb s.claims s.pc inv.phase t inv.masked inv.agree mv (inv.agree.threads t)
        bound)

  Step-claims : {s s' : System D} → Step D s s' → length s.claims ≤ length s'.claims
  Step-claims {s} (pick t {e = e} mv) = length-noted s.claims e

  initial_head :
      (size : ℕ) (run : Outcome (List (Cell D))) (rb : Ringbuf D)
      → (run >>= (λ buf. ok (record { bufmask = size - 1; buf = buf; head = 0; tail = 0 }))) ≡ ok rb
      → rb.head ≡ 0
  initial_head size (ok buf) rb e =
      ap (λ (o : Outcome (Ringbuf D)). elim o [ ok r ↦ r.head | _ ↦ 0 ]) (sym e)
  initial_head size (err n) rb e = absurd (cc)
  initial_head size null rb e = absurd (cc)
  initial_head size fault rb e = absurd (cc)
  initial_head size stuck rb e = absurd (cc)

  init-Inv : (k : ℕ) (rb : Ringbuf D) → rb.head ≡ 0 → Stands D k rb [] → Inv k (init D rb)
  init-Inv k rb at h = record {
    masked = h.masked;
    phase = free;
    agree = record {
      two = h.cells;
      room = h.room;
      counted = omega (arith, h.counted);
      ordered = omega (arith, h.counted);
      cells = λ i hi.
          let cell = h.free i (omega arith) hi in
          let index : (rb.head + i) % 2 ^ k ≡ i =
            ap (λ n. n % 2 ^ k) (omega arith) ∙ mod-eq_of_lt hi in
          (
            record { seq = rb.head + i; item = cell.0 },
            rw index at cell.1,
            (mod-eq_of_lt hi, omega (arith, h.counted), omega arith),
          );
      threads = λ t. tt;
    };
    matches = tt;
    over = tt;
    distinct = tt;
  }

  Reach-Inv :
      {rb : Ringbuf D} {s : System D} (k : ℕ)
      → Inv k (init D rb)
      → Reach D rb s
      → length s.claims + 2 ^ k < 2 ^ 63
      → Inv k s
  Reach-Inv k h start bound = h
  Reach-Inv k h (later r st) bound =
      Step-Inv k st bound (Reach-Inv k h r (omega (arith, Step-claims st)))

  started :
      (k : ℕ) (memory : List (Cell D)) (rb : Ringbuf D)
      → 2 ≤ 2 ^ k
      → 2 ^ k < 2 ^ 63
      → length memory ≡ 2 ^ k
      → vgc_ringbuf_init D memory (2 ^ k) ≡ ok rb
      → Inv k (init D rb)
  unfolding vgc_ringbuf_init
  started k memory rb two small room e =
      let new = vgc_ringbuf_init-Stands D k memory two small room in
      let same : new.0 ≡ rb = one (sym new.1 ∙ e) in
      init-Inv k rb (initial_head (2 ^ k) (number_cells D (2 ^ k) 0 memory) rb e)
        (rw same at (new.2))
    where
      one : {x y : Ringbuf D} → ok x ≡ ok y → x ≡ y
      one e = cc

  module _ (k : ℕ) (memory : List (Cell D)) (rb : Ringbuf D) (s : System D) (two : 2 ≤ 2 ^ k)
      (small : 2 ^ k < 2 ^ 63) (room : length memory ≡ 2 ^ k)
      (e : vgc_ringbuf_init D memory (2 ^ k) ≡ ok rb) (reach : Reach D rb s)
      (bound : length s.claims + 2 ^ k < 2 ^ 63) where
    pub reached-Inv : Inv k s
    reached-Inv = Reach-Inv k (started k memory rb two small room e) reach bound

    -- Any number of threads push to and pop from a ring buffer that `vgc_ringbuf_init` made, their
    -- shared accesses interleaved in any order and their exchanges failing at will, and fewer than
    -- `2 ^ 63 - 2 ^ k` pushes have won their exchange. Every pop that has returned has the item of the
    -- push that won the same position, so the items leave in the order in which they came, and no
    -- two pops return the item of the same push.
    pub returns-claims : All (Matches s.claims) s.returns × Distinct s.returns
    returns-claims = (reached-Inv.matches, reached-Inv.distinct)
