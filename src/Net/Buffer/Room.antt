-- ===== src/Net/Buffer/Room.antt =====
-- Room in the read buffer.
use c_spock_bot.Prelude.{
  ℕ, ◌+◌, ◌-◌, ◌^◌, ◌≤◌, ◌<◌, ◌≡◌, refl, sym, ap, ◌∙◌, arith, List, [], ◌∷◌, ◌++◌, append_assoc,
}
use c_spock_bot.Prelude.{length, length-append, length-drop, drop, drop-append, leb}
use c_spock_bot.Prelude.{add_size, sub_size, Option, some, Bool-cases, inl, inr}
use c_spock_bot.Prelude.{All, All-append, All-drop}
use c_spock_bot.Outcome.{ok}
use c_spock_bot.Numeric.{read}
use c_spock_bot.Numeric.RoundTrip.{read-append}
use c_spock_bot.Net.Buffer.{Bbuf, compact, grow, make_room}
use c_spock_bot.Net.Buffer.Stream.{Holds, fits}

-- The buffer after the bytes have been moved to its base.
abbrev compacted : Bbuf → List ℕ → Bbuf
compacted b waiting = record b {
  memory = waiting ++ drop b.in_use b.memory;
  cur = 0;
  rem = b.len - b.in_use;
}

compact-compacted :
    (b : Bbuf) (waiting : List ℕ) → Holds b waiting → compact b ≡ ok (compacted b waiting)
unfolding compact
compact-compacted b waiting h =
    let reads : read b.in_use (drop b.cur b.memory) ≡ ok (waiting, h.room) =
      rw (h.counted, h.layout, h.at_cur, drop-append h.taken (waiting ++ h.room))
        (read-append waiting h.room) in
    let inside : b.in_use ≤ b.len = omega (arith, fits b waiting h) in
    let less : sub_size b.len b.in_use ≡ b.len - b.in_use = omega (arith, h.bounded) in
    rw (reads, less)

compacted-Holds :
    (b : Bbuf) (waiting : List ℕ) → Holds b waiting → Holds (compacted b waiting) waiting
compacted-Holds b waiting h =
    let behind = length-drop b.in_use b.memory in
    let size = length-append waiting (drop b.in_use b.memory) in
    record {
      taken = [];
      room = drop b.in_use b.memory;
      layout = refl;
      at_cur = refl;
      counted = h.counted;
      left = omega (arith, h.whole);
      whole = omega (arith, h.whole, h.counted, fits b waiting h);
      bounded = h.bounded;
    }

All-front : (P : ℕ → Type 0) (xs ys : List ℕ) → All P (xs ++ ys) → All P xs
All-front P [] ys h = tt
All-front P (x ∷ xs) ys (p, h) = (p, All-front P xs ys h)

All-behind : (P : ℕ → Type 0) (xs ys : List ℕ) → All P (xs ++ ys) → All P ys
All-behind P [] ys h = h
All-behind P (x ∷ xs) ys (p, h) = All-behind P xs ys h

compacted-All :
    (P : ℕ → Type 0) (b : Bbuf) (waiting : List ℕ)
    → Holds b waiting
    → All P b.memory
    → All P (compacted b waiting).memory
compacted-All P b waiting h old =
    All-append P waiting (drop b.in_use b.memory)
      (All-front P waiting h.room (All-behind P h.taken (waiting ++ h.room) (rw h.layout at old)))
      (All-drop P b.in_use b.memory old)

-- What `realloc` does where it succeeds: the old bytes stay in front, and the size is as asked.
pub record Extends (realloc : List ℕ → ℕ → Option (List ℕ)) (memory : List ℕ) (size : ℕ)
    : Type 0 where
  pub added : List ℕ
  pub succeeds : realloc memory size ≡ some (memory ++ added)
  pub sized : length (memory ++ added) ≡ size

grow-Holds :
    (P : ℕ → Type 0) (realloc : List ℕ → ℕ → Option (List ℕ)) (b : Bbuf) (waiting : List ℕ) (n : ℕ)
    → Holds b waiting
    → b.cur ≡ 0
    → b.in_use + n < 2 ^ 64
    → (e : Extends realloc b.memory (b.in_use + n))
    → (b' : Bbuf) × (grow realloc b n ≡ some b')
      × Holds b' waiting
      × (n ≤ b'.rem)
      × (All P b.memory → All P e.added → All P b'.memory)
unfolding grow
grow-Holds P realloc b waiting n h at_base bound e =
    let size : add_size b.in_use n ≡ b.in_use + n = omega arith in
    let none_taken : h.taken ≡ [] = empty h.taken (sym h.at_cur ∙ at_base) in
    let front : b.memory ≡ waiting ++ h.room =
      h.layout ∙ ap (λ t. t ++ (waiting ++ h.room)) none_taken in
    let spread : b.memory ++ e.added ≡ waiting ++ (h.room ++ e.added) =
      ap (λ m. m ++ e.added) front ∙ append_assoc waiting h.room e.added in
    let total : length (waiting ++ (h.room ++ e.added)) ≡ b.in_use + n =
      ap length (sym spread) ∙ e.sized in
    (
      record b { memory = b.memory ++ e.added; cur = 0; len = b.in_use + n; rem = n },
      rw (size, e.succeeds),
      record {
        taken = [];
        room = h.room ++ e.added;
        layout = spread;
        at_cur = refl;
        counted = h.counted;
        left = omega (arith, h.counted, length-append waiting (h.room ++ e.added));
        whole = sym e.sized;
        bounded = bound;
      },
      omega arith,
      λ old new. All-append P b.memory e.added old new,
    )
  where
    empty : (xs : List ℕ) → length xs ≡ 0 → xs ≡ []
    empty [] e = refl
    empty (x ∷ xs) e = absurd (omega arith)

-- What `realloc` does with a memory that it makes larger.
abbrev pub Grows : (P : ℕ → Type 0) → (List ℕ → ℕ → Option (List ℕ)) → Type 0
Grows P realloc =
    (memory : List ℕ) (size : ℕ)
    → length memory ≤ size
    → (e : Extends realloc memory size) × All P e.added

-- `sbnet_bbuf_make_room` leaves room for `n` bytes and keeps the bytes that wait, whichever of its
-- three ways it takes, if `realloc` succeeds and the sizes stay below `2 ^ 64`; what holds for all
-- bytes of the memory still does.
pub make_room-Holds :
    (P : ℕ → Type 0) (realloc : List ℕ → ℕ → Option (List ℕ)) (b : Bbuf) (waiting : List ℕ) (n : ℕ)
    → Grows P realloc
    → Holds b waiting
    → b.in_use + n < 2 ^ 64
    → (b' : Bbuf) × (make_room realloc b n ≡ ok (some b'))
      × Holds b' waiting
      × (n ≤ b'.rem)
      × (All P b.memory → All P b'.memory)
unfolding make_room
make_room-Holds P realloc b waiting n grows h bound = elim (Bool-cases (leb n b.rem)) [
  | inl fits_now ↦ (b, rw fits_now, h, ground arith, λ old. old)
  | inr tight ↦
      let moved = compacted-Holds b waiting h in
      elim (Bool-cases (leb n (b.len - b.in_use))) [
        | inl fits_then ↦ (
          compacted b waiting,
          rw (tight, compact-compacted b waiting h, fits_then),
          moved,
          ground arith,
          λ old. compacted-All P b waiting h old,
        )
        | inr still ↦
            let less : b.len - b.in_use < n = ground (arith, still) in
            let larger : length (waiting ++ drop b.in_use b.memory) ≤ b.in_use + n =
              omega (arith, moved.whole, less) in
            let (e, new) = grows (waiting ++ drop b.in_use b.memory) (b.in_use + n) larger in
            let grown = grow-Holds P realloc (compacted b waiting) waiting n moved refl bound e in
            (
              grown.0,
              rw (tight, compact-compacted b waiting h, still, grown.1),
              grown.2,
              grown.3,
              λ old. grown.4 (compacted-All P b waiting h old) new,
            )
      ]
]
