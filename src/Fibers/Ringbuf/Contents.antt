-- ===== src/Fibers/Ringbuf/Contents.antt =====
-- The bounded queue that a ring buffer stands for.
use c_spock_bot.Prelude.{
  ℕ, zero, suc, ◌+◌, ◌-◌, ◌%◌, ◌^◌, ◌≤◌, ◌<◌, ◌≡◌, ◌≢◌, refl, arith, List, [], ◌∷◌, ◌++◌, length,
}
use c_spock_bot.Prelude.{Option, none, some, ◌⊎◌, inl, inr, sym, ◌∙◌, dec_lt}
use native.Mathlib.Nat.{mod-lt, mod-eq_of_lt, mod-eq-sub-mod, mod-add-mod}
use c_spock_bot.Outcome.{ok}
use c_spock_bot.Fibers.Ringbuf.{load, Ringbuf}

module _ (D : Type 0) where
  abbrev pub item_at : List D → ℕ → Option D
  item_at [] i = none
  item_at (d ∷ items) zero = some d
  item_at (d ∷ items) (suc i) = item_at items i

  pub item_at-end : (items : List D) (d : D) → item_at (items ++ (d ∷ [])) (length items) ≡ some d
  item_at-end [] d = refl
  item_at-end (x ∷ items) d = item_at-end items d

  pub item_at-append :
      (items : List D) (d : D) (i : ℕ)
      → i < length items
      → item_at (items ++ (d ∷ [])) i ≡ item_at items i
  item_at-append [] d i h = absurd (omega arith)
  item_at-append (x ∷ items) d zero h = refl
  item_at-append (x ∷ items) d (suc i) h = item_at-append items d i (omega arith)

  pub item_at-length :
      (items : List D) (i : ℕ) (d : D) → item_at items i ≡ some d → i < length items
  item_at-length [] i d e = cc
  item_at-length (x ∷ items) zero d e = omega arith
  item_at-length (x ∷ items) (suc i) d e = omega (arith, item_at-length items i d e)

  -- Cell `i` from the head on holds the item `d` of the queue, with the sequence number that a pop at
  -- its position waits for.
  abbrev pub Full : ℕ → Ringbuf D → ℕ → D → Type 0
  Full k rb i d =
      load D rb.buf ((rb.head + i) % 2 ^ k) ≡ ok (record { seq = rb.head + i + 1; item = d })

  -- The cell is free for a push at its position.
  abbrev pub Free : ℕ → Ringbuf D → ℕ → Type 0
  Free k rb i =
      (d : D) × (load D rb.buf ((rb.head + i) % 2 ^ k)
        ≡ ok (record { seq = rb.head + i; item = d }))

  -- The ring buffer of `2 ^ k` cells stands for the queue `items`, the oldest first, and its counters
  -- are below `2 ^ 63`.
  pub record Stands (k : ℕ) (rb : Ringbuf D) (items : List D) : Type 0 where
    pub cells : 2 ≤ 2 ^ k
    pub masked : rb.bufmask + 1 ≡ 2 ^ k
    pub room : length rb.buf ≡ 2 ^ k
    pub counted : rb.tail ≡ rb.head + length items
    pub few : length items ≤ 2 ^ k
    pub bounded : rb.tail + 2 ^ k < 2 ^ 63
    pub full : (i : ℕ) (d : D) → item_at items i ≡ some d → Full k rb i d
    pub free : (i : ℕ) → length items ≤ i → i < 2 ^ k → Free k rb i

-- A position of less than two rounds, on the ring.
wrapped :
    (m r i : ℕ)
    → r < m
    → i < m
    → (((r + i) % m ≡ r + i) × (r + i < m)) ⊎ (((r + i) % m ≡ r + i - m) × (m ≤ r + i))
wrapped m r i hr hi = elim (dec_lt (r + i) m) [
  | yes h ↦ inl (mod-eq_of_lt h, h)
  | no h ↦ inr (mod-eq-sub-mod (omega arith) ∙ mod-eq_of_lt (omega arith), omega arith)
]

ring_ne : (m r i j : ℕ) → r < m → i < m → j < m → i ≢ j → (r + i) % m ≢ (r + j) % m
ring_ne m r i j hr hi hj ne e =
    let a = wrapped m r i hr hi in let b = wrapped m r j hr hj in grind arith

-- Different distances from the head, below the size, are different cells.
pub cell_ne : (m h i j : ℕ) → i < m → j < m → i ≢ j → (h + i) % m ≢ (h + j) % m
cell_ne m h i j hi hj ne e =
    ring_ne m (h % m) i j (mod-lt h (omega arith)) hi hj ne
      (mod-add-mod h m i ∙ e ∙ sym (mod-add-mod h m j))
