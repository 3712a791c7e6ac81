-- ===== src/Fibers/Ringbuf/Cells.antt =====
-- Loads and stores of cells.
use c_spock_bot.Prelude.{ℕ, zero, suc, ◌<◌, ◌≡◌, ◌≢◌, refl, arith, List, [], ◌∷◌, length}
use c_spock_bot.Outcome.{ok}
use c_spock_bot.Fibers.Ringbuf.{Cell, load, store}

module _ (D : Type 0) where
  pub load-store :
      (buf : List (Cell D)) (i : ℕ) (c : Cell D)
      → i < length buf
      → load D (store D buf i c) i ≡ ok c
  unfolding load store
  load-store [] i c h = absurd (omega arith)
  load-store (x ∷ buf) zero c h = refl
  load-store (x ∷ buf) (suc i) c h = load-store buf i c (omega arith)

  pub load-store_other :
      (buf : List (Cell D)) (i j : ℕ) (c : Cell D)
      → i ≢ j
      → load D (store D buf i c) j ≡ load D buf j
  unfolding load store
  load-store_other [] i j c h = refl
  load-store_other (x ∷ buf) zero zero c h = absurd (h refl)
  load-store_other (x ∷ buf) zero (suc j) c h = refl
  load-store_other (x ∷ buf) (suc i) zero c h = refl
  load-store_other (x ∷ buf) (suc i) (suc j) c h = load-store_other buf i j c (omega arith)

  pub length-store :
      (buf : List (Cell D)) (i : ℕ) (c : Cell D) → length (store D buf i c) ≡ length buf
  unfolding store
  length-store [] i c = refl
  length-store (x ∷ buf) zero c = refl
  length-store (x ∷ buf) (suc i) c = omega (arith, length-store buf i c)
