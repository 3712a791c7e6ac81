-- ===== src/Fibers/Queue.antt =====
-- What src/fibers/scheduler.c relies on in its queues, which src/fibers/queue.c implements.
pub mod Ring
use c_spock_bot.Prelude.{ℕ, suc, ◌<◌, ◌≡◌, List, [], ◌∷◌, ◌++◌, length}
use c_spock_bot.Outcome.{Outcome, ok, err}

-- A bounded queue of items `D`. `Holds n q items` says that `q` holds the items, the oldest first, and
-- that `n` more pushes may be made on it.
pub record BoundedQueue (D : Type 0) : Type 1 where
  pub Q : Type 0
  pub size : ℕ
  pub push : Q → D → Outcome Q
  pub pop : Q → Outcome (D × Q)
  pub Holds : ℕ → Q → List D → Type 0
  pub push-room :
      (n : ℕ) (q : Q) (items : List D) (d : D)
      → Holds (suc n) q items
      → length items < size
      → (q' : Q) × (push q d ≡ ok q') × Holds n q' (items ++ (d ∷ []))
  pub push-full :
      (n : ℕ) (q : Q) (items : List D) (d : D)
      → Holds n q items
      → length items ≡ size
      → push q d ≡ err 0
  pub pop-first :
      (n : ℕ) (q : Q) (items : List D) (d : D)
      → Holds n q (d ∷ items)
      → (q' : Q) × (pop q ≡ ok (d, q')) × Holds n q' items
  pub pop-empty : (n : ℕ) (q : Q) → Holds n q [] → pop q ≡ err 0
  pub Holds-less : (n : ℕ) (q : Q) (items : List D) → Holds (suc n) q items → Holds n q items
