-- ===== src/Fibers/Idle/Missed.antt =====
-- The wake-up that `vgc_enqueue` does not send: a thread sleeps on although fibers are queued.
use c_spock_bot.Prelude.{
  ℕ, ◌≡◌, ◌≢◌, refl, sym, ap, ◌∙◌, arith, List, [], ◌∷◌, ◌++◌, append-nil, append_assoc, Bool, true,
  false, Option, none, some,
}
use mathlib.Core.Path.{subst, fun_ext}
use c_spock_bot.Fibers.Threads.{update}
use c_spock_bot.Fibers.Threads.Moves.{update_same, update_other}
use c_spock_bot.Fibers.Idle.{
  Spot, busy, checking, asleep, pushed, Shared, Act, look, miss, miss_all, lock, mark, find, next,
  sleep, unmark, unlock, push, quiet, Workers, act, at_first, From, still, then_turn,
}

module _ {A : Type 0} where
  update_twice : (f : ℕ → A) (i : ℕ) (x y : A) → update (update f i x) i y ≡ update f i y
  update_twice f i x y = fun_ext (λ j. ground arith)

  update_comm :
      (f : ℕ → A) (i j : ℕ) (x y : A)
      → i ≢ j
      → update (update f i x) j y ≡ update (update f j y) i x
  update_comm f i j x y ne = fun_ext (λ k. ground arith)

  update_self : (i : ℕ) (x : A) → update (λ j. x) i x ≡ (λ j. x)
  update_self i x = fun_ext (λ j. ground arith)

module _ (D : Type 0) (a b c : ℕ) (ab : a ≢ b) (ac : a ≢ c) (bc : b ≢ c) where
  -- Three threads, and the others busy; `queue` waits in `mid_q`.
  crew : Spot → Spot → Spot → ℕ → Spot
  crew pa pb pc = update (update (update (λ u. busy) c pc) b pb) a pa

  memory : List D → Bool → Option ℕ → Shared D
  memory queue flag mux = record {
    queues = update (λ q. []) 1 queue;
    is_waiter = flag;
    waiter_mux = mux;
  }

  at : Shared D → Spot → Spot → Spot → Workers D
  unfolding crew
  at m pa pb pc = record { shared = m; spots = crew pa pb pc }

  record Reached (m : Shared D) (pa pb pc : Spot) : Type 0 where
    run : From D (at_first D) (at m pa pb pc)

  first : Reached (memory [] false none) busy busy busy
  unfolding at crew memory
  first =
      let nil : List D = [] in
      record {
        run =
            rw (update_self 1 nil, update_self c busy, update_self b busy, update_self a busy)
              still;
      }

  move_a :
      {m m' : Shared D} {pa pb pc p : Spot}
      → Act D a m pa m' p
      → Reached m pa pb pc
      → Reached m' p pb pc
  unfolding at crew
  move_a {m} {m'} {pa} {pb} {pc} {p} mv before =
      let rest : ℕ → Spot = update (update (λ u. busy) c pc) b pb in
      record {
        run =
            subst (λ spots. From D (at_first D) (record { shared = m'; spots = spots }))
              (update_twice rest a pa p)
              (then_turn before.run (act a (rw (update_same rest a pa) mv)));
      }

  move_b :
      {m m' : Shared D} {pa pb pc p : Spot}
      → Act D b m pb m' p
      → Reached m pa pb pc
      → Reached m' pa p pc
  unfolding at crew
  move_b {m} {m'} {pa} {pb} {pc} {p} mv before =
      let rest : ℕ → Spot = update (λ u. busy) c pc in
      let here : crew pa pb pc b ≡ pb =
        update_other (update rest b pb) a b pa ab ∙ update_same rest b pb in
      let there : update (crew pa pb pc) b p ≡ crew pa p pc =
        update_comm (update rest b pb) a b pa p ab
        ∙ ap (λ f. update f a pa) (update_twice rest b pb p) in
      record {
        run =
            subst (λ spots. From D (at_first D) (record { shared = m'; spots = spots })) there
              (then_turn before.run (act b (subst (λ spot. Act D b m spot m' p) (sym here) mv)));
      }

  move_c :
      {m m' : Shared D} {pa pb pc p : Spot}
      → Act D c m pc m' p
      → Reached m pa pb pc
      → Reached m' pa pb p
  unfolding at crew
  move_c {m} {m'} {pa} {pb} {pc} {p} mv before =
      let rest : ℕ → Spot = update (λ u. busy) c pc in
      let here : crew pa pb pc c ≡ pc =
        update_other (update rest b pb) a c pa ac
        ∙ (update_other rest b c pb bc ∙ update_same (λ u. busy) c pc) in
      let there : update (crew pa pb pc) c p ≡ crew pa pb p =
        update_comm (update rest b pb) a c pa p ac
        ∙ ap (λ f. update f a pa)
            (update_comm rest b c pb p bc
              ∙ ap (λ f. update f b pb) (update_twice (λ u. busy) c pc p)) in
      record {
        run =
            subst (λ spots. From D (at_first D) (record { shared = m'; spots = spots })) there
              (then_turn before.run (act c (subst (λ spot. Act D c m spot m' p) (sym here) mv)));
      }

  other_queues :
      (queue : List D) (flag : Bool) (mux : Option ℕ) → (memory queue flag mux).queues 0 ≡ []
  unfolding memory
  other_queues queue flag mux = ground arith

  mid_queue :
      (queue : List D) (flag : Bool) (mux : Option ℕ) → (memory queue flag mux).queues 1 ≡ queue
  unfolding memory
  mid_queue queue flag mux = update_same (λ q. []) 1 queue

  no_queue : (q : ℕ) (flag : Bool) (mux : Option ℕ) → (memory [] flag mux).queues q ≡ []
  unfolding memory
  no_queue q flag mux = ground arith

  -- A memory whose middle queue is written.
  written :
      (queue queue' : List D) (flag : Bool) (mux : Option ℕ) {pa pb pc : Spot}
      → Reached
          (record (memory queue flag mux) {
            queues = update (memory queue flag mux).queues 1 queue';
          })
          pa
          pb
          pc
      → Reached (memory queue' flag mux) pa pb pc
  unfolding memory
  written queue queue' flag mux {pa} {pb} {pc} r =
      subst
        (λ queues.
          Reached (record { queues = queues; is_waiter = flag; waiter_mux = mux }) pa pb pc)
        (update_twice (λ q. []) 1 queue queue') r

  push_c :
      (queue : List D) (x : D) (flag : Bool) (mux : Option ℕ) {pa pb : Spot}
      → Reached (memory queue flag mux) pa pb busy
      → Reached (memory (queue ++ (x ∷ [])) flag mux) pa pb pushed
  push_c queue x flag mux {pa} {pb} r = written queue (queue ++ (x ∷ [])) flag mux (
      subst
        (λ items.
          Reached
            (record (memory queue flag mux) {
              queues = update (memory queue flag mux).queues 1 (items ++ (x ∷ []));
            })
            pa pb pushed)
        (mid_queue queue flag mux) (move_c (push 1 x (omega arith)) r))

  -- Thread a finds nothing and sleeps.
  a_sleeps : Reached (memory [] true none) asleep busy busy
  unfolding memory
  a_sleeps = move_a (sleep refl (no_queue 2 true (some a))) (
      move_a (next (omega arith) (no_queue 1 true (some a))) (
        move_a (next (omega arith) (no_queue 0 true (some a))) (
          move_a mark (
            move_a (lock refl) (
              move_a (miss_all refl (no_queue 2 false none)) (
                move_a (miss (omega arith) (no_queue 1 false none))
                  (move_a (miss (omega arith) (no_queue 0 false none)) (move_a look first))))))))

  -- Thread b finds nothing either and looks again with the lock.
  b_checks : Reached (memory [] true (some b)) asleep (checking 0) busy
  unfolding memory
  b_checks = move_b mark (
      move_b (lock refl) (
        move_b (miss_all refl (no_queue 2 true none)) (
          move_b (miss (omega arith) (no_queue 1 true none))
            (move_b (miss (omega arith) (no_queue 0 true none)) (move_b look a_sleeps)))))

  -- Thread c pushes a fiber, which b finds before c looks at `is_waiter`.
  b_finds : D → Reached (memory [] false none) asleep busy busy
  unfolding memory
  b_finds x = move_c (quiet refl) (
      move_b unlock (
        move_b unmark (
          written (x ∷ []) [] true (some b) (
            move_b (find (mid_queue (x ∷ []) true (some b))) (
              move_b (next (omega arith) (other_queues (x ∷ []) true (some b)))
                (push_c [] x true (some b) b_checks))))))

  pushes :
      (queue xs : List D)
      → Reached (memory queue false none) asleep busy busy
      → Reached (memory (queue ++ xs) false none) asleep busy busy
  unfolding memory
  pushes queue [] r = rw append-nil r
  pushes queue (x ∷ xs) r =
      rw (← append_assoc queue (x ∷ []) xs)
        (pushes (queue ++ (x ∷ [])) xs (move_c (quiet refl) (push_c queue x false none r)))

  flag : (queue : List D) → (memory queue false none).is_waiter ≡ false
  unfolding memory
  flag queue = refl

  -- Of any three threads one can come to sleep while every other thread is in a fiber, any fibers are
  -- queued behind each other, and `is_waiter` is cleared, so that no push wakes it: the second has
  -- found a fiber that the third has pushed, and has cleared `is_waiter` before the third looked at it.
  pub missed :
      D
      → (xs : List D)
      → (s : Workers D) × From D (at_first D) s
        × (s.spots a ≡ asleep)
        × ((u : ℕ) → a ≢ u → s.spots u ≡ busy)
        × (s.shared.is_waiter ≡ false)
        × (s.shared.queues 1 ≡ xs)
  unfolding at crew
  missed x xs = (
    at (memory xs false none) asleep busy busy,
    (pushes [] xs (b_finds x)).run,
    update_same (update (update (λ v. busy) c busy) b busy) a asleep,
    λ u ne. update_other (update (update (λ v. busy) c busy) b busy) a u asleep ne ∙ ground arith,
    flag xs,
    mid_queue xs false none,
  )
