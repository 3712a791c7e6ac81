-- ===== src/Net/Start/Each.antt =====
-- What a loop over an array does, from what one round does.
use c_spock_bot.Prelude.{ℕ, ◌+◌, ◌≡◌, refl, arith, List, [], ◌∷◌, Option, some}
use mathlib.Core.Path.{subst}
use c_spock_bot.Outcome.{Outcome, ok}
use c_spock_bot.Net.Start.{each}

-- Each result stands in this relation to its element.
abbrev pub Each : {X Y : Type 0} → (X → Y → Type 0) → List X → List Y → Type 0
Each Q [] [] = Unit {0}
Each Q [] (y ∷ ys) = ⊥
Each Q (x ∷ xs) [] = ⊥
Each Q (x ∷ xs) (y ∷ ys) = Q x y × Each Q xs ys

abbrev pub total : {X : Type 0} → (X → ℕ) → List X → ℕ
total w [] = 0
total w (x ∷ xs) = w x + total w xs

Each-map :
    {X Y : Type 0} (Q Q' : X → Y → Type 0) (xs : List X) (ys : List Y)
    → ((x : X) (y : Y) → Q x y → Q' x y)
    → Each Q xs ys
    → Each Q' xs ys
Each-map Q Q' [] [] f e = tt
Each-map Q Q' [] (y ∷ ys) f e = absurd e
Each-map Q Q' (x ∷ xs) [] f e = absurd e
Each-map Q Q' (x ∷ xs) (y ∷ ys) f (q, e) = (f x y q, Each-map Q Q' xs ys f e)

-- A state that is good with room for `b` more, and states that keep what was there.
module _ {S : Type 0} (Good : S → ℕ → Type 0) (Keeps : S → S → Type 0) (same : (s : S) → Keeps s s)
    (both : (s t u : S) → Keeps s t → Keeps t u → Keeps s u) where
  -- From a state with room for `w x` more, the step succeeds with a result as `Q` says.
  abbrev pub Does :
      {X Y : Type 0} → (S → X → Outcome (Option (Y × S))) → (X → ℕ) → (S → X → Y → Type 0) → Type 0
  Does {X} {Y} step w Q =
      (s : S) (b : ℕ) (x : X)
      → Good s (w x + b)
      → (y : Y) × (s' : S) × (step s x ≡ ok (some (y, s'))) × Good s' b × Keeps s s' × Q s' x y

  abbrev pub Stays : {X Y : Type 0} → (S → X → Y → Type 0) → Type 0
  Stays {X} {Y} Q = (s s' : S) (x : X) (y : Y) → Keeps s s' → Q s x y → Q s' x y

  pub Each-Stays : {X Y : Type 0} (Q : S → X → Y → Type 0) → Stays Q → Stays (λ s. Each (Q s))
  Each-Stays Q stays s s' xs ys k e = Each-map (Q s) (Q s') xs ys (λ x y q. stays s s' x y k q) e

  pub each-Does :
      {X Y : Type 0} (step : S → X → Outcome (Option (Y × S))) (w : X → ℕ) (Q : S → X → Y → Type 0)
      → Stays Q
      → Does step w Q
      → Does (each step) (total w) (λ s. Each (Q s))
  each-Does {X} {Y} step w Q stays does s b [] good =
      ([], s, refl, subst (Good s) (omega arith) good, same s, tt)
  each-Does {X} {Y} step w Q stays does s b (x ∷ xs) good =
      let more : Good s (w x + (total w xs + b)) = subst (Good s) (omega arith) good in
      let (y, t, run, good', k, q) = does s (total w xs + b) x more in
      let (ys, u, rest, good'', k', e) = each-Does step w Q stays does t b xs good' in
      (y ∷ ys, u, rw (run, rest) refl, good'', both s t u k k', (stays t u x y k' q, e))
