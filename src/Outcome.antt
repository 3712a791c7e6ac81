-- ===== src/Outcome.antt =====
-- What a call of a C function comes to. Statements in sequence are a `do` block.
pub mod Laws
use c_spock_bot.Prelude.{ℕ, ◌-◌, ◌%◌, ◌^◌, ltb, if◌then◌else◌, Option, none, some}

-- `ok a`: the call returned `a` (a size, or a value beside the advanced pointer).
-- `err k`: it returned the negative `int` -(k + 1).
-- `null`: it returned NULL.
-- `fault`: it did what C leaves undefined, such as a read behind the end of the memory.
-- `stuck`: no C outcome, a loop of the model ran out of fuel.
pub data Outcome {ℓ} (A : Type ℓ) : Type ℓ where
  ok : A → Outcome A
  err : ℕ → Outcome A
  null : Outcome A
  fault : Outcome A
  stuck : Outcome A

-- `if((ret = f(...)) < 0) return ret;`, and so for the other ends.
infixl 5 ◌>>=◌
abbrev pub ◌>>=◌ {ℓ κ} : {A : Type ℓ} {B : Type κ} → Outcome A → (A → Outcome B) → Outcome B
ok a >>= f = f a
err k >>= f = err k
null >>= f = null
fault >>= f = fault
stuck >>= f = stuck

-- `if((ret = f(...)) < 0) return -1;`
abbrev pub or_minus_one {ℓ} : {A : Type ℓ} → Outcome A → Outcome A
or_minus_one (ok a) = ok a
or_minus_one (err k) = err 0
or_minus_one null = null
or_minus_one fault = fault
or_minus_one stuck = stuck

-- A caller that goes on with a returned NULL as a pointer.
abbrev pub unchecked {ℓ} : {A : Type ℓ} → Outcome A → Outcome A
unchecked (ok a) = ok a
unchecked (err k) = err k
unchecked null = fault
unchecked fault = fault
unchecked stuck = stuck

-- A `size_t` returned as an `int`: the low 32 bits, read with their sign.
abbrev pub to_int : ℕ → Outcome ℕ
to_int n = let w = n % 2 ^ 32 in if ltb w (2 ^ 31) then ok w else err (2 ^ 32 - w - 1)

-- What follows a call that may `exit`, here `none`.
abbrev pub unless_exit : {A B : Type 0} → Option A → (A → Outcome (Option B)) → Outcome (Option B)
unless_exit none next = ok none
unless_exit (some a) next = next a
