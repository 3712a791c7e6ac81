-- ===== src/Outcome/Laws.antt =====
-- What holds of the result of a sequence of calls.
use c_spock_bot.Prelude.{
  ℕ, ◌%◌, ◌<◌, ◌^◌, ◌≡◌, refl, ◌≢◌, arith, ltb, if◌then◌else◌, Bool, true, false,
}
use c_spock_bot.Outcome.{Outcome, ok, err, null, fault, stuck, ◌>>=◌, or_minus_one, to_int}

-- The fuel suffices, a returned value satisfies `P`, and `F` holds where the call is undefined.
abbrev pub Ensures : {A : Type 0} → Type 0 → (A → Type 0) → Outcome A → Type 0
Ensures F P (ok a) = P a
Ensures F P (err k) = Unit {0}
Ensures F P null = Unit {0}
Ensures F P fault = F
Ensures F P stuck = ⊥

module _ {A B : Type 0} where
  pub Ensures->>= :
      (F : Type 0) (P : A → Type 0) (Q : B → Type 0) (m : Outcome A) (f : A → Outcome B)
      → Ensures F P m
      → ((a : A) → P a → Ensures F Q (f a))
      → Ensures F Q (m >>= f)
  Ensures->>= F P Q (ok a) f h k = k a h
  Ensures->>= F P Q (err e) f h k = tt
  Ensures->>= F P Q null f h k = tt
  Ensures->>= F P Q fault f h k = h
  Ensures->>= F P Q stuck f h k = h

module _ {A : Type 0} where
  pub Ensures-or_minus_one :
      (F : Type 0) (P : A → Type 0) (m : Outcome A) → Ensures F P m → Ensures F P (or_minus_one m)
  Ensures-or_minus_one F P (ok a) h = h
  Ensures-or_minus_one F P (err k) h = tt
  Ensures-or_minus_one F P null h = tt
  Ensures-or_minus_one F P fault h = h
  Ensures-or_minus_one F P stuck h = h

  pub Ensures-if :
      (F : Type 0) (P : A → Type 0) (b : Bool) (x y : Outcome A)
      → (b ≡ true → Ensures F P x)
      → (b ≡ false → Ensures F P y)
      → Ensures F P (if b then x else y)
  Ensures-if F P true x y hx hy = hx refl
  Ensures-if F P false x y hx hy = hy refl

  pub Ensures-ne-stuck : (F : Type 0) (P : A → Type 0) (m : Outcome A) → Ensures F P m → m ≢ stuck
  Ensures-ne-stuck F P (ok a) h e = cc
  Ensures-ne-stuck F P (err k) h e = cc
  Ensures-ne-stuck F P null h e = cc
  Ensures-ne-stuck F P fault h e = cc
  Ensures-ne-stuck F P stuck h e = h

pub Ensures-to_int :
    (F : Type 0) (P : ℕ → Type 0) (n : ℕ) → ((w : ℕ) → w < 2 ^ 31 → P w) → Ensures F P (to_int n)
Ensures-to_int F P n h =
    Ensures-if F P (ltb (n % 2 ^ 32) (2 ^ 31)) _ _ (λ e. h (n % 2 ^ 32) (ground arith)) (λ e. tt)
