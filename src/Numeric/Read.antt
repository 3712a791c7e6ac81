-- ===== src/Numeric/Read.antt =====
-- How far the decoders of fixed width advance.
use c_spock_bot.Prelude.{ℕ, zero, suc, ◌+◌, ◌≡◌, arith, List, [], ◌∷◌, length}
use c_spock_bot.Outcome.Laws.{Ensures, Ensures->>=}
use c_spock_bot.Numeric.{read, dec_be, dec_byte, dec_be16, dec_be32}

-- A decoder leaves the bytes behind the `n` that it took.
abbrev pub Leaves : {A : Type 0} → ℕ → List ℕ → A × List ℕ → Type 0
Leaves n source r = length source ≡ n + length r.1

read-Leaves : (n : ℕ) (source : List ℕ) → Ensures Unit (Leaves n source) (read n source)
unfolding read
read-Leaves zero source = omega arith
read-Leaves (suc n) [] = tt
read-Leaves (suc n) (b ∷ source) =
    Ensures->>= Unit (Leaves n source) _ (read n source) _ (read-Leaves n source)
      (λ r h. omega arith)

dec_be-Leaves : (n : ℕ) (source : List ℕ) → Ensures Unit (Leaves n source) (dec_be n source)
unfolding dec_be
dec_be-Leaves n source =
    Ensures->>= Unit (Leaves n source) _ (read n source) _ (read-Leaves n source) (λ r h. h)

pub dec_byte-Leaves : (source : List ℕ) → Ensures Unit (Leaves 1 source) (dec_byte source)
unfolding dec_byte
dec_byte-Leaves [] = tt
dec_byte-Leaves (b ∷ source) = omega arith

pub dec_be16-Leaves : (source : List ℕ) → Ensures Unit (Leaves 2 source) (dec_be16 source)
unfolding dec_be16
dec_be16-Leaves = dec_be-Leaves 2

pub dec_be32-Leaves : (source : List ℕ) → Ensures Unit (Leaves 4 source) (dec_be32 source)
unfolding dec_be32
dec_be32-Leaves = dec_be-Leaves 4
