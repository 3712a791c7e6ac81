-- ===== src/Tests/Numbers.antt =====
-- Varints, varlongs and positions at concrete values.
use mathlib.Core.Equiv.{IsContr, Fiber}
use c_spock_bot.Position.Words.{packed, packed-IsEquiv}
use c_spock_bot.Prelude.{ℕ, ◌+◌, ◌-◌, ◌^◌, ◌≤◌, ◌≡◌, inl, inr, refl, arith, List, [], ◌∷◌, ◌++◌}
use c_spock_bot.Prelude.{length, drop, IsU32}
use c_spock_bot.Outcome.{ok}
use c_spock_bot.Numeric.{enc_be64}
use c_spock_bot.Varnum.{size_varint, enc_varint, dec_varint, walk_varint}
use c_spock_bot.Varnum.Encode.{size_varint-enc}
use c_spock_bot.Varnum.RoundTrip.{dec_varint-enc_varint, walk_varint-dec_varint}
use c_spock_bot.Position.{Position, enc_position, dec_position}
use c_spock_bot.Position.RoundTrip.{InWorld, enc_position-dec_position}
use c_spock_bot.Tests.Bytes.{all_bytes-IsByte}
use Prim.Native.Nat.{min}

size_varint-enc_example : length (enc_varint 200) ≡ size_varint 200 + 1
size_varint-enc_example = size_varint-enc 200 (omega arith)

-- 300 as a varint, and a byte behind it.
abbrev three_hundred : List ℕ
three_hundred = 172 ∷ 2 ∷ 7 ∷ []

dec_varint-enc_varint_example :
    dec_varint (enc_varint 4294967295 ++ (7 ∷ [])) ≡ ok (4294967295, 7 ∷ [])
dec_varint-enc_varint_example =
    dec_varint-enc_varint 4294967295 (7 ∷ []) (omega arith) (omega arith, tt)

walk_varint-dec_varint_example :
    (1 ≤ 2)
    × (2 ≤ min 3 5)
    × ((v : ℕ) × (dec_varint three_hundred ≡ ok (v, drop 2 three_hundred)) × IsU32 v)
unfolding walk_varint
walk_varint-dec_varint_example =
    walk_varint-dec_varint three_hundred 3 2 (all_bytes-IsByte three_hundred refl) (omega arith)
      refl

-- Twelve blocks west of the origin, at height 64.
abbrev west : Position
west = record { x = 2 ^ 32 - 12; y = 64; z = 5 }

west-InWorld : InWorld west
west-InWorld = record {
  x_fits = inr (omega arith, omega arith);
  y_fits = inl (omega arith);
  z_fits = inl (omega arith);
}

enc_position-dec_position_example :
    (p : Position) × (dec_position (enc_be64 (2 ^ 63 + 5) ++ []) ≡ ok (p, []))
    × (enc_position p ≡ enc_be64 (2 ^ 63 + 5))
    × InWorld p
enc_position-dec_position_example = enc_position-dec_position (2 ^ 63 + 5) [] (omega arith)

packed-IsEquiv_example : IsContr (Fiber packed (7, omega arith))
packed-IsEquiv_example = packed-IsEquiv (7, omega arith)
