-- ===== src/Varnum/Decode.antt =====
-- What the decoders read, described by arithmetic.
use c_spock_bot.Prelude.{ℕ, zero, suc, ◌+◌, ◌*◌, ◌/◌, ◌%◌, ◌^◌, ◌≤◌, ◌<◌, ◌≡◌, arith}
use c_spock_bot.Prelude.{List, [], ◌∷◌, ◌++◌, ltb, if◌then◌else◌, length, drop, All, IsByte}
use c_spock_bot.Prelude.Bits.{top_bit, low_bits, bit_or-shifted}
use c_spock_bot.Outcome.{ok}
use c_spock_bot.Varnum.{dec_varint_loop, dec_varint}
use c_spock_bot.Varnum.Encode.{groups}
use c_spock_bot.Varnum.Walk.{span, span_pos}

-- The number that the groups of seven bits make up, with no limit on its size.
unfoldable pub value : List ℕ → ℕ
value [] = 0
value (b ∷ source) = b % 128 + (if ltb b 128 then 0 else 128 * value source)

-- The rounds of the loops, the last first, since the shift is a numeral in each.
varint_from28 :
    (source : List ℕ) (acc : ℕ)
    → All IsByte source
    → acc < 2 ^ 28
    → span source ≤ 1
    → span source ≤ length source
    → dec_varint_loop source acc 28
      ≡ ok (acc + value source * 2 ^ 28 % 2 ^ 32, drop (span source) source)
unfolding dec_varint_loop value span
varint_from28 [] acc hb h e l = absurd (omega arith)
varint_from28 (b ∷ source) acc (b8, hb) h e l =
    ground (arith, top_bit b b8, low_bits b, span_pos source, bit_or-shifted 28 acc (b % 16))

varint_from21 :
    (source : List ℕ) (acc : ℕ)
    → All IsByte source
    → acc < 2 ^ 21
    → span source ≤ 2
    → span source ≤ length source
    → dec_varint_loop source acc 21
      ≡ ok (acc + value source * 2 ^ 21 % 2 ^ 32, drop (span source) source)
unfolding dec_varint_loop value span
varint_from21 [] acc hb h e l = absurd (omega arith)
varint_from21 (b ∷ source) acc (b8, hb) h e l = ground (
  arith,
  top_bit b b8,
  low_bits b,
  span_pos source,
  bit_or-shifted 21 acc (b % 128),
  varint_from28 source (acc + b % 128 * 2 ^ 21) hb,
)

varint_from14 :
    (source : List ℕ) (acc : ℕ)
    → All IsByte source
    → acc < 2 ^ 14
    → span source ≤ 3
    → span source ≤ length source
    → dec_varint_loop source acc 14
      ≡ ok (acc + value source * 2 ^ 14 % 2 ^ 32, drop (span source) source)
unfolding dec_varint_loop value span
varint_from14 [] acc hb h e l = absurd (omega arith)
varint_from14 (b ∷ source) acc (b8, hb) h e l = ground (
  arith,
  top_bit b b8,
  low_bits b,
  span_pos source,
  bit_or-shifted 14 acc (b % 128),
  varint_from21 source (acc + b % 128 * 2 ^ 14) hb,
)

varint_from7 :
    (source : List ℕ) (acc : ℕ)
    → All IsByte source
    → acc < 2 ^ 7
    → span source ≤ 4
    → span source ≤ length source
    → dec_varint_loop source acc 7
      ≡ ok (acc + value source * 2 ^ 7 % 2 ^ 32, drop (span source) source)
unfolding dec_varint_loop value span
varint_from7 [] acc hb h e l = absurd (omega arith)
varint_from7 (b ∷ source) acc (b8, hb) h e l = ground (
  arith,
  top_bit b b8,
  low_bits b,
  span_pos source,
  bit_or-shifted 7 acc (b % 128),
  varint_from14 source (acc + b % 128 * 2 ^ 7) hb,
)

varint_from0 :
    (source : List ℕ) (acc : ℕ)
    → All IsByte source
    → acc < 2 ^ 0
    → span source ≤ 5
    → span source ≤ length source
    → dec_varint_loop source acc 0
      ≡ ok (acc + value source * 2 ^ 0 % 2 ^ 32, drop (span source) source)
unfolding dec_varint_loop value span
varint_from0 [] acc hb h e l = absurd (omega arith)
varint_from0 (b ∷ source) acc (b8, hb) h e l = ground (
  arith,
  top_bit b b8,
  low_bits b,
  span_pos source,
  bit_or-shifted 0 acc (b % 128),
  varint_from7 source (acc + b % 128 * 2 ^ 0) hb,
)

-- On at most five bytes of which the last has a clear top bit `dec_varint` takes exactly these, and
-- returns the low 32 bits of the number that they make up.
pub dec_varint-value :
    (source : List ℕ)
    → All IsByte source
    → span source ≤ 5
    → span source ≤ length source
    → dec_varint source ≡ ok (value source % 2 ^ 32, drop (span source) source)
unfolding dec_varint
dec_varint-value source hb e l = ground (arith, varint_from0 source 0 hb)

pub value-groups : (k v : ℕ) (rest : List ℕ) → v < 128 ^ suc k → value (groups k v ++ rest) ≡ v
unfolding value groups
value-groups zero v rest h = ground arith
value-groups (suc k) v rest h = ground (arith, value-groups k (v / 128) rest (omega arith))
