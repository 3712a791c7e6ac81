-- ===== src/Varnum/DecodeLong.antt =====
-- The decoding of varlongs in src/datautils.c.
use c_spock_bot.Prelude.{ℕ, ◌+◌, ◌*◌, ◌%◌, ◌^◌, ◌≤◌, ◌<◌, ◌≡◌, refl, arith}
use c_spock_bot.Prelude.{List, [], ◌∷◌, length, drop, All, IsByte}
use c_spock_bot.Prelude.{bit_or, sign_extend}
use c_spock_bot.Prelude.Bits.{top_bit, low_bits, bit_or-shifted}
use c_spock_bot.Outcome.{ok, fault}
use c_spock_bot.Varnum.{group, dec_varlong_loop, dec_varlong}
use c_spock_bot.Varnum.Walk.{span, span_pos}
use c_spock_bot.Varnum.Decode.{value}

varlong_from28 :
    (source : List ℕ) (acc : ℕ)
    → All IsByte source
    → acc < 2 ^ 28
    → span source ≤ 1
    → span source ≤ length source
    → acc + value source * 2 ^ 28 < 2 ^ 31
    → dec_varlong_loop source acc 28 ≡ ok (acc + value source * 2 ^ 28, drop (span source) source)
unfolding dec_varlong_loop value span
varlong_from28 [] acc hb h e l small = absurd (omega arith)
varlong_from28 (b ∷ source) acc (b8, hb) h e l small =
    ground (arith, top_bit b b8, low_bits b, span_pos source, bit_or-shifted 28 acc (b % 8))

varlong_from21 :
    (source : List ℕ) (acc : ℕ)
    → All IsByte source
    → acc < 2 ^ 21
    → span source ≤ 2
    → span source ≤ length source
    → acc + value source * 2 ^ 21 < 2 ^ 31
    → dec_varlong_loop source acc 21 ≡ ok (acc + value source * 2 ^ 21, drop (span source) source)
unfolding dec_varlong_loop value span
varlong_from21 [] acc hb h e l small = absurd (omega arith)
varlong_from21 (b ∷ source) acc (b8, hb) h e l small = ground (
  arith,
  top_bit b b8,
  low_bits b,
  span_pos source,
  bit_or-shifted 21 acc (b % 128),
  varlong_from28 source (acc + b % 128 * 2 ^ 21) hb,
)

varlong_from14 :
    (source : List ℕ) (acc : ℕ)
    → All IsByte source
    → acc < 2 ^ 14
    → span source ≤ 3
    → span source ≤ length source
    → acc + value source * 2 ^ 14 < 2 ^ 31
    → dec_varlong_loop source acc 14 ≡ ok (acc + value source * 2 ^ 14, drop (span source) source)
unfolding dec_varlong_loop value span
varlong_from14 [] acc hb h e l small = absurd (omega arith)
varlong_from14 (b ∷ source) acc (b8, hb) h e l small = ground (
  arith,
  top_bit b b8,
  low_bits b,
  span_pos source,
  bit_or-shifted 14 acc (b % 128),
  varlong_from21 source (acc + b % 128 * 2 ^ 14) hb,
)

varlong_from7 :
    (source : List ℕ) (acc : ℕ)
    → All IsByte source
    → acc < 2 ^ 7
    → span source ≤ 4
    → span source ≤ length source
    → acc + value source * 2 ^ 7 < 2 ^ 31
    → dec_varlong_loop source acc 7 ≡ ok (acc + value source * 2 ^ 7, drop (span source) source)
unfolding dec_varlong_loop value span
varlong_from7 [] acc hb h e l small = absurd (omega arith)
varlong_from7 (b ∷ source) acc (b8, hb) h e l small = ground (
  arith,
  top_bit b b8,
  low_bits b,
  span_pos source,
  bit_or-shifted 7 acc (b % 128),
  varlong_from14 source (acc + b % 128 * 2 ^ 7) hb,
)

varlong_from0 :
    (source : List ℕ) (acc : ℕ)
    → All IsByte source
    → acc < 2 ^ 0
    → span source ≤ 5
    → span source ≤ length source
    → acc + value source * 2 ^ 0 < 2 ^ 31
    → dec_varlong_loop source acc 0 ≡ ok (acc + value source * 2 ^ 0, drop (span source) source)
unfolding dec_varlong_loop value span
varlong_from0 [] acc hb h e l small = absurd (omega arith)
varlong_from0 (b ∷ source) acc (b8, hb) h e l small = ground (
  arith,
  top_bit b b8,
  low_bits b,
  span_pos source,
  bit_or-shifted 0 acc (b % 128),
  varlong_from7 source (acc + b % 128 * 2 ^ 0) hb,
)

varlong_past35 :
    (source : List ℕ) (acc : ℕ)
    → All IsByte source
    → 0 < span source
    → dec_varlong_loop source acc 35 ≡ fault
unfolding dec_varlong_loop span
varlong_past35 [] acc hb e = refl
varlong_past35 (b ∷ source) acc (b8, hb) e = refl

varlong_past28 :
    (source : List ℕ) (acc : ℕ)
    → All IsByte source
    → 1 < span source
    → dec_varlong_loop source acc 28 ≡ fault
unfolding dec_varlong_loop span
varlong_past28 [] acc hb e = refl
varlong_past28 (b ∷ source) acc (b8, hb) e =
    ground (arith, top_bit b b8, varlong_past35 source (bit_or acc (sign_extend (group b 28))) hb)

varlong_past21 :
    (source : List ℕ) (acc : ℕ)
    → All IsByte source
    → 2 < span source
    → dec_varlong_loop source acc 21 ≡ fault
unfolding dec_varlong_loop span
varlong_past21 [] acc hb e = refl
varlong_past21 (b ∷ source) acc (b8, hb) e =
    ground (arith, top_bit b b8, varlong_past28 source (bit_or acc (sign_extend (group b 21))) hb)

varlong_past14 :
    (source : List ℕ) (acc : ℕ)
    → All IsByte source
    → 3 < span source
    → dec_varlong_loop source acc 14 ≡ fault
unfolding dec_varlong_loop span
varlong_past14 [] acc hb e = refl
varlong_past14 (b ∷ source) acc (b8, hb) e =
    ground (arith, top_bit b b8, varlong_past21 source (bit_or acc (sign_extend (group b 14))) hb)

varlong_past7 :
    (source : List ℕ) (acc : ℕ)
    → All IsByte source
    → 4 < span source
    → dec_varlong_loop source acc 7 ≡ fault
unfolding dec_varlong_loop span
varlong_past7 [] acc hb e = refl
varlong_past7 (b ∷ source) acc (b8, hb) e =
    ground (arith, top_bit b b8, varlong_past14 source (bit_or acc (sign_extend (group b 7))) hb)

varlong_past0 :
    (source : List ℕ) (acc : ℕ)
    → All IsByte source
    → 5 < span source
    → dec_varlong_loop source acc 0 ≡ fault
unfolding dec_varlong_loop span
varlong_past0 [] acc hb e = refl
varlong_past0 (b ∷ source) acc (b8, hb) e =
    ground (arith, top_bit b b8, varlong_past7 source (bit_or acc (sign_extend (group b 0))) hb)

-- On at most five bytes whose number is below `2 ^ 31` `dec_varlong` takes exactly these and returns
-- the number.
pub dec_varlong-value :
    (source : List ℕ)
    → All IsByte source
    → span source ≤ 5
    → span source ≤ length source
    → value source < 2 ^ 31
    → dec_varlong source ≡ ok (value source, drop (span source) source)
unfolding dec_varlong
dec_varlong-value source hb e l small = ground (arith, varlong_from0 source 0 hb)

-- Where none of the first five bytes has a clear top bit `dec_varlong` does what C leaves undefined:
-- it reads behind the end, or shifts an `int` by 35.
pub dec_varlong-fault :
    (source : List ℕ) → All IsByte source → 5 < span source → dec_varlong source ≡ fault
unfolding dec_varlong
dec_varlong-fault source hb e = varlong_past0 source 0 hb e
