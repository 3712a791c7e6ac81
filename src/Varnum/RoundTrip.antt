-- ===== src/Varnum/RoundTrip.antt =====
-- The decoders and walkers on what the encoders write.
use c_spock_bot.Prelude.{ℕ, ◌%◌, ◌^◌, ◌≤◌, ◌<◌, ◌≡◌, arith}
use c_spock_bot.Prelude.{
  List, ◌++◌, ltb, leb, if◌then◌else◌, length, length-append, drop, drop-append,
}
use c_spock_bot.Prelude.{All, All-append, IsByte, IsU32, IsU64, min}
use c_spock_bot.Outcome.{ok, err, fault}
use c_spock_bot.Varnum.{varnum_invalid, varnum_overrun, enc_varint, enc_varlong, dec_varint}
use c_spock_bot.Varnum.{dec_varlong, walk_varint, walk_varlong}
use c_spock_bot.Varnum.Encode.{groups, groups-IsByte, enc_varint-groups, enc_varlong-groups}
use c_spock_bot.Varnum.Encode.{length-groups, length-groups_lower, length-groups_upper}
use c_spock_bot.Varnum.Walk.{span, span-groups, span_pos, walk_varint-span, walk_varlong-span}
use c_spock_bot.Varnum.Decode.{value, dec_varint-value}
use c_spock_bot.Varnum.DecodeLong.{dec_varlong-value, dec_varlong-fault}
use c_spock_bot.Varnum.Decode.{value-groups}

-- What the encoders write is bytes.
pub enc_varint-IsByte : (v : ℕ) → IsU32 v → All IsByte (enc_varint v)
enc_varint-IsByte v h = rw (enc_varint-groups v h) (groups-IsByte 4 v (omega arith))

pub length-enc_varint :
    (v : ℕ) → IsU32 v → (1 ≤ length (enc_varint v)) × (length (enc_varint v) ≤ 5)
length-enc_varint v h = rw (enc_varint-groups v h) (length-groups 4 v)

span-enc_varint :
    (v : ℕ) (rest : List ℕ) → IsU32 v → span (enc_varint v ++ rest) ≡ length (enc_varint v)
span-enc_varint v rest h = rw (enc_varint-groups v h) (span-groups 4 v rest (omega arith))

value-enc_varint : (v : ℕ) (rest : List ℕ) → IsU32 v → value (enc_varint v ++ rest) ≡ v
value-enc_varint v rest h = rw (enc_varint-groups v h) (value-groups 4 v rest (omega arith))

-- `dec_varint` reads back every 32-bit value that `enc_varint` wrote, and leaves its pointer at
-- whatever follows.
pub dec_varint-enc_varint :
    (v : ℕ) (rest : List ℕ)
    → IsU32 v
    → All IsByte rest
    → dec_varint (enc_varint v ++ rest) ≡ ok (v, rest)
dec_varint-enc_varint v rest h hr = ground (
  arith,
  span-enc_varint v rest h,
  value-enc_varint v rest h,
  length-enc_varint v h,
  length-append (enc_varint v) rest,
  drop-append (enc_varint v) rest,
  dec_varint-value (enc_varint v ++ rest)
      (All-append IsByte (enc_varint v) rest (enc_varint-IsByte v h) hr),
)

-- On a buffer that begins with an encoded 32-bit value and holds `max_len` bytes `walk_varint`
-- returns the length of the encoding if `max_len` allows it, and -2 otherwise.
pub walk_varint-enc_varint :
    (v : ℕ) (rest : List ℕ) (max_len : ℕ)
    → IsU32 v
    → All IsByte rest
    → max_len ≤ length (enc_varint v ++ rest)
    → walk_varint (enc_varint v ++ rest) max_len ≡ (
        if leb (length (enc_varint v)) max_len
        then ok (length (enc_varint v))
        else err varnum_overrun)
walk_varint-enc_varint v rest m h hr room = ground (
  arith,
  span-enc_varint v rest h,
  length-enc_varint v h,
  walk_varint-span (enc_varint v ++ rest) m
      (All-append IsByte (enc_varint v) rest (enc_varint-IsByte v h) hr),
)

-- Where `walk_varint` returns `n` on a buffer that holds `max_len` bytes, `n` is between 1 and the
-- smaller of 5 and `max_len`, and `dec_varint` returns a 32-bit value and advances by `n`.
pub walk_varint-dec_varint :
    (source : List ℕ) (max_len n : ℕ)
    → All IsByte source
    → max_len ≤ length source
    → walk_varint source max_len ≡ ok n
    → (1 ≤ n)
      × (n ≤ min max_len 5)
      × ((v : ℕ) × (dec_varint source ≡ ok (v, drop n source)) × IsU32 v)
walk_varint-dec_varint source m n hb room e =
    let facts : (n ≡ span source) × (span source ≤ min m 5) =
      ground (arith, walk_varint-span source m hb room) in
    let (same, small) = facts in
    rw same (
      span_pos source,
      small,
      (value source % 2 ^ 32, dec_varint-value source hb (omega arith) (omega arith), omega arith),
    )

-- A 64-bit value below `2 ^ 31` comes back from `dec_varlong`.
pub dec_varlong-enc_varlong :
    (v : ℕ) (rest : List ℕ)
    → v < 2 ^ 31
    → All IsByte rest
    → dec_varlong (enc_varlong v ++ rest) ≡ ok (v, rest)
dec_varlong-enc_varlong v rest h hr = rw (enc_varlong-groups v (omega arith)) (
    ground (
      arith,
      span-groups 9 v rest (omega arith),
      value-groups 9 v rest (omega arith),
      length-groups_upper 4 9 v,
      length-append (groups 9 v) rest,
      drop-append (groups 9 v) rest,
      dec_varlong-value (groups 9 v ++ rest)
          (All-append IsByte (groups 9 v) rest (groups-IsByte 9 v (omega arith)) hr),
    ))

-- On the encoding of a 64-bit value from `2 ^ 35` on `dec_varlong` shifts an `int` by more than its
-- width, which C leaves undefined.
pub dec_varlong_large :
    (v : ℕ) (rest : List ℕ)
    → IsU64 v
    → 2 ^ 35 ≤ v
    → All IsByte rest
    → dec_varlong (enc_varlong v ++ rest) ≡ fault
dec_varlong_large v rest h big hr = rw (enc_varlong-groups v h) (
    dec_varlong-fault (groups 9 v ++ rest)
      (All-append IsByte (groups 9 v) rest (groups-IsByte 9 v (omega arith)) hr)
      (omega (arith, span-groups 9 v rest (omega arith), length-groups_lower 5 9 v)))

-- `walk_varlong` accepts the encoding of a 64-bit value, if `max_len` allows its length and the
-- buffer holds that, exactly where the value is below `2 ^ 63`; from there on it returns -1.
pub walk_varlong-enc_varlong :
    (v : ℕ) (rest : List ℕ) (max_len : ℕ)
    → IsU64 v
    → All IsByte rest
    → length (enc_varlong v) ≤ max_len
    → max_len ≤ length (enc_varlong v ++ rest)
    → walk_varlong (enc_varlong v ++ rest) max_len
      ≡ (if ltb v (2 ^ 63) then ok (length (enc_varlong v)) else err varnum_invalid)
walk_varlong-enc_varlong v rest m h hr = rw (enc_varlong-groups v h) (λ fits room. ground (
  arith,
  span-groups 9 v rest (omega arith),
  length-groups_lower 9 9 v,
  length-groups_upper 8 9 v,
  walk_varlong-span (groups 9 v ++ rest) m
      (All-append IsByte (groups 9 v) rest (groups-IsByte 9 v (omega arith)) hr),
))
