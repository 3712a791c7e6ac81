-- ===== src/Varnum.antt =====
-- The varint and varlong codecs of src/datautils.c. A `char *source` is the list of the bytes from
-- it on; an encoder is the list of the bytes that it writes at `dest`.
pub mod Encode
pub mod Decode
pub mod DecodeLong
pub mod Walk
pub mod RoundTrip
use c_spock_bot.Prelude.{ℕ, zero, suc, ◌+◌, ◌*◌, ◌/◌, ◌%◌, ◌^◌, ◌<◌, ◌≤◌, bit_and, bit_or, arith}
use c_spock_bot.Prelude.{List, [], ◌∷◌, ltb, leb, ◌==◌, if◌then◌else◌, dec_lt, sign_extend}
use c_spock_bot.Prelude.Order.{lt_wf}
use c_spock_bot.Outcome.{Outcome, ok, err, fault}
use mathlib.Core.Logic.{dite}
use mathlib.Core.WellFounded.{Acc}

-- The negative results -1 and -2.
abbrev pub varnum_invalid : ℕ
varnum_invalid = 0

abbrev pub varnum_overrun : ℕ
varnum_overrun = 1

unfoldable pub size_varint : ℕ → ℕ
size_varint v =
    if ltb v (2 ^ 8)
    then 1
    else if ltb v (2 ^ 14)
    then 2
    else if ltb v (2 ^ 21)
    then 3
    else if ltb v (2 ^ 28)
    then 4
    else 5

-- The tests of `size_varlong` from `1ULL << 35` on.
unfoldable pub size_varlong_wide : ℕ → ℕ
size_varlong_wide v =
    if ltb v (2 ^ 35)
    then 5
    else if ltb v (2 ^ 42)
    then 6
    else if ltb v (2 ^ 49)
    then 7
    else if ltb v (2 ^ 56)
    then 8
    else if ltb v (2 ^ 63)
    then 9
    else 10

unfoldable pub size_varlong : ℕ → ℕ
size_varlong v =
    if ltb v (2 ^ 8)
    then 1
    else if ltb v (2 ^ 14)
    then 2
    else if ltb v (2 ^ 21)
    then 3
    else if ltb v (2 ^ 28)
    then 4
    else size_varlong_wide v

shift_shrinks : (v : ℕ) → 0x80 ≤ v → v / 128 < v
shift_shrinks v h = omega arith

-- `for(; source >= 0x80; dest++, source >>= 7)`, the loop of both encoders.
unfoldable pub enc_loop : (v : ℕ) → Acc ◌<◌ v → List ℕ
unfolding dec_lt shift_shrinks
enc_loop v (Acc.intro _ smaller) =
    dite (dec_lt 0x7f v)
      (λ more. bit_or 0x80 (bit_and v 0x7f) ∷ enc_loop (v / 128) (smaller _ (shift_shrinks v more)))
      (λ _. bit_and v 0x7f ∷ [])

unfoldable pub enc_varint : ℕ → List ℕ
unfolding enc_loop lt_wf
enc_varint v = enc_loop v (lt_wf.apply v)

unfoldable pub enc_varlong : ℕ → List ℕ
unfolding enc_loop lt_wf
enc_varlong v = enc_loop v (lt_wf.apply v)

-- `for(; *source & 0x80; source++, len++)` with its two guards; the last length that may go on is
-- `last`. An empty list is a read behind the end.
unfoldable pub walk_loop : ℕ → List ℕ → ℕ → ℕ → Outcome ℕ
walk_loop last [] max_len len = fault
walk_loop last (b ∷ source) max_len len =
    let more = walk_loop last source max_len (len + 1) in
    if bit_and b 0x80 == 0
    then ok len
    else if ltb last len
    then err varnum_invalid
    else if leb max_len len
    then err varnum_overrun
    else more

unfoldable pub walk_varint : List ℕ → ℕ → Outcome ℕ
unfolding walk_loop
walk_varint source max_len =
    if max_len == 0 then err varnum_overrun else walk_loop 4 source max_len 1

unfoldable pub walk_varlong : List ℕ → ℕ → Outcome ℕ
unfolding walk_loop
walk_varlong source max_len =
    if max_len == 0 then err varnum_overrun else walk_loop 8 source max_len 1

-- `(*source & 0x7F) << i` is an `int`: its low 32 bits, and undefined from a shift by 32 on.
abbrev pub group : ℕ → ℕ → ℕ
group b i = bit_and b 0x7f * 2 ^ i % 2 ^ 32

-- What the loops add to `*dest`: as a `uint32_t`, and sign-extended as a `uint64_t`.
unfoldable pub dec_varint_loop : List ℕ → ℕ → ℕ → Outcome (ℕ × List ℕ)
dec_varint_loop [] acc i = fault
dec_varint_loop (b ∷ source) acc i =
    let acc' = bit_or acc (group b i) in
    let more = dec_varint_loop source acc' (i + 7) in
    if leb 32 i then fault else if bit_and b 0x80 == 0 then ok (acc', source) else more

unfoldable pub dec_varint : List ℕ → Outcome (ℕ × List ℕ)
unfolding dec_varint_loop
dec_varint source = dec_varint_loop source 0 0

unfoldable pub dec_varlong_loop : List ℕ → ℕ → ℕ → Outcome (ℕ × List ℕ)
dec_varlong_loop [] acc i = fault
dec_varlong_loop (b ∷ source) acc i =
    let acc' = bit_or acc (sign_extend (group b i)) in
    let more = dec_varlong_loop source acc' (i + 7) in
    if leb 32 i then fault else if bit_and b 0x80 == 0 then ok (acc', source) else more

unfoldable pub dec_varlong : List ℕ → Outcome (ℕ × List ℕ)
unfolding dec_varlong_loop
dec_varlong source = dec_varlong_loop source 0 0
