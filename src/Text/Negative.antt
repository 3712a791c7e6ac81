-- ===== src/Text/Negative.antt =====
-- Length prefixes that are negative as an `int32_t`.
use c_spock_bot.Prelude.{ℕ, zero, suc, ◌-◌, ◌^◌, ◌≤◌, ◌<◌, ◌≡◌, arith, refl}
use c_spock_bot.Prelude.{List, [], ◌∷◌, ◌++◌, length, All, IsByte, sign_extend}
use c_spock_bot.Outcome.{ok, fault}
use c_spock_bot.Numeric.{read}
use c_spock_bot.Varnum.{enc_varint}
use c_spock_bot.Varnum.Encode.{enc_varint-groups, length-groups_lower, length-groups}
use c_spock_bot.Varnum.RoundTrip.{dec_varint-enc_varint, walk_varint-enc_varint}
use c_spock_bot.Library.{Library}
use c_spock_bot.Text.{walk_string, dec_string}

read-short : (n : ℕ) (source : List ℕ) → length source < n → read n source ≡ fault
unfolding read
read-short zero source h = absurd (omega arith)
read-short (suc n) [] h = refl
read-short (suc n) (b ∷ source) h = rw (read-short n source (omega arith))

negative-length : (k : ℕ) → 1 ≤ k → k ≤ 5 → length (enc_varint (2 ^ 32 - k)) ≡ 5
negative-length k lo hi = rw (enc_varint-groups (2 ^ 32 - k) (omega arith)) (
    omega (
      arith,
      length-groups_lower 4 4 (2 ^ 32 - k) (omega arith) (omega arith),
      length-groups 4 (2 ^ 32 - k),
    ))

-- A length prefix of -k, with k from 1 to 5, is accepted by `walk_string`, with a size of 5 - k, on
-- every buffer of at least five bytes; `dec_string` on the same buffer runs behind its end.
pub walk_string_negative :
    (lib : Library) (k : ℕ) (rest : List ℕ) (max_len : ℕ)
    → 1 ≤ k
    → k ≤ 5
    → All IsByte rest
    → 5 ≤ max_len
    → max_len ≤ length (enc_varint (2 ^ 32 - k) ++ rest)
    → max_len < 2 ^ 31
    → length rest < 2 ^ 63
    → (walk_string (enc_varint (2 ^ 32 - k) ++ rest) max_len ≡ ok (5 - k))
      × (dec_string lib (enc_varint (2 ^ 32 - k) ++ rest) ≡ fault)
unfolding walk_string dec_string
walk_string_negative lib k rest m lo hi hr big room small memory =
    let decoded = dec_varint-enc_varint (2 ^ 32 - k) rest (omega arith) hr in
    let extended : sign_extend (2 ^ 32 - k) ≡ 2 ^ 64 - k = ground arith in
    (
      ground (
        arith,
        decoded,
        negative-length k lo hi,
        walk_varint-enc_varint (2 ^ 32 - k) rest m (omega arith) hr room,
      ),
      rw (decoded, extended, read-short (2 ^ 64 - k) rest (omega arith)),
    )
