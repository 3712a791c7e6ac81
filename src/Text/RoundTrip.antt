-- ===== src/Text/RoundTrip.antt =====
-- `dec_string` and `walk_string` on what `enc_string` writes.
use c_spock_bot.Prelude.{ℕ, ◌+◌, ◌%◌, ◌^◌, ◌≤◌, ◌<◌, ◌≡◌, arith}
use c_spock_bot.Prelude.{List, ◌++◌, append_assoc, length, length-append, take, ltb, if◌then◌else◌}
use c_spock_bot.Prelude.{take-length, All, All-append, IsByte, sign_extend}
use c_spock_bot.Outcome.{ok, err}
use c_spock_bot.Numeric.{read}
use c_spock_bot.Numeric.RoundTrip.{read-append}
use c_spock_bot.Varnum.{varnum_overrun, enc_varint}
use c_spock_bot.Varnum.Encode.{size_varint-enc}
use c_spock_bot.Varnum.RoundTrip.{
  dec_varint-enc_varint, walk_varint-enc_varint, length-enc_varint, enc_varint-IsByte,
}
use c_spock_bot.Library.{Library}
use c_spock_bot.Text.{walk_string, size_string, enc_string, dec_string}

module _ (lib : Library) where
  open lib use {Str, sdslen, content, sdsnewlen, length-content, content-IsByte, sdsnewlen-content}

  -- What `enc_string` writes for a string that an `int32_t` can measure.
  abbrev pub string_bytes : Str → List ℕ
  string_bytes s = enc_varint (sdslen s) ++ content s

  pub enc_string-bytes : (s : Str) → sdslen s < 2 ^ 31 → enc_string lib s ≡ ok (string_bytes s)
  unfolding enc_string
  enc_string-bytes s h =
      let whole : sdslen s % 2 ^ 32 ≡ sdslen s = omega arith in
      let all : take (sdslen s) (content s) ≡ content s =
        rw (← length-content s) (take-length (content s)) in
      rw whole (ground (arith, all))

  pub string_bytes-IsByte : (s : Str) → sdslen s < 2 ^ 31 → All IsByte (string_bytes s)
  string_bytes-IsByte s h =
      All-append IsByte (enc_varint (sdslen s)) (content s)
        (enc_varint-IsByte (sdslen s) (omega arith)) (content-IsByte s)

  pub length-string_bytes :
      (s : Str) → length (string_bytes s) ≡ length (enc_varint (sdslen s)) + sdslen s
  length-string_bytes s =
      omega (arith, length-append (enc_varint (sdslen s)) (content s), length-content s)

  following : (s : Str) (rest : List ℕ) → All IsByte rest → All IsByte (content s ++ rest)
  following s rest hr = All-append IsByte (content s) rest (content-IsByte s) hr

  pub dec_string-bytes :
      (s : Str) (rest : List ℕ)
      → sdslen s < 2 ^ 31
      → All IsByte rest
      → dec_string lib (string_bytes s ++ rest) ≡ ok (s, rest)
  unfolding dec_string
  dec_string-bytes s rest h hr =
      let extended : sign_extend (sdslen s) ≡ sdslen s = ground arith in
      let copied : read (sdslen s) (content s ++ rest) ≡ ok (content s, rest) =
        rw (← length-content s) (read-append (content s) rest) in
      rw (
        append_assoc (enc_varint (sdslen s)) (content s) rest,
        dec_varint-enc_varint (sdslen s) (content s ++ rest) (omega arith) (following s rest hr),
        extended,
        copied,
        sdsnewlen-content s,
      )

  -- A string of fewer than `2 ^ 31` bytes is encoded, and `dec_string` reads it back and leaves its
  -- pointer at whatever follows.
  pub dec_string-enc_string :
      (s : Str) (rest : List ℕ)
      → sdslen s < 2 ^ 31
      → All IsByte rest
      → (bytes : List ℕ) × (enc_string lib s ≡ ok bytes)
        × (dec_string lib (bytes ++ rest) ≡ ok (s, rest))
  dec_string-enc_string s rest h hr =
      (string_bytes s, enc_string-bytes s h, dec_string-bytes s rest h hr)

  -- On a buffer of `max_len` bytes, fewer than `2 ^ 31`, that begins with an encoded string
  -- `walk_string` returns the length of the encoding if `max_len` allows it, and otherwise -1, or -2
  -- where even the prefix does not fit.
  pub walk_string-enc_string :
      (s : Str) (rest : List ℕ) (max_len : ℕ)
      → sdslen s < 2 ^ 31
      → All IsByte rest
      → max_len ≤ length (string_bytes s ++ rest)
      → max_len < 2 ^ 31
      → walk_string (string_bytes s ++ rest) max_len ≡ (
          if ltb max_len (length (enc_varint (sdslen s)))
          then err varnum_overrun
          else if ltb max_len (length (string_bytes s))
          then err 0
          else ok (length (string_bytes s)))
  unfolding walk_string
  walk_string-enc_string s rest m h hr room small =
      let assoc = append_assoc (enc_varint (sdslen s)) (content s) rest in
      rw assoc (
        ground (
          arith,
          assoc,
          length-string_bytes s,
          length-enc_varint (sdslen s) (omega arith),
          walk_varint-enc_varint (sdslen s) (content s ++ rest) m (omega arith)
              (following s rest hr),
          dec_varint-enc_varint (sdslen s) (content s ++ rest) (omega arith) (following s rest hr),
        ))

  -- `size_string` is the number of bytes that `enc_string` writes, but one too few for the strings of
  -- 128 to 255 bytes.
  pub size_string-enc_string :
      (s : Str)
      → sdslen s < 2 ^ 31
      → length (string_bytes s)
        ≡ size_string lib s
          + (if ltb (sdslen s) 128 then 0 else if ltb (sdslen s) 256 then 1 else 0)
  unfolding size_string
  size_string-enc_string s h =
      let whole : sdslen s % 2 ^ 32 ≡ sdslen s = omega arith in
      rw whole (omega (arith, length-string_bytes s, size_varint-enc (sdslen s) (omega arith)))
