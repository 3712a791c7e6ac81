-- ===== src/Text.antt =====
-- Length-prefixed strings and raw buffers of src/datautils.c.
pub mod RoundTrip
pub mod Negative
use c_spock_bot.Prelude.{ℕ, ◌+◌, ◌-◌, ◌%◌, ◌^◌, List, ◌++◌, length, take, drop, ltb, add_size}
use c_spock_bot.Prelude.{if◌then◌else◌, sign_extend}
use c_spock_bot.Outcome.{Outcome, ok, err, null, fault, ◌>>=◌, to_int}
use c_spock_bot.Numeric.{read}
use c_spock_bot.Varnum.{size_varint, walk_varint, enc_varint, dec_varint}
use c_spock_bot.Library.{Library}

-- `mc_buffer`: `len` is the length of `base`.
unfoldable pub enc_buffer : List ℕ → List ℕ
enc_buffer base = base

-- `walk_string` only measures, so it needs no library.
unfoldable pub walk_string : List ℕ → ℕ → Outcome ℕ
walk_string source max_len = do
  ret ← walk_varint source max_len
  (len, _) ← dec_varint source
  if ltb max_len (add_size ret (sign_extend len)) then err 0 else to_int (ret + len)

module _ (lib : Library) where
  open lib use {Str, sdslen, content, sdsnewlen, malloc}

  unfoldable pub dec_buffer : List ℕ → ℕ → Outcome (List ℕ × List ℕ)
  dec_buffer source len = let copied = read len source in if malloc len then copied else null

  unfoldable pub size_string : Str → ℕ
  size_string string = size_varint (sdslen string % 2 ^ 32) + sdslen string

  -- `len` is the length as an `int32_t`; a negative one makes the `memcpy` run away.
  unfoldable pub enc_string : Str → Outcome (List ℕ)
  enc_string source =
      let len = sdslen source % 2 ^ 32 in
      if ltb len (2 ^ 31) then ok (enc_varint len ++ take len (content source)) else fault

  -- `sdsnewlen` copies `(size_t)len` bytes.
  unfoldable pub dec_string : List ℕ → Outcome (Str × List ℕ)
  dec_string source = do
    (len, source) ← dec_varint source
    (bytes, source) ← read (sign_extend len) source
    ok (sdsnewlen bytes, source)
