-- ===== src/Position.antt =====
-- `mc_uuid` and `mc_position` of src/datautils.c: records packed into 64-bit words.
pub mod RoundTrip
pub mod Words
use c_spock_bot.Prelude.{ℕ, ◌+◌, ◌-◌, ◌*◌, ◌/◌, ◌%◌, ◌^◌, List, ◌++◌, bit_and, bit_or}
use c_spock_bot.Prelude.{leb, if◌then◌else◌, sign_extend}
use c_spock_bot.Outcome.{Outcome, ok, ◌>>=◌}
use c_spock_bot.Numeric.{enc_be64, dec_be64}

pub record Uuid : Type 0 where
  pub msb : ℕ
  pub lsb : ℕ

unfoldable pub enc_uuid : Uuid → List ℕ
enc_uuid source = enc_be64 source.msb ++ enc_be64 source.lsb

unfoldable pub dec_uuid : List ℕ → Outcome (Uuid × List ℕ)
dec_uuid source = do
  (msb, source) ← dec_be64 source
  (lsb, source) ← dec_be64 source
  ok (record { msb = msb; lsb = lsb }, source)

-- Each field is the bit pattern of an `int32_t`.
pub record Position : Type 0 where
  pub x : ℕ
  pub y : ℕ
  pub z : ℕ

-- `&` binds tighter than `|`, and `<<` tighter than both once bracketed. `z` is masked as an `int`.
unfoldable pub pack : Position → ℕ
pack source =
    bit_or
      (bit_or (bit_and (sign_extend source.x) 0x3ffffff * 2 ^ 38 % 2 ^ 64)
        (bit_and (sign_extend source.y) 0xfff * 2 ^ 26 % 2 ^ 64))
      (bit_and source.z 0x3ffffff)

unfoldable pub enc_position : Position → List ℕ
unfolding pack
enc_position source = enc_be64 (pack source)

-- `if((dest->f = i) >= 1 << (k - 1)) dest->f -= 1 << k;` on an `int32_t`.
abbrev pub signed_field : ℕ → ℕ → ℕ
signed_field k i = if leb (2 ^ (k - 1)) i then (i + 2 ^ 32 - 2 ^ k) % 2 ^ 32 else i

unfoldable pub unpack : ℕ → Position
unpack i = record {
  x = signed_field 26 (i / 2 ^ 38);
  y = signed_field 12 (bit_and (i / 2 ^ 26) 0xfff);
  z = signed_field 26 (bit_and i 0x3ffffff);
}

unfoldable pub dec_position : List ℕ → Outcome (Position × List ℕ)
unfolding unpack
dec_position source = do (i, source) ← dec_be64 source; ok (unpack i, source)
