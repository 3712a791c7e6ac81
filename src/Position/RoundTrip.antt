-- ===== src/Position/RoundTrip.antt =====
-- Packing loses nothing on coordinates in range, and unpacking loses nothing at all.
use c_spock_bot.Prelude.{
  ℕ, ◌+◌, ◌-◌, ◌*◌, ◌/◌, ◌%◌, ◌^◌, ◌≤◌, ◌<◌, ◌≡◌, ◌⊎◌, inl, inr, ap, refl, arith,
}
use c_spock_bot.Prelude.{List, ◌++◌, append_assoc, bit_or, sign_extend, IsU64}
use c_spock_bot.Prelude.Bits.{bit_and-low_mask, bit_or-fields}
use c_spock_bot.Outcome.{ok}
use c_spock_bot.Numeric.{enc_be64, dec_be64}
use c_spock_bot.Numeric.RoundTrip.{dec_be-enc_be}
use c_spock_bot.Position.{Uuid, enc_uuid, dec_uuid, Position, pack, enc_position, unpack}
use c_spock_bot.Position.{dec_position, signed_field}

dec_be64-enc_be64 : (v : ℕ) (rest : List ℕ) → IsU64 v → dec_be64 (enc_be64 v ++ rest) ≡ ok (v, rest)
dec_be64-enc_be64 v rest h = ground (arith, dec_be-enc_be v rest)

-- `dec_uuid` reads back the two 64-bit halves that `enc_uuid` wrote.
pub dec_uuid-enc_uuid :
    (u : Uuid) (rest : List ℕ)
    → IsU64 u.msb
    → IsU64 u.lsb
    → dec_uuid (enc_uuid u ++ rest) ≡ ok (u, rest)
unfolding dec_uuid enc_uuid
dec_uuid-enc_uuid u rest h l =
    simp (append_assoc, dec_be64-enc_be64 u.msb _ h, dec_be64-enc_be64 u.lsb _ l)

-- A two's complement number of `k` bits in an `int32_t`.
abbrev pub FitsSigned : ℕ → ℕ → Type 0
FitsSigned k w = (w < 2 ^ (k - 1)) ⊎ ((2 ^ 32 - 2 ^ (k - 1) ≤ w) × (w < 2 ^ 32))

pub record InWorld (p : Position) : Type 0 where
  pub x_fits : FitsSigned 26 p.x
  pub y_fits : FitsSigned 12 p.y
  pub z_fits : FitsSigned 26 p.z

pack_words :
    (x y z : ℕ)
    → x < 2 ^ 26
    → y < 2 ^ 12
    → z < 2 ^ 26
    → bit_or (bit_or (x * 2 ^ 38 % 2 ^ 64) (y * 2 ^ 26 % 2 ^ 64)) z ≡ z + y * 2 ^ 26 + x * 2 ^ 38
pack_words x y z hx hy hz =
    ground (arith, bit_or-fields 38 (y * 2 ^ 26) x, bit_or-fields 26 z (y + x * 2 ^ 12))

pub pack-fields :
    (p : Position)
    → pack p
      ≡ p.z % 2 ^ 26 + (sign_extend p.y % 2 ^ 12) * 2 ^ 26 + (sign_extend p.x % 2 ^ 26) * 2 ^ 38
unfolding pack
pack-fields p =
    rw
      (
        bit_and-low_mask 26 (sign_extend p.x) 0x3ffffff refl,
        bit_and-low_mask 12 (sign_extend p.y) 0xfff refl,
        bit_and-low_mask 26 p.z 0x3ffffff refl,
      )
      (pack_words _ _ _ (omega arith) (omega arith) (omega arith))

unpack-fields :
    (i : ℕ)
    → ((unpack i).x ≡ signed_field 26 (i / 2 ^ 38))
      × ((unpack i).y ≡ signed_field 12 (i / 2 ^ 26 % 2 ^ 12))
      × ((unpack i).z ≡ signed_field 26 (i % 2 ^ 26))
unfolding unpack
unpack-fields i = (
  refl,
  ap (signed_field 12) (bit_and-low_mask 12 (i / 2 ^ 26) 0xfff refl),
  ap (signed_field 26) (bit_and-low_mask 26 i 0x3ffffff refl),
)

sign_extend-mod : (k w : ℕ) → (k ≡ 12) ⊎ (k ≡ 26) → sign_extend w % 2 ^ k ≡ w % 2 ^ k
sign_extend-mod k w (inl e) = rw e (ground arith)
sign_extend-mod k w (inr e) = rw e (ground arith)

pub unpack-pack : (p : Position) → InWorld p → unpack (pack p) ≡ p
unpack-pack p h = ground (
  arith,
  pack-fields p,
  unpack-fields (pack p),
  sign_extend-mod 12 p.y (inl refl),
  sign_extend-mod 26 p.x (inr refl),
)

pub pack-unpack : (i : ℕ) → IsU64 i → pack (unpack i) ≡ i
pack-unpack i h = ground (
  arith,
  pack-fields (unpack i),
  unpack-fields i,
  sign_extend-mod 12 (unpack i).y (inl refl),
  sign_extend-mod 26 (unpack i).x (inr refl),
)

pub unpack-InWorld : (i : ℕ) → IsU64 i → InWorld (unpack i)
unpack-InWorld i h = ground (arith, unpack-fields i)

-- A position whose `x` and `z` fit 26 bits and whose `y` fits 12 bits, as two's complement numbers,
-- comes back from `dec_position` as it was given to `enc_position`.
pub dec_position-enc_position :
    (p : Position) (rest : List ℕ)
    → InWorld p
    → dec_position (enc_position p ++ rest) ≡ ok (p, rest)
unfolding dec_position enc_position
dec_position-enc_position p rest h =
    rw (dec_be64-enc_be64 (pack p) rest (omega (arith, pack-fields p)), unpack-pack p h)

-- Every 64-bit word is the encoding of the position that `dec_position` makes of it, and that
-- position is in range.
pub enc_position-dec_position :
    (i : ℕ) (rest : List ℕ)
    → IsU64 i
    → (p : Position) × (dec_position (enc_be64 i ++ rest) ≡ ok (p, rest))
      × (enc_position p ≡ enc_be64 i)
      × InWorld p
unfolding dec_position enc_position
enc_position-dec_position i rest h =
    (unpack i, rw (dec_be64-enc_be64 i rest h), ap enc_be64 (pack-unpack i h), unpack-InWorld i h)
