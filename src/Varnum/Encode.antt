-- ===== src/Varnum/Encode.antt =====
-- The bytes that the encoders write, described by arithmetic.
use c_spock_bot.Prelude.{ℕ, zero, suc, ◌+◌, ◌/◌, ◌%◌, ◌^◌, ◌≤◌, ◌<◌, ◌≡◌, arith}
use c_spock_bot.Prelude.{List, [], ◌∷◌, ltb, if◌then◌else◌, length, All, IsByte, IsU32, IsU64}
use c_spock_bot.Prelude.Bits.{low_bits, mark_top_bit}
use c_spock_bot.Prelude.Order.{lt_wf}
use c_spock_bot.Varnum.{
  enc_loop, enc_varint, enc_varlong, size_varint, size_varlong, size_varlong_wide,
}
use native.Mathlib.Nat.{pow-suc, one-le-pow}
use mathlib.Core.WellFounded.{Acc}

-- The groups of seven bits of `v`, lowest first, the top bit set on all but the last, for `v` below
-- `128 ^ (k + 1)`.
unfoldable pub groups : ℕ → ℕ → List ℕ
groups zero v = v ∷ []
groups (suc k) v =
    let rest = groups k (v / 128) in if ltb v 128 then v ∷ [] else (v % 128 + 128) ∷ rest

enc_loop-groups : (k v : ℕ) (w : Acc ◌<◌ v) → v < 128 ^ suc k → enc_loop v w ≡ groups k v
unfolding enc_loop groups
enc_loop-groups zero v (Acc.intro _ smaller) h = ground (arith, low_bits v)
enc_loop-groups (suc k) v (Acc.intro _ smaller) h = grind (
  arith,
  low_bits v,
  mark_top_bit (v % 128),
  λ (w : Acc ◌<◌ (v / 128)). enc_loop-groups k (v / 128) w (omega arith),
)

pub enc_varint-groups : (v : ℕ) → IsU32 v → enc_varint v ≡ groups 4 v
unfolding enc_varint
enc_varint-groups v h = enc_loop-groups 4 v (lt_wf.apply v) (omega arith)

pub enc_varlong-groups : (v : ℕ) → IsU64 v → enc_varlong v ≡ groups 9 v
unfolding enc_varlong
enc_varlong-groups v h = enc_loop-groups 9 v (lt_wf.apply v) (omega arith)

pub groups-IsByte : (k v : ℕ) → v < 128 ^ suc k → All IsByte (groups k v)
unfolding groups
groups-IsByte zero v h = omega arith
groups-IsByte (suc k) v h = ground (arith, groups-IsByte k (v / 128) (omega arith))

pub length-groups : (k v : ℕ) → (1 ≤ length (groups k v)) × (length (groups k v) ≤ k + 1)
unfolding groups
length-groups zero v = omega arith
length-groups (suc k) v = ground (arith, length-groups k (v / 128))

length-groups_step :
    (k v : ℕ)
    → length (groups (suc k) v) ≡ (if ltb v 128 then 1 else length (groups k (v / 128)) + 1)
unfolding groups
length-groups_step k v = ground arith

pub length-groups_lower : (j k v : ℕ) → j ≤ k → 128 ^ j ≤ v → j + 1 ≤ length (groups k v)
length-groups_lower zero k v hj h = omega (arith, length-groups k v)
length-groups_lower (suc j) zero v hj h = absurd (omega arith)
length-groups_lower (suc j) (suc k) v hj h = ground (
  arith,
  pow-suc 128 j,
  one-le-pow j 128,
  length-groups_step k v,
  length-groups_lower j k (v / 128),
)

pub length-groups_upper : (j k v : ℕ) → j ≤ k → v < 128 ^ suc j → length (groups k v) ≤ j + 1
length-groups_upper j zero v hj h = omega (arith, length-groups zero v)
length-groups_upper zero (suc k) v hj h = ground (arith, length-groups_step k v)
length-groups_upper (suc j) (suc k) v hj h =
    ground (arith, pow-suc 128 (suc j), length-groups_step k v, length-groups_upper j k (v / 128))

-- For every 32-bit value `size_varint` is the number of bytes that `enc_varint` writes, except that
-- it is one less for the values from 128 to 255.
pub size_varint-enc :
    (v : ℕ)
    → IsU32 v
    → length (enc_varint v) ≡ size_varint v + (if ltb v 128 then 0 else if ltb v 256 then 1 else 0)
unfolding size_varint
size_varint-enc v h = ground (
  arith,
  enc_varint-groups v h,
  length-groups_step 3 v,
  length-groups_step 2 (v / 128),
  length-groups_step 1 (v / 128 / 128),
  length-groups_step 0 (v / 128 / 128 / 128),
  length-groups 0 (v / 128 / 128 / 128 / 128),
)

-- The length between two powers of 128.
length-groups_between :
    (j v : ℕ) → j ≤ 9 → 128 ^ j ≤ v → v < 128 ^ suc j → length (groups 9 v) ≡ j + 1
length-groups_between j v hj lo hi =
    omega (arith, length-groups_lower j 9 v hj lo, length-groups_upper j 9 v hj hi)

length-groups_wide : (v : ℕ) → IsU64 v → 2 ^ 28 ≤ v → length (groups 9 v) ≡ size_varlong_wide v
unfolding size_varlong_wide
length-groups_wide v h lo = ground (
  arith,
  length-groups_between 4 v,
  length-groups_between 5 v,
  length-groups_between 6 v,
  length-groups_between 7 v,
  length-groups_between 8 v,
  length-groups_between 9 v,
)

-- For every 64-bit value `size_varlong` is the number of bytes that `enc_varlong` writes, except that
-- it is one less for the values from 128 to 255.
pub size_varlong-enc :
    (v : ℕ)
    → IsU64 v
    → length (enc_varlong v)
      ≡ size_varlong v + (if ltb v 128 then 0 else if ltb v 256 then 1 else 0)
unfolding size_varlong
size_varlong-enc v h = ground (
  arith,
  enc_varlong-groups v h,
  length-groups_upper 0 9 v,
  length-groups 9 v,
  length-groups_between 1 v,
  length-groups_between 2 v,
  length-groups_between 3 v,
  length-groups_wide v h,
)
