-- ===== src/Varnum/Walk.antt =====
-- `walk_varint` and `walk_varlong` against the position of the first byte whose top bit is clear.
use c_spock_bot.Prelude.{ℕ, zero, suc, ◌+◌, ◌-◌, ◌/◌, ◌^◌, ◌≤◌, ◌<◌, ◌≡◌, arith}
use c_spock_bot.Prelude.{List, [], ◌∷◌, ◌++◌, ltb, leb, if◌then◌else◌, length, All, IsByte}
use c_spock_bot.Prelude.Bits.{top_bit}
use c_spock_bot.Outcome.{Outcome, ok, err}
use c_spock_bot.Varnum.{varnum_invalid, varnum_overrun}
use c_spock_bot.Varnum.{walk_loop, walk_varint, walk_varlong}
use c_spock_bot.Varnum.Encode.{groups}
use Prim.Native.Nat.{min}

-- The number of bytes up to the first one below 128, that one counted, and one more than there are
-- if there is none.
unfoldable pub span : List ℕ → ℕ
span [] = 1
span (b ∷ source) = if ltb b 128 then 1 else suc (span source)

pub span_pos : (source : List ℕ) → 1 ≤ span source
unfolding span
span_pos [] = omega arith
span_pos (b ∷ source) = ground arith

-- The verdict on `n` bytes of a number with `m` bytes at hand, of which at most `cap` may be used.
abbrev pub verdict : ℕ → ℕ → ℕ → Outcome ℕ
verdict cap m n =
    if leb n (min m cap) then ok n else if ltb m cap then err varnum_overrun else err varnum_invalid

walk_loop-verdict :
    (last : ℕ) (source : List ℕ) (m len : ℕ)
    → All IsByte source
    → 1 ≤ len
    → len ≤ m
    → len ≤ last + 1
    → m + 1 ≤ length source + len
    → walk_loop last source m len ≡ verdict (last + 1) m (span source + len - 1)
unfolding walk_loop span
walk_loop-verdict last [] m len hb lo hi hl room = absurd (omega arith)
walk_loop-verdict last (b ∷ source) m len (b8, hb) lo hi hl room =
    ground (arith, top_bit b b8, span_pos source, walk_loop-verdict last source m (len + 1) hb)

-- On a buffer that holds `max_len` bytes `walk_varint` never reads behind the end. It returns the
-- number of bytes up to the first one with a clear top bit if that is at most 5 and at most
-- `max_len`; otherwise -2 where fewer than 5 bytes were allowed, and -1 where 5 or more were.
pub walk_varint-span :
    (source : List ℕ) (max_len : ℕ)
    → All IsByte source
    → max_len ≤ length source
    → walk_varint source max_len ≡ verdict 5 max_len (span source)
unfolding walk_varint
walk_varint-span source m hb room =
    ground (arith, span_pos source, walk_loop-verdict 4 source m 1 hb)

-- The same of `walk_varlong`, with 9 in place of 5.
pub walk_varlong-span :
    (source : List ℕ) (max_len : ℕ)
    → All IsByte source
    → max_len ≤ length source
    → walk_varlong source max_len ≡ verdict 9 max_len (span source)
unfolding walk_varlong
walk_varlong-span source m hb room =
    ground (arith, span_pos source, walk_loop-verdict 8 source m 1 hb)

pub span-groups :
    (k v : ℕ) (rest : List ℕ) → v < 128 ^ suc k → span (groups k v ++ rest) ≡ length (groups k v)
unfolding span groups
span-groups zero v rest h = ground arith
span-groups (suc k) v rest h = ground (arith, span-groups k (v / 128) rest (omega arith))
