-- ===== src/Slot/Walk.antt =====
-- `walk_slot` on any input.
use c_spock_bot.Prelude.{ℕ, ◌+◌, ◌-◌, ◌^◌, ◌≤◌, ◌<◌, ◌≡◌, ◌⊎◌, inl, inr, arith}
use c_spock_bot.Prelude.{
  List, ◌∷◌, length, leb, Bool-cases, ◌==◌, if◌then◌else◌, All, IsByte, sub_size, min,
}
use c_spock_bot.Outcome.{ok, err, or_minus_one}
use c_spock_bot.Numeric.{dec_byte}
use c_spock_bot.Varnum.{walk_varint}
use c_spock_bot.Varnum.Walk.{span, span_pos, walk_varint-span}
use c_spock_bot.Slot.{walk_slot}

walk_varint_verdict :
    (source : List ℕ) (m : ℕ)
    → All IsByte source
    → m ≤ length source
    → (or_minus_one (walk_varint source m) ≡ err 0)
      ⊎ ((n : ℕ) × (walk_varint source m ≡ ok n) × (1 ≤ n) × (n ≤ m))
walk_varint_verdict source m hb room = elim (Bool-cases (leb (span source) (min m 5))) [
  | inl fits ↦ inr (
    span source,
    ground (arith, walk_varint-span source m hb room),
    span_pos source,
    ground arith,
  )
  | inr no_fit ↦ inl (ground (arith, walk_varint-span source m hb room))
]

-- On every buffer of `max_len` bytes, at least one, `walk_slot` returns 1 for an absent slot and -1
-- for a present one, whatever follows: it accepts no slot that holds anything.
pub walk_slot_lem :
    (b : ℕ) (source : List ℕ) (max_len : ℕ)
    → All IsByte source
    → 1 ≤ max_len
    → max_len ≤ length source + 1
    → max_len < 2 ^ 64
    → walk_slot (b ∷ source) max_len ≡ (if b == 0 then ok 1 else err 0)
unfolding walk_slot dec_byte
walk_slot_lem b source m hb lo room small =
    let left : sub_size m 1 ≡ m - 1 = omega arith in
    elim (walk_varint_verdict source (sub_size m 1) hb (omega arith)) [
      | inl failed ↦ ground (arith, failed)
      | inr (n, walked, pos, inside) ↦ ground (arith, walked, pos, inside)
    ]
