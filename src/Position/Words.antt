-- ===== src/Position/Words.antt =====
-- `mc_position` against the 64-bit words.
use c_spock_bot.Prelude.{ℕ, ◌≤◌, arith, IsU64, ◌⊎◌, inl, inr, ap}
use native.Mathlib.Bridge.{le_prop}
use mathlib.Core.Equiv.{IsEquiv, iso_to_equiv}
use mathlib.Core.HLevel.{Σ_prop_path}
use c_spock_bot.Position.{Position, pack, unpack}
use c_spock_bot.Position.RoundTrip.{
  FitsSigned, InWorld, unpack-pack, pack-unpack, unpack-InWorld, pack-fields,
}

abbrev InRange : Type 0
InRange = (p : Position) × InWorld p

abbrev Word : Type 0
Word = (i : ℕ) × IsU64 i

-- One of two that exclude each other.
either-IsProp : {A B : Type 0} → IsProp A → IsProp B → (A → B → 1 ≤ 0) → IsProp (A ⊎ B)
either-IsProp a b apart (inl x) (inl y) = ap inl (a x y)
either-IsProp a b apart (inl x) (inr y) = absurd (omega (arith, apart x y))
either-IsProp a b apart (inr x) (inl y) = absurd (omega (arith, apart y x))
either-IsProp a b apart (inr x) (inr y) = ap inr (b x y)

InWorld-IsProp : (p : Position) → IsProp (InWorld p)
InWorld-IsProp p =
    let x_prop : IsProp (FitsSigned 26 p.x) =
      either-IsProp (hlevel le_prop) (hlevel le_prop) (λ small (large, _). omega arith) in
    let y_prop : IsProp (FitsSigned 12 p.y) =
      either-IsProp (hlevel le_prop) (hlevel le_prop) (λ small (large, _). omega arith) in
    let z_prop : IsProp (FitsSigned 26 p.z) =
      either-IsProp (hlevel le_prop) (hlevel le_prop) (λ small (large, _). omega arith) in
    hlevel (x_prop, y_prop, z_prop)

pub pack-IsU64 : (p : Position) → IsU64 (pack p)
pack-IsU64 p = omega (arith, pack-fields p)

abbrev pub packed : InRange → Word
packed (p, h) = (pack p, pack-IsU64 p)

unpacked : Word → InRange
unpacked (i, h) = (unpack i, unpack-InWorld i h)

-- `enc_position` packs the positions in range into the 64-bit words one to one and onto: each word is
-- that of exactly one of them.
pub packed-IsEquiv : IsEquiv packed
unfolding unpacked
packed-IsEquiv =
    (iso_to_equiv (record {
      fun = packed;
      inv = unpacked;
      rinv = λ (i, h). Σ_prop_path (λ j. hlevel le_prop) (pack-unpack i h);
      linv = λ (p, h). Σ_prop_path InWorld-IsProp (unpack-pack p h);
    })).1
