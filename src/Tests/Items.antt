-- ===== src/Tests/Items.antt =====
-- Strings, slots, ingredients, recipes and particles under a concrete library.
use c_spock_bot.Prelude.{ℕ, ◌≡◌, refl, arith, Bool, true, false, List, [], ◌∷◌, ◌++◌}
use c_spock_bot.Prelude.{none, some, All-append, All, IsByte}
use c_spock_bot.Outcome.{ok, err}
use c_spock_bot.Numeric.{enc_byte, enc_bef32}
use c_spock_bot.Varnum.{enc_varint}
use c_spock_bot.Text.{enc_string, dec_string}
use c_spock_bot.Text.RoundTrip.{dec_string-enc_string}
use c_spock_bot.Nbt.Codec.{enc_nbt, Restores}
use c_spock_bot.Slot.{Slot, walk_slot, enc_slot, dec_slot}
use c_spock_bot.Slot.RoundTrip.{IsSlot, Carries, dec_slot-enc_slot}
use c_spock_bot.Slot.Walk.{walk_slot_lem}
use c_spock_bot.Recipe.{Ingredient, Smelting, enc_smelting, dec_smelting}
use c_spock_bot.Recipe.RoundTrip.{IsIngredient, IsSmelting, dec_smelting-enc_smelting}
use c_spock_bot.Particle.{
  Particle, kind, walk_particle, enc_particledata, enc_particle, dec_particle,
}
use c_spock_bot.Particle.RoundTrip.{overlay, IsParticle, dec_particle-enc_particle}
use c_spock_bot.Tests.Bytes.{all_bytes-IsByte}
use c_spock_bot.Tests.Library.{library, empty_compound}

-- A string of two letters.
abbrev ab : List Bool
ab = true ∷ false ∷ []

dec_string-enc_string_example :
    (bytes : List ℕ) × (enc_string library ab ≡ ok bytes)
    × (dec_string library (bytes ++ (7 ∷ [])) ≡ ok (ab, 7 ∷ []))
dec_string-enc_string_example =
    dec_string-enc_string library ab (7 ∷ []) (omega arith) (omega arith, tt)

compound-Restores : (rest : List ℕ) → Restores library empty_compound rest
compound-Restores rest = record { tail = 0 ∷ 0 ∷ 0 ∷ []; starts = refl; parses = refl }

-- Three of item 300 with a tree; one of item 200 without; no item.
abbrev sword : Slot
sword = record { present = 1; id = 300; count = 3; nbt = some empty_compound }

abbrev stick : Slot
stick = record { present = 1; id = 200; count = 1; nbt = none }

abbrev nothing : Slot
nothing = record { present = 0; id = 0; count = 0; nbt = none }

sword-IsSlot : IsSlot sword
sword-IsSlot = record {
  present_fits = omega arith;
  id_fits = omega arith;
  count_fits = omega arith;
}

stick-IsSlot : IsSlot stick
stick-IsSlot = record {
  present_fits = omega arith;
  id_fits = omega arith;
  count_fits = omega arith;
}

dec_slot-enc_slot_example :
    dec_slot library nothing (enc_slot library sword ++ (7 ∷ [])) ≡ ok (sword, 7 ∷ [])
unfolding enc_slot enc_nbt
dec_slot-enc_slot_example =
    dec_slot-enc_slot library nothing sword (7 ∷ []) (omega arith) sword-IsSlot (record {
      restored = compound-Restores (7 ∷ []);
      bytes = all_bytes-IsByte (10 ∷ 0 ∷ 0 ∷ 0 ∷ 7 ∷ []) refl;
    })

walk_slot_lem_example : walk_slot (1 ∷ 5 ∷ 1 ∷ 0 ∷ []) 4 ≡ err 0
walk_slot_lem_example =
    walk_slot_lem 1 (5 ∷ 1 ∷ 0 ∷ []) 4 (all_bytes-IsByte (5 ∷ 1 ∷ 0 ∷ []) refl) (omega arith)
      (omega arith) (omega arith)

-- One sword, and a recipe for it.
abbrev one_sword : Ingredient
one_sword = record { count = 1; items = sword ∷ [] }

abbrev room_for_one : Ingredient
room_for_one = record { count = 0; items = nothing ∷ [] }

sword-Carries : (rest : List ℕ) → All IsByte rest → Carries library sword.nbt rest
unfolding enc_nbt
sword-Carries rest h = record {
  restored = compound-Restores rest;
  bytes = (omega arith, (omega arith, (omega arith, (omega arith, h))));
}

abbrev sword_bytes : List ℕ
sword_bytes = 1 ∷ 172 ∷ 2 ∷ 3 ∷ 10 ∷ 0 ∷ 0 ∷ 0 ∷ []

one_sword-IsIngredient : (rest : List ℕ) → All IsByte rest → IsIngredient library one_sword rest
unfolding enc_slot enc_varint enc_byte enc_bef32 enc_nbt
one_sword-IsIngredient rest h = record {
  counted = refl;
  few = omega arith;
  stored = (omega arith, sword-IsSlot, sword-Carries rest h, h);
  bytes = All-append IsByte sword_bytes rest (all_bytes-IsByte sword_bytes refl) h;
}

abbrev blank : Smelting library
blank = record {
  group = [];
  ingredient = room_for_one;
  result = nothing;
  experience = 0;
  cooking_time = 0;
}

abbrev smelt_sword : Smelting library
smelt_sword = record {
  group = ab;
  ingredient = one_sword;
  result = stick;
  experience = 1065353216;
  cooking_time = 200;
}

-- The result, the experience, the time, and a byte behind.
abbrev after_ingredient : List ℕ
after_ingredient = 1 ∷ 200 ∷ 1 ∷ 1 ∷ 0 ∷ 63 ∷ 128 ∷ 0 ∷ 0 ∷ 200 ∷ 1 ∷ 7 ∷ []

smelt_sword-IsSmelting : IsSmelting library smelt_sword (7 ∷ [])
unfolding enc_slot enc_varint enc_byte enc_bef32 enc_nbt
smelt_sword-IsSmelting = record {
  group_fits = omega arith;
  present = omega arith;
  result_fits = stick-IsSlot;
  experience_fits = omega arith;
  time_fits = omega arith;
  ingredient_stored =
      one_sword-IsIngredient after_ingredient (all_bytes-IsByte after_ingredient refl);
  result_stored = record {
    restored = tt;
    bytes = all_bytes-IsByte (0 ∷ 63 ∷ 128 ∷ 0 ∷ 0 ∷ 200 ∷ 1 ∷ 7 ∷ []) refl;
  };
  result_bytes = all_bytes-IsByte (1 ∷ (sword_bytes ++ after_ingredient)) refl;
  rest_bytes = (omega arith, tt);
}

dec_smelting-enc_smelting_example :
    (bytes : List ℕ) × (enc_smelting library smelt_sword ≡ ok bytes)
    × (dec_smelting library blank (bytes ++ (7 ∷ [])) ≡ ok (smelt_sword, 7 ∷ []))
dec_smelting-enc_smelting_example =
    dec_smelting-enc_smelting library blank smelt_sword (7 ∷ []) refl smelt_sword-IsSmelting

-- Falling dust of block state 9, and a particle that carries nothing.
abbrev falling : Particle
falling = record {
  type = 20;
  block_state = 9;
  red = 0;
  green = 0;
  blue = 0;
  scale = 0;
  item = nothing;
}

abbrev bubble : Particle
bubble = record falling { type = 4 }

falling-IsParticle : IsParticle library falling (7 ∷ [])
unfolding enc_particledata c_spock_bot.Particle.enc_kind enc_varint kind
falling-IsParticle = record {
  type_fits = omega arith;
  fits = omega arith;
  bytes = all_bytes-IsByte (9 ∷ 7 ∷ []) refl;
  rest_bytes = (omega arith, tt);
}

dec_particle-enc_particle_example :
    dec_particle library bubble (enc_particle library falling ++ (7 ∷ []))
    ≡ ok (overlay (kind 20) bubble falling, 7 ∷ [])
dec_particle-enc_particle_example =
    dec_particle-enc_particle library bubble falling (7 ∷ []) falling-IsParticle
