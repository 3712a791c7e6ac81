-- ===== src/Recipe/RoundTrip.antt =====
-- Ingredients and recipes come back from the decoders as they were encoded.
use c_spock_bot.Prelude.{ℕ, ◌^◌, ◌<◌, ◌≡◌, ◌≢◌, arith, refl}
use c_spock_bot.Prelude.{List, [], ◌∷◌, ◌++◌, append_assoc, length, All, IsByte, IsU32, rounds}
use c_spock_bot.Outcome.{ok}
use c_spock_bot.Numeric.{enc_bef32}
use c_spock_bot.Numeric.RoundTrip.{dec_bef32-enc_bef32}
use c_spock_bot.Varnum.{enc_varint}
use c_spock_bot.Varnum.RoundTrip.{dec_varint-enc_varint}
use c_spock_bot.Library.{Library}
use c_spock_bot.Slot.{Slot, enc_slot}
use c_spock_bot.Slot.RoundTrip.{IsSlot, Carries, dec_slot-enc_slot}
use c_spock_bot.Text.RoundTrip.{string_bytes, enc_string-bytes, dec_string-bytes}
use c_spock_bot.Recipe.{
  Ingredient, enc_slots, enc_ingredient, dec_slots, dec_ingredient, Smelting, enc_smelting,
  dec_smelting,
}

append_five :
    (a b c d e rest : List ℕ)
    → (a ++ (b ++ (c ++ (d ++ e)))) ++ rest ≡ a ++ (b ++ (c ++ (d ++ (e ++ rest))))
append_five a b c d e rest = simp append_assoc

module _ (lib : Library) where
  abbrev pub slots_bytes : List Slot → List ℕ
  slots_bytes [] = []
  slots_bytes (s ∷ items) = enc_slot lib s ++ slots_bytes items

  -- Each slot is present, in range, and its tree is restored before the slots that follow.
  abbrev pub Stored : List Slot → List ℕ → Type 0
  Stored [] rest = All IsByte rest
  Stored (s ∷ items) rest =
      (s.present ≢ 0) × IsSlot s × Carries lib s.nbt (slots_bytes items ++ rest) × Stored items rest

  enc_slots-bytes :
      (items : List Slot) → enc_slots lib (length items) items ≡ ok (slots_bytes items)
  unfolding enc_slots
  enc_slots-bytes [] = refl
  enc_slots-bytes (s ∷ items) = rw (enc_slots-bytes items)

  dec_slots-bytes :
      (items dest : List Slot) (rest : List ℕ)
      → length dest ≡ length items
      → Stored items rest
      → dec_slots lib (length items) dest (slots_bytes items ++ rest) ≡ ok (items, rest)
  unfolding dec_slots
  dec_slots-bytes [] [] rest e h = refl
  dec_slots-bytes [] (d ∷ dest) rest e h = absurd (omega arith)
  dec_slots-bytes (s ∷ items) [] rest e h = absurd (omega arith)
  dec_slots-bytes (s ∷ items) (d ∷ dest) rest e (nz, fits, t, h) = rw (
    append_assoc (enc_slot lib s) (slots_bytes items) rest,
    dec_slot-enc_slot lib d s (slots_bytes items ++ rest) nz fits t,
    dec_slots-bytes items dest rest (omega arith) h,
  )

  abbrev pub ingredient_bytes : Ingredient → List ℕ
  ingredient_bytes i = enc_varint i.count ++ slots_bytes i.items

  -- The count is that of the items, and each of these is stored.
  pub record IsIngredient (i : Ingredient) (rest : List ℕ) : Type 0 where
    pub counted : i.count ≡ length i.items
    pub few : i.count < 2 ^ 31
    pub stored : Stored i.items rest
    pub bytes : All IsByte (slots_bytes i.items ++ rest)

  pub enc_ingredient-bytes :
      (i : Ingredient)
      → i.count ≡ length i.items
      → i.count < 2 ^ 31
      → enc_ingredient lib i ≡ ok (ingredient_bytes i)
  unfolding enc_ingredient
  enc_ingredient-bytes i e h =
      let r : rounds i.count ≡ length i.items = ground arith in rw (r, enc_slots-bytes i.items)

  pub dec_ingredient-bytes :
      (dest i : Ingredient) (rest : List ℕ)
      → length dest.items ≡ length i.items
      → IsIngredient i rest
      → dec_ingredient lib dest (ingredient_bytes i ++ rest) ≡ ok (i, rest)
  unfolding dec_ingredient
  dec_ingredient-bytes dest i rest e h =
      let r : rounds i.count ≡ length i.items = ground (arith, h.counted, h.few) in
      rw (
        append_assoc (enc_varint i.count) (slots_bytes i.items) rest,
        dec_varint-enc_varint i.count (slots_bytes i.items ++ rest) (omega (arith, h.few)) h.bytes,
        r,
        dec_slots-bytes i.items dest.items rest e h.stored,
      )

  -- An ingredient whose slots are all present comes back from `dec_ingredient` as it was given to
  -- `enc_ingredient`, if the destination has room for as many slots and cNBT restores their trees.
  pub dec_ingredient-enc_ingredient :
      (dest i : Ingredient) (rest : List ℕ)
      → length dest.items ≡ length i.items
      → IsIngredient i rest
      → (bytes : List ℕ) × (enc_ingredient lib i ≡ ok bytes)
        × (dec_ingredient lib dest (bytes ++ rest) ≡ ok (i, rest))
  dec_ingredient-enc_ingredient dest i rest e h = (
    ingredient_bytes i,
    enc_ingredient-bytes i h.counted h.few,
    dec_ingredient-bytes dest i rest e h,
  )

  -- What follows the result in an encoded recipe.
  abbrev pub tail_bytes : Smelting lib → List ℕ → List ℕ
  tail_bytes s rest = enc_bef32 s.experience ++ (enc_varint s.cooking_time ++ rest)

  -- A recipe whose fields are in range, and whose parts are stored before what follows each.
  pub record IsSmelting (s : Smelting lib) (rest : List ℕ) : Type 0 where
    pub group_fits : lib.sdslen s.group < 2 ^ 31
    pub present : s.result.present ≢ 0
    pub result_fits : IsSlot s.result
    pub experience_fits : IsU32 s.experience
    pub time_fits : IsU32 s.cooking_time
    pub ingredient_stored : IsIngredient s.ingredient (enc_slot lib s.result ++ tail_bytes s rest)
    pub result_stored : Carries lib s.result.nbt (tail_bytes s rest)
    pub result_bytes :
        All IsByte (ingredient_bytes s.ingredient ++ (enc_slot lib s.result ++ tail_bytes s rest))
    pub rest_bytes : All IsByte rest

  abbrev smelting_bytes : Smelting lib → List ℕ
  smelting_bytes s =
      string_bytes lib s.group
      ++ (ingredient_bytes s.ingredient
          ++ (enc_slot lib s.result ++ (enc_bef32 s.experience ++ enc_varint s.cooking_time)))

  enc_smelting-bytes :
      (s : Smelting lib) (rest : List ℕ)
      → IsSmelting s rest
      → enc_smelting lib s ≡ ok (smelting_bytes s)
  unfolding enc_smelting
  enc_smelting-bytes s rest h = rw (
    enc_string-bytes lib s.group h.group_fits,
    enc_ingredient-bytes s.ingredient h.ingredient_stored.counted h.ingredient_stored.few,
  )

  dec_smelting-bytes :
      (dest s : Smelting lib) (rest : List ℕ)
      → length dest.ingredient.items ≡ length s.ingredient.items
      → IsSmelting s rest
      → dec_smelting lib dest (smelting_bytes s ++ rest) ≡ ok (s, rest)
  unfolding dec_smelting
  dec_smelting-bytes dest s rest e h = rw (
    append_five (string_bytes lib s.group) (ingredient_bytes s.ingredient) (enc_slot lib s.result)
        (enc_bef32 s.experience) (enc_varint s.cooking_time) rest,
    dec_string-bytes lib s.group _ h.group_fits h.result_bytes,
    dec_ingredient-bytes dest.ingredient s.ingredient _ e h.ingredient_stored,
    dec_slot-enc_slot lib dest.result s.result _ h.present h.result_fits h.result_stored,
    dec_bef32-enc_bef32 s.experience _ h.experience_fits,
    dec_varint-enc_varint s.cooking_time rest h.time_fits h.rest_bytes,
  )

  -- A recipe comes back from `dec_smelting` as it was given to `enc_smelting`, if its ingredients and
  -- its result are present, its fields in range, the destination has room for the ingredients, and
  -- cNBT restores the trees.
  pub dec_smelting-enc_smelting :
      (dest s : Smelting lib) (rest : List ℕ)
      → length dest.ingredient.items ≡ length s.ingredient.items
      → IsSmelting s rest
      → (bytes : List ℕ) × (enc_smelting lib s ≡ ok bytes)
        × (dec_smelting lib dest (bytes ++ rest) ≡ ok (s, rest))
  dec_smelting-enc_smelting dest s rest e h =
      (smelting_bytes s, enc_smelting-bytes s rest h, dec_smelting-bytes dest s rest e h)
