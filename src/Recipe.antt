-- ===== src/Recipe.antt =====
-- Ingredients and smelting recipes of src/datautils.c.
pub mod RoundTrip
pub mod Walk
use c_spock_bot.Prelude.{ℕ, zero, suc, ◌+◌, ◌^◌, List, [], ◌∷◌, ◌++◌, drop, ltb, if◌then◌else◌}
use c_spock_bot.Prelude.{rounds, sub_size}
use c_spock_bot.Outcome.{Outcome, ok, err, null, fault, ◌>>=◌, unchecked, to_int}
use c_spock_bot.Numeric.{enc_bef32, dec_bef32}
use c_spock_bot.Varnum.{size_varint, walk_varint, enc_varint, dec_varint}
use c_spock_bot.Text.{walk_string, size_string, enc_string, dec_string}
use c_spock_bot.Slot.{Slot, walk_slot, size_slot, enc_slot, dec_slot}
use c_spock_bot.Library.{Library}

-- `count` is the bit pattern of an `int32_t`; `items` is the memory that the pointer names.
pub record Ingredient : Type 0 where
  pub count : ℕ
  pub items : List Slot

-- The loop of `walk_ingredient`, which leaves `source` where it is.
unfoldable pub walk_ingredient_loop : ℕ → List ℕ → ℕ → ℕ → Outcome ℕ
walk_ingredient_loop zero source max_len size = to_int size
walk_ingredient_loop (suc n) source max_len size = do
  ret ← walk_slot source max_len
  walk_ingredient_loop n source (sub_size max_len ret) (size + ret)

unfoldable pub walk_ingredient : List ℕ → ℕ → Outcome ℕ
walk_ingredient source max_len = do
  ret ← walk_varint source max_len
  (len, source) ← dec_varint source
  walk_ingredient_loop (rounds len) source (sub_size max_len ret) ret

-- The loops over `items[i]`; an index behind the memory is undefined.
unfoldable pub size_slots : ℕ → List Slot → Outcome ℕ
size_slots zero items = ok 0
size_slots (suc n) [] = fault
size_slots (suc n) (s ∷ items) = do size ← size_slots n items; ok (size_slot s + size)

unfoldable pub size_ingredient : Ingredient → Outcome ℕ
unfolding size_slots
size_ingredient ingredient = do
  size ← size_slots (rounds ingredient.count) ingredient.items
  ok (size_varint ingredient.count + size)

module _ (lib : Library) where
  unfoldable pub enc_slots : ℕ → List Slot → Outcome (List ℕ)
  enc_slots zero items = ok []
  enc_slots (suc n) [] = fault
  enc_slots (suc n) (s ∷ items) = do bytes ← enc_slots n items; ok (enc_slot lib s ++ bytes)

  unfoldable pub enc_ingredient : Ingredient → Outcome (List ℕ)
  unfolding enc_slots
  enc_ingredient source = do
    bytes ← enc_slots (rounds source.count) source.items
    ok (enc_varint source.count ++ bytes)

  -- `dest->items` is not allocated here: the slots are written where it points.
  unfoldable pub dec_slots : ℕ → List Slot → List ℕ → Outcome (List Slot × List ℕ)
  dec_slots zero items source = ok (items, source)
  dec_slots (suc n) [] source = fault
  dec_slots (suc n) (s ∷ items) source = do
    (s, source) ← dec_slot lib s source
    (items, source) ← dec_slots n items source
    ok (s ∷ items, source)

  unfoldable pub dec_ingredient : Ingredient → List ℕ → Outcome (Ingredient × List ℕ)
  unfolding dec_slots
  dec_ingredient dest source = do
    (count, source) ← dec_varint source
    (items, source) ← dec_slots (rounds count) dest.items source
    ok (record { count = count; items = items }, source)

  open lib use {Str}

  -- `experience` is the bit pattern of a float, `cooking_time` of an `int32_t`.
  pub record Smelting : Type 0 where
    pub group : Str
    pub ingredient : Ingredient
    pub result : Slot
    pub experience : ℕ
    pub cooking_time : ℕ

  unfoldable pub size_smelting : Smelting → Outcome ℕ
  size_smelting smelting = do
    ingredient ← size_ingredient smelting.ingredient
    ok (
        size_string lib smelting.group
        + ingredient
        + size_slot smelting.result
        + 4
        + size_varint smelting.cooking_time)

  unfoldable pub enc_smelting : Smelting → Outcome (List ℕ)
  enc_smelting source = do
    group ← enc_string lib source.group
    ingredient ← enc_ingredient source.ingredient
    ok (
        group
        ++ (ingredient
            ++ (enc_slot lib source.result
                ++ (enc_bef32 source.experience ++ enc_varint source.cooking_time))))

  -- A NULL from a part is used as the next pointer.
  unfoldable pub dec_smelting : Smelting → List ℕ → Outcome (Smelting × List ℕ)
  dec_smelting dest source = do
    (group, source) ← dec_string lib source
    (ingredient, source) ← unchecked (dec_ingredient dest.ingredient source)
    (result, source) ← unchecked (dec_slot lib dest.result source)
    (experience, source) ← dec_bef32 source
    (cooking_time, source) ← dec_varint source
    ok (
      record {
        group = group;
        ingredient = ingredient;
        result = result;
        experience = experience;
        cooking_time = cooking_time;
      },
      source,
    )

-- The slot is added to `size` twice, and the four bytes of `experience` are not.
unfoldable pub walk_smelting : List ℕ → ℕ → Outcome ℕ
walk_smelting source max_len = do
  group ← walk_string source max_len
  let source = drop group source
  let max_len = sub_size max_len group
  ingredient ← walk_ingredient source max_len
  let source = drop ingredient source
  let max_len = sub_size max_len ingredient
  result ← walk_slot source max_len
  let source = drop result source
  let max_len = sub_size max_len result
  if ltb max_len 4 then err 0 else (do
    time ← walk_varint (drop 4 source) (sub_size max_len 4)
    to_int (group + ingredient + result + result + time))
