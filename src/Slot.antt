-- ===== src/Slot.antt =====
-- Inventory slots, `mc_slot` of src/datautils.c.
pub mod RoundTrip
pub mod Walk
use c_spock_bot.Prelude.{ℕ, ◌+◌, List, [], ◌∷◌, ◌++◌, drop, Option, none, some}
use c_spock_bot.Prelude.{ltb, ◌==◌, if◌then◌else◌, sub_size}
use c_spock_bot.Outcome.{Outcome, ok, err, null, ◌>>=◌, or_minus_one, to_int}
use c_spock_bot.Numeric.{enc_byte, dec_byte}
use c_spock_bot.Varnum.{size_varint, walk_varint, enc_varint, dec_varint}
use c_spock_bot.Nbt.{NbtNode, size_nbt, walk_nbt}
use c_spock_bot.Nbt.Codec.{enc_nbt, dec_nbt}
use c_spock_bot.Library.{Library}

-- `id` is the bit pattern of an `int32_t`.
pub record Slot : Type 0 where
  pub present : ℕ
  pub id : ℕ
  pub count : ℕ
  pub nbt : Option NbtNode

-- `if(max_len -= ret < sizeof(slot.count)) return -1;` subtracts the truth value of the comparison.
unfoldable pub walk_slot : List ℕ → ℕ → Outcome ℕ
walk_slot source max_len = if ltb max_len 1 then err 0 else do
  (present, source) ← dec_byte source
  if present == 0 then ok 1 else do
    let max_len = sub_size max_len 1
    ret ← or_minus_one (walk_varint source max_len)
    let max_len = sub_size max_len (if ltb ret 1 then 1 else 0)
    if max_len == 0
        then (do
          let max_len = sub_size max_len 1
          let source = drop (ret + 1) source
          (type, _) ← dec_byte source
          if type == 10
              then (do nbt ← or_minus_one (walk_nbt source max_len); to_int (1 + (ret + 1) + nbt))
              else to_int (1 + (ret + 1) + 1))
        else err 0

unfoldable pub size_slot : Slot → ℕ
size_slot slot =
    if slot.present == 0
    then 1
    else 1 + 1 + size_varint slot.id + elim slot.nbt [ none ↦ 0 | some nbt ↦ size_nbt nbt ]

module _ (lib : Library) where
  -- What follows the count: the tree, or a zero byte where there is none.
  abbrev pub enc_slot_nbt : Option NbtNode → List ℕ
  enc_slot_nbt none = enc_byte 0
  enc_slot_nbt (some nbt) = enc_nbt lib nbt

  unfoldable pub enc_slot : Slot → List ℕ
  enc_slot source =
      enc_byte source.present
      ++ (if source.present == 0
          then []
          else enc_varint source.id ++ (enc_byte source.count ++ enc_slot_nbt source.nbt))

  -- `dest` keeps the fields that are not read.
  unfoldable pub dec_slot : Slot → List ℕ → Outcome (Slot × List ℕ)
  dec_slot dest source = do
    (present, source) ← dec_byte source
    if present == 0 then ok (record dest { present = present }, source) else do
      (id, source) ← dec_varint source
      (count, source) ← dec_byte source
      (type, next) ← dec_byte source
      if type == 10
          then (do
            (nbt, source) ← dec_nbt lib source
            ok (record { present = present; id = id; count = count; nbt = some nbt }, source))
          else ok (record { present = present; id = id; count = count; nbt = none }, next)
