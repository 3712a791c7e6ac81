-- ===== src/Particle.antt =====
-- Particles, `mc_particle` of src/datautils.c.
pub mod RoundTrip
pub mod Walk
use c_spock_bot.Prelude.{
  ℕ, ◌+◌, List, [], ◌∷◌, ◌++◌, drop, ltb, ◌==◌, ◌||◌, Bool, if◌then◌else◌, sub_size,
}
use c_spock_bot.Outcome.{Outcome, ok, err, ◌>>=◌, or_minus_one, to_int}
use c_spock_bot.Numeric.{enc_bef32, dec_bef32}
use c_spock_bot.Varnum.{size_varint, walk_varint, enc_varint, dec_varint}
use c_spock_bot.Slot.{Slot, walk_slot, size_slot, enc_slot, dec_slot}
use c_spock_bot.Library.{Library}

-- The cases of the `switch` on a `particle_type`: `particle_block` is 3, `particle_dust` 11,
-- `particle_falling_dust` 20 and `particle_item` 27.
pub data Kind : Type 0 where
  block dust item plain : Kind

unfoldable pub kind : ℕ → Kind
kind type =
    if type == 3 || type == 20
    then block
    else if type == 11
    then dust
    else if type == 27
    then item
    else plain

-- The members of the union, of which the code touches the one that the type selects.
pub record Particle : Type 0 where
  pub type : ℕ
  pub block_state : ℕ
  pub red : ℕ
  pub green : ℕ
  pub blue : ℕ
  pub scale : ℕ
  pub item : Slot

-- `case particle_dust` falls through to `case particle_item`, and does not advance `source`.
unfoldable pub walk_kind : Kind → List ℕ → ℕ → ℕ → Outcome ℕ
walk_kind block source max_len size = do ret ← walk_varint source max_len; to_int (size + ret)
walk_kind dust source max_len size =
    if ltb max_len 16 then err 0 else (do ret ← walk_slot source max_len; to_int (size + 16 + ret))
walk_kind item source max_len size = do ret ← walk_slot source max_len; to_int (size + ret)
walk_kind plain source max_len size = to_int size

unfoldable pub walk_particledata : List ℕ → ℕ → ℕ → Outcome ℕ
walk_particledata source max_len type = do
  ret ← or_minus_one (walk_varint source max_len)
  walk_kind (kind type) (drop ret source) (sub_size max_len ret) ret

-- The `switch` of `size_particledata`.
unfoldable pub size_kind : Kind → Particle → ℕ
size_kind block particle = size_varint particle.block_state
size_kind dust particle = 16
size_kind item particle = size_slot particle.item
size_kind plain particle = 0

unfoldable pub size_particledata : Particle → ℕ
size_particledata particle = size_kind (kind particle.type) particle

unfoldable pub walk_particle : List ℕ → ℕ → Outcome ℕ
walk_particle source max_len = do
  ret ← walk_varint source max_len
  let max_len = sub_size max_len ret
  (type, source) ← dec_varint source
  size ← walk_particledata source max_len type
  to_int (ret + size)

unfoldable pub size_particle : Particle → ℕ
size_particle particle = size_varint particle.type + size_particledata particle

module _ (lib : Library) where
  -- The `switch` of `enc_particledata`.
  unfoldable pub enc_kind : Kind → Particle → List ℕ
  enc_kind block source = enc_varint source.block_state
  enc_kind dust source =
      enc_bef32 source.red
      ++ (enc_bef32 source.green ++ (enc_bef32 source.blue ++ enc_bef32 source.scale))
  enc_kind item source = enc_slot lib source.item
  enc_kind plain source = []

  unfoldable pub enc_particledata : Particle → List ℕ
  enc_particledata source = enc_kind (kind source.type) source

  -- The part of `dec_particledata` after `dest->type = type`.
  unfoldable pub dec_kind : Kind → Particle → List ℕ → Outcome (Particle × List ℕ)
  dec_kind block dest source = do
    (block_state, source) ← dec_varint source
    ok (record dest { block_state = block_state }, source)
  dec_kind dust dest source = do
    (red, source) ← dec_bef32 source
    (green, source) ← dec_bef32 source
    (blue, source) ← dec_bef32 source
    (scale, source) ← dec_bef32 source
    ok (record dest { red = red; green = green; blue = blue; scale = scale }, source)
  dec_kind item dest source = do
    (slot, source) ← dec_slot lib dest.item source
    ok (record dest { item = slot }, source)
  dec_kind plain dest source = ok (dest, source)

  unfoldable pub dec_particledata : Particle → List ℕ → ℕ → Outcome (Particle × List ℕ)
  dec_particledata dest source type = dec_kind (kind type) (record dest { type = type }) source

  unfoldable pub enc_particle : Particle → List ℕ
  enc_particle source = enc_varint source.type ++ enc_particledata source

  unfoldable pub dec_particle : Particle → List ℕ → Outcome (Particle × List ℕ)
  dec_particle dest source = do
    (type, source) ← dec_varint source
    dec_particledata dest source type
