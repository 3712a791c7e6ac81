-- ===== src/Metadata.antt =====
-- Entity metadata of src/datautils.c: the tags and the cases of the `switch`es on a `meta_type`.
pub mod Walk
pub mod Codec
pub mod RoundTrip
use c_spock_bot.Prelude.{ℕ, ◌==◌, ◌||◌, if◌then◌else◌}
use c_spock_bot.Nbt.{NbtNode}
use c_spock_bot.Position.{Position, Uuid}
use c_spock_bot.Slot.{Slot}
use c_spock_bot.Particle.{Particle}
use c_spock_bot.Library.{Library}

-- One constructor for each group of cases that the `switch`es treat alike.
pub data Kind : Type 0 where
  byte varint float string optchat slot rotation position optposition optuuid nbt particle : Kind
  villagerdata optvarint unknown : Kind

-- `meta_byte` is 0, and so on in the order of the `enum`, up to `meta_pose`, which is 18.
unfoldable pub kind : ℕ → Kind
kind type =
    if type == 0 || type == 7 || type == 11
    then byte
    else if type == 1 || type == 13 || type == 18
    then varint
    else if type == 2
    then float
    else if type == 3 || type == 4
    then string
    else if type == 5
    then optchat
    else if type == 6
    then slot
    else if type == 8
    then rotation
    else if type == 9
    then position
    else if type == 10
    then optposition
    else if type == 12
    then optuuid
    else if type == 14
    then nbt
    else if type == 15
    then particle
    else if type == 16
    then villagerdata
    else if type == 17
    then optvarint
    else unknown

module _ (lib : Library) where
  -- `mc_metatag`. The members of the union stand side by side: the code touches the one that the
  -- type selects.
  pub record Metatag : Type 0 where
    pub index : ℕ
    pub type : ℕ
    pub opt : ℕ
    pub b : ℕ
    pub varint_value : ℕ
    pub f : ℕ
    pub string_value : lib.Str
    pub slot_value : Slot
    pub rot_x : ℕ
    pub rot_y : ℕ
    pub rot_z : ℕ
    pub pos : Position
    pub uuid : Uuid
    pub nbt_value : NbtNode
    pub particle_value : Particle
    pub villager_type : ℕ
    pub profession : ℕ
    pub level : ℕ
