-- ===== src/Tests/Metadata.antt =====
-- An entity metadata tag with an optional number.
use c_spock_bot.Prelude.{refl, arith, [], ◌∷◌, none}
use c_spock_bot.Numeric.{enc_byte}
use c_spock_bot.Varnum.{enc_varint, enc_loop}
use c_spock_bot.Metadata.{Metatag, kind}
use c_spock_bot.Metadata.Codec.{enc_kind, enc_tag, dec_tag}
use c_spock_bot.Metadata.RoundTrip.{Returns, dec_tag-enc_tag}
use c_spock_bot.Tests.Library.{library, empty_compound}

-- New memory, all zero but for its type.
abbrev blank_tag : Metatag library
blank_tag = record {
  index = 0;
  type = 0;
  opt = 0;
  b = 0;
  varint_value = 0;
  f = 0;
  string_value = [];
  slot_value = record { present = 0; id = 0; count = 0; nbt = none };
  rot_x = 0;
  rot_y = 0;
  rot_z = 0;
  pos = record { x = 0; y = 0; z = 0 };
  uuid = record { msb = 0; lsb = 0 };
  nbt_value = empty_compound;
  particle_value = record {
    type = 0;
    block_state = 0;
    red = 0;
    green = 0;
    blue = 0;
    scale = 0;
    item = record { present = 0; id = 0; count = 0; nbt = none };
  };
  villager_type = 0;
  profession = 0;
  level = 0;
}

abbrev counted_tag : Metatag library
counted_tag = record blank_tag { index = 5; type = 17; opt = 1; varint_value = 300 }

dec_tag-enc_tag_example :
    Returns library (enc_tag library counted_tag) (dec_tag library blank_tag) counted_tag (9 ∷ [])
unfolding kind enc_kind enc_byte enc_varint enc_loop
dec_tag-enc_tag_example =
    dec_tag-enc_tag library blank_tag counted_tag (1 ∷ (172 ∷ (2 ∷ []))) (9 ∷ []) (omega arith)
      (omega arith) (omega arith) (omega arith, tt) refl (omega arith)
