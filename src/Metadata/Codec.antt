-- ===== src/Metadata/Codec.antt =====
-- `size_metadata`, `enc_metadata` and `dec_metadata`.
use c_spock_bot.Prelude.{ℕ, zero, suc, ◌+◌, ◌*◌, List, [], ◌∷◌, ◌++◌, drop, ◌==◌, if◌then◌else◌}
use c_spock_bot.Prelude.{Option, none, some}
use c_spock_bot.Outcome.{Outcome, ok, null, ◌>>=◌, unchecked}
use c_spock_bot.Numeric.{enc_byte, dec_byte, enc_bef32, dec_bef32}
use c_spock_bot.Varnum.{size_varint, enc_varint, dec_varint}
use c_spock_bot.Text.{size_string, enc_string, dec_string}
use c_spock_bot.Position.{enc_position, dec_position, enc_uuid, dec_uuid}
use c_spock_bot.Slot.{size_slot, enc_slot, dec_slot}
use c_spock_bot.Nbt.{size_nbt}
use c_spock_bot.Nbt.Codec.{enc_nbt, dec_nbt}
use c_spock_bot.Particle.{size_particle, enc_particle, dec_particle}
use c_spock_bot.Library.{Library}
use c_spock_bot.Metadata.{
  Kind, byte, varint, float, string, optchat, slot, rotation, position, optposition, optuuid, nbt,
  particle, villagerdata, optvarint, unknown, kind, Metatag,
}
use c_spock_bot.Metadata.Walk.{count_metatags}

module _ (lib : Library) where
  -- The size behind the index and the type; `none` is the `return 0` of `default`.
  unfoldable pub size_kind : Kind → Metatag lib → Option ℕ
  size_kind byte t = some 1
  size_kind varint t = some (size_varint t.varint_value)
  size_kind float t = some 4
  size_kind string t = some (size_string lib t.string_value)
  size_kind optchat t = some (1 + (if t.opt == 0 then 0 else size_string lib t.string_value))
  size_kind slot t = some (size_slot t.slot_value)
  size_kind rotation t = some 12
  size_kind position t = some 8
  size_kind optposition t = some (1 + (if t.opt == 0 then 0 else 8))
  size_kind optuuid t = some (1 + (if t.opt == 0 then 0 else 16))
  size_kind nbt t = some (size_nbt t.nbt_value)
  size_kind particle t = some (size_particle t.particle_value)
  size_kind villagerdata t =
      some (size_varint t.villager_type + size_varint t.profession + size_varint t.level)
  size_kind optvarint t = some (1 + (if t.opt == 0 then 0 else size_varint t.varint_value))
  size_kind unknown t = none

  unfoldable pub size_tags : ℕ → List (Metatag lib) → ℕ
  size_tags size [] = size + 1
  size_tags size (t ∷ tags) = elim (size_kind (kind t.type) t) [
    | none ↦ 0
    | some n ↦ size_tags (size + 1 + size_varint t.type + n) tags
  ]

  unfoldable pub size_metadata : List (Metatag lib) → ℕ
  size_metadata tags = size_tags 0 tags

  -- `if(opt) ...` behind the byte of `opt`.
  abbrev pub enc_optional : ℕ → Outcome (List ℕ) → Outcome (List ℕ)
  enc_optional opt value = do bytes ← if opt == 0 then ok [] else value; ok (enc_byte opt ++ bytes)

  unfoldable pub enc_kind : Kind → Metatag lib → Outcome (List ℕ)
  enc_kind byte t = ok (enc_byte t.b)
  enc_kind varint t = ok (enc_varint t.varint_value)
  enc_kind float t = ok (enc_bef32 t.f)
  enc_kind string t = enc_string lib t.string_value
  enc_kind optchat t = enc_optional t.opt (enc_string lib t.string_value)
  enc_kind slot t = ok (enc_slot lib t.slot_value)
  enc_kind rotation t = ok (enc_bef32 t.rot_x ++ (enc_bef32 t.rot_y ++ enc_bef32 t.rot_z))
  enc_kind position t = ok (enc_position t.pos)
  enc_kind optposition t = enc_optional t.opt (ok (enc_position t.pos))
  enc_kind optuuid t = enc_optional t.opt (ok (enc_uuid t.uuid))
  enc_kind nbt t = ok (enc_nbt lib t.nbt_value)
  enc_kind particle t = ok (enc_particle lib t.particle_value)
  enc_kind villagerdata t =
      ok (enc_varint t.villager_type ++ (enc_varint t.profession ++ enc_varint t.level))
  enc_kind optvarint t = enc_optional t.opt (ok (enc_varint t.varint_value))
  enc_kind unknown t = ok []

  unfoldable pub enc_tag : Metatag lib → Outcome (List ℕ)
  enc_tag t = do
    bytes ← enc_kind (kind t.type) t
    ok (enc_byte t.index ++ (enc_varint t.type ++ bytes))

  -- The loop, and the zero byte behind it.
  unfoldable pub enc_metadata : List (Metatag lib) → Outcome (List ℕ)
  enc_metadata [] = ok (enc_byte 0)
  enc_metadata (t ∷ tags) = do bytes ← enc_tag t; rest ← enc_metadata tags; ok (bytes ++ rest)

  -- A decoded value stored in the tag.
  abbrev pub stored :
      {A : Type 0} → (A → Metatag lib) → Outcome (A × List ℕ) → Outcome (Metatag lib × List ℕ)
  stored store result = do (v, source) ← result; ok (store v, source)

  -- `opt`, and the member behind it if that is not zero.
  abbrev pub dec_optional :
      Metatag lib
      → (Metatag lib → List ℕ → Outcome (Metatag lib × List ℕ))
      → List ℕ
      → Outcome (Metatag lib × List ℕ)
  dec_optional t value source = do
    (opt, source) ← dec_byte source
    if opt == 0 then ok (record t { opt = opt }, source) else value (record t { opt = opt }) source

  abbrev pub dec_text : Metatag lib → List ℕ → Outcome (Metatag lib × List ℕ)
  dec_text t source = stored (λ v. record t { string_value = v }) (dec_string lib source)

  abbrev pub dec_number : Metatag lib → List ℕ → Outcome (Metatag lib × List ℕ)
  dec_number t source = stored (λ v. record t { varint_value = v }) (dec_varint source)

  abbrev pub dec_place : Metatag lib → List ℕ → Outcome (Metatag lib × List ℕ)
  dec_place t source = stored (λ v. record t { pos = v }) (dec_position source)

  -- A NULL from a part is used as the next pointer.
  unfoldable pub dec_kind : Kind → Metatag lib → List ℕ → Outcome (Metatag lib × List ℕ)
  dec_kind byte t source = stored (λ v. record t { b = v }) (dec_byte source)
  dec_kind varint t source = dec_number t source
  dec_kind float t source = stored (λ v. record t { f = v }) (dec_bef32 source)
  dec_kind string t source = dec_text t source
  dec_kind optchat t source = dec_optional t dec_text source
  dec_kind slot t source =
      stored (λ v. record t { slot_value = v }) (unchecked (dec_slot lib t.slot_value source))
  dec_kind rotation t source = do
    (x, source) ← dec_bef32 source
    (y, source) ← dec_bef32 source
    (z, source) ← dec_bef32 source
    ok (record t { rot_x = x; rot_y = y; rot_z = z }, source)
  dec_kind position t source = dec_place t source
  dec_kind optposition t source = dec_optional t dec_place source
  dec_kind optuuid t source =
      dec_optional t (λ t s. stored (λ v. record t { uuid = v }) (dec_uuid s)) source
  dec_kind nbt t source = stored (λ v. record t { nbt_value = v }) (unchecked (dec_nbt lib source))
  dec_kind particle t source =
      stored (λ v. record t { particle_value = v })
        (unchecked (dec_particle lib t.particle_value source))
  dec_kind villagerdata t source = do
    (x, source) ← dec_varint source
    (y, source) ← dec_varint source
    (z, source) ← dec_varint source
    ok (record t { villager_type = x; profession = y; level = z }, source)
  dec_kind optvarint t source = dec_optional t dec_number source
  dec_kind unknown t source = ok (t, source)

  unfoldable pub dec_tag : Metatag lib → List ℕ → Outcome (Metatag lib × List ℕ)
  dec_tag t source = do
    (index, source) ← dec_byte source
    (type, source) ← dec_varint source
    dec_kind (kind type) (record t { index = index; type = type }) source

  -- `fresh` is what the new memory of a tag holds.
  unfoldable pub dec_tags : ℕ → Metatag lib → List ℕ → Outcome (List (Metatag lib) × List ℕ)
  dec_tags zero fresh source = ok ([], source)
  dec_tags (suc n) fresh source = do
    (t, source) ← dec_tag fresh source
    (tags, source) ← dec_tags n fresh source
    ok (t ∷ tags, source)

  -- The size of a `mc_metatag` on a 64-bit machine.
  abbrev pub metatag_size : ℕ
  metatag_size = 48

  unfoldable pub dec_metadata : Metatag lib → List ℕ → Outcome (List (Metatag lib) × List ℕ)
  dec_metadata fresh source = do
    len ← count_metatags source
    if lib.malloc (len * metatag_size)
        then (do (tags, source) ← dec_tags len fresh source; ok (tags, drop 1 source))
        else null
