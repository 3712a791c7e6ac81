-- ===== src/Metadata/RoundTrip.antt =====
-- `dec_metadata` reads a tag that `enc_metadata` wrote.
use c_spock_bot.Prelude.{
  ℕ, ◌%◌, ◌^◌, ◌<◌, ◌≡◌, ◌≢◌, refl, sym, ap, ◌∙◌, arith, List, [], ◌∷◌, ◌++◌, append_assoc,
}
use c_spock_bot.Prelude.{
  All, All-append, IsByte, IsU32, IsU64, ◌==◌, if◌then◌else◌, ℕ_discrete, false,
}
use c_spock_bot.Outcome.{Outcome, ok}
use c_spock_bot.Numeric.{enc_byte, dec_byte, enc_bef32}
use c_spock_bot.Numeric.RoundTrip.{dec_bef32-enc_bef32}
use c_spock_bot.Varnum.{enc_varint}
use c_spock_bot.Varnum.RoundTrip.{dec_varint-enc_varint, enc_varint-IsByte}
use c_spock_bot.Text.{enc_string}
use c_spock_bot.Text.RoundTrip.{dec_string-enc_string}
use c_spock_bot.Position.{enc_position, enc_uuid, dec_uuid}
use c_spock_bot.Position.RoundTrip.{InWorld, dec_position-enc_position, dec_uuid-enc_uuid}
use c_spock_bot.Slot.RoundTrip.{IsSlot, Carries, dec_slot-enc_slot}
use c_spock_bot.Nbt.Codec.{enc_nbt, dec_nbt, Restores}
use c_spock_bot.Particle.{enc_particle, dec_particle}
use c_spock_bot.Particle.RoundTrip.{overlay, IsParticle, dec_particle-enc_particle}
use c_spock_bot.Library.{Library}
use c_spock_bot.Metadata.{
  Kind, byte, varint, float, string, optchat, slot, rotation, position, optposition, optuuid, nbt,
  particle, villagerdata, optvarint, unknown, kind, Metatag,
}
use c_spock_bot.Metadata.Codec.{
  enc_optional, enc_kind, enc_tag, stored, dec_optional, dec_text, dec_number, dec_place, dec_kind,
  dec_tag,
}

ok-injective : {x y : List ℕ} → ok x ≡ ok y → x ≡ y
ok-injective {x} e =
    let or_else : Outcome (List ℕ) → List ℕ = λ o. elim o [ ok z ↦ z | _ ↦ x ] in ap or_else e

module _ (lib : Library) where
  open lib use {Str, sdslen}

  -- The member that the kind selects is in range.
  abbrev pub Fits : Kind → Metatag lib → List ℕ → Type 0
  Fits byte t rest = IsByte t.b
  Fits varint t rest = IsU32 t.varint_value
  Fits float t rest = IsU32 t.f
  Fits string t rest = sdslen t.string_value < 2 ^ 31
  Fits optchat t rest = IsByte t.opt × (sdslen t.string_value < 2 ^ 31)
  Fits slot t rest =
      (t.slot_value.present ≢ 0) × IsSlot t.slot_value × Carries lib t.slot_value.nbt rest
  Fits rotation t rest = IsU32 t.rot_x × IsU32 t.rot_y × IsU32 t.rot_z
  Fits position t rest = InWorld t.pos
  Fits optposition t rest = IsByte t.opt × InWorld t.pos
  Fits optuuid t rest = IsByte t.opt × IsU64 t.uuid.msb × IsU64 t.uuid.lsb
  Fits nbt t rest = Restores lib t.nbt_value rest
  Fits particle t rest = IsParticle lib t.particle_value rest
  Fits villagerdata t rest = IsU32 t.villager_type × IsU32 t.profession × IsU32 t.level
  Fits optvarint t rest = IsByte t.opt × IsU32 t.varint_value
  Fits unknown t rest = Unit

  -- `dest` with the optional member of `t`.
  abbrev pub opted : Metatag lib → Metatag lib → (Metatag lib → Metatag lib) → Metatag lib
  opted dest t store =
      if t.opt == 0 then record dest { opt = t.opt } else store (record dest { opt = t.opt })

  -- `dest` with the member of `t` that the kind selects.
  abbrev pub laid : Kind → Metatag lib → Metatag lib → Metatag lib
  laid byte dest t = record dest { b = t.b }
  laid varint dest t = record dest { varint_value = t.varint_value }
  laid float dest t = record dest { f = t.f }
  laid string dest t = record dest { string_value = t.string_value }
  laid optchat dest t = opted dest t (λ d. record d { string_value = t.string_value })
  laid slot dest t = record dest { slot_value = t.slot_value }
  laid rotation dest t = record dest { rot_x = t.rot_x; rot_y = t.rot_y; rot_z = t.rot_z }
  laid position dest t = record dest { pos = t.pos }
  laid optposition dest t = opted dest t (λ d. record d { pos = t.pos })
  laid optuuid dest t = opted dest t (λ d. record d { uuid = t.uuid })
  laid nbt dest t = record dest { nbt_value = t.nbt_value }
  laid particle dest t = record dest {
    particle_value =
        overlay (c_spock_bot.Particle.kind t.particle_value.type) dest.particle_value
          t.particle_value;
  }
  laid villagerdata dest t = record dest {
    villager_type = t.villager_type;
    profession = t.profession;
    level = t.level;
  }
  laid optvarint dest t = opted dest t (λ d. record d { varint_value = t.varint_value })
  laid unknown dest t = dest

  -- What an encoder gives comes back through a decoder.
  abbrev pub Returns :
      Outcome (List ℕ) → (List ℕ → Outcome (Metatag lib × List ℕ)) → Metatag lib → List ℕ → Type 0
  Returns encoded decode t rest =
      (bytes : List ℕ) × (encoded ≡ ok bytes) × (decode (bytes ++ rest) ≡ ok (t, rest))

  optional-Returns :
      (dest t : Metatag lib) (encoded : Outcome (List ℕ)) (rest : List ℕ)
      (value : Metatag lib → List ℕ → Outcome (Metatag lib × List ℕ))
      (store : Metatag lib → Metatag lib)
      → IsByte t.opt
      → ((d : Metatag lib) → Returns encoded (value d) (store d) rest)
      → Returns
          (enc_optional lib t.opt encoded)
          (dec_optional lib dest value)
          (opted dest t store)
          rest
  unfolding enc_byte dec_byte
  optional-Returns dest t encoded rest value store fits back =
      let same : t.opt % 256 ≡ t.opt = omega arith in
      elim (ℕ_discrete t.opt 0) [
        | yes e ↦ (0 ∷ [], rw e refl, rw e refl)
        | no ne ↦
            let present : (t.opt == 0) ≡ false = ground (arith, ne) in
            let r = back (record dest { opt = t.opt }) in
            (t.opt ∷ r.0, rw (present, r.1, same) refl, rw (present) r.2)
      ]

  text-Returns :
      (s : Str) (rest : List ℕ)
      → sdslen s < 2 ^ 31
      → All IsByte rest
      → (d : Metatag lib)
      → Returns (enc_string lib s) (dec_text lib d) (record d { string_value = s }) rest
  text-Returns s rest h hr d =
      let r = dec_string-enc_string lib s rest h hr in (r.0, r.1, rw r.2 refl)

  -- The value of a tag comes back from `dec_metadata`'s `switch` as `enc_metadata`'s wrote it.
  dec_kind-enc_kind :
      (k : Kind) (dest t : Metatag lib) (rest : List ℕ)
      → Fits k t rest
      → All IsByte rest
      → Returns (enc_kind lib k t) (dec_kind lib k dest) (laid k dest t) rest
  unfolding enc_kind dec_kind enc_byte dec_byte dec_nbt enc_nbt
  dec_kind-enc_kind byte dest t rest h hr =
      let same : t.b % 256 ≡ t.b = omega arith in (_, refl, rw same refl)
  dec_kind-enc_kind varint dest t rest h hr =
      (_, refl, rw (dec_varint-enc_varint t.varint_value rest h hr) refl)
  dec_kind-enc_kind float dest t rest h hr = (_, refl, rw (dec_bef32-enc_bef32 t.f rest h) refl)
  dec_kind-enc_kind string dest t rest h hr = text-Returns t.string_value rest h hr dest
  dec_kind-enc_kind optchat dest t rest (o, h) hr =
      optional-Returns dest t (enc_string lib t.string_value) rest (dec_text lib)
        (λ d. record d { string_value = t.string_value }) o (text-Returns t.string_value rest h hr)
  dec_kind-enc_kind slot dest t rest (present, h, carried) hr =
      (_, refl, rw (dec_slot-enc_slot lib dest.slot_value t.slot_value rest present h carried) refl)
  dec_kind-enc_kind rotation dest t rest (x, y, z) hr = (
    _,
    refl,
    rw
        (
          append_assoc (enc_bef32 t.rot_x) (enc_bef32 t.rot_y ++ enc_bef32 t.rot_z) rest,
          append_assoc (enc_bef32 t.rot_y) (enc_bef32 t.rot_z) rest,
          dec_bef32-enc_bef32 t.rot_x (enc_bef32 t.rot_y ++ (enc_bef32 t.rot_z ++ rest)) x,
          dec_bef32-enc_bef32 t.rot_y (enc_bef32 t.rot_z ++ rest) y,
          dec_bef32-enc_bef32 t.rot_z rest z,
        )
        refl,
  )
  dec_kind-enc_kind position dest t rest h hr =
      (_, refl, rw (dec_position-enc_position t.pos rest h) refl)
  dec_kind-enc_kind optposition dest t rest (o, h) hr =
      optional-Returns dest t (ok (enc_position t.pos)) rest (dec_place lib)
        (λ d. record d { pos = t.pos }) o
        (λ d. (enc_position t.pos, refl, rw (dec_position-enc_position t.pos rest h) refl))
  dec_kind-enc_kind optuuid dest t rest (o, msb, lsb) hr =
      optional-Returns dest t (ok (enc_uuid t.uuid)) rest
        (λ d source. stored lib (λ v. record d { uuid = v }) (dec_uuid source))
        (λ d. record d { uuid = t.uuid }) o
        (λ d. (enc_uuid t.uuid, refl, rw (dec_uuid-enc_uuid t.uuid rest msb lsb) refl))
  dec_kind-enc_kind nbt dest t rest h hr = (_, refl, rw h.parses refl)
  dec_kind-enc_kind particle dest t rest h hr =
      (_, refl, rw (dec_particle-enc_particle lib dest.particle_value t.particle_value rest h) refl)
  dec_kind-enc_kind villagerdata dest t rest (x, y, z) hr =
      let vx : List ℕ = enc_varint t.villager_type in
      let vy : List ℕ = enc_varint t.profession in
      let vz : List ℕ = enc_varint t.level in
      let bz = All-append IsByte vz rest (enc_varint-IsByte t.level z) hr in
      let by = All-append IsByte vy (vz ++ rest) (enc_varint-IsByte t.profession y) bz in
      (
        vx ++ (vy ++ vz),
        refl,
        rw
            (
              append_assoc vx (vy ++ vz) rest,
              append_assoc vy vz rest,
              dec_varint-enc_varint t.villager_type (vy ++ (vz ++ rest)) x by,
              dec_varint-enc_varint t.profession (vz ++ rest) y bz,
              dec_varint-enc_varint t.level rest z hr,
            )
            refl,
      )
  dec_kind-enc_kind optvarint dest t rest (o, h) hr =
      optional-Returns dest t (ok (enc_varint t.varint_value)) rest (dec_number lib)
        (λ d. record d { varint_value = t.varint_value }) o
        (λ d. (
          enc_varint t.varint_value,
          refl,
          rw (dec_varint-enc_varint t.varint_value rest h hr) refl,
        ))
  dec_kind-enc_kind unknown dest t rest h hr = ([], refl, refl)

  -- Let the member of a tag that its type selects be in range, where a slot, and the item of a
  -- particle, must be present with a count below 256, the flag of an optional member must be a byte,
  -- and cNBT must read back the tree of a slot, of an item or of the tag from what it has
  -- written, before the bytes behind. If the index is a byte, `enc_metadata` writes the value, and its
  -- bytes and those behind are bytes, the tag comes back from the loop of `dec_metadata` as it was
  -- written: its index, its type and the selected member, beside what the memory of the tag held.
  pub dec_tag-enc_tag :
      (fresh t : Metatag lib) (value rest : List ℕ)
      → IsByte t.index
      → IsU32 t.type
      → Fits (kind t.type) t rest
      → All IsByte rest
      → enc_kind lib (kind t.type) t ≡ ok value
      → All IsByte value
      → Returns
          (enc_tag lib t)
          (dec_tag lib fresh)
          (laid (kind t.type) (record fresh { index = t.index; type = t.type }) t)
          rest
  unfolding enc_tag dec_tag enc_byte dec_byte
  dec_tag-enc_tag fresh t value rest index type fits hr e hv =
      let r =
        dec_kind-enc_kind (kind t.type) (record fresh { index = t.index; type = t.type }) t rest
          fits hr in
      let same : value ≡ r.0 = ok-injective (sym e ∙ r.1) in
      let idx : t.index % 256 ≡ t.index = omega arith in
      (
        t.index ∷ (enc_varint t.type ++ r.0),
        rw (r.1, idx) refl,
        rw
            (
              append_assoc (enc_varint t.type) r.0 rest,
              dec_varint-enc_varint t.type (r.0 ++ rest) type
                  (All-append IsByte r.0 rest (rw same at hv) hr),
            )
            r.2,
      )
