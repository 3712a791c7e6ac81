-- ===== src/Particle/RoundTrip.antt =====
-- `dec_particle` on what `enc_particle` writes.
use c_spock_bot.Prelude.{ℕ, ◌≡◌, ◌≢◌, refl}
use c_spock_bot.Prelude.{List, ◌++◌, append_assoc, All, IsByte, IsU32}
use c_spock_bot.Outcome.{ok}
use c_spock_bot.Numeric.RoundTrip.{dec_bef32-enc_bef32}
use c_spock_bot.Varnum.{enc_varint}
use c_spock_bot.Varnum.RoundTrip.{dec_varint-enc_varint}
use c_spock_bot.Slot.RoundTrip.{IsSlot, Carries, dec_slot-enc_slot}
use c_spock_bot.Library.{Library}
use c_spock_bot.Particle.{
  Kind, block, dust, item, plain, kind, Particle, enc_kind, enc_particledata, dec_kind,
  dec_particledata, enc_particle, dec_particle,
}

-- `dest` with the type of `p` and with the union's member that the type selects.
abbrev pub overlay : Kind → Particle → Particle → Particle
overlay block dest p = record dest { type = p.type; block_state = p.block_state }
overlay dust dest p = record dest {
  type = p.type;
  red = p.red;
  green = p.green;
  blue = p.blue;
  scale = p.scale;
}
overlay item dest p = record dest { type = p.type; item = p.item }
overlay plain dest p = record dest { type = p.type }

module _ (lib : Library) where
  -- The member that the type selects is in range.
  abbrev pub KindFits : Kind → Particle → List ℕ → Type 0
  KindFits block p rest = IsU32 p.block_state
  KindFits dust p rest = IsU32 p.red × IsU32 p.green × IsU32 p.blue × IsU32 p.scale
  KindFits item p rest = (p.item.present ≢ 0) × IsSlot p.item × Carries lib p.item.nbt rest
  KindFits plain p rest = Unit {0}

  -- A particle in range before the bytes that follow it.
  pub record IsParticle (p : Particle) (rest : List ℕ) : Type 0 where
    pub type_fits : IsU32 p.type
    pub fits : KindFits (kind p.type) p rest
    pub bytes : All IsByte (enc_particledata lib p ++ rest)
    pub rest_bytes : All IsByte rest

  dec_kind-enc :
      (k : Kind) (dest p : Particle) (rest : List ℕ)
      → kind p.type ≡ k
      → KindFits k p rest
      → All IsByte rest
      → dec_kind lib k (record dest { type = p.type }) (enc_particledata lib p ++ rest)
        ≡ ok (overlay k dest p, rest)
  unfolding dec_kind enc_particledata enc_kind
  dec_kind-enc block dest p rest e h hr = rw (e, dec_varint-enc_varint p.block_state rest h hr)
  dec_kind-enc dust dest p rest e (r, g, b, s) hr = rw e (
      simp (
        append_assoc,
        dec_bef32-enc_bef32 p.red _ r,
        dec_bef32-enc_bef32 p.green _ g,
        dec_bef32-enc_bef32 p.blue _ b,
        dec_bef32-enc_bef32 p.scale _ s,
      ))
  dec_kind-enc item dest p rest e (nz, fits, t) hr =
      rw (e, dec_slot-enc_slot lib dest.item p.item rest nz fits t)
  dec_kind-enc plain dest p rest e h hr = rw e

  -- Let the type of a particle and the member of the union that it selects be in range, where an item
  -- must be present, with an id and a count in range, and cNBT must read back its tree from what it
  -- has written, before the bytes behind. If what `enc_particledata` writes and what follows are bytes,
  -- the particle comes back from `dec_particle` with its type and the selected member. The other members, which stand apart in the model, are not written.
  pub dec_particle-enc_particle :
      (dest p : Particle) (rest : List ℕ)
      → IsParticle p rest
      → dec_particle lib dest (enc_particle lib p ++ rest) ≡ ok (overlay (kind p.type) dest p, rest)
  unfolding dec_particle enc_particle dec_particledata
  dec_particle-enc_particle dest p rest h =
      rw
        (
          append_assoc (enc_varint p.type) (enc_particledata lib p) rest,
          dec_varint-enc_varint p.type (enc_particledata lib p ++ rest) h.type_fits h.bytes,
        )
        (dec_kind-enc (kind p.type) dest p rest refl h.fits h.rest_bytes)
