-- ===== src/Slot/RoundTrip.antt =====
-- `dec_slot` on what `enc_slot` writes, and the size of that.
use c_spock_bot.Prelude.{ℕ, ◌+◌, ◌%◌, ◌≡◌, ◌≢◌, arith}
use c_spock_bot.Prelude.{List, ◌∷◌, ◌++◌, append_assoc, length, length-append, Option, none, some}
use c_spock_bot.Prelude.{All, IsByte, IsU32, ltb, if◌then◌else◌}
use c_spock_bot.Outcome.{ok}
use c_spock_bot.Numeric.{enc_byte, dec_byte}
use c_spock_bot.Varnum.{enc_varint}
use c_spock_bot.Varnum.Encode.{size_varint-enc}
use c_spock_bot.Varnum.RoundTrip.{dec_varint-enc_varint}
use c_spock_bot.Nbt.{NbtNode}
use c_spock_bot.Nbt.Codec.{enc_nbt, dec_nbt, RestoresOpt}
use c_spock_bot.Library.{Library}
use c_spock_bot.Slot.{Slot, enc_slot_nbt, enc_slot, dec_slot, size_slot}

-- The fields that C stores, where the slot is present.
pub record IsSlot (s : Slot) : Type 0 where
  pub present_fits : IsByte s.present
  pub id_fits : IsU32 s.id
  pub count_fits : IsByte s.count

module _ (lib : Library) where
  open lib use {nbt_dump_binary}

  -- The tree of a slot is written as bytes, and restored.
  pub record Carries (nbt : Option NbtNode) (rest : List ℕ) : Type 0 where
    pub restored : RestoresOpt lib nbt rest
    pub bytes : All IsByte (enc_slot_nbt lib nbt ++ rest)

  dec_slot_nbt :
      (dest : Slot) (p i c : ℕ) (nbt : Option NbtNode) (rest : List ℕ)
      → p ≢ 0
      → IsByte p
      → IsU32 i
      → IsByte c
      → Carries nbt rest
      → dec_slot lib dest (p ∷ (enc_varint i ++ (c ∷ (enc_slot_nbt lib nbt ++ rest))))
        ≡ ok (record { present = p; id = i; count = c; nbt = nbt }, rest)
  unfolding dec_slot dec_byte dec_nbt enc_byte enc_nbt
  dec_slot_nbt dest p i c none rest nz hp hi hc h =
      ground (arith, dec_varint-enc_varint i (c ∷ (0 ∷ rest)) hi (hc, h.bytes))
  dec_slot_nbt dest p i c (some nbt) rest nz hp hi hc h = ground (
    arith,
    h.restored.starts,
    h.restored.parses,
    dec_varint-enc_varint i (c ∷ (enc_slot_nbt lib (some nbt) ++ rest)) hi (hc, h.bytes),
  )

  pub enc_slot-present :
      (s : Slot)
      → s.present ≢ 0
      → IsSlot s
      → enc_slot lib s ≡ s.present ∷ (enc_varint s.id ++ (s.count ∷ enc_slot_nbt lib s.nbt))
  unfolding enc_slot enc_byte
  enc_slot-present s nz h =
      let p : s.present % 256 ≡ s.present = omega arith in
      let c : s.count % 256 ≡ s.count = omega arith in rw (p, c) (ground arith)

  -- A present slot comes back from `dec_slot` as it was given to `enc_slot`, whatever the destination
  -- held, if its fields are in range and cNBT restores its tree.
  pub dec_slot-enc_slot :
      (dest s : Slot) (rest : List ℕ)
      → s.present ≢ 0
      → IsSlot s
      → Carries s.nbt rest
      → dec_slot lib dest (enc_slot lib s ++ rest) ≡ ok (s, rest)
  dec_slot-enc_slot dest s rest nz h t = rw (enc_slot-present s nz h) (
      simp append_assoc (
        dec_slot_nbt dest s.present s.id s.count s.nbt rest nz h.present_fits h.id_fits h.count_fits
          t))

  -- Of an absent slot one zero byte is written, and `dec_slot` sets `present` and nothing else.
  pub dec_slot-absent :
      (dest s : Slot) (rest : List ℕ)
      → s.present ≡ 0
      → dec_slot lib dest (enc_slot lib s ++ rest) ≡ ok (record dest { present = 0 }, rest)
  unfolding enc_slot dec_slot enc_byte dec_byte
  dec_slot-absent dest s rest e = ground arith

  -- A present slot without a tree takes one byte more than `size_slot` says, and a further one where
  -- the id is from 128 to 255.
  pub size_slot-enc_slot :
      (s : Slot)
      → s.present ≢ 0
      → IsSlot s
      → s.nbt ≡ none
      → length (enc_slot lib s)
        ≡ size_slot s + 1 + (if ltb s.id 128 then 0 else if ltb s.id 256 then 1 else 0)
  unfolding size_slot enc_byte
  size_slot-enc_slot s nz h e = ground (
    arith,
    enc_slot-present s nz h,
    length-append (enc_varint s.id) (s.count ∷ enc_slot_nbt lib s.nbt),
    size_varint-enc s.id h.id_fits,
  )
