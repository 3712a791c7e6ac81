-- ===== src/Net/Header/Frame.antt =====
-- The header against the frame that it announces.
use c_spock_bot.Prelude.{
  ℕ, ◌+◌, ◌%◌, ◌^◌, ◌≤◌, ◌<◌, ◌≡◌, arith, List, ◌++◌, append_assoc, length, length-append,
}
use c_spock_bot.Prelude.{ltb, if◌then◌else◌, All, All-append, IsByte, IsU32}
use c_spock_bot.Outcome.{ok}
use c_spock_bot.Varnum.{size_varint, enc_varint, dec_varint}
use c_spock_bot.Varnum.Encode.{size_varint-enc}
use c_spock_bot.Varnum.RoundTrip.{dec_varint-enc_varint, enc_varint-IsByte}
use c_spock_bot.Net.Header.{size_uncom_hdr, enc_uncom_hdr}

-- What a varint takes more than `size_varint` says.
abbrev pub excess : ℕ → ℕ
excess v = if ltb v 128 then 0 else if ltb v 256 then 1 else 0

pub size_varint_le : (v : ℕ) → size_varint v ≤ 5
unfolding size_varint
size_varint_le v = ground arith

-- Before a payload, the length in a packet's header is that of the id and the payload that follow,
-- less one where the id is from 128 to 255, and the id is read back behind it.
pub enc_uncom_hdr-frame :
    (id : ℕ) (payload : List ℕ)
    → IsU32 id
    → length payload + 5 < 2 ^ 32
    → All IsByte payload
    → (announced : ℕ) × (dec_varint (enc_uncom_hdr (length payload) id ++ payload)
        ≡ ok (announced, enc_varint id ++ payload))
      × (length (enc_varint id ++ payload) ≡ announced + excess id)
      × (dec_varint (enc_varint id ++ payload) ≡ ok (id, payload))
unfolding enc_uncom_hdr
enc_uncom_hdr-frame id payload hid small hp =
    let announced : ℕ = length payload + size_varint id in
    let few = size_varint_le id in
    let exact : announced % 2 ^ 32 ≡ announced = omega arith in
    let size = length-append (enc_varint id) payload in
    let bytes : All IsByte (enc_varint id ++ payload) =
      All-append IsByte (enc_varint id) payload (enc_varint-IsByte id hid) hp in
    (
      announced,
      rw (exact, append_assoc (enc_varint announced) (enc_varint id) payload)
          (dec_varint-enc_varint announced (enc_varint id ++ payload) (omega arith) bytes),
      omega (arith, size_varint-enc id hid),
      dec_varint-enc_varint id payload hid hp,
    )

-- `sbnet_size_uncom_hdr` is the number of bytes that `sbnet_enc_uncom_hdr` writes, but one too few
-- for the length and for the id if they are from 128 to 255.
pub size_uncom_hdr-enc :
    (size id : ℕ)
    → IsU32 id
    → size + 5 < 2 ^ 32
    → length (enc_uncom_hdr size id)
      ≡ size_uncom_hdr size id + excess (size + size_varint id) + excess id
unfolding enc_uncom_hdr size_uncom_hdr
size_uncom_hdr-enc size id hid small =
    let few = size_varint_le id in
    let exact : (size + size_varint id) % 2 ^ 32 ≡ size + size_varint id = omega arith in
    rw exact (
      omega (
        arith,
        length-append (enc_varint (size + size_varint id)) (enc_varint id),
        size_varint-enc (size + size_varint id) (omega arith),
        size_varint-enc id hid,
      ))
