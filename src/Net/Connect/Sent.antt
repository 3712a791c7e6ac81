-- ===== src/Net/Connect/Sent.antt =====
-- What `sbnet_connect_cb` sends.
use c_spock_bot.Prelude.{
  ℕ, ◌+◌, ◌%◌, ◌^◌, ◌<◌, ◌≡◌, refl, sym, ap, ◌∙◌, arith, List, [], ◌++◌, append-nil, length, drop,
  true, false,
}
use c_spock_bot.Prelude.{ltb, take, take-length, All, All-append, IsByte, IsU32, some}
use mathlib.Core.Path.{subst}
use c_spock_bot.Outcome.{ok, fault}
use c_spock_bot.Net.Header.{enc_uncom_hdr}
use c_spock_bot.Net.Connect.{
  Protocol, Settings, set_proto, login_start, first_size, first_bytes, connect_cb,
}
use c_spock_bot.Net.Read.{Session}
use c_spock_bot.Net.Connect.Framed.{
  header_excess, length-two_packets, drop-all, enc_uncom_hdr-IsByte, Framed, enc_uncom_hdr-Framed,
}

module _ (protocol : Protocol) where
  open protocol use {
    Sds, sdsnew, set_protocol_id, login_start_id, login_id, size_set_protocol, enc_set_protocol,
    size_login_start, enc_login_start, write_size, malloc,
  }

  abbrev first_payload : Settings → List ℕ
  first_payload settings = enc_set_protocol (set_proto protocol settings)

  abbrev second_payload : Settings → List ℕ
  second_payload settings = enc_login_start (login_start protocol settings)

  -- The generated encoders write as many bytes as the generated sizes say, fewer than 2^31.
  pub record IsSized (settings : Settings) : Type 0 where
    pub first : size_set_protocol (set_proto protocol settings) ≡ length (first_payload settings)
    pub second : size_login_start (login_start protocol settings) ≡ length (second_payload settings)
    pub first_small : length (first_payload settings) < 2 ^ 31
    pub second_small : length (second_payload settings) < 2 ^ 31
    pub first_id : IsU32 set_protocol_id
    pub second_id : IsU32 login_start_id

  -- What both headers take more than was counted.
  abbrev lacking : Settings → ℕ
  lacking settings =
      header_excess (length (first_payload settings)) set_protocol_id
      + header_excess (length (second_payload settings)) login_start_id

  length-first_bytes :
      (settings : Settings)
      → IsSized settings
      → length (first_bytes protocol settings) ≡ first_size protocol settings + lacking settings
  unfolding first_bytes first_size
  length-first_bytes settings z =
      rw (z.first, z.second)
        (length-two_packets (first_payload settings) (second_payload settings) set_protocol_id
          login_start_id z.first_id z.second_id z.first_small z.second_small)

  first_bytes-sized :
      (settings : Settings)
      → IsSized settings
      → first_bytes protocol settings
        ≡ enc_uncom_hdr (length (first_payload settings) % 2 ^ 32) set_protocol_id
          ++ (first_payload settings
              ++ (enc_uncom_hdr (length (second_payload settings) % 2 ^ 32) login_start_id
                  ++ (second_payload settings ++ [])))
  unfolding first_bytes
  first_bytes-sized settings z = rw (z.first, z.second, append-nil (second_payload settings)) refl

  -- If the generated sizes are those of the encodings, both less than 2^31, the length and the id of
  -- each of the two packets are not from 128 to 255, the sizes of both packets with their headers are
  -- together less than 2^32, and memory is given, `sbnet_connect_cb` sends,
  -- without a byte more or less, the handshake and then the login, from which a reader gets back the
  -- size, the id and the payload of each, and the protocol is in its login state.
  pub connect_cb-Framed :
      (settings : Settings) (session : Session) (memory other : List ℕ)
      → IsSized settings
      → lacking settings ≡ 0
      → first_size protocol settings < 2 ^ 32
      → malloc (first_size protocol settings) ≡ some memory
      → length memory ≡ first_size protocol settings
      → malloc write_size ≡ some other
      → All IsByte (first_payload settings)
      → All IsByte (second_payload settings)
      → (bytes : List ℕ) × (second : List ℕ) × (connect_cb protocol true settings session
          ≡ ok (some (bytes, record session { proto_state = login_id })))
        × Framed set_protocol_id (first_payload settings) second bytes
        × Framed login_start_id (second_payload settings) [] second
  unfolding connect_cb
  connect_cb-Framed settings session memory other z exact whole given size given' hp hq =
      let len = length-first_bytes settings z in
      let fits : length memory ≡ length (first_bytes protocol settings) =
        omega (arith, len, size, exact) in
      let within : ltb (length memory) (length (first_bytes protocol settings)) ≡ false =
        ground (arith, fits) in
      let none_left : first_bytes protocol settings
            ++ drop (length (first_bytes protocol settings)) memory
          ≡ first_bytes protocol settings =
        ap (λ n. first_bytes protocol settings ++ drop n memory) (sym fits)
        ∙ (ap (λ xs. first_bytes protocol settings ++ xs) (drop-all memory)
            ∙ append-nil (first_bytes protocol settings)) in
      let all : take (first_size protocol settings % 2 ^ 32) (first_bytes protocol settings)
          ≡ first_bytes protocol settings =
        let count : first_size protocol settings % 2 ^ 32 ≡ length (first_bytes protocol settings) =
          omega (arith, len, exact, whole) in
        rw count (take-length (first_bytes protocol settings)) in
      let second : List ℕ =
        enc_uncom_hdr (length (second_payload settings) % 2 ^ 32) login_start_id
        ++ (second_payload settings ++ []) in
      let second_bytes : All IsByte second =
        All-append IsByte (enc_uncom_hdr (length (second_payload settings) % 2 ^ 32) login_start_id)
          (second_payload settings ++ [])
          (enc_uncom_hdr-IsByte (length (second_payload settings) % 2 ^ 32) login_start_id
            z.second_id)
          (All-append IsByte (second_payload settings) [] hq tt) in
      (
        first_bytes protocol settings,
        second,
        rw (given, within, given')
            (ap (λ bytes. ok (some (bytes, record session { proto_state = login_id })))
              (ap (λ bytes. take (first_size protocol settings % 2 ^ 32) bytes) none_left ∙ all)),
        subst (Framed set_protocol_id (first_payload settings) second)
            (sym (first_bytes-sized settings z))
            (enc_uncom_hdr-Framed set_protocol_id (first_payload settings) second z.first_id
              z.first_small (omega (arith, exact)) hp second_bytes),
        enc_uncom_hdr-Framed login_start_id (second_payload settings) [] z.second_id z.second_small
            (omega (arith, exact)) hq tt,
      )

  -- If instead the length or the id of one of the packets is from 128 to 255, `sbnet_connect_cb` writes
  -- behind the end of its buffer.
  pub connect_cb-overflow :
      (settings : Settings) (session : Session) (memory : List ℕ)
      → IsSized settings
      → 0 < lacking settings
      → malloc (first_size protocol settings) ≡ some memory
      → length memory ≡ first_size protocol settings
      → connect_cb protocol true settings session ≡ fault
  unfolding connect_cb
  connect_cb-overflow settings session memory z more given size =
      let len = length-first_bytes settings z in
      let over : ltb (length memory) (length (first_bytes protocol settings)) ≡ true =
        ground (arith, len, size, more) in
      rw (given, over) refl
