-- ===== src/Net/Connect.antt =====
-- `sbnet_connect_cb` of src/net/sb_net.c: the first two packets.
pub mod Framed
pub mod Sent
use c_spock_bot.Prelude.{
  ℕ, ◌+◌, ◌%◌, ◌^◌, List, ◌++◌, length, take, drop, ltb, if◌then◌else◌, Bool, Option, none, some,
}
use c_spock_bot.Outcome.{Outcome, ok, fault, ◌>>=◌}
use c_spock_bot.Net.Header.{size_uncom_hdr, enc_uncom_hdr}
use c_spock_bot.Net.Read.{Session}

-- `handshaking_toserver_set_protocol` and `login_toserver_login_start` of the generated protocol.
pub record SetProtocol (Sds : Type 0) : Type 0 where
  pub protocol_version : ℕ
  pub server_host : Sds
  pub server_port : ℕ
  pub next_state : ℕ

pub record LoginStart (Sds : Type 0) : Type 0 where
  pub username : Sds

-- What the code takes from sds, from the generated protocol and from libuv, and the memory that
-- `malloc` gives.
pub record Protocol : Type 1 where
  pub Sds : Type 0
  pub sdsnew : List ℕ → Sds
  pub set_protocol_id : ℕ
  pub login_start_id : ℕ
  pub login_id : ℕ
  pub size_set_protocol : SetProtocol Sds → ℕ
  pub enc_set_protocol : SetProtocol Sds → List ℕ
  pub size_login_start : LoginStart Sds → ℕ
  pub enc_login_start : LoginStart Sds → List ℕ
  pub write_size : ℕ
  pub malloc : ℕ → Option (List ℕ)

-- `sbnet_settings`
pub record Settings : Type 0 where
  pub addr : List ℕ
  pub username : List ℕ
  pub port : ℕ

-- `bytes` written from the start of a memory.
abbrev pub written : List ℕ → List ℕ → Outcome (List ℕ)
written memory bytes =
    if ltb (length memory) (length bytes) then fault else ok (bytes ++ drop (length bytes) memory)

module _ (protocol : Protocol) where
  open protocol use {
    Sds, sdsnew, set_protocol_id, login_start_id, login_id, size_set_protocol, enc_set_protocol,
    size_login_start, enc_login_start, write_size, malloc,
  }

  abbrev pub set_proto : Settings → SetProtocol Sds
  set_proto settings = record {
    protocol_version = 498;
    server_host = sdsnew settings.addr;
    server_port = 25565;
    next_state = login_id;
  }

  abbrev pub login_start : Settings → LoginStart Sds
  login_start settings = record { username = sdsnew settings.username }

  -- `tot_size`
  unfoldable pub first_size : Settings → ℕ
  first_size settings =
      let s_set_proto = size_set_protocol (set_proto settings) in
      let s_set_proto_hdr = size_uncom_hdr (s_set_proto % 2 ^ 32) set_protocol_id in
      let s_login_start = size_login_start (login_start settings) in
      let s_login_start_hdr = size_uncom_hdr (s_login_start % 2 ^ 32) login_start_id in
      (s_set_proto_hdr + s_set_proto + s_login_start_hdr + s_login_start) % 2 ^ 64

  -- What is written to `buf.base`.
  unfoldable pub first_bytes : Settings → List ℕ
  first_bytes settings =
      let s_set_proto = size_set_protocol (set_proto settings) % 2 ^ 32 in
      let s_login_start = size_login_start (login_start settings) % 2 ^ 32 in
      enc_uncom_hdr s_set_proto set_protocol_id
      ++ (enc_set_protocol (set_proto settings)
          ++ (enc_uncom_hdr s_login_start login_start_id ++ enc_login_start (login_start settings)))

  -- From the memory for the bytes on: what `uv_write` is given, and the session, before reading starts.
  -- `uv_buf_init` takes the length as an `unsigned int`. `none` is an `exit`.
  abbrev pub send_first : Settings → Session → Option (List ℕ) → Outcome (Option (List ℕ × Session))
  send_first settings session none = ok none
  send_first settings session (some memory) = do
    bytes ← written memory (first_bytes settings)
    elim (malloc write_size) [
      | none ↦ ok none
      | some _ ↦ ok (
          some
            (take (first_size settings % 2 ^ 32) bytes, record session { proto_state = login_id }))
    ]

  -- `connected` says whether `status` is not negative.
  unfoldable pub connect_cb : Bool → Settings → Session → Outcome (Option (List ℕ × Session))
  connect_cb connected settings session =
      if connected then send_first settings session (malloc (first_size settings)) else ok none
