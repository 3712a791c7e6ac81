-- ===== src/Tests/Connect.antt =====
-- A connection to a server with a short name, and to one whose handshake takes 132 bytes with its id.
use c_spock_bot.Prelude.{ℕ, zero, suc, ◌≡◌, refl, ap, arith, List, [], ◌∷◌, length, true, some}
use c_spock_bot.Outcome.{ok, fault}
use c_spock_bot.Varnum.{size_varint}
use c_spock_bot.Net.Header.{size_uncom_hdr}
use c_spock_bot.Net.Read.{uncompressed, Session}
use c_spock_bot.Net.Connect.{Protocol, Settings, first_size, connect_cb}
use c_spock_bot.Net.Connect.Framed.{Framed}
use c_spock_bot.Net.Connect.Sent.{IsSized, connect_cb-Framed, connect_cb-overflow}

abbrev bytes_of : ℕ → List ℕ
bytes_of zero = []
bytes_of (suc n) = 97 ∷ bytes_of n

length-bytes_of : (n : ℕ) → length (bytes_of n) ≡ n
length-bytes_of zero = refl
length-bytes_of (suc n) = ap suc (length-bytes_of n)

-- Strings are their bytes; the handshake is two bytes and the host, the login is the name.
abbrev protocol : Protocol
protocol = record {
  Sds = List ℕ;
  sdsnew = λ s. s;
  set_protocol_id = 0;
  login_start_id = 0;
  login_id = 2;
  size_set_protocol = λ p. suc (suc (length p.server_host));
  enc_set_protocol = λ p. 242 ∷ (3 ∷ p.server_host);
  size_login_start = λ p. length p.username;
  enc_login_start = λ p. p.username;
  write_size = 192;
  malloc = λ n. some (bytes_of n);
}

abbrev session : Session
session = record { compression = uncompressed; threshold = 0; proto_state = 0 }

abbrev near : Settings
near = record { addr = 49 ∷ (50 ∷ []); username = 98 ∷ []; port = 25565 }

abbrev far : Settings
far = record { addr = bytes_of 129; username = 98 ∷ []; port = 25565 }

near-IsSized : IsSized protocol near
near-IsSized = record {
  first = refl;
  second = refl;
  first_small = omega arith;
  second_small = omega arith;
  first_id = omega arith;
  second_id = omega arith;
}

far-IsSized : IsSized protocol far
far-IsSized = record {
  first = refl;
  second = refl;
  first_small = omega arith;
  second_small = omega arith;
  first_id = omega arith;
  second_id = omega arith;
}

connect_cb-Framed_example :
    (bytes : List ℕ) × (second : List ℕ) × (connect_cb protocol true near session
      ≡ ok (some (bytes, record session { proto_state = 2 })))
    × Framed 0 (242 ∷ (3 ∷ (49 ∷ (50 ∷ [])))) second bytes
    × Framed 0 (98 ∷ []) [] second
unfolding size_varint first_size size_uncom_hdr
connect_cb-Framed_example =
    connect_cb-Framed protocol near session (bytes_of (first_size protocol near)) (bytes_of 192)
      near-IsSized refl (omega arith) refl (length-bytes_of (first_size protocol near)) refl
      (omega arith, (omega arith, (omega arith, (omega arith, tt)))) (omega arith, tt)

connect_cb-overflow_example : connect_cb protocol true far session ≡ fault
unfolding size_varint
connect_cb-overflow_example =
    connect_cb-overflow protocol far session (bytes_of (first_size protocol far)) far-IsSized
      (omega arith) refl (length-bytes_of (first_size protocol far))
