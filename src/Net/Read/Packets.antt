-- ===== src/Net/Read/Packets.antt =====
-- A stream of packets through the loop of `sbnet_read_cb`.
use c_spock_bot.Prelude.{ℕ, zero, suc, ◌^◌, ◌<◌, ◌≡◌, refl, ◌∙◌, arith, List, [], ◌∷◌, ◌++◌}
use c_spock_bot.Prelude.{length, length-append, ltb, ◌==◌, All, IsByte}
use mathlib.Core.Path.{subst}
use c_spock_bot.Prelude.{true, false, Option, none, some, sign_extend}
use c_spock_bot.Outcome.{Outcome, ok, err, ◌>>=◌}
use c_spock_bot.Varnum.{enc_varint, walk_varint, varnum_overrun}
use c_spock_bot.Varnum.RoundTrip.{length-enc_varint}
use c_spock_bot.Net.Read.{
  Compression, Session, Netcore, no_size, Outside, Body, size_read, overrun, read_size, read_body,
  Effect, wrunlock, emit, End, returns, deliver, read_loop,
}
use c_spock_bot.Net.Read.Buffered.{Ready, Ready-Ahead, past, past-Ready, advance_buf-past}
use c_spock_bot.Net.Read.Varint.{Ready-Varint}
use c_spock_bot.Net.Read.Bodies.{Packs, plain, stored, deflated, Roomy, read_body-Finds}

-- The bytes that wait hold no whole varint, whatever lies behind them.
abbrev pub Unfinished : List ℕ → Type 0
Unfinished bytes =
    (room : List ℕ)
    → All IsByte (bytes ++ room)
    → walk_varint (bytes ++ room) (length bytes) ≡ err varnum_overrun

-- A `next_packet_size`: not known, or a number.
abbrev pub known_size : Option ℕ → ℕ
known_size none = no_size
known_size (some n) = n

-- A state of the connection in which bytes wait.
pub record Waits (net : Netcore) (s : Session) (o : Option ℕ) (bytes : List ℕ) : Type 0 where
  pub session : net.session ≡ s
  pub size : net.next_packet_size ≡ known_size o
  pub ready : Ready net.read_buf bytes

module _ (outside : Outside) where
  open outside use {Packet, inflate, generic_toclient_decode, react, malloc}

  -- A session in which the size of the next packet may be known reads these bytes from a server: with
  -- these effects, and in the end the session, size and bytes given last.
  pub data Stream
      : Session
        → Option ℕ
        → List ℕ
        → List (Effect outside)
        → Session
        → Option ℕ
        → List ℕ
        → Type 0 where
    size_first :
        {s s' : Session} {n : ℕ} {bytes rest : List ℕ} {effects : List (Effect outside)}
        {o : Option ℕ}
        → n < 2 ^ 31
        → Stream s (some n) bytes effects s' o rest
        → Stream s none (enc_varint n ++ bytes) effects s' o rest
    body_next :
        {s t s' : Session} {id : ℕ} {body payload bytes rest : List ℕ} {pak : Packet}
        {effects : List (Effect outside)} {o : Option ℕ}
        → Packs outside s.compression body id payload
        → length body < 2 ^ 31
        → generic_toclient_decode s.proto_state id payload (length payload) ≡ some pak
        → react s id pak ≡ some t
        → Stream t none bytes effects s' o rest
        → Stream s
            (some (length body))
            (body ++ bytes)
            (wrunlock ∷ (emit s.proto_state id pak ∷ effects))
            s'
            o
            rest
    no_size_yet :
        {s : Session} {bytes : List ℕ} → Unfinished bytes → Stream s none bytes [] s none bytes
    no_body_yet :
        {s : Session} {n : ℕ} {bytes : List ℕ}
        → n < 2 ^ 31
        → length bytes < n
        → Stream s (some n) bytes [] s (some n) bytes

  -- A run with these effects that comes to such a state.
  abbrev pub Comes :
      Outcome (List (Effect outside) × End outside)
      → List (Effect outside)
      → Session
      → Option ℕ
      → List ℕ
      → Type 0
  Comes run effects s o rest =
      (net : Netcore) × (run ≡ ok (effects, returns net)) × Waits net s o rest

  -- The size of the next packet is read.
  read_size-sized :
      (net : Netcore) (s : Session) (n : ℕ) (bytes : List ℕ)
      → n < 2 ^ 31
      → Waits net s none (enc_varint n ++ bytes)
      → (net' : Netcore) × (read_size net ≡ ok (size_read net')) × Waits net' s (some n) bytes
  unfolding read_size
  read_size-sized net s n bytes small w =
      let v = Ready-Varint net.read_buf n bytes (omega arith) w.ready in
      let natural : sign_extend n ≡ n = ground arith in
      (
        record net { read_buf = past net.read_buf (enc_varint n); next_packet_size = n },
        rw
            (
              w.size,
              v.walked,
              v.decoded,
              natural,
              advance_buf-past net.read_buf (enc_varint n) bytes w.ready,
            )
            refl,
        record {
          session = w.session;
          size = refl;
          ready = past-Ready net.read_buf (enc_varint n) bytes w.ready;
        },
      )

  read_size-known :
      (net : Netcore) (s : Session) (n : ℕ) (bytes : List ℕ)
      → n < 2 ^ 31
      → Waits net s (some n) bytes
      → read_size net ≡ ok (size_read net)
  unfolding read_size
  read_size-known net s n bytes small w =
      let other : (net.next_packet_size == no_size) ≡ false = ground (arith, w.size) in
      rw other refl

  read_size-overrun :
      (net : Netcore) (s : Session) (bytes : List ℕ)
      → Unfinished bytes
      → Waits net s none bytes
      → read_size net ≡ ok overrun
  unfolding read_size
  read_size-overrun net s bytes u w =
      let ahead = Ready-Ahead net.read_buf bytes w.ready in
      rw (w.size, ahead.source, ahead.counted, u ahead.room ahead.bytes) refl

  same_loop :
      (fuel : ℕ) (net net' : Netcore)
      → read_size net ≡ ok (size_read net')
      → read_size net' ≡ ok (size_read net')
      → read_loop outside (suc fuel) net ≡ read_loop outside (suc fuel) net'
  unfolding read_loop
  same_loop fuel net net' e e' = rw (e, e') refl

  deliver-emit :
      (net : Netcore) (body : Body) (pak : Packet) (t : Session)
      (next : Netcore → Outcome (List (Effect outside) × End outside))
      → generic_toclient_decode net.session.proto_state body.id body.pdata body.data_len ≡ some pak
      → react net.session body.id pak ≡ some t
      → deliver outside net (some body) next ≡ (do
        (effects, end) ←
            next (record { session = t; read_buf = body.read_buf; next_packet_size = no_size })
        ok (wrunlock ∷ (emit net.session.proto_state body.id pak ∷ effects), end))
  deliver-emit net body pak t next decoded handled = rw (deliver, decoded, handled) refl

  -- A round that delivers a packet.
  abbrev Rounds : ℕ → Netcore → Session → Session → ℕ → Packet → List ℕ → Type 0
  Rounds fuel net s t id pak bytes =
      (net' : Netcore) × (read_loop outside (suc fuel) net ≡ (do
        (effects, end) ← read_loop outside fuel net'
        ok (wrunlock ∷ (emit s.proto_state id pak ∷ effects), end)))
      × Waits net' t none bytes

  -- A round with a whole packet, in the state's own session.
  own-round :
      (fuel : ℕ) (net : Netcore) (t : Session) (id : ℕ) (body payload bytes : List ℕ) (pak : Packet)
      → Roomy outside
      → Packs outside net.session.compression body id payload
      → length body < 2 ^ 31
      → generic_toclient_decode net.session.proto_state id payload (length payload) ≡ some pak
      → react net.session id pak ≡ some t
      → net.next_packet_size ≡ length body
      → Ready net.read_buf (body ++ bytes)
      → Rounds fuel net net.session t id pak bytes
  unfolding read_loop
  own-round fuel net t id body payload bytes pak roomy packs small decoded handled size ready =
      let ahead = Ready-Ahead net.read_buf (body ++ bytes) ready in
      let whole : ltb net.read_buf.in_use net.next_packet_size ≡ false =
        ground (arith, size, ahead.counted, length-append body bytes) in
      let found =
        read_body-Finds outside net.session.compression net.read_buf id body payload bytes roomy
          packs small ready in
      let read : read_body outside net.session.compression net.read_buf net.next_packet_size
          ≡ ok (
              some (record {
                id = id;
                pdata = payload;
                data_len = length payload;
                read_buf = found.0;
              })) =
        rw size found.1 in
      let waits : Waits net net.session (some (length body)) (body ++ bytes) = record {
        session = refl;
        size = size;
        ready = ready;
      } in
      (
        record { session = t; read_buf = found.0; next_packet_size = no_size },
        rw (read_size-known net net.session (length body) (body ++ bytes) small waits, whole, read)
            (deliver-emit net
              (record { id = id; pdata = payload; data_len = length payload; read_buf = found.0 })
              pak t (λ net. read_loop outside fuel net) decoded handled),
        record { session = refl; size = refl; ready = found.2 },
      )

  round-packet :
      (fuel : ℕ) (net : Netcore) (s t : Session) (id : ℕ) (body payload bytes : List ℕ)
      (pak : Packet)
      → Roomy outside
      → Packs outside s.compression body id payload
      → length body < 2 ^ 31
      → generic_toclient_decode s.proto_state id payload (length payload) ≡ some pak
      → react s id pak ≡ some t
      → Waits net s (some (length body)) (body ++ bytes)
      → Rounds fuel net s t id pak bytes
  round-packet fuel net s t id body payload bytes pak roomy packs small decoded handled w =
      subst (λ x. Rounds fuel net x t id pak bytes) w.session
        (own-round fuel net t id body payload bytes pak roomy (rw w.session packs) small
          (rw w.session decoded) (rw w.session handled) w.size w.ready)

  body-ne-nil :
      (c : Compression) (id : ℕ) (body payload : List ℕ)
      → Packs outside c body id payload
      → 0 < length body
  body-ne-nil _ id _ payload (plain small) =
      omega (arith, length-append (enc_varint id) payload, length-enc_varint id small)
  body-ne-nil _ id _ payload (stored small) = omega (
    arith,
    length-append (enc_varint 0) (enc_varint id ++ payload),
    length-enc_varint 0 (omega arith),
  )
  body-ne-nil _ id _ payload (deflated {size} {z} small bytes whole limit packed) =
      omega (arith, length-append (enc_varint size) z, length-enc_varint size (omega arith))

  -- The loop, with more fuel than bytes wait, reads a stream to its end.
  pub read_loop-Comes :
      (fuel : ℕ) (net : Netcore) {s s' : Session} {o o' : Option ℕ} {bytes rest : List ℕ}
      {effects : List (Effect outside)}
      → Roomy outside
      → Stream s o bytes effects s' o' rest
      → Waits net s o bytes
      → length bytes < fuel
      → Comes (read_loop outside fuel net) effects s' o' rest
  unfolding read_loop
  read_loop-Comes zero net roomy st w enough = elim enough [ ]
  read_loop-Comes (suc fuel) net roomy (size_first {s} {s'} {n} {bytes} small st) w enough =
      let r = read_size-sized net s n bytes small w in
      let rest =
        read_loop-Comes (suc fuel) r.0 roomy st r.2
          (omega (arith, length-append (enc_varint n) bytes)) in
      (
        rest.0,
        same_loop fuel net r.0 r.1 (read_size-known r.0 s n bytes small r.2) ∙ rest.1,
        rest.2,
      )
  read_loop-Comes (suc fuel) net roomy
        (body_next {s} {t} {id} {body} {payload} {bytes} {pak} packs small decoded handled st) w
        enough =
      let r =
        round-packet fuel net s t id body payload bytes pak roomy packs small decoded handled w in
      let rest = read_loop-Comes fuel r.0 roomy st r.2 (
        omega (arith, length-append body bytes, body-ne-nil s.compression id body payload packs)) in
      (rest.0, r.1 ∙ rw rest.1 refl, rest.2)
  read_loop-Comes (suc fuel) net roomy (no_size_yet {s} {bytes} u) w enough =
      (net, rw (read_size-overrun net s bytes u w) refl, w)
  read_loop-Comes (suc fuel) net roomy (no_body_yet {s} {n} {bytes} small few) w enough =
      let ahead = Ready-Ahead net.read_buf bytes w.ready in
      let short : ltb net.read_buf.in_use n ≡ true = ground (arith, ahead.counted) in
      (net, rw (read_size-known net s n bytes small w, w.size, short) refl, w)
