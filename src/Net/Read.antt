-- ===== src/Net/Read.antt =====
-- `sbnet_read_cb` of src/net/sb_net.c: from the bytes that libuv read to packets.
pub mod Buffered
pub mod Varint
pub mod Bodies
pub mod Callback
pub mod Packets
use c_spock_bot.Prelude.{
  ℕ, zero, suc, ◌+◌, ◌-◌, ◌%◌, ◌^◌, List, [], ◌∷◌, length, take, drop, Bool, true, false, ltb, ◌==◌,
  if◌then◌else◌,
}
use c_spock_bot.Prelude.{sub_size, sign_extend, Option, none, some}
use c_spock_bot.Outcome.{Outcome, ok, err, null, fault, stuck, ◌>>=◌}
use c_spock_bot.Varnum.{varnum_overrun, walk_varint, dec_varint}
use c_spock_bot.Net.Buffer.{Bbuf, recv_bbuf, adv_bbuf, received}

-- `enum compression_state`
pub data Compression : Type 0 where
  uncompressed compressed : Compression

-- What the handlers of packets change in a `sbnet_netcore`.
pub record Session : Type 0 where
  pub compression : Compression
  pub threshold : ℕ
  pub proto_state : ℕ

-- `sbnet_compress_cb` and `sbnet_success_cb`, by what they read of the packet and of the protocol.
unfoldable pub compress_cb : Session → ℕ → Session
compress_cb session threshold = record session { threshold = threshold; compression = compressed }

unfoldable pub success_cb : Session → ℕ → Session
success_cb session play_id = record session { proto_state = play_id }

-- `sbnet_netcore`; `next_packet_size` is the bit pattern of a `ssize_t`.
pub record Netcore : Type 0 where
  pub session : Session
  pub read_buf : Bbuf
  pub next_packet_size : ℕ

-- `NO_SIZE`
abbrev pub no_size : ℕ
no_size = 2 ^ 64 - 1

-- What the code takes from outside. `inflate source len` is what zlib leaves in `len` bytes of memory
-- where it reaches the end of the stream, `generic_toclient_decode state id source len` the packet or
-- NULL, `react session id packet` the session when the callbacks of the packet's event have returned,
-- `none` where it has none, and `malloc n` whether an allocation succeeds.
pub record Outside : Type 1 where
  pub Packet : Type 0
  pub inflate : List ℕ → ℕ → Option (List ℕ)
  pub generic_toclient_decode : ℕ → ℕ → List ℕ → ℕ → Option Packet
  pub react : Session → ℕ → Packet → Option Session
  pub malloc : ℕ → Bool

-- The bytes from `cur` on.
abbrev pub source_of : Bbuf → List ℕ
source_of buf = drop buf.cur buf.memory

-- `ERR_CHK`: a negative result is an `exit`, here `none`.
abbrev pub checked : {A B : Type 0} → Outcome A → (A → Outcome (Option B)) → Outcome (Option B)
checked (ok a) next = next a
checked (err k) next = ok none
checked null next = null
checked fault next = fault
checked stuck next = stuck

-- A call of `sbnet_adv_bbuf` whose result is ignored.
abbrev pub advance_buf : Bbuf → ℕ → Bbuf
advance_buf buf dist = elim (adv_bbuf buf dist) [ ok moved ↦ moved | _ ↦ buf ]

-- A call of `sbnet_recv_bbuf` whose result is ignored: what is read of `data` then was never written.
abbrev pub received_data : Outcome (List ℕ × Bbuf) → Outcome (List ℕ × Bbuf)
received_data (ok r) = ok r
received_data (err k) = fault
received_data null = null
received_data fault = fault
received_data stuck = stuck

-- The first `if` of the loop: whether the size of the next packet is known behind it, or has not come
-- whole, or is no varint.
pub data Sizing : Type 0 where
  size_read : Netcore → Sizing
  overrun invalid : Sizing

unfoldable pub read_size : Netcore → Outcome Sizing
read_size net =
    if net.next_packet_size == no_size
    then elim (walk_varint (source_of net.read_buf) net.read_buf.in_use) [
      | ok ret ↦ (do
        (packet_size, _) ← dec_varint (source_of net.read_buf)
        ok (
            size_read (record net {
              read_buf = advance_buf net.read_buf ret;
              next_packet_size = sign_extend packet_size;
            })))
      | err k ↦ ok (if k == varnum_overrun then overrun else invalid)
      | null ↦ null
      | fault ↦ fault
      | stuck ↦ stuck
    ]
    else ok (size_read net)

-- An id, the memory from `pdata` on, `data_len`, and the buffer behind the packet.
pub record Body : Type 0 where
  pub id : ℕ
  pub pdata : List ℕ
  pub data_len : ℕ
  pub read_buf : Bbuf

module _ (outside : Outside) where
  open outside use {Packet, inflate, generic_toclient_decode, react, malloc}

  -- An id, and `data_len` bytes of data behind it, of which those that the id takes are to be taken
  -- away.
  unfoldable pub read_plain : Bbuf → ℕ → Outcome (Option Body)
  read_plain buf len = checked (walk_varint (source_of buf) buf.in_use) (λ ret. do
    (id, _) ← dec_varint (source_of buf)
    let data_len = sub_size len ret
    if malloc data_len
        then (do
          (dest, buf) ← received_data (recv_bbuf (advance_buf buf ret) data_len)
          ok (some (record { id = id; pdata = dest; data_len = data_len; read_buf = buf })))
        else ok none)

  -- `avail_in` and `avail_out` are `unsigned`.
  unfoldable pub read_inflated : Bbuf → ℕ → ℕ → Outcome (Option Body)
  read_inflated buf compressed_size data_len =
      if malloc data_len
      then elim (inflate (take (compressed_size % 2 ^ 32) (source_of buf)) (data_len % 2 ^ 32)) [
        | none ↦ ok none
        | some dest ↦ checked (walk_varint dest data_len) (λ ret. do
          (id, pdata) ← dec_varint dest
          ok (
              some (record {
                id = id;
                pdata = pdata;
                data_len = sub_size data_len ret;
                read_buf = advance_buf buf compressed_size;
              })))
      ]
      else ok none

  unfoldable pub read_compressed : Bbuf → ℕ → Outcome (Option Body)
  read_compressed buf len = checked (walk_varint (source_of buf) buf.in_use) (λ ret. do
    (tmp, _) ← dec_varint (source_of buf)
    if tmp == 0
        then read_plain (advance_buf buf ret) (sub_size len ret)
        else read_inflated (advance_buf buf ret) (sub_size len ret) (sign_extend tmp))

  abbrev pub read_body : Compression → Bbuf → ℕ → Outcome (Option Body)
  read_body uncompressed buf len = read_plain buf len
  read_body compressed buf len = read_compressed buf len

  -- The calls that other components see.
  pub data Effect : Type 0 where
    wrlock wrunlock : Effect
    emit : ℕ → ℕ → Packet → Effect

  -- The return of the callback, or the end of the program.
  pub data End : Type 0 where
    returns : Netcore → End
    exits : End

  -- The plugin's lock, held or not, behind these effects: the thread that holds it cannot take it
  -- again, and one that is not held cannot be released.
  unfoldable pub lock_after : Bool → List Effect → Outcome Bool
  lock_after held [] = ok held
  lock_after true (wrlock ∷ effects) = fault
  lock_after false (wrlock ∷ effects) = lock_after true effects
  lock_after true (wrunlock ∷ effects) = lock_after false effects
  lock_after false (wrunlock ∷ effects) = fault
  lock_after held (emit state id pak ∷ effects) = lock_after held effects

  -- From the decoded body on: the packet, its event, and what its callbacks did. `sbev_emit_event`
  -- does not set the counter of an event without callbacks, which `vgc_wait_for_counter` reads then.
  abbrev pub deliver :
      Netcore → Option Body → (Netcore → Outcome (List Effect × End)) → Outcome (List Effect × End)
  deliver net none next = ok ([], exits)
  deliver net (some body) next =
      elim (generic_toclient_decode net.session.proto_state body.id body.pdata body.data_len) [
        | none ↦ ok ([], exits)
        | some pak ↦ elim (react net.session body.id pak) [
          | none ↦ fault
          | some session ↦ (do
            (effects, end) ←
                next (record {
                  session = session;
                  read_buf = body.read_buf;
                  next_packet_size = no_size;
                })
            ok (wrunlock ∷ (emit net.session.proto_state body.id pak ∷ effects), end))
        ]
      ]

  -- The loop, with the sizing done.
  abbrev pub read_packet :
      Sizing → Netcore → (Netcore → Outcome (List Effect × End)) → Outcome (List Effect × End)
  read_packet overrun net next = ok ([], returns net)
  read_packet invalid net next = ok ([], exits)
  read_packet (size_read net') net next =
      if ltb net'.read_buf.in_use net'.next_packet_size then ok ([], returns net') else (do
        body ← read_body net'.session.compression net'.read_buf net'.next_packet_size
        deliver net' body next)

  -- On fuel: each round but the last takes a byte.
  unfoldable pub read_loop : ℕ → Netcore → Outcome (List Effect × End)
  read_loop zero net = stuck
  read_loop (suc fuel) net = do
    sizing ← read_size net
    read_packet sizing net (λ net. read_loop fuel net)

  -- `nread` is the bit pattern of a `ssize_t`, `bytes` what libuv has put behind the bytes that wait,
  -- and `held` says whether the plugin's lock is still held from a read before.
  unfoldable pub read_cb : Bool → Netcore → ℕ → List ℕ → Outcome (List Effect × Bool × End)
  read_cb held net nread bytes = if ltb (2 ^ 63 - 1) nread then ok ([], held, exits) else (do
    let buf = received net.read_buf bytes
    (effects, end) ← read_loop (buf.in_use + 1) (record net { read_buf = buf })
    held ← lock_after held (wrlock ∷ effects)
    ok (wrlock ∷ effects, held, end))
