-- ===== src/Net/Read/Callback.antt =====
-- `sbnet_read_cb` as a whole, and a stream that comes in several reads.
use c_spock_bot.Prelude.{
  ℕ, ◌+◌, ◌-◌, ◌^◌, ◌≤◌, ◌<◌, ◌≡◌, refl, arith, List, ◌∷◌, ◌++◌, append_assoc,
}
use c_spock_bot.Prelude.{length, ltb, All, IsByte, Bool, false, Option}
use c_spock_bot.Outcome.{ok, ◌>>=◌}
use c_spock_bot.Varnum.{enc_varint}
use c_spock_bot.Net.Buffer.{received}
use c_spock_bot.Net.Read.{Session, Netcore, Outside, Effect, wrlock, returns, lock_after, read_cb}
use c_spock_bot.Net.Read.Buffered.{Ready-Ahead, received-Ready}
use c_spock_bot.Net.Read.Bodies.{Roomy}
use c_spock_bot.Net.Read.Packets.{
  Stream, size_first, body_next, no_size_yet, no_body_yet, Waits, read_loop-Comes,
}

module _ (outside : Outside) where
  -- A read that completes a stream of whole packets, and perhaps the beginning of another, emits the
  -- event of each packet once, in their order, with what the decoder makes of its payload in the
  -- session that the handlers before it have left; the beginning waits in the buffer. The lock is
  -- taken once, and released once for each packet; where that is not possible the read does not come to its end.
  pub read_cb-Comes :
      (held : Bool) (net : Netcore) (waiting bytes : List ℕ) {s s' : Session} {o o' : Option ℕ}
      {rest : List ℕ} {effects : List (Effect outside)}
      → Roomy outside
      → Waits net s o waiting
      → length bytes ≤ net.read_buf.rem
      → length bytes < 2 ^ 63
      → All IsByte bytes
      → Stream outside s o (waiting ++ bytes) effects s' o' rest
      → (net' : Netcore) × (read_cb outside held net (length bytes) bytes ≡ (do
        held' ← lock_after outside held (wrlock ∷ effects)
        ok (wrlock ∷ effects, held', returns net')))
        × Waits net' s' o' rest
  unfolding read_cb
  read_cb-Comes held net waiting bytes {s} {s'} {o} roomy w fit small hb st =
      let ready = received-Ready net.read_buf waiting bytes w.ready fit hb in
      let ahead = Ready-Ahead (received net.read_buf bytes) (waiting ++ bytes) ready in
      let positive : ltb (2 ^ 63 - 1) (length bytes) ≡ false = ground arith in
      let start : Waits (record net { read_buf = received net.read_buf bytes }) s o
          (waiting ++ bytes) =
        record { session = w.session; size = w.size; ready = ready } in
      let run =
        read_loop-Comes outside ((received net.read_buf bytes).in_use + 1) _ roomy st start
          (omega (arith, ahead.counted)) in
      (run.0, rw (positive, run.1) refl, run.2)

  -- Where a stream is cut into two reads does not matter.
  pub Stream-append :
      {s s' s'' : Session} {o o' o'' : Option ℕ} {xs rest' rest'' : List ℕ}
      {effects effects' : List (Effect outside)} (ys : List ℕ)
      → Stream outside s o xs effects s' o' rest'
      → Stream outside s' o' (rest' ++ ys) effects' s'' o'' rest''
      → Stream outside s o (xs ++ ys) (effects ++ effects') s'' o'' rest''
  Stream-append ys (size_first {n = n} {bytes = bytes} small st) next =
      rw (append_assoc (enc_varint n) bytes ys) (size_first small (Stream-append ys st next))
  Stream-append ys (body_next {body = body} {bytes = bytes} packs small decoded handled st) next =
      rw (append_assoc body bytes ys)
        (body_next packs small decoded handled (Stream-append ys st next))
  Stream-append ys (no_size_yet u) next = next
  Stream-append ys (no_body_yet small few) next = next
