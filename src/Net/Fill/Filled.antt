-- ===== src/Net/Fill/Filled.antt =====
-- A read of the connection does what the bytes that the server has sent say.
use c_spock_bot.Prelude.{
  ℕ, ◌+◌, ◌%◌, ◌^◌, ◌≤◌, ◌<◌, ◌≡◌, refl, ap, arith, List, [], ◌∷◌, ◌++◌, length, length-append, All,
  IsByte, Bool, true, false, Option, some,
}
use c_spock_bot.Outcome.{ok, fault, ◌>>=◌}
use c_spock_bot.Net.Buffer.Room.{Grows, make_room-Holds}
use c_spock_bot.Net.Read.{
  Session, Netcore, Outside, Effect, wrlock, wrunlock, emit, returns, lock_after,
}
use c_spock_bot.Net.Read.Bodies.{Roomy}
use c_spock_bot.Net.Read.Packets.{Stream, Waits}
use c_spock_bot.Net.Read.Callback.{read_cb-Comes}
use c_spock_bot.Net.Fill.{Asked, alloc_cb, fill, fills}

-- If bytes wait in the read buffer, the sizes stay below 2^64, and `realloc` succeeds,
-- `sbnet_alloc_cb` makes room for as many bytes as libuv asks for. The buffer that it gives begins
-- right behind the bytes that wait, which stay as they are, is as long as was asked for, modulo 2^32,
-- and ends inside the memory.
pub alloc_cb-Waits :
    (realloc : List ℕ → ℕ → Option (List ℕ)) (net : Netcore) (size : ℕ) {s : Session} {o : Option ℕ}
    (waiting : List ℕ)
    → Grows IsByte realloc
    → Waits net s o waiting
    → net.read_buf.in_use + size < 2 ^ 64
    → (g : Asked) × (net' : Netcore) × (alloc_cb realloc net size ≡ ok (some (g, net')))
      × Waits net' s o waiting
      × (size ≤ net'.read_buf.rem)
      × (g.start ≡ net'.read_buf.cur + net'.read_buf.in_use)
      × (g.len ≡ size % 2 ^ 32)
      × (g.start + g.len ≤ length net'.read_buf.memory)
unfolding alloc_cb
alloc_cb-Waits realloc net size {s} {o} waiting grows w bound =
    let (buf, made, holds, enough, keeps) =
      make_room-Holds IsByte realloc net.read_buf waiting size grows w.ready.holds bound in
    (
      record { start = buf.cur + buf.in_use; len = size % 2 ^ 32 },
      record net { read_buf = buf },
      rw made refl,
      record {
        session = w.session;
        size = w.size;
        ready = record { holds = holds; bytes = keeps w.ready.bytes };
      },
      enough,
      refl,
      refl,
      omega (
        enough,
        arith,
        ap length holds.layout,
        length-append holds.taken (waiting ++ holds.room),
        length-append waiting holds.room,
        holds.at_cur,
        holds.counted,
        holds.left,
      ),
    )

module _ (outside : Outside) where
  -- Whatever room was left in the read buffer: if libuv has read at most as many bytes as it was given
  -- room for, memory is given, the sizes are in range, and the bytes complete a stream of whole packets
  -- and perhaps the beginning of another, the read emits the event of each packet once, in their order,
  -- with what the decoder makes of its payload in the session that the handlers before it have left;
  -- the beginning waits in the buffer. The lock is taken once, and released once for each packet; where
  -- that is not possible the read does not come to its end.
  fill-Comes :
      (realloc : List ℕ → ℕ → Option (List ℕ)) (held : Bool) (net : Netcore) (size : ℕ)
      (waiting bytes : List ℕ) {s s' : Session} {o o' : Option ℕ} {rest : List ℕ}
      {effects : List (Effect outside)}
      → Roomy outside
      → Grows IsByte realloc
      → Waits net s o waiting
      → length waiting + size < 2 ^ 63
      → length bytes ≤ size % 2 ^ 32
      → All IsByte bytes
      → Stream outside s o (waiting ++ bytes) effects s' o' rest
      → (net' : Netcore) × (fill outside realloc held net size bytes ≡ (do
        held' ← lock_after outside held (wrlock ∷ effects)
        ok (wrlock ∷ effects, held', returns net')))
        × Waits net' s' o' rest
  unfolding fill
  fill-Comes realloc held net size waiting bytes roomy grows w bound fit hb st =
      let counted : net.read_buf.in_use ≡ length waiting = w.ready.holds.counted in
      let (g, net', gave, w', enough, at, len, inside) =
        alloc_cb-Waits realloc net size waiting grows w (omega (arith, counted, bound)) in
      rw gave (
        read_cb-Comes outside held net' waiting bytes roomy w' (omega (arith, fit, enough))
          (omega (arith, fit)) hb st)

  -- What the reads of a connection bring, one after the other: each at most as many bytes as libuv is
  -- given room for, which with those that waited are exactly one whole packet, whose event has
  -- callbacks, and perhaps the beginning of another.
  pub data Arrives (size : ℕ)
      : Session
        → Option ℕ
        → List ℕ
        → List (List ℕ)
        → List (List (Effect outside))
        → Session
        → Option ℕ
        → List ℕ
        → Type 0 where
    no_more :
        {s : Session} {o : Option ℕ} {waiting : List ℕ} → Arrives size s o waiting [] [] s o waiting
    and_then :
        {s s' s'' : Session} {o o' o'' : Option ℕ} {waiting rest rest' bytes : List ℕ}
        {state id : ℕ} {pak : outside.Packet} {later : List (List ℕ)}
        {more : List (List (Effect outside))}
        → length waiting + size < 2 ^ 63
        → length bytes ≤ size % 2 ^ 32
        → All IsByte bytes
        → Stream outside s o (waiting ++ bytes) (wrunlock ∷ (emit state id pak ∷ [])) s' o' rest
        → Arrives size s' o' rest later more s'' o'' rest'
        → Arrives size s o waiting
            (bytes ∷ later)
            ((wrlock ∷ (wrunlock ∷ (emit state id pak ∷ []))) ∷ more)
            s''
            o''
            rest'

  -- If memory is given, the plugin's lock is free, and bytes wait, a connection does with any sequence
  -- of reads, each of which brings at most as many bytes as libuv was given room for, the sizes below
  -- 2^63, and completes exactly one packet whose event has callbacks, what the server has sent: read by read, it takes the lock, releases it, and emits the packet's event with what the
  -- decoder makes of its payload in the session that the callbacks of the packets before it have left.
  -- It does not exit, the lock is free again, and the beginning of a packet that is not complete waits.
  pub fills-Arrives :
      (realloc : List ℕ → ℕ → Option (List ℕ)) (net : Netcore) (size : ℕ) (waiting : List ℕ)
      (reads : List (List ℕ)) {s s' : Session} {o o' : Option ℕ} {rest : List ℕ}
      {effects : List (List (Effect outside))}
      → Roomy outside
      → Grows IsByte realloc
      → Waits net s o waiting
      → Arrives size s o waiting reads effects s' o' rest
      → (net' : Netcore) × (fills outside realloc false net size reads
          ≡ ok (effects, false, returns net'))
        × Waits net' s' o' rest
  unfolding fills lock_after
  fills-Arrives realloc net size waiting [] roomy grows w no_more = (net, refl, w)
  fills-Arrives realloc net size waiting (bytes ∷ later) roomy grows w
        (and_then {rest = rest} small fit hb st next) =
      let (net', run, w') =
        fill-Comes realloc false net size waiting bytes roomy grows w small fit hb st in
      let (net'', runs, w'') = fills-Arrives realloc net' size rest later roomy grows w' next in
      (net'', rw (run, runs) refl, w'')

  -- If memory is given, the lock is free, bytes wait, and the sizes are below 2^63, then a read that
  -- completes no packet leaves the lock held: the next read, however many packets whose events have
  -- callbacks it would complete, cannot take it, so that the two do not come to their end.
  pub fills-held :
      (realloc : List ℕ → ℕ → Option (List ℕ)) (net : Netcore) (size : ℕ)
      (waiting bytes bytes' : List ℕ) (later : List (List ℕ)) {s s' s'' : Session}
      {o o' o'' : Option ℕ} {rest rest' : List ℕ} {effects : List (Effect outside)}
      → Roomy outside
      → Grows IsByte realloc
      → Waits net s o waiting
      → length waiting + size < 2 ^ 63
      → length bytes ≤ size % 2 ^ 32
      → All IsByte bytes
      → Stream outside s o (waiting ++ bytes) [] s' o' rest
      → length rest + size < 2 ^ 63
      → length bytes' ≤ size % 2 ^ 32
      → All IsByte bytes'
      → Stream outside s' o' (rest ++ bytes') effects s'' o'' rest'
      → fills outside realloc false net size (bytes ∷ (bytes' ∷ later)) ≡ fault
  unfolding fills lock_after
  fills-held realloc net size waiting bytes bytes' later {rest = rest} roomy grows w small fit hb st
        small' fit' hb' st' =
      let (net', run, w') =
        fill-Comes realloc false net size waiting bytes roomy grows w small fit hb st in
      let (net'', run', w'') =
        fill-Comes realloc true net' size rest bytes' roomy grows w' small' fit' hb' st' in
      rw (run, run') refl

  -- A read that completes two packets or more releases the lock once too often.
  pub fill-twice :
      (realloc : List ℕ → ℕ → Option (List ℕ)) (net : Netcore) (size : ℕ) (waiting bytes : List ℕ)
      (state id state' id' : ℕ) (pak pak' : outside.Packet) {s s' : Session} {o o' : Option ℕ}
      {rest : List ℕ} {effects : List (Effect outside)}
      → Roomy outside
      → Grows IsByte realloc
      → Waits net s o waiting
      → length waiting + size < 2 ^ 63
      → length bytes ≤ size % 2 ^ 32
      → All IsByte bytes
      → Stream outside s o
          (waiting ++ bytes)
          (wrunlock ∷ (emit state id pak ∷ (wrunlock ∷ (emit state' id' pak' ∷ effects))))
          s'
          o'
          rest
      → fill outside realloc false net size bytes ≡ fault
  unfolding lock_after
  fill-twice realloc net size waiting bytes state id state' id' pak pak' roomy grows w small fit hb
        st =
      let (net', run, w') =
        fill-Comes realloc false net size waiting bytes roomy grows w small fit hb st in
      run
