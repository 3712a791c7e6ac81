-- ===== src/Tests/Read.antt =====
-- A connection whose first packet turns compression on.
use c_spock_bot.Prelude.{ap, length-append, zero, suc, ◌+◌, ◌-◌, ◌≤◌, ◌≡◌, All, IsByte, Option}
use c_spock_bot.Outcome.{ok, fault}
use c_spock_bot.Net.Fill.{Asked, alloc_cb, fills}
use c_spock_bot.Net.Fill.Filled.{
  fills-Arrives, fills-held, alloc_cb-Waits, Arrives, no_more, and_then,
}
use c_spock_bot.Net.Buffer.Room.{Grows}
use c_spock_bot.Prelude.{ℕ, refl, arith, List, [], ◌∷◌, ◌++◌}
use c_spock_bot.Prelude.{length, if◌then◌else◌, ◌==◌, true, false, none, some}
use c_spock_bot.Varnum.{enc_varint, enc_loop, walk_varint, walk_loop}
use c_spock_bot.Net.Read.{
  Session, uncompressed, compress_cb, success_cb, Netcore, no_size, Outside, Effect, wrlock,
  wrunlock, emit, returns,
}
use c_spock_bot.Net.Read.Bodies.{plain, stored}
use c_spock_bot.Net.Read.Packets.{
  Stream, size_first, body_next, no_body_yet, no_size_yet, Unfinished, Waits,
}

-- Packets are their payloads, packet 3 sets the compression, packet 2 ends the login, and nobody
-- waits for packet 4.
abbrev outside : Outside
outside = record {
  Packet = List ℕ;
  inflate = λ source len. none;
  generic_toclient_decode = λ state id source len. some source;
  react = λ session id pak.
      if id == 3
      then some (compress_cb session 256)
      else if id == 2
      then some (success_cb session 3)
      else if id == 4
      then none
      else some session;
  malloc = λ n. true;
}

abbrev login : Session
login = record { compression = uncompressed; threshold = 0; proto_state = 2 }

abbrev net : Netcore
net = record {
  session = login;
  read_buf = record {
    memory = 0 ∷ (0 ∷ (0 ∷ (0 ∷ (0 ∷ (0 ∷ (0 ∷ (0 ∷ (0 ∷ (0 ∷ (0 ∷ (0 ∷ [])))))))))));
    cur = 0;
    len = 12;
    in_use = 0;
    rem = 12;
  };
  next_packet_size = no_size;
}

net-Waits : Waits net login none []
net-Waits = record {
  session = refl;
  size = refl;
  ready = record {
    holds = record {
      taken = [];
      room = net.read_buf.memory;
      layout = refl;
      at_cur = refl;
      counted = refl;
      left = refl;
      whole = refl;
      bounded = omega arith;
    };
    bytes = omega arith;
  };
}

-- Packet 3 as it is with the size of the next, then packet 5 with compression on and the size of a
-- third packet with its first byte.
abbrev first_body : List ℕ
first_body = enc_varint 3 ++ (7 ∷ 8 ∷ [])

abbrev second_body : List ℕ
second_body = enc_varint 0 ++ (enc_varint 5 ++ (9 ∷ []))

abbrev first_read : List ℕ
first_read = enc_varint 3 ++ (first_body ++ (enc_varint 3 ++ []))

abbrev second_read : List ℕ
second_read = second_body ++ (enc_varint 4 ++ (0 ∷ []))

first_read-Stream :
    Stream outside login none first_read
      (wrunlock ∷ (emit 2 3 (7 ∷ 8 ∷ []) ∷ []))
      (compress_cb login 256)
      (some 3)
      []
unfolding enc_varint enc_loop compress_cb
first_read-Stream = size_first (omega arith) (
    body_next (plain (omega arith)) (omega arith) refl refl
      (size_first (omega arith) (no_body_yet (omega arith) (omega arith))))

second_read-Stream :
    Stream outside
      (compress_cb login 256)
      (some 3)
      second_read
      (wrunlock ∷ (emit 2 5 (9 ∷ []) ∷ []))
      (compress_cb login 256)
      (some 4)
      (0 ∷ [])
unfolding enc_varint enc_loop compress_cb
second_read-Stream =
    body_next (stored (omega arith)) (omega arith) refl refl
      (size_first (omega arith) (no_body_yet (omega arith) (omega arith)))

abbrev zeros : ℕ → List ℕ
zeros zero = []
zeros (suc n) = 0 ∷ zeros n

zeros-IsByte : (n : ℕ) → All IsByte (zeros n)
zeros-IsByte zero = tt
zeros-IsByte (suc n) = (omega arith, zeros-IsByte n)

abbrev realloc : List ℕ → ℕ → Option (List ℕ)
realloc memory size = some (memory ++ zeros (size - length memory))

length-zeros : (n : ℕ) → length (zeros n) ≡ n
length-zeros zero = refl
length-zeros (suc n) = ap suc (length-zeros n)

realloc-Grows : Grows IsByte realloc
realloc-Grows memory size larger = (
  record {
    added = zeros (size - length memory);
    succeeds = refl;
    sized = omega (
      arith,
      length-append memory (zeros (size - length memory)),
      length-zeros (size - length memory),
    );
  },
  zeros-IsByte (size - length memory),
)

-- The rest of the third packet comes with a third read.
abbrev rest_bytes : List ℕ
rest_bytes = enc_varint 6 ++ (1 ∷ 2 ∷ [])

nothing-Unfinished : Unfinished []
unfolding walk_varint walk_loop
nothing-Unfinished [] h = refl
nothing-Unfinished (b ∷ room) h = refl

rest_bytes-Stream :
    Stream outside
      (compress_cb login 256)
      (some 4)
      (0 ∷ rest_bytes)
      (wrunlock ∷ (emit 2 6 (1 ∷ 2 ∷ []) ∷ []))
      (compress_cb login 256)
      none
      []
unfolding enc_varint enc_loop compress_cb
rest_bytes-Stream =
    body_next (stored (omega arith)) (omega arith) refl refl (no_size_yet nothing-Unfinished)

abbrev reads : List (List ℕ)
reads = first_read ∷ (second_read ∷ (rest_bytes ∷ []))

abbrev effects : List (List (Effect outside))
effects =
    (wrlock ∷ (wrunlock ∷ (emit 2 3 (7 ∷ 8 ∷ []) ∷ [])))
    ∷ ((wrlock ∷ (wrunlock ∷ (emit 2 5 (9 ∷ []) ∷ [])))
        ∷ ((wrlock ∷ (wrunlock ∷ (emit 2 6 (1 ∷ 2 ∷ []) ∷ []))) ∷ []))

reads-Arrives : Arrives outside 64 login none [] reads effects (compress_cb login 256) none []
unfolding enc_varint enc_loop
reads-Arrives = and_then (omega arith) (omega arith) (omega arith) first_read-Stream (
    and_then (omega arith) (omega arith) (omega arith) second_read-Stream
      (and_then (omega arith) (omega arith) (omega arith) rest_bytes-Stream no_more))

-- libuv asks for 64 bytes, for which the twelve of the buffer are too few.
fills-Arrives_example :
    (net' : Netcore) × (fills outside realloc false net 64 reads
      ≡ ok (effects, false, returns net'))
    × Waits net' (compress_cb login 256) none []
fills-Arrives_example =
    fills-Arrives outside realloc net 64 [] reads (λ n h. refl) realloc-Grows net-Waits
      reads-Arrives

-- The size of a packet comes first, and its body with the second read.
late-Stream :
    Stream outside login
      (some 3)
      first_body
      (wrunlock ∷ (emit 2 3 (7 ∷ 8 ∷ []) ∷ []))
      (compress_cb login 256)
      none
      []
unfolding enc_varint enc_loop compress_cb
late-Stream =
    body_next (plain (omega arith)) (omega arith) refl refl (no_size_yet nothing-Unfinished)

size-Stream : Stream outside login none (enc_varint 3 ++ []) [] login (some 3) []
size-Stream = size_first (omega arith) (no_body_yet (omega arith) (omega arith))

fills-held_example :
    fills outside realloc false net 64 ((enc_varint 3 ++ []) ∷ (first_body ∷ [])) ≡ fault
unfolding enc_varint enc_loop
fills-held_example =
    fills-held outside realloc net 64 [] (enc_varint 3 ++ []) first_body [] (λ n h. refl)
      realloc-Grows net-Waits (omega arith) (omega arith) (omega arith) size-Stream (omega arith)
      (omega arith) (omega arith) late-Stream

alloc_cb-Waits_example :
    (g : Asked) × (net' : Netcore) × (alloc_cb realloc net 64 ≡ ok (some (g, net')))
    × Waits net' login none []
    × (64 ≤ net'.read_buf.rem)
    × (g.start ≡ net'.read_buf.cur + net'.read_buf.in_use)
    × (g.len ≡ 64)
    × (g.start + g.len ≤ length net'.read_buf.memory)
alloc_cb-Waits_example = alloc_cb-Waits realloc net 64 [] realloc-Grows net-Waits (omega arith)
