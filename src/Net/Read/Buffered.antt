-- ===== src/Net/Read/Buffered.antt =====
-- The read buffer as the decoders see it: the bytes that wait, and bytes behind them.
use c_spock_bot.Prelude.{ℕ, ◌+◌, ◌-◌, ◌≤◌, ◌≡◌, refl, arith, List, [], ◌∷◌, ◌++◌}
use c_spock_bot.Prelude.{
  zero, suc, take, length, length-append, drop, drop-append, ltb, All, All-append, All-drop, IsByte,
  false,
}
use c_spock_bot.Outcome.{ok}
use c_spock_bot.Net.Buffer.{Bbuf, recv_bbuf, adv_bbuf, received}
use c_spock_bot.Net.Buffer.Stream.{Holds, read-waiting, advanced-Holds, received-Holds}
use c_spock_bot.Net.Read.{source_of, advance_buf}

pub record Ready (b : Bbuf) (waiting : List ℕ) : Type 0 where
  pub holds : Holds b waiting
  pub bytes : All IsByte b.memory

pub All-behind : (xs ys : List ℕ) → All IsByte (xs ++ ys) → All IsByte ys
All-behind [] ys h = h
All-behind (x ∷ xs) ys (p, h) = All-behind xs ys h

-- What a decoder finds from `cur` on.
pub record Ahead (b : Bbuf) (waiting : List ℕ) : Type 0 where
  pub room : List ℕ
  pub source : source_of b ≡ waiting ++ room
  pub bytes : All IsByte (waiting ++ room)
  pub counted : b.in_use ≡ length waiting

pub Ready-Ahead : (b : Bbuf) (waiting : List ℕ) → Ready b waiting → Ahead b waiting
Ready-Ahead b waiting h = record {
  room = h.holds.room;
  source =
      rw (h.holds.layout, h.holds.at_cur) (drop-append h.holds.taken (waiting ++ h.holds.room));
  bytes = All-behind h.holds.taken (waiting ++ h.holds.room) (rw h.holds.layout at h.bytes);
  counted = h.holds.counted;
}

abbrev pub past : Bbuf → List ℕ → Bbuf
past b xs = record b { cur = b.cur + length xs; in_use = b.in_use - length xs }

pub past-Ready : (b : Bbuf) (xs ys : List ℕ) → Ready b (xs ++ ys) → Ready (past b xs) ys
past-Ready b xs ys h = record { holds = advanced-Holds b xs ys h.holds; bytes = h.bytes }

pub advance_buf-past :
    (b : Bbuf) (xs ys : List ℕ) → Ready b (xs ++ ys) → advance_buf b (length xs) ≡ past b xs
unfolding adv_bbuf
advance_buf-past b xs ys h =
    let enough : ltb b.in_use (length xs) ≡ false =
      ground (arith, h.holds.counted, length-append xs ys) in
    rw (advance_buf, enough) refl

pub recv_bbuf-past :
    (b : Bbuf) (xs ys : List ℕ) → Ready b (xs ++ ys) → recv_bbuf b (length xs) ≡ ok (xs, past b xs)
unfolding recv_bbuf
recv_bbuf-past b xs ys h =
    let enough : ltb b.in_use (length xs) ≡ false =
      ground (arith, h.holds.counted, length-append xs ys) in
    rw (enough, read-waiting b xs ys h.holds) refl

All-take : (n : ℕ) (xs : List ℕ) → All IsByte xs → All IsByte (take n xs)
All-take zero xs h = tt
All-take (suc n) [] h = tt
All-take (suc n) (x ∷ xs) (p, h) = (p, All-take n xs h)

-- What libuv read waits behind what waited.
pub received-Ready :
    (b : Bbuf) (waiting bytes : List ℕ)
    → Ready b waiting
    → length bytes ≤ b.rem
    → All IsByte bytes
    → Ready (received b bytes) (waiting ++ bytes)
unfolding received
received-Ready b waiting bytes h fit hb =
    let last : ℕ = b.cur + b.in_use in
    record {
      holds = received-Holds b waiting bytes h.holds fit;
      bytes =
          All-append IsByte (take last b.memory) (bytes ++ drop (last + length bytes) b.memory)
            (All-take last b.memory h.bytes)
            (All-append IsByte bytes (drop (last + length bytes) b.memory) hb
              (All-drop IsByte (last + length bytes) b.memory h.bytes));
    }
