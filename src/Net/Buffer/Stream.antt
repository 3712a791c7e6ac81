-- ===== src/Net/Buffer/Stream.antt =====
-- The read buffer as the bytes that wait in it.
use c_spock_bot.Prelude.{
  ℕ, ◌+◌, ◌-◌, ◌^◌, ◌≤◌, ◌<◌, ◌≡◌, sym, ap, ◌∙◌, arith, List, ◌++◌, append_assoc,
}
use c_spock_bot.Prelude.{
  length, length-append, length-drop, take, drop, take-append, drop-append, drop-drop, ltb,
}
use c_spock_bot.Prelude.{true, false}
use c_spock_bot.Outcome.{ok, err}
use c_spock_bot.Numeric.{read}
use c_spock_bot.Numeric.RoundTrip.{read-append}
use c_spock_bot.Net.Buffer.{Bbuf, recv_bbuf, adv_bbuf, received}

-- The bytes that wait lie between those that were taken and `rem` bytes of room.
pub record Holds (b : Bbuf) (waiting : List ℕ) : Type 0 where
  pub taken : List ℕ
  pub room : List ℕ
  pub layout : b.memory ≡ taken ++ (waiting ++ room)
  pub at_cur : b.cur ≡ length taken
  pub counted : b.in_use ≡ length waiting
  pub left : b.rem ≡ length room
  pub whole : b.len ≡ length b.memory
  pub bounded : b.len < 2 ^ 64

pub fits : (b : Bbuf) (waiting : List ℕ) → Holds b waiting → b.cur + b.in_use + b.rem ≡ b.len
fits b waiting h =
    let size = ap length h.layout in
    omega (
      arith,
      h.whole,
      h.at_cur,
      h.counted,
      h.left,
      length-append h.taken (waiting ++ h.room),
      length-append waiting h.room,
    )

pub read-waiting :
    (b : Bbuf) (xs ys : List ℕ) (h : Holds b (xs ++ ys))
    → read (length xs) (drop b.cur b.memory) ≡ ok (xs, ys ++ h.room)
read-waiting b xs ys h =
    rw (h.layout, h.at_cur, drop-append h.taken ((xs ++ ys) ++ h.room), append_assoc xs ys h.room)
      (read-append xs (ys ++ h.room))

pub advanced-Holds :
    (b : Bbuf) (xs ys : List ℕ)
    → Holds b (xs ++ ys)
    → Holds (record b { cur = b.cur + length xs; in_use = b.in_use - length xs }) ys
advanced-Holds b xs ys h = record {
  taken = h.taken ++ xs;
  room = h.room;
  layout = h.layout ∙ move h.taken xs ys h.room;
  at_cur = omega (arith, h.at_cur, length-append h.taken xs);
  counted = omega (arith, h.counted, length-append xs ys);
  left = h.left;
  whole = h.whole;
  bounded = h.bounded;
}
  where
    move : (a x y r : List ℕ) → a ++ ((x ++ y) ++ r) ≡ (a ++ x) ++ (y ++ r)
    move a x y r = simp append_assoc

-- `sbnet_recv_bbuf` copies the first bytes that wait, as many as it is asked for, and leaves the
-- others; `sbnet_adv_bbuf` leaves the same buffer.
recv_bbuf-Holds :
    (b : Bbuf) (xs ys : List ℕ)
    → Holds b (xs ++ ys)
    → (b' : Bbuf) × (recv_bbuf b (length xs) ≡ ok (xs, b'))
      × (adv_bbuf b (length xs) ≡ ok b')
      × Holds b' ys
unfolding recv_bbuf adv_bbuf
recv_bbuf-Holds b xs ys h =
    let enough : ltb b.in_use (length xs) ≡ false =
      ground (arith, h.counted, length-append xs ys) in
    (
      record b { cur = b.cur + length xs; in_use = b.in_use - length xs },
      rw (enough, read-waiting b xs ys h),
      rw enough,
      advanced-Holds b xs ys h,
    )

-- Where more bytes are asked for than wait, both return -1.
recv_bbuf-short :
    (b : Bbuf) (waiting : List ℕ) (n : ℕ)
    → Holds b waiting
    → length waiting < n
    → (recv_bbuf b n ≡ err 0) × (adv_bbuf b n ≡ err 0)
unfolding recv_bbuf adv_bbuf
recv_bbuf-short b waiting n h short =
    let few : ltb b.in_use n ≡ true = ground (arith, h.counted) in (rw few, rw few)

-- Bytes that libuv reads into the room join the end of those that wait.
pub received-Holds :
    (b : Bbuf) (waiting bytes : List ℕ)
    → Holds b waiting
    → length bytes ≤ b.rem
    → Holds (received b bytes) (waiting ++ bytes)
unfolding received
received-Holds b waiting bytes h fit =
    let n : ℕ = length bytes in
    let used : List ℕ = h.taken ++ waiting in
    let whole_used = length-append h.taken waiting in
    let last : b.cur + b.in_use ≡ length used = omega (arith, h.at_cur, h.counted) in
    let front : b.memory ≡ used ++ h.room = h.layout ∙ sym (append_assoc h.taken waiting h.room) in
    let before : take (b.cur + b.in_use) b.memory ≡ used =
      rw (last, front) (take-append used h.room) in
    let behind : drop (b.cur + b.in_use + n) b.memory ≡ drop n h.room =
      sym (drop-drop (b.cur + b.in_use) n b.memory)
      ∙ ap (drop n) (rw (last, front) (drop-append used h.room)) in
    let written : (received b bytes).memory ≡ h.taken ++ ((waiting ++ bytes) ++ drop n h.room) =
      rw (before, behind) (regroup h.taken waiting bytes (drop n h.room)) in
    let rest = length-drop n h.room in
    record {
      taken = h.taken;
      room = drop n h.room;
      layout = written;
      at_cur = h.at_cur;
      counted = omega (arith, h.counted, length-append waiting bytes);
      left = omega (arith, h.left);
      whole = omega (
        arith,
        h.left,
        h.at_cur,
        h.counted,
        fits b waiting h,
        ap length written,
        length-append h.taken ((waiting ++ bytes) ++ drop n h.room),
        length-append (waiting ++ bytes) (drop n h.room),
        length-append waiting bytes,
      );
      bounded = h.bounded;
    }
  where
    regroup : (t w x r : List ℕ) → (t ++ w) ++ (x ++ r) ≡ t ++ ((w ++ x) ++ r)
    regroup t w x r = simp append_assoc
