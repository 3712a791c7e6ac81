-- ===== src/Net/Read/Varint.antt =====
-- A varint at the front of the read buffer.
use c_spock_bot.Prelude.{ℕ, ◌≡◌, ◌∙◌, arith, List, ◌++◌, append_assoc}
use c_spock_bot.Prelude.{length, length-append, leb, All, IsByte, IsU32, true}
use c_spock_bot.Outcome.{ok}
use c_spock_bot.Varnum.{enc_varint, walk_varint, dec_varint}
use c_spock_bot.Varnum.RoundTrip.{dec_varint-enc_varint, walk_varint-enc_varint}
use c_spock_bot.Net.Buffer.{Bbuf}
use c_spock_bot.Net.Read.{source_of}
use c_spock_bot.Net.Read.Buffered.{Ready, Ready-Ahead, All-behind}

-- It is walked and decoded, whatever waits behind it.
pub record Varint (b : Bbuf) (v : ℕ) : Type 0 where
  pub walked : walk_varint (source_of b) b.in_use ≡ ok (length (enc_varint v))
  pub rest : List ℕ
  pub decoded : dec_varint (source_of b) ≡ ok (v, rest)

pub Ready-Varint :
    (b : Bbuf) (v : ℕ) (ys : List ℕ) → IsU32 v → Ready b (enc_varint v ++ ys) → Varint b v
Ready-Varint b v ys small h =
    let ahead = Ready-Ahead b (enc_varint v ++ ys) h in
    let front : source_of b ≡ enc_varint v ++ (ys ++ ahead.room) =
      ahead.source ∙ append_assoc (enc_varint v) ys ahead.room in
    let bytes : All IsByte (ys ++ ahead.room) =
      All-behind (enc_varint v) (ys ++ ahead.room)
        (rw (append_assoc (enc_varint v) ys ahead.room) at ahead.bytes) in
    let size = length-append (enc_varint v) ys in
    let inside : leb (length (enc_varint v)) b.in_use ≡ true = ground (arith, ahead.counted) in
    let walk = walk_varint-enc_varint v (ys ++ ahead.room) b.in_use small bytes (
      omega (
        arith,
        ahead.counted,
        length-append (enc_varint v) (ys ++ ahead.room),
        length-append ys ahead.room,
      )) in
    record {
      walked = rw front (rw inside at walk);
      rest = ys ++ ahead.room;
      decoded = rw front (dec_varint-enc_varint v (ys ++ ahead.room) small bytes);
    }
