-- ===== src/Net/Read/Bodies.antt =====
-- The body of a packet, behind its size.
use c_spock_bot.Prelude.{ℕ, ◌%◌, ◌^◌, ◌<◌, ◌≡◌, refl, ◌∙◌, arith, List, ◌++◌, append_assoc}
use c_spock_bot.Prelude.{
  length, length-append, take, take-append, leb, ◌==◌, if◌then◌else◌, All, IsByte, IsU32,
}
use c_spock_bot.Prelude.{true, false, Option, some, sub_size, sign_extend}
use c_spock_bot.Outcome.{Outcome, ok}
use c_spock_bot.Varnum.{enc_varint}
use c_spock_bot.Varnum.RoundTrip.{dec_varint-enc_varint, walk_varint-enc_varint, length-enc_varint}
use c_spock_bot.Net.Buffer.{Bbuf}
use c_spock_bot.Net.Read.{
  Compression, uncompressed, compressed, Outside, Body, source_of, read_plain, read_inflated,
  read_compressed, read_body,
}
use c_spock_bot.Net.Read.Buffered.{
  Ready, Ready-Ahead, past, past-Ready, advance_buf-past, recv_bbuf-past,
}
use c_spock_bot.Net.Read.Varint.{Ready-Varint}

module _ (outside : Outside) where
  open outside use {inflate, malloc}

  -- What the server puts behind the size of a packet with this id and payload: as it is, with a zero
  -- before it, or deflated behind its length.
  pub data Packs : Compression → List ℕ → ℕ → List ℕ → Type 0 where
    plain :
        {id : ℕ} {payload : List ℕ}
        → IsU32 id
        → Packs uncompressed (enc_varint id ++ payload) id payload
    stored :
        {id : ℕ} {payload : List ℕ}
        → IsU32 id
        → Packs compressed (enc_varint 0 ++ (enc_varint id ++ payload)) id payload
    deflated :
        {id size : ℕ} {payload z : List ℕ}
        → IsU32 id
        → All IsByte payload
        → size ≡ length (enc_varint id ++ payload)
        → size < 2 ^ 31
        → inflate z size ≡ some (enc_varint id ++ payload)
        → Packs compressed (enc_varint size ++ z) id payload

  -- Allocations of less than 2 GB succeed.
  abbrev pub Roomy : Type 0
  Roomy = (n : ℕ) → n < 2 ^ 31 → malloc n ≡ true

  -- A call that finds the packet and leaves what follows it.
  abbrev pub Finds : Outcome (Option Body) → ℕ → List ℕ → List ℕ → Type 0
  Finds call id payload more =
      (b : Bbuf) × (call
        ≡ ok (some (record { id = id; pdata = payload; data_len = length payload; read_buf = b })))
      × Ready b more

  read_plain-Finds :
      (b : Bbuf) (id : ℕ) (payload more : List ℕ)
      → Roomy
      → IsU32 id
      → length (enc_varint id ++ payload) < 2 ^ 31
      → Ready b ((enc_varint id ++ payload) ++ more)
      → Finds (read_plain outside b (length (enc_varint id ++ payload))) id payload more
  unfolding read_plain
  read_plain-Finds b id payload more roomy small few h =
      let front : Ready b (enc_varint id ++ (payload ++ more)) =
        rw (append_assoc (enc_varint id) payload more) at h in
      let v = Ready-Varint b id (payload ++ more) small front in
      let after = past-Ready b (enc_varint id) (payload ++ more) front in
      let left : sub_size (length (enc_varint id ++ payload)) (length (enc_varint id))
          ≡ length payload =
        omega (arith, length-append (enc_varint id) payload) in
      let enough = roomy (length payload) (omega (arith, length-append (enc_varint id) payload)) in
      (
        past (past b (enc_varint id)) payload,
        rw
            (
              v.walked,
              v.decoded,
              left,
              enough,
              advance_buf-past b (enc_varint id) (payload ++ more) front,
              recv_bbuf-past (past b (enc_varint id)) payload more after,
            )
            refl,
        past-Ready (past b (enc_varint id)) payload more after,
      )

  read_inflated-Finds :
      (b : Bbuf) (id size : ℕ) (payload z more : List ℕ)
      → Roomy
      → IsU32 id
      → All IsByte payload
      → size ≡ length (enc_varint id ++ payload)
      → size < 2 ^ 31
      → inflate z size ≡ some (enc_varint id ++ payload)
      → length z < 2 ^ 31
      → Ready b (z ++ more)
      → Finds (read_inflated outside b (length z) size) id payload more
  unfolding read_inflated
  read_inflated-Finds b id size payload z more roomy small bytes whole few packed fits h =
      let ahead = Ready-Ahead b (z ++ more) h in
      let input : take (length z % 2 ^ 32) (source_of b) ≡ z =
        let e : length z % 2 ^ 32 ≡ length z = omega arith in
        rw (e, ahead.source, append_assoc z more ahead.room) (take-append z (more ++ ahead.room)) in
      let capacity : size % 2 ^ 32 ≡ size = omega arith in
      let inside : leb (length (enc_varint id)) size ≡ true =
        ground (arith, whole, length-append (enc_varint id) payload) in
      let walk = walk_varint-enc_varint id payload size small bytes (omega (arith, whole)) in
      let left : sub_size size (length (enc_varint id)) ≡ length payload =
        omega (arith, whole, length-append (enc_varint id) payload) in
      (
        past b z,
        rw
            (
              roomy size few,
              input,
              capacity,
              packed,
              walk,
              inside,
              dec_varint-enc_varint id payload small bytes,
              left,
              advance_buf-past b z more h,
            )
            refl,
        past-Ready b z more h,
      )

  -- A compressed body, by the number before it.
  read_compressed-Finds :
      (b : Bbuf) (size : ℕ) (rest more : List ℕ)
      → size < 2 ^ 31
      → length (enc_varint size ++ rest) < 2 ^ 31
      → Ready b ((enc_varint size ++ rest) ++ more)
      → Ready (past b (enc_varint size)) (rest ++ more)
        × (read_compressed outside b (length (enc_varint size ++ rest)) ≡ (
            if size == 0
            then read_plain outside (past b (enc_varint size)) (length rest)
            else read_inflated outside (past b (enc_varint size)) (length rest) size))
  unfolding read_compressed
  read_compressed-Finds b size rest more few fits h =
      let front : Ready b (enc_varint size ++ (rest ++ more)) =
        rw (append_assoc (enc_varint size) rest more) at h in
      let v = Ready-Varint b size (rest ++ more) (omega arith) front in
      let left : sub_size (length (enc_varint size ++ rest)) (length (enc_varint size))
          ≡ length rest =
        omega (arith, length-append (enc_varint size) rest) in
      let natural : sign_extend size ≡ size = ground arith in
      (
        past-Ready b (enc_varint size) (rest ++ more) front,
        rw
            (
              v.walked,
              v.decoded,
              left,
              natural,
              advance_buf-past b (enc_varint size) (rest ++ more) front,
            )
            refl,
      )

  -- The body of a packet is read as its id and payload, and what follows it is left.
  pub read_body-Finds :
      (c : Compression) (b : Bbuf) (id : ℕ) (body payload more : List ℕ)
      → Roomy
      → Packs c body id payload
      → length body < 2 ^ 31
      → Ready b (body ++ more)
      → Finds (read_body outside c b (length body)) id payload more
  read_body-Finds _ b id _ payload more roomy (plain small) few h =
      read_plain-Finds b id payload more roomy small few h
  read_body-Finds _ b id _ payload more roomy (stored small) few h =
      let r = read_compressed-Finds b 0 (enc_varint id ++ payload) more (omega arith) few h in
      let sizes = length-append (enc_varint 0) (enc_varint id ++ payload) in
      let found =
        read_plain-Finds (past b (enc_varint 0)) id payload more roomy small (omega arith) r.0 in
      (found.0, r.1 ∙ found.1, found.2)
  read_body-Finds _ b id _ payload more roomy (deflated {size} {z} small bytes whole limit packed)
        few h =
      let r = read_compressed-Finds b size z more limit few h in
      let sizes = length-append (enc_varint size) z in
      let positive : (size == 0) ≡ false =
        ground (arith, whole, length-append (enc_varint id) payload, length-enc_varint id small) in
      let found =
        read_inflated-Finds (past b (enc_varint size)) id size payload z more roomy small bytes
          whole limit packed (omega arith) r.0 in
      (found.0, r.1 ∙ rw positive found.1, found.2)
