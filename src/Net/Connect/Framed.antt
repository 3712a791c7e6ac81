-- ===== src/Net/Connect/Framed.antt =====
-- Two packets in a row, each with a header of src/net/sb_net.c.
use c_spock_bot.Prelude.{
  ℕ, ◌+◌, ◌%◌, ◌^◌, ◌≤◌, ◌<◌, ◌≡◌, refl, arith, List, [], ◌∷◌, ◌++◌, append_assoc, length,
  length-append, drop,
}
use c_spock_bot.Prelude.{All, All-append, IsByte, IsU32}
use c_spock_bot.Outcome.{ok}
use c_spock_bot.Varnum.{size_varint, enc_varint, dec_varint}
use c_spock_bot.Varnum.Encode.{size_varint-enc}
use c_spock_bot.Varnum.RoundTrip.{dec_varint-enc_varint, enc_varint-IsByte}
use c_spock_bot.Net.Header.{size_uncom_hdr, enc_uncom_hdr}
use c_spock_bot.Net.Header.Frame.{excess, size_varint_le, size_uncom_hdr-enc}

-- What the header before this payload takes more than was counted.
abbrev pub header_excess : ℕ → ℕ → ℕ
header_excess size id = excess (size + size_varint id) + excess id

size_uncom_hdr_le : (size id : ℕ) → size_uncom_hdr size id ≤ 10
unfolding size_uncom_hdr
size_uncom_hdr_le size id =
    omega (arith, size_varint_le id, size_varint_le ((size + size_varint id) % 2 ^ 32))

pub length-two_packets :
    (p q : List ℕ) (i j : ℕ)
    → IsU32 i
    → IsU32 j
    → length p < 2 ^ 31
    → length q < 2 ^ 31
    → length
        (enc_uncom_hdr (length p % 2 ^ 32) i ++ (p ++ (enc_uncom_hdr (length q % 2 ^ 32) j ++ q)))
      ≡ (size_uncom_hdr (length p % 2 ^ 32) i
            + length p
            + size_uncom_hdr (length q % 2 ^ 32) j
            + length q)
          % 2 ^ 64
        + (header_excess (length p) i + header_excess (length q) j)
length-two_packets p q i j hi hj hp hq =
    let exact_p : length p % 2 ^ 32 ≡ length p = omega arith in
    let exact_q : length q % 2 ^ 32 ≡ length q = omega arith in
    rw (exact_p, exact_q)
      (omega (
        arith,
        length-append (enc_uncom_hdr (length p) i) (p ++ (enc_uncom_hdr (length q) j ++ q)),
        length-append p (enc_uncom_hdr (length q) j ++ q),
        length-append (enc_uncom_hdr (length q) j) q,
        size_uncom_hdr-enc (length p) i hi (omega (arith, hp)),
        size_uncom_hdr-enc (length q) j hj (omega (arith, hq)),
        size_uncom_hdr_le (length p) i,
        size_uncom_hdr_le (length q) j,
        hp,
        hq,
      ))

pub drop-all : (xs : List ℕ) → drop (length xs) xs ≡ []
drop-all [] = refl
drop-all (x ∷ xs) = drop-all xs

pub enc_uncom_hdr-IsByte : (size id : ℕ) → IsU32 id → All IsByte (enc_uncom_hdr size id)
unfolding enc_uncom_hdr
enc_uncom_hdr-IsByte size id hid =
    let n = (size + size_varint id) % 2 ^ 32 in
    All-append IsByte (enc_varint n) (enc_varint id) (enc_varint-IsByte n (omega arith))
      (enc_varint-IsByte id hid)

-- A packet that can be read from the start of `bytes`: its size, its id, and what is behind them.
pub record Framed (id : ℕ) (payload rest bytes : List ℕ) : Type 0 where
  pub announced : ℕ
  pub size_read : dec_varint bytes ≡ ok (announced, enc_varint id ++ (payload ++ rest))
  pub whole : announced ≡ length (enc_varint id ++ payload)
  pub id_read : dec_varint (enc_varint id ++ (payload ++ rest)) ≡ ok (id, payload ++ rest)

pub enc_uncom_hdr-Framed :
    (id : ℕ) (payload rest : List ℕ)
    → IsU32 id
    → length payload < 2 ^ 31
    → excess id ≡ 0
    → All IsByte payload
    → All IsByte rest
    → Framed id payload rest (enc_uncom_hdr (length payload % 2 ^ 32) id ++ (payload ++ rest))
unfolding enc_uncom_hdr
enc_uncom_hdr-Framed id payload rest hid small none_more hp hr =
    let announced : ℕ = length payload + size_varint id in
    let few = size_varint_le id in
    let exact : length payload % 2 ^ 32 ≡ length payload = omega arith in
    let exact' : announced % 2 ^ 32 ≡ announced = omega arith in
    let behind : All IsByte (payload ++ rest) = All-append IsByte payload rest hp hr in
    let bytes : All IsByte (enc_varint id ++ (payload ++ rest)) =
      All-append IsByte (enc_varint id) (payload ++ rest) (enc_varint-IsByte id hid) behind in
    record {
      announced = announced;
      size_read =
          rw (exact, exact', append_assoc (enc_varint announced) (enc_varint id) (payload ++ rest))
            (dec_varint-enc_varint announced (enc_varint id ++ (payload ++ rest)) (omega arith)
              bytes);
      whole =
          omega (arith, length-append (enc_varint id) payload, size_varint-enc id hid, none_more);
      id_read = dec_varint-enc_varint id (payload ++ rest) hid behind;
    }
