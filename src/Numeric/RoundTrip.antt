-- ===== src/Numeric/RoundTrip.antt =====
-- What is written with a fixed width is read back, whatever follows it.
use c_spock_bot.Prelude.{ℕ, zero, suc, ◌/◌, ◌%◌, ◌^◌, ◌<◌, ◌≡◌, refl, ap, arith}
use c_spock_bot.Prelude.{List, [], ◌∷◌, ◌++◌, length, All, IsByte}
use c_spock_bot.Outcome.{ok}
use c_spock_bot.Numeric.{read, be_bytes, le_bytes, be_word, le_word, dec_be, dec_le}
use c_spock_bot.Numeric.{
  enc_be16, dec_be16, enc_be32, dec_be32, enc_be64, dec_be64, enc_bef32, dec_bef32,
}
use c_spock_bot.Numeric.{enc_le16, dec_le16, enc_le32, dec_le32, enc_le64, dec_le64}

pub read-append : (bytes rest : List ℕ) → read (length bytes) (bytes ++ rest) ≡ ok (bytes, rest)
unfolding read
read-append [] rest = refl
read-append (b ∷ bytes) rest = rw (read-append bytes rest)

pub length-be_bytes : (n v : ℕ) → length (be_bytes n v) ≡ n
unfolding be_bytes
length-be_bytes zero v = refl
length-be_bytes (suc n) v = ap suc (length-be_bytes n v)

pub length-le_bytes : (n v : ℕ) → length (le_bytes n v) ≡ n
unfolding le_bytes
length-le_bytes zero v = refl
length-le_bytes (suc n) v = ap suc (length-le_bytes n (v / 256))

pub be_bytes-IsByte : (n v : ℕ) → All IsByte (be_bytes n v)
unfolding be_bytes
be_bytes-IsByte zero v = tt
be_bytes-IsByte (suc n) v = (omega arith, be_bytes-IsByte n v)

pub le_bytes-IsByte : (n v : ℕ) → All IsByte (le_bytes n v)
unfolding le_bytes
le_bytes-IsByte zero v = tt
le_bytes-IsByte (suc n) v = (omega arith, le_bytes-IsByte n (v / 256))

pub dec_be-be_bytes :
    (n v : ℕ) (rest : List ℕ)
    → dec_be n (be_bytes n v ++ rest) ≡ ok (be_word 0 (be_bytes n v), rest)
unfolding dec_be
dec_be-be_bytes n v rest = ground (arith, length-be_bytes n v, read-append (be_bytes n v) rest)

pub dec_le-le_bytes :
    (n v : ℕ) (rest : List ℕ) → dec_le n (le_bytes n v ++ rest) ≡ ok (le_word (le_bytes n v), rest)
unfolding dec_le
dec_le-le_bytes n v rest = ground (arith, length-le_bytes n v, read-append (le_bytes n v) rest)

-- The big-endian codecs of 16, 32 and 64 bits give back the low 16, 32 and 64 bits of the value that
-- was encoded, and leave the pointer at whatever follows.
pub dec_be-enc_be :
    (v : ℕ) (rest : List ℕ)
    → (dec_be16 (enc_be16 v ++ rest) ≡ ok (v % 2 ^ 16, rest))
      × (dec_be32 (enc_be32 v ++ rest) ≡ ok (v % 2 ^ 32, rest))
      × (dec_be64 (enc_be64 v ++ rest) ≡ ok (v % 2 ^ 64, rest))
unfolding dec_be16 enc_be16 dec_be32 enc_be32 dec_be64 enc_be64
dec_be-enc_be v rest = (
  ap (λ (w : ℕ). ok (w, rest)) (omega arith),
  ap (λ (w : ℕ). ok (w, rest)) (omega arith),
  ap (λ (w : ℕ). ok (w, rest)) (omega arith),
)

-- The little-endian codecs of 16, 32 and 64 bits do the same.
pub dec_le-enc_le :
    (v : ℕ) (rest : List ℕ)
    → (dec_le16 (enc_le16 v ++ rest) ≡ ok (v % 2 ^ 16, rest))
      × (dec_le32 (enc_le32 v ++ rest) ≡ ok (v % 2 ^ 32, rest))
      × (dec_le64 (enc_le64 v ++ rest) ≡ ok (v % 2 ^ 64, rest))
unfolding dec_le16 enc_le16 dec_le32 enc_le32 dec_le64 enc_le64
dec_le-enc_le v rest = (
  ap (λ (w : ℕ). ok (w, rest)) (omega arith),
  ap (λ (w : ℕ). ok (w, rest)) (omega arith),
  ap (λ (w : ℕ). ok (w, rest)) (omega arith),
)

pub dec_bef32-enc_bef32 :
    (v : ℕ) (rest : List ℕ) → v < 2 ^ 32 → dec_bef32 (enc_bef32 v ++ rest) ≡ ok (v, rest)
unfolding dec_bef32 enc_bef32
dec_bef32-enc_bef32 v rest h = ap (λ (w : ℕ). ok (w, rest)) (omega arith)
