-- ===== src/Numeric.antt =====
-- The fixed-width codecs of src/datautils.c. `htobe16` and its kin with `memcpy` write a word with
-- its highest byte first, `htole16` and its kin with its lowest. A float is its IEEE bit pattern,
-- which is all that the code moves.
pub mod RoundTrip
pub mod Read
use c_spock_bot.Prelude.{ℕ, zero, suc, ◌+◌, ◌*◌, ◌/◌, ◌%◌, ◌^◌, List, [], ◌∷◌}
use c_spock_bot.Outcome.{Outcome, ok, fault, ◌>>=◌}

-- `memcpy` of `n` bytes from `source`, with the bytes that follow them.
unfoldable pub read : ℕ → List ℕ → Outcome (List ℕ × List ℕ)
read zero source = ok ([], source)
read (suc n) [] = fault
read (suc n) (b ∷ source) = do (bytes, rest) ← read n source; ok (b ∷ bytes, rest)

-- The lowest `n` bytes of a word, highest first and lowest first.
unfoldable pub be_bytes : ℕ → ℕ → List ℕ
be_bytes zero v = []
be_bytes (suc n) v = (v / 256 ^ n % 256) ∷ be_bytes n v

unfoldable pub le_bytes : ℕ → ℕ → List ℕ
le_bytes zero v = []
le_bytes (suc n) v = (v % 256) ∷ le_bytes n (v / 256)

-- The word that bytes make up.
unfoldable pub be_word : ℕ → List ℕ → ℕ
be_word acc [] = acc
be_word acc (b ∷ bytes) = be_word (acc * 256 + b) bytes

unfoldable pub le_word : List ℕ → ℕ
le_word [] = 0
le_word (b ∷ bytes) = b + 256 * le_word bytes

unfoldable pub dec_be : ℕ → List ℕ → Outcome (ℕ × List ℕ)
unfolding read be_word
dec_be n source = do (bytes, rest) ← read n source; ok (be_word 0 bytes, rest)

unfoldable pub dec_le : ℕ → List ℕ → Outcome (ℕ × List ℕ)
unfolding read le_word
dec_le n source = do (bytes, rest) ← read n source; ok (le_word bytes, rest)

unfoldable pub enc_byte : ℕ → List ℕ
enc_byte v = (v % 256) ∷ []

unfoldable pub dec_byte : List ℕ → Outcome (ℕ × List ℕ)
dec_byte [] = fault
dec_byte (b ∷ source) = ok (b, source)

unfoldable pub enc_be16 : ℕ → List ℕ
unfolding be_bytes
enc_be16 = be_bytes 2

unfoldable pub dec_be16 : List ℕ → Outcome (ℕ × List ℕ)
unfolding dec_be
dec_be16 = dec_be 2

unfoldable pub enc_be32 : ℕ → List ℕ
unfolding be_bytes
enc_be32 = be_bytes 4

unfoldable pub dec_be32 : List ℕ → Outcome (ℕ × List ℕ)
unfolding dec_be
dec_be32 = dec_be 4

unfoldable pub enc_be64 : ℕ → List ℕ
unfolding be_bytes
enc_be64 = be_bytes 8

unfoldable pub dec_be64 : List ℕ → Outcome (ℕ × List ℕ)
unfolding dec_be
dec_be64 = dec_be 8

unfoldable pub enc_le16 : ℕ → List ℕ
unfolding le_bytes
enc_le16 = le_bytes 2

unfoldable pub dec_le16 : List ℕ → Outcome (ℕ × List ℕ)
unfolding dec_le
dec_le16 = dec_le 2

unfoldable pub enc_le32 : ℕ → List ℕ
unfolding le_bytes
enc_le32 = le_bytes 4

unfoldable pub dec_le32 : List ℕ → Outcome (ℕ × List ℕ)
unfolding dec_le
dec_le32 = dec_le 4

unfoldable pub enc_le64 : ℕ → List ℕ
unfolding le_bytes
enc_le64 = le_bytes 8

unfoldable pub dec_le64 : List ℕ → Outcome (ℕ × List ℕ)
unfolding dec_le
dec_le64 = dec_le 8

unfoldable pub enc_bef32 : ℕ → List ℕ
unfolding be_bytes
enc_bef32 = be_bytes 4

unfoldable pub dec_bef32 : List ℕ → Outcome (ℕ × List ℕ)
unfolding dec_be
dec_bef32 = dec_be 4

unfoldable pub enc_bef64 : ℕ → List ℕ
unfolding be_bytes
enc_bef64 = be_bytes 8

unfoldable pub dec_bef64 : List ℕ → Outcome (ℕ × List ℕ)
unfolding dec_be
dec_bef64 = dec_be 8

unfoldable pub enc_lef32 : ℕ → List ℕ
unfolding le_bytes
enc_lef32 = le_bytes 4

unfoldable pub dec_lef32 : List ℕ → Outcome (ℕ × List ℕ)
unfolding dec_le
dec_lef32 = dec_le 4

unfoldable pub enc_lef64 : ℕ → List ℕ
unfolding le_bytes
enc_lef64 = le_bytes 8

unfoldable pub dec_lef64 : List ℕ → Outcome (ℕ × List ℕ)
unfolding dec_le
dec_lef64 = dec_le 8
