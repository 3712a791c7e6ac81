-- ===== src/Recipe/Walk.antt =====
-- `walk_ingredient` looks at the first slot only.
use c_spock_bot.Prelude.{ℕ, zero, suc, ◌+◌, ◌-◌, ◌^◌, ◌≤◌, ◌<◌, ◌≡◌, ◌∙◌, ap, arith}
use c_spock_bot.Prelude.{List, ◌∷◌, ◌++◌, length, length-append, ◌==◌, if◌then◌else◌}
use c_spock_bot.Prelude.{All, IsByte, sub_size, rounds, false, Bool-cases, ==_iff, inl, inr}
use c_spock_bot.Outcome.{ok, err, to_int}
use c_spock_bot.Varnum.{enc_varint, walk_varint}
use c_spock_bot.Varnum.RoundTrip.{dec_varint-enc_varint, walk_varint-enc_varint}
use c_spock_bot.Slot.Walk.{walk_slot_lem}
use c_spock_bot.Recipe.{walk_ingredient_loop, walk_ingredient}

to_int-small : (n : ℕ) → n < 2 ^ 31 → to_int n ≡ ok n
to_int-small n h = ground arith

absent_loop :
    (n : ℕ) (rest : List ℕ) (m size : ℕ)
    → All IsByte rest
    → n ≤ m
    → m ≤ length rest + 1
    → m < 2 ^ 31
    → size + n < 2 ^ 31
    → walk_ingredient_loop n (0 ∷ rest) m size ≡ ok (size + n)
unfolding walk_ingredient_loop
absent_loop zero rest m size hb lo room small tot =
    to_int-small size (omega arith) ∙ ap ok (omega arith)
absent_loop (suc n) rest m size hb lo room small tot =
    let left : sub_size m 1 ≡ m - 1 = omega arith in
    rw (walk_slot_lem 0 rest m hb (omega arith) room (omega arith), left)
      (absent_loop n rest (m - 1) (size + 1) hb (omega arith) (omega arith) (omega arith)
          (omega arith)
        ∙ ap ok (omega arith))

present_loop :
    (n b : ℕ) (rest : List ℕ) (m size : ℕ)
    → (b == 0) ≡ false
    → All IsByte rest
    → 1 ≤ m
    → m ≤ length rest + 1
    → m < 2 ^ 31
    → walk_ingredient_loop (suc n) (b ∷ rest) m size ≡ err 0
unfolding walk_ingredient_loop
present_loop n b rest m size e hb lo room small =
    rw (walk_slot_lem b rest m hb lo room (omega arith), e)

first_loop :
    (n b : ℕ) (rest : List ℕ) (m size : ℕ)
    → All IsByte rest
    → n + 1 ≤ m
    → m ≤ length rest + 1
    → m < 2 ^ 31
    → size + (n + 1) < 2 ^ 31
    → walk_ingredient_loop (suc n) (b ∷ rest) m size
      ≡ (if b == 0 then ok (size + (n + 1)) else err 0)
first_loop n b rest m size hb lo room small tot = elim (Bool-cases (b == 0)) [
  | inl absent ↦
      let zero_byte : b ≡ 0 = (==_iff b 0).0 absent in
      rw (absent, zero_byte)
        (absent_loop (suc n) rest m size hb (omega arith) room small (omega arith)
          ∙ ap ok (omega arith))
  | inr present ↦ rw present (present_loop n b rest m size present hb (omega arith) room small)
]

-- `walk_ingredient` on a buffer of `max_len` bytes that begins with a count of k, at least one, and
-- then a byte that is no part of the count: if that byte is zero, so that the first slot is absent,
-- it returns the length of the count and one for each slot, whatever the other slots are; if the
-- first slot is present, it returns -1.
pub walk_ingredient_first :
    (k b : ℕ) (rest : List ℕ) (max_len : ℕ)
    → 1 ≤ k
    → IsByte b
    → All IsByte rest
    → length (enc_varint k) + k ≤ max_len
    → max_len ≤ length (enc_varint k ++ (b ∷ rest))
    → max_len < 2 ^ 31
    → walk_ingredient (enc_varint k ++ (b ∷ rest)) max_len
      ≡ (if b == 0 then ok (length (enc_varint k) + k) else err 0)
unfolding walk_ingredient
walk_ingredient_first k b rest m lo b8 hb fits room small =
    let size : ℕ = length (enc_varint k) in
    let bytes : All IsByte (b ∷ rest) = (b8, hb) in
    let counted : rounds k ≡ suc (k - 1) = ground arith in
    let left : sub_size m size ≡ m - size = omega arith in
    let lengths : length (enc_varint k ++ (b ∷ rest)) ≡ size + length (b ∷ rest) =
      length-append (enc_varint k) (b ∷ rest) in
    let walked : walk_varint (enc_varint k ++ (b ∷ rest)) m ≡ ok size =
      ground (arith, walk_varint-enc_varint k (b ∷ rest) m (omega arith) bytes room) in
    rw (walked, dec_varint-enc_varint k (b ∷ rest) (omega arith) bytes, counted, left)
      (first_loop (k - 1) b rest (m - size) size hb (omega arith) (omega arith) (omega arith)
          (omega arith)
        ∙ ap (λ (n : ℕ). if b == 0 then ok (size + n) else err 0) (omega arith))
