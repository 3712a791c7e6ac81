-- ===== src/Nbt/Walk/Steps.antt =====
-- The parts of `walk_nbt` on the parts of a tree in the wire format.
use c_spock_bot.Prelude.{ℕ, suc, ◌+◌, ◌-◌, ◌*◌, ◌^◌, ◌≤◌, ◌<◌, ◌≡◌, ap}
use c_spock_bot.Prelude.{◌≢◌, arith, sub_size}
use c_spock_bot.Prelude.{List, ◌∷◌, ◌++◌, length, drop-append, append_assoc}
use c_spock_bot.Outcome.{ok, to_int}
use c_spock_bot.Numeric.{enc_be16, enc_be32, dec_byte}
use c_spock_bot.Numeric.RoundTrip.{dec_be-enc_be}
use c_spock_bot.Nbt.{
  Walker, walk_nbt_string, walk_nbt_array, walk_list_loop, walk_nbt_list, walk_compound_loop,
  walk_payload, walk_unnamed_nbt,
}
use c_spock_bot.Nbt.Format.{format_string, format_elements, format_array}
use c_spock_bot.Nbt.Size.{length-format_string, length-format_array}

pub to_int-small : (n : ℕ) → n < 2 ^ 31 → to_int n ≡ ok n
to_int-small n h = ground arith

pub walk_nbt_string-format :
    (s rest : List ℕ) (m : ℕ)
    → length s < 2 ^ 16
    → 2 + length s ≤ m
    → walk_nbt_string (format_string s ++ rest) m ≡ ok (2 + length s)
unfolding walk_nbt_string format_string
walk_nbt_string-format s rest m h room =
    ground (arith, append_assoc (enc_be16 (length s)) s rest, dec_be-enc_be (length s) (s ++ rest))

pub walk_nbt_array-format :
    (w : ℕ) (xs rest : List ℕ) (m : ℕ)
    → length xs < 2 ^ 31
    → length (format_array w xs) ≤ m
    → m < 2 ^ 31
    → walk_nbt_array (format_array w xs ++ rest) m w ≡ ok (length (format_array w xs))
unfolding walk_nbt_array format_array
walk_nbt_array-format w xs rest m h room small = ground (
  arith,
  append_assoc (enc_be32 (length xs)) (format_elements w xs) rest,
  dec_be-enc_be (length xs) (format_elements w xs ++ rest),
  unfold_length,
)
  where
    unfold_length : length (enc_be32 (length xs) ++ format_elements w xs) ≡ 4 + length xs * w
    unfold_length = length-format_array w xs

-- One level of the fuel.
pub walk_unnamed_nbt-ok :
    (d t : ℕ) (source : List ℕ) (m n : ℕ)
    → walk_payload (walk_unnamed_nbt d) t source m ≡ ok n
    → n ≤ m
    → walk_unnamed_nbt (suc d) t source m ≡ ok n
unfolding walk_unnamed_nbt
walk_unnamed_nbt-ok d t source m n e room = rw e (ground arith)

pub walk_nbt_list-loop :
    (walk : ℕ → Walker) (t k : ℕ) (source : List ℕ) (m : ℕ)
    → k < 2 ^ 31
    → 5 ≤ m
    → walk_nbt_list walk (t ∷ (enc_be32 k ++ source)) m ≡ walk_list_loop (walk t) k source m 5
unfolding walk_nbt_list dec_byte
walk_nbt_list-loop walk t k source m h room = ground (arith, dec_be-enc_be k source)

pub walk_list_loop-step :
    (walk : Walker) (k : ℕ) (bytes rest : List ℕ) (m size : ℕ)
    → walk (bytes ++ rest) m ≡ ok (length bytes)
    → length bytes ≤ m
    → m < 2 ^ 31
    → walk_list_loop walk (suc k) (bytes ++ rest) m size
      ≡ walk_list_loop walk k rest (m - length bytes) (size + length bytes)
unfolding walk_list_loop
walk_list_loop-step walk k bytes rest m size e room small =
    rw (e, drop-append bytes rest)
      (ap (λ (l : ℕ). walk_list_loop walk k rest l (size + length bytes)) (omega arith))

-- One round of the loop over the members of a compound, on a member of type `t`.
pub walk_compound_loop-step :
    (walk : ℕ → Walker) (fuel t : ℕ) (name bytes rest : List ℕ) (m total : ℕ)
    → t ≢ 0
    → length name < 2 ^ 16
    → ((l : ℕ) → length bytes ≤ l → l < 2 ^ 31 → walk t (bytes ++ rest) l ≡ ok (length bytes))
    → 3 + length name + length bytes ≤ m
    → m < 2 ^ 31
    → walk_compound_loop walk (suc fuel) (t ∷ (format_string name ++ (bytes ++ rest))) m total
      ≡ walk_compound_loop walk fuel rest
          (m - (3 + length name + length bytes))
          (total + (3 + length name + length bytes))
unfolding walk_compound_loop dec_byte
walk_compound_loop-step walk fuel t name bytes rest m total nz h e room small = ground (
  arith,
  walk_nbt_string-format name (bytes ++ rest) (sub_size m 1),
  length-format_string name,
  drop-append (format_string name) (bytes ++ rest),
  drop-append bytes rest,
  e (sub_size (sub_size m 1) (2 + length name)),
)

pub walk_compound_loop-end :
    (walk : ℕ → Walker) (fuel : ℕ) (rest : List ℕ) (m total : ℕ)
    → 1 ≤ m
    → total + 1 < 2 ^ 31
    → walk_compound_loop walk (suc fuel) (0 ∷ rest) m total ≡ ok (total + 1)
unfolding walk_compound_loop dec_byte
walk_compound_loop-end walk fuel rest m total h small = ground arith
