-- ===== src/Itemtags/Walk.antt =====
-- `walk_itemtag_array` measures the first entry of a tag once for each entry.
use c_spock_bot.Prelude.{ℕ, zero, suc, ◌+◌, ◌-◌, ◌*◌, ◌^◌, ◌≤◌, ◌<◌, ◌≡◌, refl, ◌∙◌, ap, arith}
use c_spock_bot.Prelude.{List, ◌++◌, length, length-append, drop-append, ◌==◌}
use c_spock_bot.Prelude.{false, All, All-append, IsByte, IsU32, sub_size, rounds}
use c_spock_bot.Outcome.{ok, to_int}
use c_spock_bot.Varnum.{enc_varint, walk_varint}
use c_spock_bot.Varnum.RoundTrip.{dec_varint-enc_varint, walk_varint-enc_varint, enc_varint-IsByte}
use c_spock_bot.Text.{walk_string}
use c_spock_bot.Text.RoundTrip.{
  string_bytes, string_bytes-IsByte, length-string_bytes, walk_string-enc_string,
}
use c_spock_bot.Library.{Library}
use c_spock_bot.Itemtags.{walk_entries, walk_tags, walk_itemtag_array}

walk_varint-fits :
    (v : ℕ) (rest : List ℕ) (m : ℕ)
    → IsU32 v
    → All IsByte rest
    → length (enc_varint v) ≤ m
    → m ≤ length (enc_varint v) + length rest
    → walk_varint (enc_varint v ++ rest) m ≡ ok (length (enc_varint v))
walk_varint-fits v rest m h hr fits room =
    let n : ℕ = length (enc_varint v) in
    let lengths = length-append (enc_varint v) rest in
    let walked = walk_varint-enc_varint v rest m h hr (omega arith) in ground (arith, walked)

walk_entries-first :
    (k e : ℕ) (rest : List ℕ) (m size : ℕ)
    → IsU32 e
    → All IsByte rest
    → k * length (enc_varint e) ≤ m
    → m ≤ length (enc_varint e) + length rest
    → m < 2 ^ 31
    → walk_entries k (enc_varint e ++ rest) m size
      ≡ ok (m - k * length (enc_varint e), size + k * length (enc_varint e))
unfolding walk_entries
walk_entries-first zero e rest m size h hr fits room small = ground arith
walk_entries-first (suc k) e rest m size h hr fits room small =
    let n : ℕ = length (enc_varint e) in
    let product : suc k * n ≡ n + k * n = ground arith in
    let left : sub_size m n ≡ m - n = omega arith in
    rw (walk_varint-fits e rest m h hr (omega arith) room, left)
      (walk_entries-first k e rest (m - n) (size + n) h hr (omega arith) (omega arith) (omega arith)
        ∙ ap ok (ground arith))

to_int-fits : (n : ℕ) → n < 2 ^ 31 → to_int n ≡ ok n
to_int-fits n h = ground arith

length-one : length (enc_varint 1) ≡ 1
unfolding enc_varint
length-one = refl

length-tag :
    (a b c d : List ℕ)
    → length (a ++ (b ++ (c ++ d))) ≡ length a + (length b + (length c + length d))
length-tag a b c d =
    omega (arith, length-append a (b ++ (c ++ d)), length-append b (c ++ d), length-append c d)

module _ (lib : Library) where
  open lib use {Str, sdslen}

  walk_string-fits :
      (s : Str) (rest : List ℕ) (m : ℕ)
      → sdslen s < 2 ^ 31
      → All IsByte rest
      → length (string_bytes lib s) ≤ m
      → m ≤ length (string_bytes lib s) + length rest
      → m < 2 ^ 31
      → walk_string (string_bytes lib s ++ rest) m ≡ ok (length (string_bytes lib s))
  walk_string-fits s rest m h hr fits room small =
      let lengths = length-append (string_bytes lib s) rest in
      let walked = walk_string-enc_string lib s rest m h hr (omega arith) small in
      ground (arith, walked, length-string_bytes lib s)

  -- What `walk_itemtag_array` returns for one tag with the name `s` and `k` entries, of which `e` is
  -- the first.
  abbrev pub measured : Str → ℕ → ℕ → ℕ
  measured s k e =
      1 + length (string_bytes lib s) + length (enc_varint k) + k * length (enc_varint e)

  walk_tags-one :
      (s : Str) (k e : ℕ) (rest : List ℕ) (m : ℕ)
      → sdslen s < 2 ^ 31
      → k < 2 ^ 31
      → IsU32 e
      → All IsByte rest
      → measured s k e ≤ m + 1
      → m
        ≤ length (string_bytes lib s)
          + (length (enc_varint k) + (length (enc_varint e) + length rest))
      → m + 1 < 2 ^ 31
      → walk_tags 1 (string_bytes lib s ++ (enc_varint k ++ (enc_varint e ++ rest))) m 1
        ≡ ok (measured s k e)
  unfolding walk_tags
  walk_tags-one s k e rest m hs hk he hr fits room small =
      let name : ℕ = length (string_bytes lib s) in
      let n : ℕ = length (enc_varint k) in
      let entry : All IsByte (enc_varint e ++ rest) =
        All-append IsByte (enc_varint e) rest (enc_varint-IsByte e he) hr in
      let entries : All IsByte (enc_varint k ++ (enc_varint e ++ rest)) =
        All-append IsByte (enc_varint k) _ (enc_varint-IsByte k (omega arith)) entry in
      let tail = length-append (enc_varint e) rest in
      let behind = length-append (enc_varint k) (enc_varint e ++ rest) in
      let counted : rounds k ≡ k = ground arith in
      let after_name : sub_size m name ≡ m - name = omega arith in
      let after_len : sub_size (m - name) n ≡ m - name - n = omega arith in
      rw
        (
          walk_string-fits s (enc_varint k ++ (enc_varint e ++ rest)) m hs entries (omega arith)
              (omega arith) (omega arith),
          after_name,
          drop-append (string_bytes lib s) (enc_varint k ++ (enc_varint e ++ rest)),
          walk_varint-fits k (enc_varint e ++ rest) (m - name) (omega arith) entry (omega arith)
              (omega arith),
          dec_varint-enc_varint k (enc_varint e ++ rest) (omega arith) entry,
          counted,
          after_len,
          walk_entries-first k e rest (m - name - n) (1 + name + n) he hr (omega arith)
              (omega arith) (omega arith),
        )
        (to_int-fits (measured s k e) (omega arith))

  -- On a buffer of `max_len` bytes, fewer than `2 ^ 31`, that begins with an array of one tag with
  -- `k` entries `walk_itemtag_array` counts the length of the first entry `k` times, whatever the
  -- lengths of the others, if `max_len` allows the sum.
  pub walk_itemtag_array_first :
      (s : Str) (k e : ℕ) (rest : List ℕ) (max_len : ℕ)
      → sdslen s < 2 ^ 31
      → k < 2 ^ 31
      → IsU32 e
      → All IsByte rest
      → measured s k e ≤ max_len
      → max_len
        ≤ length (enc_varint 1 ++ (string_bytes lib s ++ (enc_varint k ++ (enc_varint e ++ rest))))
      → max_len < 2 ^ 31
      → walk_itemtag_array
          (enc_varint 1 ++ (string_bytes lib s ++ (enc_varint k ++ (enc_varint e ++ rest))))
          max_len
        ≡ ok (measured s k e)
  unfolding walk_itemtag_array
  walk_itemtag_array_first s k e rest m hs hk he hr fits room small =
      let entry : All IsByte (enc_varint e ++ rest) =
        All-append IsByte (enc_varint e) rest (enc_varint-IsByte e he) hr in
      let entries : All IsByte (enc_varint k ++ (enc_varint e ++ rest)) =
        All-append IsByte (enc_varint k) _ (enc_varint-IsByte k (omega arith)) entry in
      let tag : List ℕ = string_bytes lib s ++ (enc_varint k ++ (enc_varint e ++ rest)) in
      let bytes : All IsByte tag =
        All-append IsByte (string_bytes lib s) _ (string_bytes-IsByte lib s hs) entries in
      let size : length tag
          ≡ length (string_bytes lib s)
            + (length (enc_varint k) + (length (enc_varint e) + length rest)) =
        length-tag (string_bytes lib s) (enc_varint k) (enc_varint e) rest in
      let behind = length-append (enc_varint 1) tag in
      let nonempty : (m == 0) ≡ false = ground arith in
      let left : sub_size m 1 ≡ m - 1 = omega arith in
      rw
        (
          nonempty,
          walk_varint-fits 1 tag m (omega arith) bytes (omega (arith, length-one)) (omega arith),
          dec_varint-enc_varint 1 tag (omega arith) bytes,
          length-one,
          left,
        )
        (walk_tags-one s k e rest (m - 1) hs hk he hr (omega arith) (omega (arith, length-one))
          (omega arith))
