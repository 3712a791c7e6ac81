-- ===== src/Itemtags/RoundTrip.antt =====
-- An array of item tags comes back from the decoder as it was encoded.
use c_spock_bot.Prelude.{ℕ, ◌^◌, ◌<◌, ◌≡◌, refl, arith, true}
use c_spock_bot.Prelude.{
  List, [], ◌∷◌, ◌++◌, append_assoc, length, All, All-append, IsByte, IsU32, rounds,
}
use c_spock_bot.Outcome.{ok}
use c_spock_bot.Varnum.{enc_varint}
use c_spock_bot.Varnum.RoundTrip.{dec_varint-enc_varint, enc_varint-IsByte}
use c_spock_bot.Text.RoundTrip.{
  string_bytes, enc_string-bytes, dec_string-bytes, string_bytes-IsByte,
}
use c_spock_bot.Library.{Library}
use c_spock_bot.Itemtags.{
  enc_entries, dec_entries, entry_size, itemtag_size, array_size, Itemtag, ItemtagArray, enc_tags,
  dec_tags, enc_itemtag_array, dec_itemtag_array,
}

abbrev pub entries_bytes : List ℕ → List ℕ
entries_bytes [] = []
entries_bytes (e ∷ entries) = enc_varint e ++ entries_bytes entries

pub entries_bytes-IsByte :
    (entries rest : List ℕ)
    → All IsU32 entries
    → All IsByte rest
    → All IsByte (entries_bytes entries ++ rest)
entries_bytes-IsByte [] rest h hr = hr
entries_bytes-IsByte (e ∷ entries) rest (h, hs) hr =
    rw (append_assoc (enc_varint e) (entries_bytes entries) rest) (
      All-append IsByte (enc_varint e) (entries_bytes entries ++ rest) (enc_varint-IsByte e h)
        (entries_bytes-IsByte entries rest hs hr))

enc_entries-bytes :
    (entries : List ℕ) → enc_entries (length entries) entries ≡ ok (entries_bytes entries)
unfolding enc_entries
enc_entries-bytes [] = refl
enc_entries-bytes (e ∷ entries) = rw (enc_entries-bytes entries)

dec_entries-bytes :
    (entries rest : List ℕ)
    → All IsU32 entries
    → All IsByte rest
    → dec_entries (length entries) (entries_bytes entries ++ rest) ≡ ok (entries, rest)
unfolding dec_entries
dec_entries-bytes [] rest h hr = refl
dec_entries-bytes (e ∷ entries) rest (h, hs) hr = rw (
  append_assoc (enc_varint e) (entries_bytes entries) rest,
  dec_varint-enc_varint e (entries_bytes entries ++ rest) h
      (entries_bytes-IsByte entries rest hs hr),
  dec_entries-bytes entries rest hs hr,
)

append_four :
    (a b c d rest : List ℕ) → (a ++ (b ++ (c ++ d))) ++ rest ≡ a ++ (b ++ (c ++ (d ++ rest)))
append_four a b c d rest = simp append_assoc

module _ (lib : Library) where
  open lib use {Str, sdslen, malloc}

  -- A tag with as many entries as it says, each an `int32_t`, and memory for them.
  pub record IsItemtag (t : Itemtag lib) : Type 0 where
    pub name_fits : sdslen t.name < 2 ^ 31
    pub counted : t.len ≡ length t.entries
    pub few : t.len < 2 ^ 31
    pub entries_fit : All IsU32 t.entries
    pub memory : malloc (array_size t.len entry_size) ≡ true

  abbrev pub tags_bytes : List (Itemtag lib) → List ℕ
  tags_bytes [] = []
  tags_bytes (t ∷ tags) =
      string_bytes lib t.name ++ (enc_varint t.len ++ (entries_bytes t.entries ++ tags_bytes tags))

  tags_bytes-IsByte :
      (tags : List (Itemtag lib)) (rest : List ℕ)
      → All IsItemtag tags
      → All IsByte rest
      → All IsByte (tags_bytes tags ++ rest)
  tags_bytes-IsByte [] rest h hr = hr
  tags_bytes-IsByte (t ∷ tags) rest (h, hs) hr =
      let more = tags_bytes-IsByte tags rest hs hr in
      let entries = entries_bytes-IsByte t.entries (tags_bytes tags ++ rest) h.entries_fit more in
      rw
        (append_four (string_bytes lib t.name) (enc_varint t.len) (entries_bytes t.entries)
          (tags_bytes tags) rest)
        (All-append IsByte (string_bytes lib t.name) _ (string_bytes-IsByte lib t.name h.name_fits)
          (All-append IsByte (enc_varint t.len) _ (enc_varint-IsByte t.len (omega (arith, h.few)))
            entries))

  rounds-length :
      {A : Type 0} (n : ℕ) (xs : List A) → n ≡ length xs → n < 2 ^ 31 → rounds n ≡ length xs
  rounds-length n xs e h = ground arith

  enc_tags-bytes :
      (tags : List (Itemtag lib))
      → All IsItemtag tags
      → enc_tags lib (length tags) tags ≡ ok (tags_bytes tags)
  unfolding enc_tags
  enc_tags-bytes [] h = refl
  enc_tags-bytes (t ∷ tags) (h, hs) = rw (
    enc_string-bytes lib t.name h.name_fits,
    rounds-length t.len t.entries h.counted h.few,
    enc_entries-bytes t.entries,
    enc_tags-bytes tags hs,
  )

  dec_tags-bytes :
      (tags : List (Itemtag lib)) (rest : List ℕ)
      → All IsItemtag tags
      → All IsByte rest
      → dec_tags lib (length tags) (tags_bytes tags ++ rest) ≡ ok (tags, rest)
  unfolding dec_tags
  dec_tags-bytes [] rest h hr = refl
  dec_tags-bytes (t ∷ tags) rest (h, hs) hr =
      let more = tags_bytes-IsByte tags rest hs hr in
      let entries = entries_bytes-IsByte t.entries (tags_bytes tags ++ rest) h.entries_fit more in
      let counted =
        All-append IsByte (enc_varint t.len) _ (enc_varint-IsByte t.len (omega (arith, h.few)))
          entries in
      rw (
        append_four (string_bytes lib t.name) (enc_varint t.len) (entries_bytes t.entries)
            (tags_bytes tags) rest,
        dec_string-bytes lib t.name _ h.name_fits counted,
        dec_varint-enc_varint t.len _ (omega (arith, h.few)) entries,
        h.memory,
        rounds-length t.len t.entries h.counted h.few,
        dec_entries-bytes t.entries (tags_bytes tags ++ rest) h.entries_fit more,
        dec_tags-bytes tags rest hs hr,
      )

  -- An array with as many tags as it says, and memory for them.
  pub record IsItemtagArray (a : ItemtagArray lib) : Type 0 where
    pub counted : a.len ≡ length a.tags
    pub few : a.len < 2 ^ 31
    pub tags_fit : All IsItemtag a.tags
    pub memory : malloc (array_size a.len itemtag_size) ≡ true

  array_bytes : ItemtagArray lib → List ℕ
  array_bytes a = enc_varint a.len ++ tags_bytes a.tags

  enc_itemtag_array-bytes :
      (a : ItemtagArray lib) → IsItemtagArray a → enc_itemtag_array lib a ≡ ok (array_bytes a)
  unfolding enc_itemtag_array array_bytes
  enc_itemtag_array-bytes a h =
      rw (rounds-length a.len a.tags h.counted h.few, enc_tags-bytes a.tags h.tags_fit)

  dec_itemtag_array-bytes :
      (a : ItemtagArray lib) (rest : List ℕ)
      → IsItemtagArray a
      → All IsByte rest
      → dec_itemtag_array lib (array_bytes a ++ rest) ≡ ok (a, rest)
  unfolding dec_itemtag_array array_bytes
  dec_itemtag_array-bytes a rest h hr = rw (
    append_assoc (enc_varint a.len) (tags_bytes a.tags) rest,
    dec_varint-enc_varint a.len _ (omega (arith, h.few))
        (tags_bytes-IsByte a.tags rest h.tags_fit hr),
    h.memory,
    rounds-length a.len a.tags h.counted h.few,
    dec_tags-bytes a.tags rest h.tags_fit hr,
  )

  -- An array of item tags comes back from `dec_itemtag_array` as it was given to `enc_itemtag_array`,
  -- if its counts are those of its lists, its names and counts fit an `int32_t`, and `malloc` gives
  -- the memory.
  pub dec_itemtag_array-enc_itemtag_array :
      (a : ItemtagArray lib) (rest : List ℕ)
      → IsItemtagArray a
      → All IsByte rest
      → (bytes : List ℕ) × (enc_itemtag_array lib a ≡ ok bytes)
        × (dec_itemtag_array lib (bytes ++ rest) ≡ ok (a, rest))
  dec_itemtag_array-enc_itemtag_array a rest h hr =
      (array_bytes a, enc_itemtag_array-bytes a h, dec_itemtag_array-bytes a rest h hr)
