-- ===== src/Itemtags.antt =====
-- The arrays of item tags of src/datautils.c, `mc_itemtag_array`.
pub mod RoundTrip
pub mod Walk
use c_spock_bot.Prelude.{
  ℕ, zero, suc, ◌+◌, ◌*◌, ◌%◌, ◌^◌, List, [], ◌∷◌, ◌++◌, drop, ◌==◌, if◌then◌else◌,
}
use c_spock_bot.Prelude.{sub_size, sign_extend, rounds}
use c_spock_bot.Outcome.{Outcome, ok, err, null, fault, ◌>>=◌, to_int}
use c_spock_bot.Varnum.{size_varint, enc_varint, dec_varint, walk_varint}
use c_spock_bot.Text.{walk_string, size_string, enc_string, dec_string}
use c_spock_bot.Library.{Library}

-- The inner loop, which leaves `source` where it is: what it adds to `size` and takes from
-- `max_len`.
unfoldable pub walk_entries : ℕ → List ℕ → ℕ → ℕ → Outcome (ℕ × ℕ)
walk_entries zero source max_len size = ok (max_len, size)
walk_entries (suc n) source max_len size = do
  ret ← walk_varint source max_len
  walk_entries n source (sub_size max_len ret) (size + ret)

-- The loop over `size_t` counters: a negative count is a huge one.
unfoldable pub walk_tags : ℕ → List ℕ → ℕ → ℕ → Outcome ℕ
walk_tags zero source max_len size = to_int size
walk_tags (suc n) source max_len size = do
  name ← walk_string source max_len
  let max_len = sub_size max_len name
  let source = drop name source
  ret ← walk_varint source max_len
  (len, source) ← dec_varint source
  (max_len, size) ← walk_entries (rounds len) source (sub_size max_len ret) (size + name + ret)
  walk_tags n source max_len size

unfoldable pub walk_itemtag_array : List ℕ → ℕ → Outcome ℕ
walk_itemtag_array source max_len = if max_len == 0 then err 0 else do
  ret ← walk_varint source max_len
  (len, source) ← dec_varint source
  walk_tags (sign_extend len) source (sub_size max_len ret) ret

-- The loops over `entries[j]`; an index behind the memory is undefined.
unfoldable pub size_entries : ℕ → List ℕ → Outcome ℕ
size_entries zero entries = ok 0
size_entries (suc n) [] = fault
size_entries (suc n) (e ∷ entries) = do size ← size_entries n entries; ok (size_varint e + size)

unfoldable pub enc_entries : ℕ → List ℕ → Outcome (List ℕ)
enc_entries zero entries = ok []
enc_entries (suc n) [] = fault
enc_entries (suc n) (e ∷ entries) = do bytes ← enc_entries n entries; ok (enc_varint e ++ bytes)

unfoldable pub dec_entries : ℕ → List ℕ → Outcome (List ℕ × List ℕ)
dec_entries zero source = ok ([], source)
dec_entries (suc n) source = do
  (e, source) ← dec_varint source
  (entries, source) ← dec_entries n source
  ok (e ∷ entries, source)

-- The sizes of a `mc_itemtag` and of an entry on a 64-bit machine, and the product that `malloc` is
-- called with.
abbrev pub itemtag_size : ℕ
itemtag_size = 24

abbrev pub entry_size : ℕ
entry_size = 4

abbrev pub array_size : ℕ → ℕ → ℕ
array_size len width = sign_extend len * width % 2 ^ 64

module _ (lib : Library) where
  open lib use {Str, malloc}

  -- `len` is the bit pattern of an `int32_t`.
  pub record Itemtag : Type 0 where
    pub name : Str
    pub len : ℕ
    pub entries : List ℕ

  pub record ItemtagArray : Type 0 where
    pub len : ℕ
    pub tags : List Itemtag

  unfoldable pub size_tags : ℕ → List Itemtag → Outcome ℕ
  size_tags zero tags = ok 0
  size_tags (suc n) [] = fault
  size_tags (suc n) (t ∷ tags) = do
    entries ← size_entries (rounds t.len) t.entries
    size ← size_tags n tags
    ok (size_string lib t.name + size_varint t.len + entries + size)

  unfoldable pub size_itemtag_array : ItemtagArray → Outcome ℕ
  size_itemtag_array itemtag_array = do
    size ← size_tags (rounds itemtag_array.len) itemtag_array.tags
    ok (size_varint itemtag_array.len + size)

  unfoldable pub enc_tags : ℕ → List Itemtag → Outcome (List ℕ)
  enc_tags zero tags = ok []
  enc_tags (suc n) [] = fault
  enc_tags (suc n) (t ∷ tags) = do
    name ← enc_string lib t.name
    entries ← enc_entries (rounds t.len) t.entries
    bytes ← enc_tags n tags
    ok (name ++ (enc_varint t.len ++ (entries ++ bytes)))

  unfoldable pub enc_itemtag_array : ItemtagArray → Outcome (List ℕ)
  enc_itemtag_array source = do
    bytes ← enc_tags (rounds source.len) source.tags
    ok (enc_varint source.len ++ bytes)

  unfoldable pub dec_tags : ℕ → List ℕ → Outcome (List Itemtag × List ℕ)
  dec_tags zero source = ok ([], source)
  dec_tags (suc n) source = do
    (name, source) ← dec_string lib source
    (len, source) ← dec_varint source
    if malloc (array_size len entry_size)
        then (do
          (entries, source) ← dec_entries (rounds len) source
          (tags, source) ← dec_tags n source
          ok (record { name = name; len = len; entries = entries } ∷ tags, source))
        else null

  unfoldable pub dec_itemtag_array : List ℕ → Outcome (ItemtagArray × List ℕ)
  dec_itemtag_array source = do
    (len, source) ← dec_varint source
    if malloc (array_size len itemtag_size)
        then (do
          (tags, source) ← dec_tags (rounds len) source
          ok (record { len = len; tags = tags }, source))
        else null
