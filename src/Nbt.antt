-- ===== src/Nbt.antt =====
-- The sizes and walks of NBT trees in src/datautils.c. The tree is the `nbt_node` of
-- include/cNBT/nbt.h as `size_unnamed_nbt` reads it. Building and writing trees is the vendored cNBT.
pub mod Format
pub mod Size
pub mod Walk
pub mod Codec
use c_spock_bot.Prelude.{ℕ, zero, suc, ◌+◌, ◌*◌, List, [], ◌∷◌, length, drop, ltb, ◌==◌}
use c_spock_bot.Prelude.{if◌then◌else◌, rounds, sub_size, Option, none, some}
use c_spock_bot.Outcome.{Outcome, ok, err, stuck, ◌>>=◌, or_minus_one, to_int}
use c_spock_bot.Numeric.{dec_byte, dec_be16, dec_be32}

-- A string is its bytes before the NUL; an array is its elements. `tag_list` keeps the type of its
-- elements in its sentinel.
mutual
  pub data NbtNode : Type 0 where
    node : Option (List ℕ) → Payload → NbtNode

  pub data Payload : Type 0 where
    tag_byte tag_short tag_int tag_long tag_float tag_double : ℕ → Payload
    tag_byte_array tag_int_array tag_long_array tag_string : List ℕ → Payload
    tag_list : ℕ → Nodes → Payload
    tag_compound : Nodes → Payload

  pub data Nodes : Type 0 where
    nil : Nodes
    cons : NbtNode → Nodes → Nodes

-- `nbt_type`
abbrev pub tag : Payload → ℕ
tag (tag_byte _) = 1
tag (tag_short _) = 2
tag (tag_int _) = 3
tag (tag_long _) = 4
tag (tag_float _) = 5
tag (tag_double _) = 6
tag (tag_byte_array _) = 7
tag (tag_string _) = 8
tag (tag_list _ _) = 9
tag (tag_compound _) = 10
tag (tag_int_array _) = 11
tag (tag_long_array _) = 12

abbrev pub payload : NbtNode → Payload
payload (node name p) = p

abbrev pub type_of : NbtNode → ℕ
type_of n = tag (payload n)

-- The bytes of a name in the sizes: one for the type, two for the length, and the name's own.
abbrev pub size_header : Option (List ℕ) → ℕ
size_header none = 1 + 2
size_header (some name) = 1 + 2 + length name

unfoldable mutual
  pub size_unnamed_nbt : Payload → ℕ
  size_unnamed_nbt (tag_byte _) = 1
  size_unnamed_nbt (tag_short _) = 2
  size_unnamed_nbt (tag_int _) = 4
  size_unnamed_nbt (tag_long _) = 8
  size_unnamed_nbt (tag_float _) = 4
  size_unnamed_nbt (tag_double _) = 8
  size_unnamed_nbt (tag_byte_array xs) = 4 + length xs
  size_unnamed_nbt (tag_int_array xs) = 4 + length xs * 4
  size_unnamed_nbt (tag_long_array xs) = 4 + length xs * 8
  size_unnamed_nbt (tag_string s) = 2 + length s
  size_unnamed_nbt (tag_list _ nodes) = size_nbt_list nodes
  size_unnamed_nbt (tag_compound nodes) = 1 + size_nbt_members nodes

  pub size_nbt_list : Nodes → ℕ
  size_nbt_list nil = 0
  size_nbt_list (cons n nodes) = size_of_element n + size_nbt_list nodes

  -- `size_nbt_compound` after the byte that closes it.
  pub size_nbt_members : Nodes → ℕ
  size_nbt_members nil = 0
  size_nbt_members (cons n nodes) = size_nbt n + size_nbt_members nodes

  pub size_of_element : NbtNode → ℕ
  size_of_element (node name p) = size_unnamed_nbt p

  pub size_nbt : NbtNode → ℕ
  size_nbt (node name p) = size_header name + size_unnamed_nbt p

unfoldable pub walk_nbt_string : List ℕ → ℕ → Outcome ℕ
walk_nbt_string source max_len =
    if ltb max_len 2
    then err 0
    else do (len, _) ← dec_be16 source; if ltb max_len (2 + len) then err 0 else ok (2 + len)

unfoldable pub walk_nbt_array : List ℕ → ℕ → ℕ → Outcome ℕ
walk_nbt_array source max_len type_len = if ltb max_len 4 then err 0 else do
  (len, _) ← dec_be32 source
  if ltb max_len (4 + len * type_len) then err 0 else to_int (4 + len * type_len)

-- The type of `walk_unnamed_nbt`, for the loops that call it.
abbrev pub Walker : Type 0
Walker = List ℕ → ℕ → Outcome ℕ

-- The `for` loop of `walk_nbt_list`. `max_len` is not reduced by the five bytes in front.
unfoldable pub walk_list_loop : Walker → ℕ → List ℕ → ℕ → ℕ → Outcome ℕ
walk_list_loop walk zero source max_len size = to_int size
walk_list_loop walk (suc n) source max_len size = do
  step ← or_minus_one (walk source max_len)
  walk_list_loop walk n (drop step source) (sub_size max_len step) (size + step)

unfoldable pub walk_nbt_list : (ℕ → Walker) → Walker
unfolding walk_list_loop
walk_nbt_list walk source max_len = if ltb max_len 5 then err 0 else do
  (type, source) ← dec_byte source
  (count, source) ← dec_be32 source
  walk_list_loop (walk type) (rounds count) source max_len 5

-- The `for(;;)` loop of `walk_nbt_compound`, on fuel.
unfoldable pub walk_compound_loop : (ℕ → Walker) → ℕ → List ℕ → ℕ → ℕ → Outcome ℕ
walk_compound_loop walk zero source max_len total_size = stuck
walk_compound_loop walk (suc fuel) source max_len total_size = if max_len == 0 then err 0 else do
  (type, source) ← dec_byte source
  let total_size = total_size + 1
  if type == 0 then to_int total_size else do
    let max_len = sub_size max_len 1
    tag_size ← or_minus_one (walk_nbt_string source max_len)
    let source = drop tag_size source
    let total_size = total_size + tag_size
    let max_len = sub_size max_len tag_size
    tag_size ← or_minus_one (walk type source max_len)
    walk_compound_loop walk fuel (drop tag_size source) (sub_size max_len tag_size)
        (total_size + tag_size)

unfoldable pub walk_nbt_compound : (ℕ → Walker) → Walker
unfolding walk_compound_loop
walk_nbt_compound walk source max_len =
    walk_compound_loop walk (suc (length source)) source max_len 0

-- The `switch` of `walk_unnamed_nbt`, with the walk of what is nested.
unfoldable pub walk_payload : (ℕ → Walker) → ℕ → Walker
unfolding walk_nbt_string walk_nbt_array walk_nbt_list walk_nbt_compound
walk_payload walk type source max_len =
    if type == 1
    then ok 1
    else if type == 2
    then ok 2
    else if type == 3
    then ok 4
    else if type == 4
    then ok 8
    else if type == 5
    then ok 4
    else if type == 6
    then ok 8
    else if type == 7
    then walk_nbt_array source max_len 1
    else if type == 8
    then walk_nbt_string source max_len
    else if type == 9
    then walk_nbt_list walk source max_len
    else if type == 10
    then walk_nbt_compound walk source max_len
    else if type == 11
    then walk_nbt_array source max_len 4
    else if type == 12
    then walk_nbt_array source max_len 8
    else err 0

-- `walk_unnamed_nbt`, on fuel for the depth of the nesting.
unfoldable pub walk_unnamed_nbt : ℕ → ℕ → Walker
unfolding walk_payload
walk_unnamed_nbt zero type source max_len = stuck
walk_unnamed_nbt (suc depth) type source max_len = do
  size ← or_minus_one (walk_payload (walk_unnamed_nbt depth) type source max_len)
  if ltb max_len size then err 0 else ok size

-- Each level of nesting takes a byte at least, so the length of the memory is fuel enough.
unfoldable pub walk_nbt : Walker
walk_nbt source max_len = if max_len == 0 then err 0 else do
  (type, source) ← dec_byte source
  let max_len = sub_size max_len 1
  name ← or_minus_one (walk_nbt_string source max_len)
  let source = drop name source
  let max_len = sub_size max_len name
  size ← or_minus_one (walk_unnamed_nbt (suc (length source)) type source max_len)
  to_int (1 + name + size)
