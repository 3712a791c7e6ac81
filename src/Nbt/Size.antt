-- ===== src/Nbt/Size.antt =====
-- The size functions against the wire format.
use c_spock_bot.Prelude.{ℕ, ◌+◌, ◌*◌, ◌≤◌, ◌≡◌, refl, arith, none, some}
use c_spock_bot.Prelude.{List, [], ◌∷◌, length, length-append}
use c_spock_bot.Numeric.{be_bytes, enc_be16, enc_be32}
use c_spock_bot.Numeric.RoundTrip.{length-be_bytes}
use c_spock_bot.Nbt.{
  NbtNode, node, Payload, tag_byte, tag_short, tag_int, tag_long, tag_float, tag_double,
  tag_byte_array, tag_int_array, tag_long_array, tag_string, tag_list, tag_compound, Nodes, nil,
  cons, size_unnamed_nbt, size_nbt_list, size_nbt_members, size_of_element, size_nbt,
}
use c_spock_bot.Nbt.Format.{
  name_of, count, format_string, format_elements, format_array, format, format_nodes,
  format_members, format_element, format_node, lists, lists_nodes, lists_node, depth, depth_nodes,
  depth_node,
}

pub length-enc_be16 : (v : ℕ) → length (enc_be16 v) ≡ 2
unfolding enc_be16
length-enc_be16 v = refl

pub length-enc_be32 : (v : ℕ) → length (enc_be32 v) ≡ 4
unfolding enc_be32
length-enc_be32 v = refl

pub length-format_string : (s : List ℕ) → length (format_string s) ≡ 2 + length s
unfolding format_string
length-format_string s =
    omega (arith, length-append (enc_be16 (length s)) s, length-enc_be16 (length s))

pub length-format_elements : (w : ℕ) (xs : List ℕ) → length (format_elements w xs) ≡ length xs * w
unfolding format_elements
length-format_elements w [] = omega arith
length-format_elements w (x ∷ xs) = grind (
  arith,
  length-append (be_bytes w x) (format_elements w xs),
  length-be_bytes w x,
  length-format_elements w xs,
)

pub length-format_array : (w : ℕ) (xs : List ℕ) → length (format_array w xs) ≡ 4 + length xs * w
unfolding format_array
length-format_array w xs = omega (
  arith,
  length-append (enc_be32 (length xs)) (format_elements w xs),
  length-enc_be32 (length xs),
  length-format_elements w xs,
)

pub length-format_list :
    (t : ℕ) (nodes : Nodes) → length (format (tag_list t nodes)) ≡ 5 + length (format_nodes nodes)
unfolding format
length-format_list t nodes = omega (
  arith,
  length-append (enc_be32 (count nodes)) (format_nodes nodes),
  length-enc_be32 (count nodes),
)

mutual
  unfolding size_unnamed_nbt format lists

  length-format : (p : Payload) → length (format p) ≡ size_unnamed_nbt p + 5 * lists p
  length-format (tag_byte v) = length-be_bytes 1 v
  length-format (tag_short v) = length-be_bytes 2 v
  length-format (tag_int v) = length-be_bytes 4 v
  length-format (tag_long v) = length-be_bytes 8 v
  length-format (tag_float v) = length-be_bytes 4 v
  length-format (tag_double v) = length-be_bytes 8 v
  length-format (tag_byte_array xs) = omega (arith, length-format_array 1 xs)
  length-format (tag_int_array xs) = omega (arith, length-format_array 4 xs)
  length-format (tag_long_array xs) = omega (arith, length-format_array 8 xs)
  length-format (tag_string s) = omega (arith, length-format_string s)
  length-format (tag_list t nodes) =
      omega (arith, length-format_list t nodes, length-format_nodes nodes)
  length-format (tag_compound nodes) =
      omega (arith, length-append (format_members nodes) (0 ∷ []), length-format_members nodes)

  length-format_nodes :
      (nodes : Nodes) → length (format_nodes nodes) ≡ size_nbt_list nodes + 5 * lists_nodes nodes
  length-format_nodes nil = refl
  length-format_nodes (cons n nodes) = omega (
    arith,
    length-append (format_element n) (format_nodes nodes),
    length-format_element n,
    length-format_nodes nodes,
  )

  length-format_members :
      (nodes : Nodes)
      → length (format_members nodes) ≡ size_nbt_members nodes + 5 * lists_nodes nodes
  length-format_members nil = refl
  length-format_members (cons n nodes) = omega (
    arith,
    length-append (format_node n) (format_members nodes),
    length-format_node n,
    length-format_members nodes,
  )

  length-format_element :
      (n : NbtNode) → length (format_element n) ≡ size_of_element n + 5 * lists_node n
  length-format_element (node name p) = length-format p

  length-format_node : (n : NbtNode) → length (format_node n) ≡ size_nbt n + 5 * lists_node n
  length-format_node (node none p) =
      omega (
        arith,
        length-append (format_string []) (format p),
        length-format_string [],
        length-format p,
      )
  length-format_node (node (some name) p) = omega (
    arith,
    length-append (format_string name) (format p),
    length-format_string name,
    length-format p,
  )

-- The encoding of every tree is five bytes longer than `size_nbt` says for each `tag_list` in it, and
-- as long as it says where there is none.
pub format_node-size_nbt : (n : NbtNode) → length (format_node n) ≡ size_nbt n + 5 * lists_node n
format_node-size_nbt n = length-format_node n

-- Each level of nesting is paid for by a byte of the encoding.
mutual
  unfolding format depth

  depth-le-length : (p : Payload) → depth p ≤ length (format p)
  depth-le-length (tag_byte v) = omega (arith, length-be_bytes 1 v)
  depth-le-length (tag_short v) = omega (arith, length-be_bytes 2 v)
  depth-le-length (tag_int v) = omega (arith, length-be_bytes 4 v)
  depth-le-length (tag_long v) = omega (arith, length-be_bytes 8 v)
  depth-le-length (tag_float v) = omega (arith, length-be_bytes 4 v)
  depth-le-length (tag_double v) = omega (arith, length-be_bytes 8 v)
  depth-le-length (tag_byte_array xs) = omega (arith, length-format_array 1 xs)
  depth-le-length (tag_int_array xs) = omega (arith, length-format_array 4 xs)
  depth-le-length (tag_long_array xs) = omega (arith, length-format_array 8 xs)
  depth-le-length (tag_string s) = omega (arith, length-format_string s)
  depth-le-length (tag_list t nodes) =
      omega (arith, length-format_list t nodes, depth_nodes-le-length nodes)
  depth-le-length (tag_compound nodes) =
      omega (arith, length-append (format_members nodes) (0 ∷ []), depth_members-le-length nodes)

  depth_nodes-le-length : (nodes : Nodes) → depth_nodes nodes ≤ length (format_nodes nodes)
  depth_nodes-le-length nil = omega arith
  depth_nodes-le-length (cons n nodes) = omega (
    arith,
    length-append (format_element n) (format_nodes nodes),
    depth_element-le-length n,
    depth_nodes-le-length nodes,
  )

  depth_members-le-length : (nodes : Nodes) → depth_nodes nodes ≤ length (format_members nodes)
  depth_members-le-length nil = omega arith
  depth_members-le-length (cons n nodes) = omega (
    arith,
    length-append (format_node n) (format_members nodes),
    depth_node-le-length n,
    depth_members-le-length nodes,
  )

  depth_element-le-length : (n : NbtNode) → depth_node n ≤ length (format_element n)
  depth_element-le-length (node name p) = depth-le-length p

  depth_node-le-length : (n : NbtNode) → depth_node n ≤ length (format_node n)
  depth_node-le-length (node name p) =
      omega (arith, length-append (format_string (name_of name)) (format p), depth-le-length p)

pub depth-le-length-format : (p : Payload) → depth p ≤ length (format p)
depth-le-length-format p = depth-le-length p
