-- ===== src/Nbt/Format.antt =====
-- The wire format of NBT, as Minecraft defines it, for the trees of `Nbt`.
use c_spock_bot.Prelude.{ℕ, suc, ◌+◌, ◌^◌, ◌<◌, ◌≡◌, max, List, [], ◌∷◌, ◌++◌, length}
use c_spock_bot.Prelude.{Option, none, some}
use c_spock_bot.Numeric.{be_bytes, enc_be16, enc_be32}
use c_spock_bot.Nbt.{
  NbtNode, node, Payload, tag_byte, tag_short, tag_int, tag_long, tag_float, tag_double,
  tag_byte_array, tag_int_array, tag_long_array, tag_string, tag_list, tag_compound, Nodes, nil,
  cons, tag,
}

abbrev pub name_of : Option (List ℕ) → List ℕ
name_of none = []
name_of (some name) = name

unfoldable pub format_string : List ℕ → List ℕ
format_string s = enc_be16 (length s) ++ s

unfoldable pub format_elements : ℕ → List ℕ → List ℕ
format_elements width [] = []
format_elements width (x ∷ xs) = be_bytes width x ++ format_elements width xs

unfoldable pub format_array : ℕ → List ℕ → List ℕ
format_array width xs = enc_be32 (length xs) ++ format_elements width xs

unfoldable pub count : Nodes → ℕ
count nil = 0
count (cons n nodes) = suc (count nodes)

unfoldable mutual
  pub format : Payload → List ℕ
  format (tag_byte v) = be_bytes 1 v
  format (tag_short v) = be_bytes 2 v
  format (tag_int v) = be_bytes 4 v
  format (tag_long v) = be_bytes 8 v
  format (tag_float v) = be_bytes 4 v
  format (tag_double v) = be_bytes 8 v
  format (tag_byte_array xs) = format_array 1 xs
  format (tag_int_array xs) = format_array 4 xs
  format (tag_long_array xs) = format_array 8 xs
  format (tag_string s) = format_string s
  format (tag_list t nodes) = t ∷ (enc_be32 (count nodes) ++ format_nodes nodes)
  format (tag_compound nodes) = format_members nodes ++ (0 ∷ [])

  pub format_nodes : Nodes → List ℕ
  format_nodes nil = []
  format_nodes (cons n nodes) = format_element n ++ format_nodes nodes

  pub format_members : Nodes → List ℕ
  format_members nil = []
  format_members (cons n nodes) = format_node n ++ format_members nodes

  pub format_element : NbtNode → List ℕ
  format_element (node name p) = format p

  pub format_node : NbtNode → List ℕ
  format_node (node name p) = tag p ∷ (format_string (name_of name) ++ format p)

-- The number of `tag_list` nodes.
unfoldable mutual
  pub lists : Payload → ℕ
  lists (tag_list t nodes) = suc (lists_nodes nodes)
  lists (tag_compound nodes) = lists_nodes nodes
  lists (tag_byte v) = 0
  lists _ = 0

  pub lists_nodes : Nodes → ℕ
  lists_nodes nil = 0
  lists_nodes (cons n nodes) = lists_node n + lists_nodes nodes

  pub lists_node : NbtNode → ℕ
  lists_node (node name p) = lists p

-- How deep the nodes are nested.
unfoldable mutual
  pub depth : Payload → ℕ
  depth (tag_list t nodes) = suc (depth_nodes nodes)
  depth (tag_compound nodes) = suc (depth_nodes nodes)
  depth (tag_byte v) = 1
  depth _ = 1

  pub depth_nodes : Nodes → ℕ
  depth_nodes nil = 0
  depth_nodes (cons n nodes) = max (depth_node n) (depth_nodes nodes)

  pub depth_node : NbtNode → ℕ
  depth_node (node name p) = depth p

-- What the lengths and types of the format can express.
unfoldable mutual
  pub Fits : Payload → Type 0
  Fits (tag_byte_array xs) = length xs < 2 ^ 31
  Fits (tag_int_array xs) = length xs < 2 ^ 31
  Fits (tag_long_array xs) = length xs < 2 ^ 31
  Fits (tag_string s) = length s < 2 ^ 16
  Fits (tag_list t nodes) = (count nodes < 2 ^ 31) × FitNodes t nodes
  Fits (tag_compound nodes) = FitMembers nodes
  Fits (tag_byte v) = Unit {0}
  Fits _ = Unit {0}

  pub FitNodes : ℕ → Nodes → Type 0
  FitNodes t nil = Unit {0}
  FitNodes t (cons n nodes) = FitElement t n × FitNodes t nodes

  pub FitMembers : Nodes → Type 0
  FitMembers nil = Unit {0}
  FitMembers (cons n nodes) = FitNode n × FitMembers nodes

  pub FitElement : ℕ → NbtNode → Type 0
  FitElement t (node name p) = (tag p ≡ t) × Fits p

  pub FitNode : NbtNode → Type 0
  FitNode (node name p) = (length (name_of name) < 2 ^ 16) × Fits p
