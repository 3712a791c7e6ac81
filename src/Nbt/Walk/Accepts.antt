-- ===== src/Nbt/Walk/Accepts.antt =====
-- `walk_nbt` on a tree in the wire format.
use c_spock_bot.Prelude.{ℕ, zero, suc, ◌+◌, ◌-◌, ◌^◌, ◌≤◌, ◌<◌, ◌≡◌, ap, ◌∙◌}
use c_spock_bot.Prelude.{arith, sub_size}
use c_spock_bot.Prelude.{List, ◌∷◌, ◌++◌, length, length-append, drop-append, append_assoc}
use c_spock_bot.Outcome.{ok}
use c_spock_bot.Numeric.{dec_byte}
use c_spock_bot.Nbt.{
  NbtNode, node, Payload, tag_byte, tag_short, tag_int, tag_long, tag_float, tag_double,
  tag_byte_array, tag_int_array, tag_long_array, tag_string, tag_list, tag_compound, Nodes, nil,
  cons, tag, walk_list_loop, walk_compound_loop, walk_unnamed_nbt, walk_nbt,
}
use c_spock_bot.Nbt.Format.{
  name_of, count, format_string, format, format_nodes, format_members, format_element, format_node,
  depth, depth_nodes, depth_node, Fits, FitNodes, FitMembers, FitElement, FitNode,
}
use c_spock_bot.Nbt.Size.{length-format_string, length-format_list, depth-le-length-format}
use c_spock_bot.Nbt.Walk.Steps.{walk_nbt_string-format, walk_list_loop-step, walk_compound_loop-end}
use c_spock_bot.Nbt.Walk.Cases.{
  count-le-length, leaf, depth_node_pos, array, string, list, length-format_compound, compound,
  length-format_node, member, walk_fixed, walk_array, list-end,
}

mutual
  unfolding format depth Fits count

  walk-format :
      (p : Payload) (d : ℕ) (rest : List ℕ) (m : ℕ)
      → Fits p
      → depth p ≤ suc d
      → length (format p) ≤ m
      → m < 2 ^ 31
      → walk_unnamed_nbt (suc d) (tag p) (format p ++ rest) m ≡ ok (length (format p))
  walk-format (tag_byte v) d rest m f hd room small = leaf d 1 1 v m rest (walk_fixed d _ m).0 room
  walk-format (tag_short v) d rest m f hd room small = leaf d 2 2 v m rest (walk_fixed d _ m).1 room
  walk-format (tag_int v) d rest m f hd room small = leaf d 3 4 v m rest (walk_fixed d _ m).2 room
  walk-format (tag_long v) d rest m f hd room small = leaf d 4 8 v m rest (walk_fixed d _ m).3 room
  walk-format (tag_float v) d rest m f hd room small = leaf d 5 4 v m rest (walk_fixed d _ m).4 room
  walk-format (tag_double v) d rest m f hd room small =
      leaf d 6 8 v m rest (walk_fixed d _ m).5 room
  walk-format (tag_byte_array xs) d rest m f hd room small =
      array d 7 1 xs rest m (walk_array d _ m).0 f room small
  walk-format (tag_int_array xs) d rest m f hd room small =
      array d 11 4 xs rest m (walk_array d _ m).1 f room small
  walk-format (tag_long_array xs) d rest m f hd room small =
      array d 12 8 xs rest m (walk_array d _ m).2 f room small
  walk-format (tag_string s) d rest m f hd room small = string d s rest m f room
  walk-format (tag_list t nodes) d rest m f hd room small =
      list d t nodes rest m
        (walk-format_nodes nodes d t rest m 5 f.1 (omega arith)
          (omega (arith, length-format_list t nodes)) small
          (omega (arith, length-format_list t nodes)))
        f.0 room
  walk-format (tag_compound nodes) d rest m f hd room small =
      compound d nodes rest m
        (walk-format_members nodes d (length (format_members nodes ++ (0 ∷ rest))) rest m 0 f
          (omega arith)
          (omega (arith, count-le-length nodes, length-append (format_members nodes) (0 ∷ rest)))
          (omega (arith, length-format_compound nodes)) small
          (omega (arith, length-format_compound nodes)))
        room

  walk-format_element :
      (n : NbtNode) (d t : ℕ) (rest : List ℕ) (m : ℕ)
      → FitElement t n
      → depth_node n ≤ suc d
      → length (format_element n) ≤ m
      → m < 2 ^ 31
      → walk_unnamed_nbt (suc d) t (format_element n ++ rest) m ≡ ok (length (format_element n))
  walk-format_element (node name p) d t rest m f hd room small =
      rw (← f.0) (walk-format p d rest m f.1 hd room small)

  walk-format_nodes :
      (nodes : Nodes) (d t : ℕ) (rest : List ℕ) (m size : ℕ)
      → FitNodes t nodes
      → depth_nodes nodes ≤ d
      → length (format_nodes nodes) ≤ m
      → m < 2 ^ 31
      → size + length (format_nodes nodes) < 2 ^ 31
      → walk_list_loop (walk_unnamed_nbt d t) (count nodes) (format_nodes nodes ++ rest) m size
        ≡ ok (size + length (format_nodes nodes))
  walk-format_nodes nil d t rest m size f hd room small total =
      list-end (walk_unnamed_nbt d t) rest m size (omega arith)
  walk-format_nodes (cons n nodes) zero t rest m size f hd room small total =
      absurd (omega (arith, depth_node_pos n))
  walk-format_nodes (cons n nodes) (suc d) t rest m size f hd room small total =
      let lengths : length (format_element n ++ format_nodes nodes)
          ≡ length (format_element n) + length (format_nodes nodes) =
        length-append (format_element n) (format_nodes nodes) in
      rw (append_assoc (format_element n) (format_nodes nodes) rest, lengths)
        (walk_list_loop-step (walk_unnamed_nbt (suc d) t) (count nodes) (format_element n)
            (format_nodes nodes ++ rest) m size
            (walk-format_element n d t (format_nodes nodes ++ rest) m f.0 (omega arith)
              (omega arith) small)
            (omega arith) small
          ∙ walk-format_nodes nodes (suc d) t rest (m - length (format_element n))
              (size + length (format_element n)) f.1 (omega arith) (omega arith) (omega arith)
              (omega arith)
          ∙ ap ok (omega arith))

  walk-format_members :
      (nodes : Nodes) (d fuel : ℕ) (rest : List ℕ) (m total : ℕ)
      → FitMembers nodes
      → depth_nodes nodes ≤ d
      → count nodes ≤ fuel
      → length (format_members nodes) + 1 ≤ m
      → m < 2 ^ 31
      → total + length (format_members nodes) + 1 < 2 ^ 31
      → walk_compound_loop
          (walk_unnamed_nbt d)
          (suc fuel)
          (format_members nodes ++ (0 ∷ rest))
          m
          total
        ≡ ok (total + length (format_members nodes) + 1)
  walk-format_members nil d fuel rest m total f hd hf room small tot =
      walk_compound_loop-end (walk_unnamed_nbt d) fuel rest m total (omega arith) (omega arith)
      ∙ ap ok (omega arith)
  walk-format_members (cons n nodes) d zero rest m total f hd hf room small tot =
      absurd (omega arith)
  walk-format_members (cons n nodes) zero (suc fuel) rest m total f hd hf room small tot =
      absurd (omega (arith, depth_node_pos n))
  walk-format_members (cons (node name p) nodes) (suc d) (suc fuel) rest m total f hd hf room small
        tot =
      let size : ℕ = length (format_node (node name p)) in
      let lengths : length (format_node (node name p) ++ format_members nodes)
          ≡ length (format_node (node name p)) + length (format_members nodes) =
        length-append (format_node (node name p)) (format_members nodes) in
      member (walk_unnamed_nbt (suc d)) (suc fuel) name p (format_members nodes) (0 ∷ rest) m total
        f.0.0
        (λ l lo hi.
          walk-format p d (format_members nodes ++ (0 ∷ rest)) l f.0.1 (omega arith) lo hi)
        (omega arith) small
      ∙ walk-format_members nodes (suc d) fuel rest (m - size) (total + size) f.1 (omega arith)
          (omega arith) (omega arith) (omega arith) (omega arith)
      ∙ ap ok (omega arith)

-- On a buffer of fewer than `2 ^ 31` bytes that begins with a tree in the wire format `walk_nbt`
-- returns the length of that encoding, if `max_len` allows it. The names and strings of the tree are
-- shorter than `2 ^ 16` bytes, its arrays and lists than `2 ^ 31`, and the elements of a list have
-- the type of the list.
pub walk_nbt-format_node :
    (n : NbtNode) (rest : List ℕ) (max_len : ℕ)
    → FitNode n
    → length (format_node n) ≤ max_len
    → max_len < 2 ^ 31
    → walk_nbt (format_node n ++ rest) max_len ≡ ok (length (format_node n))
unfolding walk_nbt dec_byte format Fits
walk_nbt-format_node (node name p) rest m f room small =
    let str : List ℕ = name_of name in
    let left : ℕ = sub_size (sub_size m 1) (2 + length str) in
    let lengths : 3 + length str + length (format p) ≤ m =
      omega (arith, length-format_node name p) in
    ground (
      arith,
      append_assoc (format_string str) (format p) rest,
      walk_nbt_string-format str (format p ++ rest) (sub_size m 1),
      length-format_string str,
      length-append (format_string str) (format p),
      length-append (format p) rest,
      drop-append (format_string str) (format p ++ rest),
      depth-le-length-format p,
      walk-format p (length (format p ++ rest)) rest left f.1,
    )
