-- ===== src/Nbt/Walk/Cases.antt =====
-- What the walk of src/datautils.c does with each kind of payload that the wire format writes.
use c_spock_bot.Prelude.{ℕ, suc, ◌+◌, ◌-◌, ◌^◌, ◌≤◌, ◌<◌, ◌≡◌, refl, ap, ◌∙◌}
use c_spock_bot.Prelude.{◌≢◌, arith, Option}
use c_spock_bot.Prelude.{List, [], ◌∷◌, ◌++◌, length, length-append, append_assoc}
use c_spock_bot.Outcome.{ok}
use c_spock_bot.Numeric.{be_bytes, enc_be32}
use c_spock_bot.Numeric.RoundTrip.{length-be_bytes}
use c_spock_bot.Nbt.{
  NbtNode, node, Payload, tag_byte, tag_short, tag_int, tag_long, tag_float, tag_double,
  tag_byte_array, tag_int_array, tag_long_array, tag_string, tag_list, tag_compound, Nodes, nil,
  cons, tag, Walker, walk_nbt_array, walk_list_loop, walk_compound_loop, walk_payload,
  walk_unnamed_nbt,
}
use c_spock_bot.Nbt.Format.{
  name_of, count, format_string, format_array, format, format_nodes, format_members, format_node,
  depth, depth_node,
}
use c_spock_bot.Nbt.Size.{length-format_string, length-format_list}
use c_spock_bot.Nbt.Walk.Steps.{
  to_int-small, walk_nbt_string-format, walk_nbt_array-format, walk_unnamed_nbt-ok,
  walk_nbt_list-loop, walk_compound_loop-step,
}

tag-ne-zero : (p : Payload) → tag p ≢ 0
tag-ne-zero (tag_byte v) = omega arith
tag-ne-zero (tag_short v) = omega arith
tag-ne-zero (tag_int v) = omega arith
tag-ne-zero (tag_long v) = omega arith
tag-ne-zero (tag_float v) = omega arith
tag-ne-zero (tag_double v) = omega arith
tag-ne-zero (tag_byte_array xs) = omega arith
tag-ne-zero (tag_int_array xs) = omega arith
tag-ne-zero (tag_long_array xs) = omega arith
tag-ne-zero (tag_string s) = omega arith
tag-ne-zero (tag_list t nodes) = omega arith
tag-ne-zero (tag_compound nodes) = omega arith

pub count-le-length : (nodes : Nodes) → count nodes ≤ length (format_members nodes)
unfolding count format_members
count-le-length nil = omega arith
count-le-length (cons (node name p) nodes) = omega (
  arith,
  length-append (format_string (name_of name) ++ format p) (format_members nodes),
  count-le-length nodes,
)

pub leaf :
    (d t width v m : ℕ) (rest : List ℕ)
    → walk_payload (walk_unnamed_nbt d) t (be_bytes width v ++ rest) m ≡ ok width
    → length (be_bytes width v) ≤ m
    → walk_unnamed_nbt (suc d) t (be_bytes width v ++ rest) m ≡ ok (length (be_bytes width v))
leaf d t width v m rest e room =
    rw (length-be_bytes width v)
      (walk_unnamed_nbt-ok d t _ m width e (omega (arith, length-be_bytes width v)))

depth_pos : (p : Payload) → 1 ≤ depth p
unfolding depth
depth_pos (tag_byte v) = omega arith
depth_pos (tag_short v) = omega arith
depth_pos (tag_int v) = omega arith
depth_pos (tag_long v) = omega arith
depth_pos (tag_float v) = omega arith
depth_pos (tag_double v) = omega arith
depth_pos (tag_byte_array xs) = omega arith
depth_pos (tag_int_array xs) = omega arith
depth_pos (tag_long_array xs) = omega arith
depth_pos (tag_string s) = omega arith
depth_pos (tag_list t nodes) = omega arith
depth_pos (tag_compound nodes) = omega arith

pub depth_node_pos : (n : NbtNode) → 1 ≤ depth_node n
unfolding depth
depth_node_pos (node name p) = depth_pos p

pub array :
    (d t w : ℕ) (xs rest : List ℕ) (m : ℕ)
    → walk_payload (walk_unnamed_nbt d) t (format_array w xs ++ rest) m
      ≡ walk_nbt_array (format_array w xs ++ rest) m w
    → length xs < 2 ^ 31
    → length (format_array w xs) ≤ m
    → m < 2 ^ 31
    → walk_unnamed_nbt (suc d) t (format_array w xs ++ rest) m ≡ ok (length (format_array w xs))
array d t w xs rest m e f room small =
    walk_unnamed_nbt-ok d t _ m _ (e ∙ walk_nbt_array-format w xs rest m f room small) room

pub string :
    (d : ℕ) (s rest : List ℕ) (m : ℕ)
    → length s < 2 ^ 16
    → length (format_string s) ≤ m
    → walk_unnamed_nbt (suc d) 8 (format_string s ++ rest) m ≡ ok (length (format_string s))
unfolding walk_payload
string d s rest m f room =
    walk_unnamed_nbt-ok d 8 _ m _
      (rw (length-format_string s)
        (walk_nbt_string-format s rest m f (omega (arith, length-format_string s))))
      room

pub list :
    (d t : ℕ) (nodes : Nodes) (rest : List ℕ) (m : ℕ)
    → walk_list_loop (walk_unnamed_nbt d t) (count nodes) (format_nodes nodes ++ rest) m 5
      ≡ ok (5 + length (format_nodes nodes))
    → count nodes < 2 ^ 31
    → length (format (tag_list t nodes)) ≤ m
    → walk_unnamed_nbt (suc d) 9 (format (tag_list t nodes) ++ rest) m
      ≡ ok (length (format (tag_list t nodes)))
list d t nodes rest m e f room =
    walk_unnamed_nbt-ok d 9 _ m _
      (rw (length-format_list t nodes) (
        unfold walk_payload format in
        rw (append_assoc (enc_be32 (count nodes)) (format_nodes nodes) rest) (
          walk_nbt_list-loop (walk_unnamed_nbt d) t (count nodes) (format_nodes nodes ++ rest) m f
            (omega (arith, length-format_list t nodes))
          ∙ e)))
      room

pub length-format_compound :
    (nodes : Nodes) → length (format (tag_compound nodes)) ≡ length (format_members nodes) + 1
unfolding format
length-format_compound nodes = length-append (format_members nodes) (0 ∷ [])

pub compound :
    (d : ℕ) (nodes : Nodes) (rest : List ℕ) (m : ℕ)
    → walk_compound_loop
        (walk_unnamed_nbt d)
        (suc (length (format_members nodes ++ (0 ∷ rest))))
        (format_members nodes ++ (0 ∷ rest))
        m
        0
      ≡ ok (0 + length (format_members nodes) + 1)
    → length (format (tag_compound nodes)) ≤ m
    → walk_unnamed_nbt (suc d) 10 (format (tag_compound nodes) ++ rest) m
      ≡ ok (length (format (tag_compound nodes)))
compound d nodes rest m e room =
    walk_unnamed_nbt-ok d 10 _ m _
      (rw (length-format_compound nodes) (
        unfold walk_payload format in
        rw (append_assoc (format_members nodes) (0 ∷ []) rest) (e ∙ ap ok (omega arith))))
      room

pub length-format_node :
    (name : Option (List ℕ)) (p : Payload)
    → length (format_node (node name p)) ≡ 3 + length (name_of name) + length (format p)
unfolding format
length-format_node name p = omega (
  arith,
  length-append (format_string (name_of name)) (format p),
  length-format_string (name_of name),
)

pub member :
    (walk : ℕ → Walker) (fuel : ℕ) (name : Option (List ℕ)) (p : Payload) (members rest : List ℕ)
    (m total : ℕ)
    → length (name_of name) < 2 ^ 16
    → ((l : ℕ)
        → length (format p) ≤ l
        → l < 2 ^ 31
        → walk (tag p) (format p ++ (members ++ rest)) l ≡ ok (length (format p)))
    → length (format_node (node name p)) ≤ m
    → m < 2 ^ 31
    → walk_compound_loop walk (suc fuel) ((format_node (node name p) ++ members) ++ rest) m total
      ≡ walk_compound_loop walk fuel
          (members ++ rest)
          (m - length (format_node (node name p)))
          (total + length (format_node (node name p)))
member walk fuel name p members rest m total h e room small = rw (length-format_node name p) (
    unfold format in
    simp append_assoc (
      walk_compound_loop-step walk fuel (tag p) (name_of name) (format p) (members ++ rest) m total
        (tag-ne-zero p) h e (omega (arith, length-format_node name p)) small))

pub walk_fixed :
    (d : ℕ) (source : List ℕ) (m : ℕ)
    → let walk = λ (t : ℕ). walk_payload (walk_unnamed_nbt d) t source m in
      (walk 1 ≡ ok 1)
      × (walk 2 ≡ ok 2)
      × (walk 3 ≡ ok 4)
      × (walk 4 ≡ ok 8)
      × (walk 5 ≡ ok 4)
      × (walk 6 ≡ ok 8)
unfolding walk_payload
walk_fixed d source m = (refl, refl, refl, refl, refl, refl)

pub walk_array :
    (d : ℕ) (source : List ℕ) (m : ℕ)
    → let walk = λ (t : ℕ). walk_payload (walk_unnamed_nbt d) t source m in
      (walk 7 ≡ walk_nbt_array source m 1)
      × (walk 11 ≡ walk_nbt_array source m 4)
      × (walk 12 ≡ walk_nbt_array source m 8)
unfolding walk_payload
walk_array d source m = (refl, refl, refl)

pub list-end :
    (walk : Walker) (rest : List ℕ) (m size : ℕ)
    → size + 0 < 2 ^ 31
    → walk_list_loop walk 0 rest m size ≡ ok (size + 0)
unfolding walk_list_loop
list-end walk rest m size h = rw (to_int-small size (omega arith)) (ap ok (omega arith))
