-- ===== src/Tests/Trees.antt =====
-- NBT trees and buffers for the walks.
use c_spock_bot.Prelude.{◌+◌, ◌*◌, ◌≡◌, ◌≢◌, refl, arith, [], ◌∷◌, ◌++◌, length, some, none}
use c_spock_bot.Outcome.{ok, fault, stuck}
use c_spock_bot.Numeric.{enc_be32}
use c_spock_bot.Nbt.{
  NbtNode, node, tag_byte, tag_list, tag_compound, nil, cons, size_nbt, walk_nbt, walk_unnamed_nbt,
}
use c_spock_bot.Nbt.Format.{
  format_node, lists_node, count, FitNode, FitMembers, FitNodes, FitElement, Fits,
}
use c_spock_bot.Nbt.Size.{format_node-size_nbt}
use c_spock_bot.Nbt.Walk.Accepts.{walk_nbt-format_node}
use c_spock_bot.Nbt.Walk.Total.{walk_nbt-ne-stuck, walk_nbt_list_overread}

-- A compound with a byte and a list of two bytes.
abbrev tree : NbtNode
tree = node (some []) (
    tag_compound (
      cons (node (some (97 ∷ [])) (tag_byte 5)) (
        cons
          (node (some (98 ∷ []))
            (tag_list 1 (cons (node none (tag_byte 1)) (cons (node none (tag_byte 2)) nil))))
          nil)))

tree-FitNode : FitNode tree
unfolding count FitNode FitMembers FitNodes FitElement Fits
tree-FitNode = (
  omega arith,
  ((omega arith, tt), ((omega arith, (omega arith, ((refl, tt), ((refl, tt), tt)))), tt)),
)

format_node-size_nbt_example : length (format_node tree) ≡ size_nbt tree + 5 * lists_node tree
format_node-size_nbt_example = format_node-size_nbt tree

walk_nbt-format_node_example :
    walk_nbt (format_node tree ++ (255 ∷ [])) 25 ≡ ok (length (format_node tree))
unfolding format_node c_spock_bot.Nbt.Format.format_string c_spock_bot.Numeric.enc_be16 enc_be32
walk_nbt-format_node_example =
    walk_nbt-format_node tree (255 ∷ []) 25 tree-FitNode (omega arith) (omega arith)

walk_nbt-ne-stuck_example : walk_nbt (10 ∷ 0 ∷ 0 ∷ 9 ∷ []) 4 ≢ stuck
walk_nbt-ne-stuck_example = walk_nbt-ne-stuck (10 ∷ 0 ∷ 0 ∷ 9 ∷ []) 4

walk_nbt_list_overread_example : walk_unnamed_nbt 2 9 (8 ∷ enc_be32 1) 5 ≡ fault
walk_nbt_list_overread_example = walk_nbt_list_overread 0 1 (omega arith) (omega arith)
