-- ===== src/MessageManipulator/Memory.antt =====
-- What a message owns, and that `deleteMessage` and `setMessage` free it, once.
use vn_sdm.Common.{ℕ, ◌+◌, ◌≡◌, refl, arith, [], ◌∷◌, Option, none, some}
use vn_sdm.Xteds.Ownership.{count, count-append, at}
use vn_sdm.MessageManipulator.{
  Str, Var, VarTree, null, node, NodeData, Msg, delete_var_tree, delete_node, delete_message,
  set_message, add_var,
}

-- How often a block stands among the blocks that a value owns.
module _ (p : ℕ) where
  abbrev pub in_tree : VarTree → ℕ
  in_tree null = 0
  in_tree (node v left right) = at p v.addr + at p v.name.addr + in_tree left + in_tree right

  abbrev pub in_name : Option Str → ℕ
  in_name none = 0
  in_name (some s) = at p s.addr

  abbrev pub in_node : Option NodeData → ℕ
  in_node none = 0
  in_node (some n) = at p n.addr + in_name n.name + in_tree n.list

  abbrev pub in_msg : Msg → ℕ
  in_msg m = in_node m.command_node + in_node m.data_node + in_node m.fault_node

  delete_var_tree_lem : (t : VarTree) → count p (delete_var_tree t) ≡ in_tree t
  unfolding delete_var_tree
  delete_var_tree_lem null = refl
  delete_var_tree_lem (node v left right) =
      simp count-append (omega (arith, delete_var_tree_lem left, delete_var_tree_lem right))

  delete_node_lem : (n : Option NodeData) → count p (delete_node n) ≡ in_node n
  unfolding delete_node
  delete_node_lem none = refl
  delete_node_lem (some n) =
      ground
        (arith, delete_var_tree_lem n.list, count-append p (delete_var_tree n.list) (n.addr ∷ []))

  -- `addVar` links the new variable into the tree: the tree owns what it owned, and the variable.
  pub add_var_owns :
      (t : VarTree) (v : Var) → in_tree (add_var t v) ≡ in_tree t + at p v.addr + at p v.name.addr
  unfolding add_var
  add_var_owns null v = omega arith
  add_var_owns (node root left right) v = ground (arith, add_var_owns left v, add_var_owns right v)

  -- `setMessage` frees every block of the former message as often as the message owned it, and no
  -- other; the message then owns the blocks of the three new nodes.
  pub set_message_lem :
      (m : Msg) (c d f : Option NodeData)
      → let (m', freed) = set_message m c d f in
        (count p freed ≡ in_msg m) × (in_msg m' ≡ in_node c + in_node d + in_node f)
  unfolding set_message delete_message
  set_message_lem m c d f = (
    simp count-append (
        omega (
          arith,
          delete_node_lem m.command_node,
          delete_node_lem m.data_node,
          delete_node_lem m.fault_node,
        )),
    refl,
  )
