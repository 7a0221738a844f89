-- ===== src/MessageManipulator.antt =====
-- common/MessageManipulator/message.{h,c}: what the parser of message definitions builds, a message with
-- a binary tree of variables for each of its parts. A block of the heap is known by its address.
pub mod Lookup
pub mod Memory
use vn_sdm.Common.{
  ℕ, ◌==◌, ltb, if◌then◌else◌, Bool, true, false, List, [], ◌∷◌, ◌++◌, Option, none, some,
}

-- A `char*`: its block and its bytes before the terminator, as unsigned chars.
pub record Str : Type 0 where
  pub addr : ℕ
  pub text : List ℕ

-- The sign of the result of `strcmp`.
pub data Sign : Type 0 where
  negative : Sign
  zero_sign : Sign
  positive : Sign

-- `strcmp`
unfoldable pub strcmp : List ℕ → List ℕ → Sign
strcmp [] [] = zero_sign
strcmp [] (b ∷ l) = negative
strcmp (a ∷ k) [] = positive
strcmp (a ∷ k) (b ∷ l) =
    let rest = strcmp k l in if a == b then rest else if ltb a b then negative else positive

-- enum value_type
pub data ValueType : Type 0 where
  empty_value : ValueType
  uint08 : ValueType
  int08 : ValueType
  uint16 : ValueType
  int16 : ValueType
  uint32 : ValueType
  int32 : ValueType
  float32 : ValueType
  float64 : ValueType

-- struct variable, without its subtrees, its invalid value and its scale factor.
pub record Var : Type 0 where
  pub addr : ℕ
  pub name : Str
  pub start : ℕ
  pub length : ℕ
  pub type : ValueType

-- A `var*` as a tree.
pub data VarTree : Type 0 where
  null : VarTree
  node : Var → VarTree → VarTree → VarTree

-- `find`
unfoldable pub find_var : List ℕ → VarTree → Option Var
find_var name null = none
find_var name (node root left right) =
    let in_left = find_var name left in
    let in_right = find_var name right in
    elim (strcmp name root.name.text) [
      | zero_sign ↦ some root
      | negative ↦ in_left
      | positive ↦ in_right
    ]

-- `addVar`, of a variable that has no subtrees.
unfoldable pub add_var : VarTree → Var → VarTree
add_var null new_var = node new_var null null
add_var (node root left right) new_var =
    let left' = add_var left new_var in
    let right' = add_var right new_var in
    elim (strcmp new_var.name.text root.name.text) [
      | negative ↦ node root left' right
      | zero_sign ↦ node root left right'
      | positive ↦ node root left right'
    ]

-- The tests of `newVar`, in order; of a name that it does not know, `memset` leaves `_EMPTY`.
unfoldable pub type_of_name : List ℕ → ValueType
type_of_name s =
    if same s (b'U' ∷ b'I' ∷ b'N' ∷ b'T' ∷ b'0' ∷ b'8' ∷ [])
    then uint08
    else if same s (b'I' ∷ b'N' ∷ b'T' ∷ b'0' ∷ b'8' ∷ [])
    then int08
    else if same s (b'U' ∷ b'I' ∷ b'N' ∷ b'T' ∷ b'1' ∷ b'6' ∷ [])
    then uint16
    else if same s (b'I' ∷ b'N' ∷ b'T' ∷ b'1' ∷ b'6' ∷ [])
    then int16
    else if same s (b'U' ∷ b'I' ∷ b'N' ∷ b'T' ∷ b'3' ∷ b'2' ∷ [])
    then uint32
    else if same s (b'I' ∷ b'N' ∷ b'T' ∷ b'3' ∷ b'2' ∷ [])
    then int32
    else if same s (b'F' ∷ b'L' ∷ b'O' ∷ b'A' ∷ b'T' ∷ b'3' ∷ b'2' ∷ [])
    then float32
    else if same s (b'F' ∷ b'L' ∷ b'O' ∷ b'A' ∷ b'T' ∷ b'6' ∷ b'4' ∷ [])
    then float64
    else empty_value
  where
    same : List ℕ → List ℕ → Bool
    same a b = elim (strcmp a b) [ zero_sign ↦ true | negative ↦ false | positive ↦ false ]

-- enum msg_type
pub data MsgType : Type 0 where
  command_msg : MsgType
  data_msg : MsgType
  fault_msg : MsgType

-- struct node_data
pub record NodeData : Type 0 where
  pub addr : ℕ
  pub name : Option Str
  pub type : MsgType
  pub length : ℕ
  pub id : ℕ
  pub list : VarTree

-- enum wrapper_type
pub data WrapperType : Type 0 where
  empty : WrapperType
  command : WrapperType
  notification : WrapperType
  request : WrapperType

-- struct msg_s
pub record Msg : Type 0 where
  pub type : WrapperType
  pub command_node : Option NodeData
  pub data_node : Option NodeData
  pub fault_node : Option NodeData

-- `deleteVarTree`: the addresses that it frees, in order. (No subtree is its own root.)
unfoldable pub delete_var_tree : VarTree → List ℕ
delete_var_tree null = []
delete_var_tree (node p left right) =
    p.name.addr ∷ (delete_var_tree left ++ (delete_var_tree right ++ (p.addr ∷ [])))

-- What `deleteMessage` does with each of the three nodes.
unfoldable pub delete_node : Option NodeData → List ℕ
unfolding delete_var_tree
delete_node none = []
delete_node (some n) = elim n.name [
  | none ↦ delete_var_tree n.list ++ (n.addr ∷ [])
  | some s ↦ s.addr ∷ (delete_var_tree n.list ++ (n.addr ∷ []))
]

-- `deleteMessage`: the message without its nodes, and the addresses that are freed.
unfoldable pub delete_message : Msg → Msg × List ℕ
unfolding delete_node
delete_message m = (
  record m { command_node = none; data_node = none; fault_node = none },
  delete_node m.command_node ++ (delete_node m.data_node ++ delete_node m.fault_node),
)

-- `setMessage`, of the global `Message`.
unfoldable pub set_message :
    Msg → Option NodeData → Option NodeData → Option NodeData → Msg × List ℕ
set_message m c d f =
    let (m', freed) = delete_message m in
    (record m' { command_node = c; data_node = d; fault_node = f; type = wrapper }, freed)
  where
    wrapper : WrapperType
    wrapper = elim d [ none ↦ command | some x ↦ elim c [ none ↦ notification | some y ↦ request ] ]
