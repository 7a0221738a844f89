-- ===== src/Tests/Definitions.antt =====
-- Runs of common/MessageManipulator/message.c.
use vn_sdm.Common.{ℕ, ◌+◌, ◌≡◌, refl, List, [], ◌∷◌, Option, none, some}
use vn_sdm.Xteds.Ownership.{count}
use vn_sdm.MessageManipulator.{
  Var, null, find_var, add_var, strcmp, uint08, float32, NodeData, data_msg, Msg, notification,
  set_message, type_of_name,
}
use vn_sdm.MessageManipulator.Lookup.{first_named, add_all, find_var_lem}
use vn_sdm.MessageManipulator.Memory.{in_node, in_msg, set_message_lem}

abbrev variable : ℕ → List ℕ → Var
variable a s = record {
  addr = a;
  name = record { addr = a + 1; text = s };
  start = 0;
  length = 1;
  type = uint08;
}

-- Two variables with the name "b" around one with the name "a".
abbrev variables : List Var
variables = variable 10 (b'b' ∷ []) ∷ variable 20 (b'a' ∷ []) ∷ variable 30 (b'b' ∷ []) ∷ []

find_var_lem_example :
    find_var (b'b' ∷ []) (add_all null variables) ≡ first_named (b'b' ∷ []) variables
find_var_lem_example = find_var_lem (b'b' ∷ []) variables

first_b : find_var (b'b' ∷ []) (add_all null variables) ≡ some (variable 10 (b'b' ∷ []))
unfolding find_var add_var strcmp
first_b = refl

abbrev data_node : Option NodeData
data_node = some (record {
  addr = 1;
  name = some (record { addr = 2; text = b'd' ∷ [] });
  type = data_msg;
  length = 3;
  id = 0x102;
  list = add_all null variables;
})

abbrev defined : Msg
defined = record {
  type = notification;
  command_node = none;
  data_node = data_node;
  fault_node = none;
}

set_message_lem_example :
    let (m', freed) = set_message defined none none data_node in
    (count 21 freed ≡ in_msg 21 defined)
    × (in_msg 21 m' ≡ in_node 21 none + in_node 21 none + in_node 21 data_node)
set_message_lem_example = set_message_lem 21 defined none none data_node

float_name : type_of_name (b'F' ∷ b'L' ∷ b'O' ∷ b'A' ∷ b'T' ∷ b'3' ∷ b'2' ∷ []) ≡ float32
unfolding type_of_name strcmp
float_name = refl
