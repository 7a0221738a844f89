-- ===== src/Xteds/Single.antt =====
-- What the merges of the single messages and of interfaces keep, free and lose.
use vn_sdm.Common.{ℕ, ◌+◌, ◌≡◌, arith, List, [], ◌∷◌, Option, none, some}
use vn_sdm.Xteds.Structures.{FaultMsg, DataMsg, CmdMsg, Interface}
use vn_sdm.Xteds.Assemble.{merge_fault_msg, merge_data_msg, merge_cmd_msg, merge_interface}
use vn_sdm.Xteds.Ownership.{count, count-append, in_str}
use vn_sdm.Xteds.Released.{in_fault_msg, in_data_msgs, in_cmd_msgs, in_interfaces}
use vn_sdm.Xteds.Assembled.{
  lost_var_refs, kept-lost_var_refs, lost_qualifiers, kept-lost_qualifiers, lost_variables,
  kept-lost_variables, lost_commands, kept-lost_commands, lost_notifications,
  kept-lost_notifications, lost_requests, kept-lost_requests,
}
use vn_sdm.Xteds.Lost.{kept-dropped}

module _ (p : ℕ) where
  abbrev pub lost_fault_msg : Option FaultMsg → Option FaultMsg → ℕ
  lost_fault_msg none b = 0
  lost_fault_msg (some a) none = 0
  lost_fault_msg (some a) (some b) =
      in_str p b.interface_name
      + in_str p b.interface_id
      + lost_var_refs p a.variables b.variables
      + lost_qualifiers p a.qualifiers b.qualifiers

  pub merge_fault_msg_lem :
      (a b : Option FaultMsg)
      → in_fault_msg p (merge_fault_msg a b).0
          + count p (merge_fault_msg a b).1
          + lost_fault_msg a b
        ≡ in_fault_msg p a + in_fault_msg p b
  unfolding merge_fault_msg
  merge_fault_msg_lem none b = omega arith
  merge_fault_msg_lem (some a) none = omega arith
  merge_fault_msg_lem (some a) (some b) = simp count-append (
      omega (
        arith,
        kept-dropped p a.name b.name,
        kept-dropped p a.id b.id,
        kept-dropped p a.description b.description,
        kept-lost_var_refs p a.variables b.variables,
        kept-lost_qualifiers p a.qualifiers b.qualifiers,
      ))

  abbrev pub lost_data_msgs : List DataMsg → List DataMsg → ℕ
  lost_data_msgs [] b = 0
  lost_data_msgs (a ∷ l) [] = 0
  lost_data_msgs (a ∷ l) (b ∷ bs) =
      in_str p b.interface_name
      + in_str p b.interface_id
      + lost_qualifiers p a.qualifiers b.qualifiers
      + lost_var_refs p a.variables b.variables
      + in_data_msgs p bs

  -- Two lists of data messages, as `merge_data_msg` merges them: every block that they own is kept or
  -- freed, but for what `lost_data_msgs` counts: behind the second list's first message, and of that, its
  -- interface name and number, and its variables and qualifiers where the first message has some.
  pub merge_data_msg_lem :
      (a b : List DataMsg)
      → in_data_msgs p (merge_data_msg a b).0 + count p (merge_data_msg a b).1 + lost_data_msgs a b
        ≡ in_data_msgs p a + in_data_msgs p b
  unfolding merge_data_msg
  merge_data_msg_lem [] b = omega arith
  merge_data_msg_lem (a ∷ l) [] = omega arith
  merge_data_msg_lem (a ∷ l) (b ∷ bs) = simp count-append (
      omega (
        arith,
        kept-dropped p a.name b.name,
        kept-dropped p a.id b.id,
        kept-dropped p a.description b.description,
        kept-dropped p a.msg_arrival b.msg_arrival,
        kept-dropped p a.msg_rate b.msg_rate,
        kept-lost_qualifiers p a.qualifiers b.qualifiers,
        kept-lost_var_refs p a.variables b.variables,
      ))

  abbrev pub lost_cmd_msgs : List CmdMsg → List CmdMsg → ℕ
  lost_cmd_msgs [] b = 0
  lost_cmd_msgs (a ∷ l) [] = 0
  lost_cmd_msgs (a ∷ l) (b ∷ bs) =
      in_str p b.interface_name
      + in_str p b.interface_id
      + lost_qualifiers p a.qualifiers b.qualifiers
      + lost_var_refs p a.variables b.variables
      + in_cmd_msgs p bs

  pub merge_cmd_msg_lem :
      (a b : List CmdMsg)
      → in_cmd_msgs p (merge_cmd_msg a b).0 + count p (merge_cmd_msg a b).1 + lost_cmd_msgs a b
        ≡ in_cmd_msgs p a + in_cmd_msgs p b
  unfolding merge_cmd_msg
  merge_cmd_msg_lem [] b = omega arith
  merge_cmd_msg_lem (a ∷ l) [] = omega arith
  merge_cmd_msg_lem (a ∷ l) (b ∷ bs) = simp count-append (
      omega (
        arith,
        kept-dropped p a.name b.name,
        kept-dropped p a.id b.id,
        kept-dropped p a.description b.description,
        kept-lost_qualifiers p a.qualifiers b.qualifiers,
        kept-lost_var_refs p a.variables b.variables,
      ))

  abbrev pub lost_interfaces : List Interface → List Interface → ℕ
  lost_interfaces [] b = 0
  lost_interfaces (a ∷ l) [] = 0
  lost_interfaces (a ∷ l) (b ∷ bs) =
      lost_qualifiers p a.qualifiers b.qualifiers
      + lost_variables p a.variables b.variables
      + lost_commands p a.commands b.commands
      + lost_notifications p a.notifications b.notifications
      + lost_requests p a.requests b.requests
      + in_interfaces p bs

  -- Two lists of interfaces, as `merge_interface` merges them: every block that they own is kept or freed,
  -- but for what `lost_interfaces` counts: behind the second list's first interface, and of that, each of
  -- its qualifiers, variables, commands, notifications and requests where the first interface has some.
  pub merge_interface_lem :
      (a b : List Interface)
      → in_interfaces p (merge_interface a b).0
          + count p (merge_interface a b).1
          + lost_interfaces a b
        ≡ in_interfaces p a + in_interfaces p b
  unfolding merge_interface
  merge_interface_lem [] b = omega arith
  merge_interface_lem (a ∷ l) [] = omega arith
  merge_interface_lem (a ∷ l) (b ∷ bs) = simp count-append (
      omega (
        arith,
        kept-dropped p a.name b.name,
        kept-dropped p a.extends b.extends,
        kept-dropped p a.id b.id,
        kept-dropped p a.description b.description,
        kept-lost_qualifiers p a.qualifiers b.qualifiers,
        kept-lost_variables p a.variables b.variables,
        kept-lost_commands p a.commands b.commands,
        kept-lost_notifications p a.notifications b.notifications,
        kept-lost_requests p a.requests b.requests,
      ))
