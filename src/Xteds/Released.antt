-- ===== src/Xteds/Released.antt =====
-- What messages, interfaces and whole xTEDS own, and that the delete_* functions free it, once.
use vn_sdm.Common.{ℕ, ◌+◌, ◌≡◌, refl, arith, List, [], ◌∷◌, Option, none, some}
use vn_sdm.Xteds.Structures.{
  VarRef, FaultMsg, DataMsg, CmdMsg, Command, Notification, Request, Message, Interface, AppDevAttr,
  Xteds,
}
use vn_sdm.Xteds.Release.{
  delete_var_ref, delete_fault_msg, delete_data_msg, delete_cmd_msg, delete_command,
  delete_notification, delete_request, delete_message, delete_interface, delete_app_dev_attr,
  delete_xteds,
}
use vn_sdm.Xteds.Ownership.{
  count, count-append, at, in_str, free_str_lem, in_qualifiers, delete_qualifier_lem, in_variables,
  delete_variable_lem,
}

module _ (p : ℕ) where
  abbrev pub in_var_refs : List VarRef → ℕ
  in_var_refs [] = 0
  in_var_refs (x ∷ l) = at p x.addr + (in_str p x.name) + in_var_refs l

  abbrev pub in_fault_msg : Option FaultMsg → ℕ
  in_fault_msg none = 0
  in_fault_msg (some x) =
      at p x.addr
      + (in_str p x.name
          + in_str p x.id
          + in_str p x.description
          + in_str p x.interface_name
          + in_str p x.interface_id
          + in_var_refs x.variables
          + in_qualifiers p x.qualifiers)

  abbrev pub in_data_msgs : List DataMsg → ℕ
  in_data_msgs [] = 0
  in_data_msgs (x ∷ l) =
      at p x.addr
      + (in_str p x.name
          + in_str p x.id
          + in_str p x.msg_arrival
          + in_str p x.description
          + in_str p x.msg_rate
          + in_str p x.interface_name
          + in_str p x.interface_id
          + in_var_refs x.variables
          + in_qualifiers p x.qualifiers)
      + in_data_msgs l

  abbrev pub in_cmd_msgs : List CmdMsg → ℕ
  in_cmd_msgs [] = 0
  in_cmd_msgs (x ∷ l) =
      at p x.addr
      + (in_str p x.name
          + in_str p x.id
          + in_str p x.description
          + in_str p x.interface_name
          + in_str p x.interface_id
          + in_var_refs x.variables
          + in_qualifiers p x.qualifiers)
      + in_cmd_msgs l

  abbrev pub in_commands : List Command → ℕ
  in_commands [] = 0
  in_commands (x ∷ l) =
      at p x.addr
      + (in_str p x.interface_name
          + in_str p x.interface_id
          + in_cmd_msgs x.command_message
          + in_fault_msg x.fault_message)
      + in_commands l

  abbrev pub in_notifications : List Notification → ℕ
  in_notifications [] = 0
  in_notifications (x ∷ l) =
      at p x.addr
      + (in_str p x.interface_name
          + in_str p x.interface_id
          + in_data_msgs x.data_message
          + in_fault_msg x.fault_message)
      + in_notifications l

  abbrev pub in_requests : List Request → ℕ
  in_requests [] = 0
  in_requests (x ∷ l) =
      at p x.addr
      + (in_str p x.interface_name
          + in_str p x.interface_id
          + in_cmd_msgs x.command_message
          + in_data_msgs x.data_message
          + in_fault_msg x.fault_message)
      + in_requests l

  abbrev pub in_message : Option Message → ℕ
  in_message none = 0
  in_message (some x) =
      at p x.addr
      + (in_commands x.commands + in_notifications x.notifications + in_requests x.requests)

  abbrev pub in_interfaces : List Interface → ℕ
  in_interfaces [] = 0
  in_interfaces (x ∷ l) =
      at p x.addr
      + (in_str p x.name
          + in_str p x.extends
          + in_str p x.id
          + in_str p x.description
          + in_qualifiers p x.qualifiers
          + in_variables p x.variables
          + in_commands x.commands
          + in_notifications x.notifications
          + in_requests x.requests)
      + in_interfaces l

  abbrev pub in_app_dev_attr : Option AppDevAttr → ℕ
  in_app_dev_attr none = 0
  in_app_dev_attr (some x) =
      at p x.addr
      + (in_str p x.name
          + in_str p x.kind
          + in_str p x.id
          + in_str p x.qualifier
          + in_str p x.description
          + in_str p x.manufacturer_id
          + in_str p x.component_key
          + in_str p x.model_id
          + in_str p x.version_letter
          + in_str p x.version
          + in_str p x.serial_number
          + in_str p x.calibration_date
          + in_str p x.sensitivity_at_reference
          + in_str p x.reference_frequency
          + in_str p x.reference_temperature
          + in_str p x.measurement_range
          + in_str p x.electrical_output
          + in_str p x.quality_factor
          + in_str p x.temperature_coefficient
          + in_str p x.direction_xyz
          + in_str p x.cal_due_date
          + in_str p x.power_requirements
          + in_str p x.spa_u_hub
          + in_str p x.spa_u_port
          + in_str p x.memory_minimum
          + in_str p x.operating_system
          + in_str p x.path_for_assembly
          + in_str p x.path_on_spacecraft
          + in_qualifiers p x.qualifiers)

  abbrev pub in_xteds : Option Xteds → ℕ
  in_xteds none = 0
  in_xteds (some x) =
      at p x.addr
      + (in_str p x.name
          + in_str p x.version
          + in_str p x.description
          + in_str p x.xmlns
          + in_str p x.xmlns_xsi
          + in_str p x.schema_location
          + in_app_dev_attr x.header
          + in_interfaces x.interfaces)

  pub delete_var_ref_lem : (l : List VarRef) → count p (delete_var_ref l) ≡ in_var_refs l
  unfolding delete_var_ref
  delete_var_ref_lem [] = refl
  delete_var_ref_lem (x ∷ l) =
      simp count-append (omega (arith, delete_var_ref_lem l, free_str_lem p))

  pub delete_fault_msg_lem : (o : Option FaultMsg) → count p (delete_fault_msg o) ≡ in_fault_msg o
  unfolding delete_fault_msg
  delete_fault_msg_lem none = refl
  delete_fault_msg_lem (some x) =
      simp count-append (omega (arith, free_str_lem p, delete_var_ref_lem, delete_qualifier_lem p))

  pub delete_data_msg_lem : (l : List DataMsg) → count p (delete_data_msg l) ≡ in_data_msgs l
  unfolding delete_data_msg
  delete_data_msg_lem [] = refl
  delete_data_msg_lem (x ∷ l) = simp count-append (
      omega
        (arith, delete_data_msg_lem l, free_str_lem p, delete_var_ref_lem, delete_qualifier_lem p))

  pub delete_cmd_msg_lem : (l : List CmdMsg) → count p (delete_cmd_msg l) ≡ in_cmd_msgs l
  unfolding delete_cmd_msg
  delete_cmd_msg_lem [] = refl
  delete_cmd_msg_lem (x ∷ l) = simp count-append (
      omega
        (arith, delete_cmd_msg_lem l, free_str_lem p, delete_var_ref_lem, delete_qualifier_lem p))

  pub delete_command_lem : (l : List Command) → count p (delete_command l) ≡ in_commands l
  unfolding delete_command
  delete_command_lem [] = refl
  delete_command_lem (x ∷ l) = simp count-append (
      omega (arith, delete_command_lem l, free_str_lem p, delete_cmd_msg_lem, delete_fault_msg_lem))

  pub delete_notification_lem :
      (l : List Notification) → count p (delete_notification l) ≡ in_notifications l
  unfolding delete_notification
  delete_notification_lem [] = refl
  delete_notification_lem (x ∷ l) = simp count-append (
      omega (
        arith,
        delete_notification_lem l,
        free_str_lem p,
        delete_data_msg_lem,
        delete_fault_msg_lem,
      ))

  pub delete_request_lem : (l : List Request) → count p (delete_request l) ≡ in_requests l
  unfolding delete_request
  delete_request_lem [] = refl
  delete_request_lem (x ∷ l) = simp count-append (
      omega (
        arith,
        delete_request_lem l,
        free_str_lem p,
        delete_cmd_msg_lem,
        delete_data_msg_lem,
        delete_fault_msg_lem,
      ))

  pub delete_message_lem : (o : Option Message) → count p (delete_message o) ≡ in_message o
  unfolding delete_message
  delete_message_lem none = refl
  delete_message_lem (some x) =
      simp count-append
        (omega (arith, delete_command_lem, delete_notification_lem, delete_request_lem))

  pub delete_interface_lem : (l : List Interface) → count p (delete_interface l) ≡ in_interfaces l
  unfolding delete_interface
  delete_interface_lem [] = refl
  delete_interface_lem (x ∷ l) = simp count-append (
      omega (
        arith,
        delete_interface_lem l,
        free_str_lem p,
        delete_qualifier_lem p,
        delete_variable_lem p,
        delete_command_lem,
        delete_notification_lem,
        delete_request_lem,
      ))

  pub delete_app_dev_attr_lem :
      (o : Option AppDevAttr) → count p (delete_app_dev_attr o) ≡ in_app_dev_attr o
  unfolding delete_app_dev_attr
  delete_app_dev_attr_lem none = refl
  delete_app_dev_attr_lem (some x) =
      simp count-append (omega (arith, free_str_lem p, delete_qualifier_lem p))

  -- `delete_xteds` frees every block that an xTEDS owns, with all its interfaces, variables and messages,
  -- as often as it owns it, and no other.
  pub delete_xteds_lem : (o : Option Xteds) → count p (delete_xteds o) ≡ in_xteds o
  unfolding delete_xteds
  delete_xteds_lem none = refl
  delete_xteds_lem (some x) =
      simp count-append
        (omega (arith, free_str_lem p, delete_app_dev_attr_lem, delete_interface_lem))
