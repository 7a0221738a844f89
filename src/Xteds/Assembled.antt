-- ===== src/Xteds/Assembled.antt =====
-- What the merge_* functions of messages, interfaces and whole xTEDS keep, free and lose.
use vn_sdm.Common.{ℕ, ◌+◌, ◌≡◌, arith, List, [], ◌∷◌, Option, none, some}
use vn_sdm.Xteds.{Str, Qualifier, Variable}
use vn_sdm.Xteds.Structures.{VarRef, Command, Notification, Request, Message, AppDevAttr, Xteds}
use vn_sdm.Xteds.Merge.{kept, link_qualifiers}
use vn_sdm.Xteds.Assemble.{
  kept_list, link_command, link_notification, link_request, merge_message, merge_xteds,
  merge_app_dev_attr,
}
use vn_sdm.Xteds.Ownership.{count, in_str, in_qualifiers, in_variables}
use vn_sdm.Xteds.Released.{
  in_var_refs, in_commands, in_notifications, in_requests, in_message, in_interfaces,
  in_app_dev_attr, in_xteds,
}

module _ (p : ℕ) where
  link_command_lem :
      (a b : List Command) → in_commands p (link_command a b) ≡ in_commands p a + in_commands p b
  unfolding link_command
  link_command_lem [] b = omega arith
  link_command_lem (x ∷ a) b = omega (arith, link_command_lem a b)

  link_notification_lem :
      (a b : List Notification)
      → in_notifications p (link_notification a b) ≡ in_notifications p a + in_notifications p b
  unfolding link_notification
  link_notification_lem [] b = omega arith
  link_notification_lem (x ∷ a) b = omega (arith, link_notification_lem a b)

  link_request_lem :
      (a b : List Request) → in_requests p (link_request a b) ≡ in_requests p a + in_requests p b
  unfolding link_request
  link_request_lem [] b = omega arith
  link_request_lem (x ∷ a) b = omega (arith, link_request_lem a b)

  link_qualifiers_lem :
      (a b : List Qualifier)
      → in_qualifiers p (link_qualifiers a b) ≡ in_qualifiers p a + in_qualifiers p b
  unfolding link_qualifiers
  link_qualifiers_lem [] b = omega arith
  link_qualifiers_lem (x ∷ a) b = omega (arith, link_qualifiers_lem a b)

  -- Two messages merged keep all their commands, notifications and requests; of the blocks that the two
  -- own, only the second's own block is freed, and none is lost.
  pub merge_message_lem :
      (a b : Option Message)
      → in_message p (merge_message a b).0 + count p (merge_message a b).1
        ≡ in_message p a + in_message p b
  unfolding merge_message
  merge_message_lem none b = omega arith
  merge_message_lem (some a) none = omega arith
  merge_message_lem (some a) (some b) = omega (
    arith,
    link_command_lem a.commands b.commands,
    link_notification_lem a.notifications b.notifications,
    link_request_lem a.requests b.requests,
  )

  -- A text that is lost where the first structure has one already.
  abbrev pub lost_str : Option Str → Option Str → ℕ
  lost_str none b = 0
  lost_str (some a) b = in_str p b

  kept-lost : (a b : Option Str) → in_str p (kept a b) + lost_str a b ≡ in_str p a + in_str p b
  unfolding kept
  kept-lost none b = omega arith
  kept-lost (some a) b = omega arith

  abbrev pub lost_app_dev_attr : Option AppDevAttr → Option AppDevAttr → ℕ
  lost_app_dev_attr none b = 0
  lost_app_dev_attr (some a) none = 0
  lost_app_dev_attr (some a) (some b) =
      lost_str a.name b.name
      + lost_str a.kind b.kind
      + lost_str a.id b.id
      + lost_str a.qualifier b.qualifier
      + lost_str a.description b.description
      + lost_str a.manufacturer_id b.manufacturer_id
      + lost_str a.component_key b.component_key
      + lost_str a.model_id b.model_id
      + lost_str a.version_letter b.version_letter
      + lost_str a.version b.version
      + lost_str a.serial_number b.serial_number
      + lost_str a.calibration_date b.calibration_date
      + lost_str a.sensitivity_at_reference b.sensitivity_at_reference
      + lost_str a.reference_frequency b.reference_frequency
      + lost_str a.reference_temperature b.reference_temperature
      + lost_str a.measurement_range b.measurement_range
      + lost_str a.electrical_output b.electrical_output
      + lost_str a.quality_factor b.quality_factor
      + lost_str a.temperature_coefficient b.temperature_coefficient
      + lost_str a.direction_xyz b.direction_xyz
      + lost_str a.cal_due_date b.cal_due_date
      + lost_str a.power_requirements b.power_requirements
      + lost_str a.spa_u_hub b.spa_u_hub
      + lost_str a.spa_u_port b.spa_u_port
      + lost_str a.memory_minimum b.memory_minimum
      + lost_str a.operating_system b.operating_system
      + lost_str a.path_for_assembly b.path_for_assembly
      + lost_str a.path_on_spacecraft b.path_on_spacecraft

  -- Two attribute structures of a device merged keep or free every block that they own, but for each
  -- text of the second that the first has as well: it is neither kept nor freed.
  pub merge_app_dev_attr_lem :
      (a b : Option AppDevAttr)
      → in_app_dev_attr p (merge_app_dev_attr a b).0
          + count p (merge_app_dev_attr a b).1
          + lost_app_dev_attr a b
        ≡ in_app_dev_attr p a + in_app_dev_attr p b
  unfolding merge_app_dev_attr
  merge_app_dev_attr_lem none b = omega arith
  merge_app_dev_attr_lem (some a) none = omega arith
  merge_app_dev_attr_lem (some a) (some b) = omega (
    arith,
    kept-lost a.name b.name,
    kept-lost a.kind b.kind,
    kept-lost a.id b.id,
    kept-lost a.qualifier b.qualifier,
    kept-lost a.description b.description,
    kept-lost a.manufacturer_id b.manufacturer_id,
    kept-lost a.component_key b.component_key,
    kept-lost a.model_id b.model_id,
    kept-lost a.version_letter b.version_letter,
    kept-lost a.version b.version,
    kept-lost a.serial_number b.serial_number,
    kept-lost a.calibration_date b.calibration_date,
    kept-lost a.sensitivity_at_reference b.sensitivity_at_reference,
    kept-lost a.reference_frequency b.reference_frequency,
    kept-lost a.reference_temperature b.reference_temperature,
    kept-lost a.measurement_range b.measurement_range,
    kept-lost a.electrical_output b.electrical_output,
    kept-lost a.quality_factor b.quality_factor,
    kept-lost a.temperature_coefficient b.temperature_coefficient,
    kept-lost a.direction_xyz b.direction_xyz,
    kept-lost a.cal_due_date b.cal_due_date,
    kept-lost a.power_requirements b.power_requirements,
    kept-lost a.spa_u_hub b.spa_u_hub,
    kept-lost a.spa_u_port b.spa_u_port,
    kept-lost a.memory_minimum b.memory_minimum,
    kept-lost a.operating_system b.operating_system,
    kept-lost a.path_for_assembly b.path_for_assembly,
    kept-lost a.path_on_spacecraft b.path_on_spacecraft,
    link_qualifiers_lem a.qualifiers b.qualifiers,
  )

  abbrev pub lost_xteds : Option Xteds → Option Xteds → ℕ
  lost_xteds none b = 0
  lost_xteds (some a) none = 0
  lost_xteds (some a) (some b) =
      lost_str a.name b.name
      + lost_str a.version b.version
      + lost_str a.description b.description
      + lost_str a.xmlns b.xmlns
      + lost_str a.xmlns_xsi b.xmlns_xsi
      + lost_str a.schema_location b.schema_location
      + in_app_dev_attr p b.header
      + in_interfaces p b.interfaces

  -- The same of two whole xTEDS, where the second's attributes and interfaces are lost as well.
  pub merge_xteds_lem :
      (a b : Option Xteds)
      → in_xteds p (merge_xteds a b).0 + count p (merge_xteds a b).1 + lost_xteds a b
        ≡ in_xteds p a + in_xteds p b
  unfolding merge_xteds
  merge_xteds_lem none b = omega arith
  merge_xteds_lem (some a) none = omega arith
  merge_xteds_lem (some a) (some b) = omega (
    arith,
    kept-lost a.name b.name,
    kept-lost a.version b.version,
    kept-lost a.description b.description,
    kept-lost a.xmlns b.xmlns,
    kept-lost a.xmlns_xsi b.xmlns_xsi,
    kept-lost a.schema_location b.schema_location,
  )

  abbrev pub lost_var_refs : List VarRef → List VarRef → ℕ
  lost_var_refs [] b = 0
  lost_var_refs (x ∷ a) b = in_var_refs p b

  pub kept-lost_var_refs :
      (a b : List VarRef)
      → in_var_refs p (kept_list a b) + lost_var_refs a b ≡ in_var_refs p a + in_var_refs p b
  unfolding kept_list
  kept-lost_var_refs [] b = omega arith
  kept-lost_var_refs (x ∷ a) b = omega arith

  abbrev pub lost_qualifiers : List Qualifier → List Qualifier → ℕ
  lost_qualifiers [] b = 0
  lost_qualifiers (x ∷ a) b = in_qualifiers p b

  pub kept-lost_qualifiers :
      (a b : List Qualifier)
      → in_qualifiers p (kept_list a b) + lost_qualifiers a b
        ≡ in_qualifiers p a + in_qualifiers p b
  unfolding kept_list
  kept-lost_qualifiers [] b = omega arith
  kept-lost_qualifiers (x ∷ a) b = omega arith

  abbrev pub lost_variables : List Variable → List Variable → ℕ
  lost_variables [] b = 0
  lost_variables (x ∷ a) b = in_variables p b

  pub kept-lost_variables :
      (a b : List Variable)
      → in_variables p (kept_list a b) + lost_variables a b ≡ in_variables p a + in_variables p b
  unfolding kept_list
  kept-lost_variables [] b = omega arith
  kept-lost_variables (x ∷ a) b = omega arith

  abbrev pub lost_commands : List Command → List Command → ℕ
  lost_commands [] b = 0
  lost_commands (x ∷ a) b = in_commands p b

  pub kept-lost_commands :
      (a b : List Command)
      → in_commands p (kept_list a b) + lost_commands a b ≡ in_commands p a + in_commands p b
  unfolding kept_list
  kept-lost_commands [] b = omega arith
  kept-lost_commands (x ∷ a) b = omega arith

  abbrev pub lost_notifications : List Notification → List Notification → ℕ
  lost_notifications [] b = 0
  lost_notifications (x ∷ a) b = in_notifications p b

  pub kept-lost_notifications :
      (a b : List Notification)
      → in_notifications p (kept_list a b) + lost_notifications a b
        ≡ in_notifications p a + in_notifications p b
  unfolding kept_list
  kept-lost_notifications [] b = omega arith
  kept-lost_notifications (x ∷ a) b = omega arith

  abbrev pub lost_requests : List Request → List Request → ℕ
  lost_requests [] b = 0
  lost_requests (x ∷ a) b = in_requests p b

  pub kept-lost_requests :
      (a b : List Request)
      → in_requests p (kept_list a b) + lost_requests a b ≡ in_requests p a + in_requests p b
  unfolding kept_list
  kept-lost_requests [] b = omega arith
  kept-lost_requests (x ∷ a) b = omega arith
