-- ===== src/Xteds/Assemble.antt =====
-- common/xTEDS/xTEDSParser.c: the link_* and merge_* functions of messages, interfaces and whole
-- xTEDS. A merge yields the merged structure and the addresses that it frees, in order.
use vn_sdm.Common.{ℕ, List, [], ◌∷◌, ◌++◌, Option, none, some}
use vn_sdm.Xteds.Structures.{
  VarRef, FaultMsg, DataMsg, CmdMsg, Command, Notification, Request, Message, Interface, AppDevAttr,
  Xteds,
}
use vn_sdm.Xteds.Merge.{kept, dropped, link_qualifiers}

-- `if(a->x==NULL) a->x = b->x;` of a linked list
unfoldable pub kept_list {ℓ} : {A : Type ℓ} → List A → List A → List A
kept_list [] b = b
kept_list (x ∷ a) b = x ∷ a

-- `link_variable_ref`
unfoldable pub link_variable_ref : List VarRef → List VarRef → List VarRef
link_variable_ref [] b = b
link_variable_ref (cur ∷ rest) b = cur ∷ link_variable_ref rest b

-- `link_data_msg`
unfoldable pub link_data_msg : List DataMsg → List DataMsg → List DataMsg
link_data_msg [] b = b
link_data_msg (cur ∷ rest) b = cur ∷ link_data_msg rest b

-- `link_cmd_msg`
unfoldable pub link_cmd_msg : List CmdMsg → List CmdMsg → List CmdMsg
link_cmd_msg [] b = b
link_cmd_msg (cur ∷ rest) b = cur ∷ link_cmd_msg rest b

-- `link_command`
unfoldable pub link_command : List Command → List Command → List Command
link_command [] b = b
link_command (cur ∷ rest) b = cur ∷ link_command rest b

-- `link_notification`
unfoldable pub link_notification : List Notification → List Notification → List Notification
link_notification [] b = b
link_notification (cur ∷ rest) b = cur ∷ link_notification rest b

-- `link_request`
unfoldable pub link_request : List Request → List Request → List Request
link_request [] b = b
link_request (cur ∷ rest) b = cur ∷ link_request rest b

-- `link_interface`
unfoldable pub link_interface : List Interface → List Interface → List Interface
link_interface [] b = b
link_interface (cur ∷ rest) b = cur ∷ link_interface rest b

-- `merge_fault_msg`
unfoldable pub merge_fault_msg : Option FaultMsg → Option FaultMsg → Option FaultMsg × List ℕ
merge_fault_msg none b = (b, [])
merge_fault_msg (some a) none = (some a, [])
merge_fault_msg (some a) (some b) = (
  some (record a {
    name = kept a.name b.name;
    id = kept a.id b.id;
    description = kept a.description b.description;
    variables = kept_list a.variables b.variables;
    qualifiers = kept_list a.qualifiers b.qualifiers;
  }),
  dropped a.name b.name
      ++ (dropped a.id b.id ++ (dropped a.description b.description ++ (b.addr ∷ []))),
)

-- `merge_data_msg`: of the second list only the first node is merged.
unfoldable pub merge_data_msg : List DataMsg → List DataMsg → List DataMsg × List ℕ
merge_data_msg [] b = (b, [])
merge_data_msg (a ∷ rest) [] = (a ∷ rest, [])
merge_data_msg (a ∷ rest) (b ∷ bs) = (
  record a {
    name = kept a.name b.name;
    id = kept a.id b.id;
    description = kept a.description b.description;
    msg_arrival = kept a.msg_arrival b.msg_arrival;
    msg_rate = kept a.msg_rate b.msg_rate;
    qualifiers = kept_list a.qualifiers b.qualifiers;
    variables = kept_list a.variables b.variables;
  }
      ∷ rest,
  dropped a.name b.name
      ++ (dropped a.id b.id
          ++ (dropped a.description b.description
              ++ (dropped a.msg_arrival b.msg_arrival
                  ++ (dropped a.msg_rate b.msg_rate ++ (b.addr ∷ []))))),
)

-- `merge_cmd_msg`: of the second list only the first node is merged.
unfoldable pub merge_cmd_msg : List CmdMsg → List CmdMsg → List CmdMsg × List ℕ
merge_cmd_msg [] b = (b, [])
merge_cmd_msg (a ∷ rest) [] = (a ∷ rest, [])
merge_cmd_msg (a ∷ rest) (b ∷ bs) = (
  record a {
    name = kept a.name b.name;
    id = kept a.id b.id;
    description = kept a.description b.description;
    qualifiers = kept_list a.qualifiers b.qualifiers;
    variables = kept_list a.variables b.variables;
  }
      ∷ rest,
  dropped a.name b.name
      ++ (dropped a.id b.id ++ (dropped a.description b.description ++ (b.addr ∷ []))),
)

-- `merge_interface`: of the second list only the first node is merged.
unfoldable pub merge_interface : List Interface → List Interface → List Interface × List ℕ
merge_interface [] b = (b, [])
merge_interface (a ∷ rest) [] = (a ∷ rest, [])
merge_interface (a ∷ rest) (b ∷ bs) = (
  record a {
    name = kept a.name b.name;
    extends = kept a.extends b.extends;
    id = kept a.id b.id;
    description = kept a.description b.description;
    qualifiers = kept_list a.qualifiers b.qualifiers;
    variables = kept_list a.variables b.variables;
    commands = kept_list a.commands b.commands;
    notifications = kept_list a.notifications b.notifications;
    requests = kept_list a.requests b.requests;
  }
      ∷ rest,
  dropped a.name b.name
      ++ (dropped a.extends b.extends
          ++ (dropped a.id b.id ++ (dropped a.description b.description ++ (b.addr ∷ [])))),
)

-- `merge_message`
unfoldable pub merge_message : Option Message → Option Message → Option Message × List ℕ
merge_message none b = (b, [])
merge_message (some a) none = (some a, [])
merge_message (some a) (some b) = (
  some (record a {
    commands = link_command a.commands b.commands;
    notifications = link_notification a.notifications b.notifications;
    requests = link_request a.requests b.requests;
  }),
  b.addr ∷ [],
)

-- `merge_xteds`, which frees only the second structure.
unfoldable pub merge_xteds : Option Xteds → Option Xteds → Option Xteds × List ℕ
merge_xteds none b = (b, [])
merge_xteds (some a) none = (some a, [])
merge_xteds (some a) (some b) = (
  some (record a {
    name = kept a.name b.name;
    version = kept a.version b.version;
    description = kept a.description b.description;
    xmlns = kept a.xmlns b.xmlns;
    xmlns_xsi = kept a.xmlns_xsi b.xmlns_xsi;
    schema_location = kept a.schema_location b.schema_location;
  }),
  b.addr ∷ [],
)

-- `merge_app_dev_attr`, which frees only the second structure.
unfoldable pub merge_app_dev_attr :
    Option AppDevAttr → Option AppDevAttr → Option AppDevAttr × List ℕ
merge_app_dev_attr none b = (b, [])
merge_app_dev_attr (some a) none = (some a, [])
merge_app_dev_attr (some a) (some b) = (
  some (record a {
    name = kept a.name b.name;
    kind = kept a.kind b.kind;
    id = kept a.id b.id;
    qualifier = kept a.qualifier b.qualifier;
    description = kept a.description b.description;
    manufacturer_id = kept a.manufacturer_id b.manufacturer_id;
    component_key = kept a.component_key b.component_key;
    model_id = kept a.model_id b.model_id;
    version_letter = kept a.version_letter b.version_letter;
    version = kept a.version b.version;
    serial_number = kept a.serial_number b.serial_number;
    calibration_date = kept a.calibration_date b.calibration_date;
    sensitivity_at_reference = kept a.sensitivity_at_reference b.sensitivity_at_reference;
    reference_frequency = kept a.reference_frequency b.reference_frequency;
    reference_temperature = kept a.reference_temperature b.reference_temperature;
    measurement_range = kept a.measurement_range b.measurement_range;
    electrical_output = kept a.electrical_output b.electrical_output;
    quality_factor = kept a.quality_factor b.quality_factor;
    temperature_coefficient = kept a.temperature_coefficient b.temperature_coefficient;
    direction_xyz = kept a.direction_xyz b.direction_xyz;
    cal_due_date = kept a.cal_due_date b.cal_due_date;
    power_requirements = kept a.power_requirements b.power_requirements;
    spa_u_hub = kept a.spa_u_hub b.spa_u_hub;
    spa_u_port = kept a.spa_u_port b.spa_u_port;
    memory_minimum = kept a.memory_minimum b.memory_minimum;
    operating_system = kept a.operating_system b.operating_system;
    path_for_assembly = kept a.path_for_assembly b.path_for_assembly;
    path_on_spacecraft = kept a.path_on_spacecraft b.path_on_spacecraft;
    qualifiers = link_qualifiers a.qualifiers b.qualifiers;
  }),
  b.addr ∷ [],
)

-- `add_references`
unfoldable pub add_references : Xteds → Option AppDevAttr → List Interface → Xteds
add_references x attr face = record x { header = attr; interfaces = face }
