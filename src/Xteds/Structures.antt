-- ===== src/Xteds/Structures.antt =====
-- The other data types of common/xTEDS/xTEDSParser.h: messages, interfaces, and what an xTEDS is as
-- a whole.
use vn_sdm.Common.{ℕ, List, Option}
use vn_sdm.Xteds.{Str, Qualifier, Variable}

-- var_ref, without its link
pub record VarRef : Type 0 where
  pub addr : ℕ
  pub name : Option Str

-- fault_msg
pub record FaultMsg : Type 0 where
  pub addr : ℕ
  pub name : Option Str
  pub id : Option Str
  pub description : Option Str
  pub interface_name : Option Str
  pub interface_id : Option Str
  pub variables : List VarRef
  pub qualifiers : List Qualifier

-- data_msg, without its link
pub record DataMsg : Type 0 where
  pub addr : ℕ
  pub name : Option Str
  pub id : Option Str
  pub msg_arrival : Option Str
  pub description : Option Str
  pub msg_rate : Option Str
  pub interface_name : Option Str
  pub interface_id : Option Str
  pub variables : List VarRef
  pub qualifiers : List Qualifier

-- cmd_msg, without its link
pub record CmdMsg : Type 0 where
  pub addr : ℕ
  pub name : Option Str
  pub id : Option Str
  pub description : Option Str
  pub interface_name : Option Str
  pub interface_id : Option Str
  pub variables : List VarRef
  pub qualifiers : List Qualifier

-- command, without its link
pub record Command : Type 0 where
  pub addr : ℕ
  pub interface_name : Option Str
  pub interface_id : Option Str
  pub command_message : List CmdMsg
  pub fault_message : Option FaultMsg

-- notification, without its link
pub record Notification : Type 0 where
  pub addr : ℕ
  pub interface_name : Option Str
  pub interface_id : Option Str
  pub data_message : List DataMsg
  pub fault_message : Option FaultMsg

-- request, without its link
pub record Request : Type 0 where
  pub addr : ℕ
  pub interface_name : Option Str
  pub interface_id : Option Str
  pub command_message : List CmdMsg
  pub data_message : List DataMsg
  pub fault_message : Option FaultMsg

-- message
pub record Message : Type 0 where
  pub addr : ℕ
  pub commands : List Command
  pub notifications : List Notification
  pub requests : List Request

-- interface, without its link
pub record Interface : Type 0 where
  pub addr : ℕ
  pub name : Option Str
  pub extends : Option Str
  pub id : Option Str
  pub description : Option Str
  pub qualifiers : List Qualifier
  pub variables : List Variable
  pub commands : List Command
  pub notifications : List Notification
  pub requests : List Request

-- app_dev_attr
pub record AppDevAttr : Type 0 where
  pub addr : ℕ
  pub name : Option Str
  pub kind : Option Str
  pub id : Option Str
  pub qualifier : Option Str
  pub description : Option Str
  pub manufacturer_id : Option Str
  pub component_key : Option Str
  pub model_id : Option Str
  pub version_letter : Option Str
  pub version : Option Str
  pub serial_number : Option Str
  pub calibration_date : Option Str
  pub sensitivity_at_reference : Option Str
  pub reference_frequency : Option Str
  pub reference_temperature : Option Str
  pub measurement_range : Option Str
  pub electrical_output : Option Str
  pub quality_factor : Option Str
  pub temperature_coefficient : Option Str
  pub direction_xyz : Option Str
  pub cal_due_date : Option Str
  pub power_requirements : Option Str
  pub spa_u_hub : Option Str
  pub spa_u_port : Option Str
  pub memory_minimum : Option Str
  pub operating_system : Option Str
  pub path_for_assembly : Option Str
  pub path_on_spacecraft : Option Str
  pub qualifiers : List Qualifier

-- xteds
pub record Xteds : Type 0 where
  pub addr : ℕ
  pub name : Option Str
  pub version : Option Str
  pub description : Option Str
  pub xmlns : Option Str
  pub xmlns_xsi : Option Str
  pub schema_location : Option Str
  pub header : Option AppDevAttr
  pub interfaces : List Interface
