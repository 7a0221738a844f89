-- ===== src/Tests/Documents.antt =====
-- Runs of common/xTEDS/xTEDSParser.c on messages, interfaces and whole xTEDS.
use vn_sdm.Common.{ℕ, ◌+◌, ◌≡◌, refl, List, [], ◌∷◌, Option, none, some}
use vn_sdm.Xteds.{Str}
use vn_sdm.Xteds.Structures.{DataMsg, Notification, Message, Interface, AppDevAttr, Xteds}
use vn_sdm.Xteds.Release.{delete_xteds}
use vn_sdm.Xteds.Released.{
  in_data_msgs, in_message, in_interfaces, in_app_dev_attr, in_xteds, delete_xteds_lem,
}
use vn_sdm.Xteds.Assemble.{
  merge_data_msg, merge_message, merge_interface, merge_app_dev_attr, merge_xteds,
}
use vn_sdm.Xteds.Ownership.{count}
use vn_sdm.Xteds.Merged.{merges_lem}
use vn_sdm.Xteds.Assembled.{lost_app_dev_attr, lost_xteds, merge_app_dev_attr_lem}
use vn_sdm.Xteds.Single.{lost_data_msgs, lost_interfaces}

abbrev block : ℕ → Option Str
block a = some (record { addr = a; text = b'x' ∷ [] })

abbrev a_data_msg : ℕ → List DataMsg
a_data_msg a =
    record {
      addr = a;
      name = block (a + 1);
      id = none;
      msg_arrival = none;
      description = none;
      msg_rate = none;
      interface_name = none;
      interface_id = none;
      variables = record { addr = a + 2; name = block (a + 3) } ∷ [];
      qualifiers = [];
    }
    ∷ []

abbrev a_notification : ℕ → List Notification
a_notification a =
    record {
      addr = a;
      interface_name = none;
      interface_id = none;
      data_message = a_data_msg (a + 1);
      fault_message = none;
    }
    ∷ []

abbrev an_interface : ℕ → List Interface
an_interface a =
    record {
      addr = a;
      name = block (a + 1);
      extends = none;
      id = none;
      description = none;
      qualifiers = [];
      variables = [];
      commands = [];
      notifications = a_notification (a + 2);
      requests = [];
    }
    ∷ []

abbrev attributes : ℕ → Option AppDevAttr
attributes a = some (record {
  addr = a;
  name = block (a + 1);
  kind = block (a + 2);
  id = none;
  qualifier = none;
  description = none;
  manufacturer_id = none;
  component_key = none;
  model_id = none;
  version_letter = none;
  version = none;
  serial_number = none;
  calibration_date = none;
  sensitivity_at_reference = none;
  reference_frequency = none;
  reference_temperature = none;
  measurement_range = none;
  electrical_output = none;
  quality_factor = none;
  temperature_coefficient = none;
  direction_xyz = none;
  cal_due_date = none;
  power_requirements = none;
  spa_u_hub = none;
  spa_u_port = none;
  memory_minimum = none;
  operating_system = none;
  path_for_assembly = none;
  path_on_spacecraft = none;
  qualifiers = [];
})

abbrev document : ℕ → Option Xteds
document a = some (record {
  addr = a;
  name = block (a + 1);
  version = none;
  description = none;
  xmlns = none;
  xmlns_xsi = none;
  schema_location = none;
  header = attributes (a + 2);
  interfaces = an_interface (a + 10);
})

abbrev messages : ℕ → Option Message
messages a =
    some (record { addr = a; commands = []; notifications = a_notification (a + 1); requests = [] })

delete_xteds_lem_example : count 17 (delete_xteds (document 1)) ≡ in_xteds 17 (document 1)
delete_xteds_lem_example = delete_xteds_lem 17 (document 1)

-- The variable reference in the data message of the notification of the interface, at 17, is owned once.
owned_once : in_xteds 17 (document 1) ≡ 1
owned_once = refl

merge_app_dev_attr_lem_example :
    in_app_dev_attr 52 (merge_app_dev_attr (attributes 1) (attributes 51)).0
      + count 52 (merge_app_dev_attr (attributes 1) (attributes 51)).1
      + lost_app_dev_attr 52 (attributes 1) (attributes 51)
    ≡ in_app_dev_attr 52 (attributes 1) + in_app_dev_attr 52 (attributes 51)
merge_app_dev_attr_lem_example = merge_app_dev_attr_lem 52 (attributes 1) (attributes 51)

-- Block 52 is the second argument's, in each of the four merges.
merges_lem_example :
    (in_message 52 (merge_message (messages 1) (messages 51)).0
        + count 52 (merge_message (messages 1) (messages 51)).1
      ≡ in_message 52 (messages 1) + in_message 52 (messages 51))
    × (in_data_msgs 52 (merge_data_msg (a_data_msg 1) (a_data_msg 51)).0
          + count 52 (merge_data_msg (a_data_msg 1) (a_data_msg 51)).1
          + lost_data_msgs 52 (a_data_msg 1) (a_data_msg 51)
        ≡ in_data_msgs 52 (a_data_msg 1) + in_data_msgs 52 (a_data_msg 51))
    × (in_interfaces 52 (merge_interface (an_interface 1) (an_interface 51)).0
          + count 52 (merge_interface (an_interface 1) (an_interface 51)).1
          + lost_interfaces 52 (an_interface 1) (an_interface 51)
        ≡ in_interfaces 52 (an_interface 1) + in_interfaces 52 (an_interface 51))
    × (in_xteds 52 (merge_xteds (document 1) (document 51)).0
          + count 52 (merge_xteds (document 1) (document 51)).1
          + lost_xteds 52 (document 1) (document 51)
        ≡ in_xteds 52 (document 1) + in_xteds 52 (document 51))
merges_lem_example =
    merges_lem 52 (messages 1) (messages 51) (a_data_msg 1) (a_data_msg 51) (an_interface 1)
      (an_interface 51) (document 1) (document 51)
