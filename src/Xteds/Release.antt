-- ===== src/Xteds/Release.antt =====
-- common/xTEDS/xTEDSParser.c: the delete_* functions of messages, interfaces and whole xTEDS, as the
-- addresses that they free, in order.
use vn_sdm.Common.{ℕ, List, [], ◌∷◌, ◌++◌, Option, none, some}
use vn_sdm.Xteds.Structures.{
  VarRef, FaultMsg, DataMsg, CmdMsg, Command, Notification, Request, Message, Interface, AppDevAttr,
  Xteds,
}
use vn_sdm.Xteds.Delete.{free_str, delete_qualifier, delete_variable}

-- `delete_var_ref`
unfoldable pub delete_var_ref : List VarRef → List ℕ
delete_var_ref [] = []
delete_var_ref (p ∷ next) = delete_var_ref next ++ (free_str p.name ++ (p.addr ∷ []))

-- `delete_fault_msg`
unfoldable pub delete_fault_msg : Option FaultMsg → List ℕ
delete_fault_msg none = []
delete_fault_msg (some p) =
    delete_var_ref p.variables
    ++ (delete_qualifier p.qualifiers
        ++ (free_str p.name
            ++ (free_str p.id
                ++ (free_str p.description
                    ++ (free_str p.interface_name ++ (free_str p.interface_id ++ (p.addr ∷ [])))))))

-- `delete_data_msg`
unfoldable pub delete_data_msg : List DataMsg → List ℕ
delete_data_msg [] = []
delete_data_msg (p ∷ next) =
    delete_data_msg next
    ++ (delete_var_ref p.variables
        ++ (delete_qualifier p.qualifiers
            ++ (free_str p.name
                ++ (free_str p.id
                    ++ (free_str p.msg_arrival
                        ++ (free_str p.description
                            ++ (free_str p.msg_rate
                                ++ (free_str p.interface_name
                                    ++ (free_str p.interface_id ++ (p.addr ∷ []))))))))))

-- `delete_cmd_msg`
unfoldable pub delete_cmd_msg : List CmdMsg → List ℕ
delete_cmd_msg [] = []
delete_cmd_msg (p ∷ next) =
    delete_cmd_msg next
    ++ (delete_var_ref p.variables
        ++ (delete_qualifier p.qualifiers
            ++ (free_str p.name
                ++ (free_str p.id
                    ++ (free_str p.description
                        ++ (free_str p.interface_name
                            ++ (free_str p.interface_id ++ (p.addr ∷ []))))))))

-- `delete_command`
unfoldable pub delete_command : List Command → List ℕ
delete_command [] = []
delete_command (p ∷ next) =
    delete_command next
    ++ (delete_cmd_msg p.command_message
        ++ (delete_fault_msg p.fault_message
            ++ (free_str p.interface_name ++ (free_str p.interface_id ++ (p.addr ∷ [])))))

-- `delete_notification`
unfoldable pub delete_notification : List Notification → List ℕ
delete_notification [] = []
delete_notification (p ∷ next) =
    delete_notification next
    ++ (delete_data_msg p.data_message
        ++ (delete_fault_msg p.fault_message
            ++ (free_str p.interface_name ++ (free_str p.interface_id ++ (p.addr ∷ [])))))

-- `delete_request`
unfoldable pub delete_request : List Request → List ℕ
delete_request [] = []
delete_request (p ∷ next) =
    delete_request next
    ++ (delete_cmd_msg p.command_message
        ++ (delete_data_msg p.data_message
            ++ (delete_fault_msg p.fault_message
                ++ (free_str p.interface_name ++ (free_str p.interface_id ++ (p.addr ∷ []))))))

-- `delete_message`
unfoldable pub delete_message : Option Message → List ℕ
delete_message none = []
delete_message (some p) =
    delete_command p.commands
    ++ (delete_notification p.notifications ++ (delete_request p.requests ++ (p.addr ∷ [])))

-- `delete_interface`
unfoldable pub delete_interface : List Interface → List ℕ
delete_interface [] = []
delete_interface (p ∷ next) =
    delete_interface next
    ++ (delete_qualifier p.qualifiers
        ++ (delete_variable p.variables
            ++ (delete_command p.commands
                ++ (delete_notification p.notifications
                    ++ (delete_request p.requests
                        ++ (free_str p.name
                            ++ (free_str p.extends
                                ++ (free_str p.id
                                    ++ (free_str p.description ++ (p.addr ∷ []))))))))))

-- `delete_app_dev_attr`
unfoldable pub delete_app_dev_attr : Option AppDevAttr → List ℕ
delete_app_dev_attr none = []
delete_app_dev_attr (some p) =
    delete_qualifier p.qualifiers
    ++ (free_str p.name
        ++ (free_str p.kind
            ++ (free_str p.id
                ++ (free_str p.qualifier
                    ++ (free_str p.description
                        ++ (free_str p.manufacturer_id
                            ++ (free_str p.component_key
                                ++ (free_str p.model_id
                                    ++ (free_str p.version_letter
                                        ++ (free_str p.version
                                            ++ (free_str p.serial_number
                                                ++ (free_str p.calibration_date
                                                    ++ (free_str p.sensitivity_at_reference
                                                        ++ (free_str p.reference_frequency
                                                            ++ (free_str p.reference_temperature
                                                            ++ (free_str p.measurement_range
                                                            ++ (free_str p.electrical_output
                                                            ++ (free_str p.quality_factor
                                                            ++ (free_str p.temperature_coefficient
                                                            ++ (free_str p.direction_xyz
                                                            ++ (free_str p.cal_due_date
                                                            ++ (free_str p.power_requirements
                                                            ++ (free_str p.spa_u_hub
                                                            ++ (free_str p.spa_u_port
                                                            ++ (free_str p.memory_minimum
                                                            ++ (free_str p.operating_system
                                                            ++ (free_str p.path_for_assembly
                                                            ++ (free_str p.path_on_spacecraft
                                                            ++ (p.addr
                                                            ∷ [])))))))))))))))))))))))))))))

-- `delete_xteds`
unfoldable pub delete_xteds : Option Xteds → List ℕ
delete_xteds none = []
delete_xteds (some p) =
    delete_app_dev_attr p.header
    ++ (delete_interface p.interfaces
        ++ (free_str p.name
            ++ (free_str p.version
                ++ (free_str p.description
                    ++ (free_str p.xmlns
                        ++ (free_str p.xmlns_xsi
                            ++ (free_str p.schema_location ++ (p.addr ∷ []))))))))
