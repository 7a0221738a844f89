-- ===== src/Tests/TaskManager.antt =====
-- Runs of tm and of common/task.
use vn_sdm.Common.{
  ℕ, ◌+◌, ◌-◌, ◌*◌, ◌%◌, ◌≤◌, ◌≡◌, refl, arith, true, List, [], ◌∷◌, some, get_elem?, length, ◌++◌,
}
use vn_sdm.Common.Int.{pos, ◌+ℤ◌, leb_ℤ, pos_part}
use vn_sdm.Wire.{Buffer}
use vn_sdm.ComponentId.{ComponentId}
use vn_sdm.Tm.Resources.{
  arch, mem, os, preferred_pm_id, preferred_pm_id_num, ignore_pm_id, set_preferred_pm_node_id,
  set_arch, set_mem, set_os,
}
use vn_sdm.Tm.Resources.Fields.{fields, fields_lem}
use vn_sdm.Tm.Task.{Task, init_task, pending}
use vn_sdm.Tm.TaskList.{TaskList}
use vn_sdm.Tm.TaskList.Blob.{tasks_all, fill_task_list_blob, fill_task_list_blob_bounded}
use vn_sdm.Tm.PmRecordList.{
  PmRecord, Slot, PmRecordList, free_slot, port_pm, is_eligible, suits, update_all, has_failed,
  removed, register_pm,
}
use vn_sdm.Tm.PmRecordList.Eligible.{IsFrom, find_pm, find_pm_light}
use vn_sdm.Tm.PmRecordList.Failed.{failed, remove_failed, remove_failed_lem}
use vn_sdm.Tm.PmRecordList.Heartbeats.{missed, register_pm-missed}

-- Node 5, an operating system, a memory and an architecture.
fields_lem_example :
    (fields (set_arch 0x5121 2) ≡ (arch 2, mem 0x5121, os 0x5121, preferred_pm_id 0x5121))
    × (fields (set_mem 0x5121 2) ≡ (arch 0x5121, mem 2, os 0x5121, preferred_pm_id 0x5121))
    × (fields (set_os 0x5121 2) ≡ (arch 0x5121, mem 0x5121, os 2, preferred_pm_id 0x5121))
    × (fields (set_preferred_pm_node_id 0x5121 2)
        ≡ (arch 0x5121, mem 0x5121, os 0x5121, 2 % 16 * 4096))
    × (preferred_pm_id_num (set_preferred_pm_node_id 0x5121 2) ≡ 16 * (2 % 16))
    × (ignore_pm_id 0x5121 ≡ arch 0x5121 + mem 0x5121 + os 0x5121)
    × (0x5121 ≡ ignore_pm_id 0x5121 + preferred_pm_id 0x5121)
fields_lem_example = fields_lem 0x5121 2 (omega arith)

abbrev a_task : Task
a_task = record init_task { state = pending; filename = some (b'a' ∷ []); resources = 0x0121 }

abbrev tasks : TaskList
tasks = init_task ∷ a_task ∷ []

abbrev zeros : Buffer
zeros _ = 0

abbrev line : Task → List ℕ
line t = b't' ∷ b';' ∷ []

fill_task_list_blob_bounded_example :
    ((fill_task_list_blob line tasks_all tasks zeros 20).1 ≤ 20)
    × ((fill_task_list_blob line tasks_all tasks zeros 20).0 20 ≡ zeros 20)
fill_task_list_blob_bounded_example =
    fill_task_list_blob_bounded line zeros 20 (omega arith) (omega arith) tasks_all tasks 20
      (omega arith)

abbrev node : ℕ → ComponentId
node n = record { sensor_id = 0; address = n; port = port_pm }

abbrev slot : ℕ → ℕ → ℕ → Slot
slot n count missed_count = record {
  pm = record { component_id = node n; resources = 0x0121; tasks = pos count; in_use = true };
  heartbeat_status = pos missed_count;
}

-- Three managers, with 4, 2 and no tasks, of which the second has missed two heartbeats.
abbrev slots : List Slot
slots = slot 1 4 0 ∷ slot 2 2 2 ∷ slot 3 0 0 ∷ free_slot ∷ []

abbrev pms : PmRecordList
pms = record { slots = slots; scheduler_info_index = 3 }

second-is_eligible : is_eligible 49 0x0121 (slot 2 2 2) ≡ true
unfolding suits arch os mem
second-is_eligible = refl

find_pm_light_example :
    (pm : PmRecord) × ((find_pm pms 0x0121 0 50).1 ≡ some pm)
    × IsFrom pms.slots 0x0121
        (pos_part (slot 2 2 2).pm.tasks + (1 - pos_part (slot 2 2 2).pm.tasks))
        pm
find_pm_light_example = find_pm_light pms 0x0121 1 (slot 2 2 2) refl second-is_eligible

remove_failed_lem_example :
    (remove_failed (length slots + 1) slots
      ≡ (update_all has_failed removed slots, failed slots, true))
    × (failed (update_all has_failed removed slots) ≡ [])
remove_failed_lem_example = remove_failed_lem slots

one_failed : failed slots ≡ (slot 2 2 2).pm ∷ []
unfolding failed
one_failed = refl

-- The slot of the removed second manager is taken by the manager of node 9.
register_pm-missed_example :
    (s' : Slot) × (get_elem?
        (missed 0
          (register_pm
            ((slot 1 4 0 ∷ []) ++ removed (slot 2 2 2) ∷ slot 3 0 0 ∷ [])
            (node 9)
            0x0121).0)
        (length (slot 1 4 0 ∷ []))
      ≡ some s')
    × (s'.pm.component_id ≡ record (node 9) { port = port_pm })
    × (has_failed s' ≡ leb_ℤ (pos 2) ((removed (slot 2 2 2)).heartbeat_status +ℤ pos 0))
register_pm-missed_example =
    register_pm-missed (slot 1 4 0 ∷ []) (slot 3 0 0 ∷ []) (removed (slot 2 2 2)) (node 9) 0x0121 0
      (refl, tt) refl

-- It has failed before any heartbeat was sent to it.
failed_at_once : leb_ℤ (pos 2) ((removed (slot 2 2 2)).heartbeat_status +ℤ pos 0) ≡ true
unfolding ◌+ℤ◌
failed_at_once = refl
