-- ===== src/Tm/Manager/Step.antt =====
-- The steps of the Task Manager, and what holds between two of them.
use vn_sdm.Common.{ℕ, suc, ◌^◌, ◌≤◌, ◌<◌, ◌≡◌, true, false, List, none, some, get_elem?, All}
use vn_sdm.Wire.{Buffer}
use vn_sdm.ComponentId.{ComponentId, component_id_invalid}
use vn_sdm.Message.SdmTask
use vn_sdm.Message.SdmTaskFinished
use vn_sdm.Tm.Task.{Task, inactive, scheduled, pending, has_state, assign}
use vn_sdm.Tm.TaskList.{TaskList}
use vn_sdm.Tm.TaskList.Update.{count_pid}
use vn_sdm.Tm.PmRecordList.{Slot, send_heartbeat_to_all, heartbeat_received}
use vn_sdm.Tm.PmRecordList.Ports.{HasPort}
use vn_sdm.Tm.Manager.{
  Manager, Choice, Output, create, post_task, reg_pm_handler, task_finished_handler,
  pm_running_task_handler, reset, remove_failed_pm, round, wake, start,
}

abbrev pub with_slots : Manager → List Slot → Manager
with_slots s slots = record s { pm_list = record (s.pm_list) { slots = slots } }

-- The steps, in any order. A finished task is reported by its pid, which is not 0; a running task is
-- reported by a pid that fits a long and that no task of the table has; and the pids do not run out.
pub data Step : Manager → Manager → Type 0 where
  posted : (s : Manager) (buf : Buffer) → Step s (post_task s buf).0
  registered : (s : Manager) (buf : Buffer) → Step s (reg_pm_handler s buf)
  finished :
      (s : Manager) (buf : Buffer)
      → 0 < (SdmTaskFinished.unmarshal SdmTaskFinished.create buf).0.pid
      → Step s (task_finished_handler s buf).0
  running :
      (s : Manager) (buf : Buffer)
      → 0 < (SdmTask.unmarshal SdmTask.create buf).0.pid
      → (SdmTask.unmarshal SdmTask.create buf).0.pid < 2 ^ 31
      → count_pid (SdmTask.unmarshal SdmTask.create buf).0.pid s.task_list ≡ 0
      → Step s (pm_running_task_handler s buf)
  was_reset : (s : Manager) → Step s (reset s)
  heartbeats_sent : (s : Manager) → Step s (with_slots s (send_heartbeat_to_all s.pm_list.slots).0)
  heartbeat_came :
      (s : Manager) (a : ComponentId) → Step s (with_slots s (heartbeat_received s.pm_list.slots a))
  pm_removed : (s : Manager) → Step s (remove_failed_pm s).0
  went_round :
      (s : Manager) (now : ℕ) (s' : Manager) (out : List Output)
      → s.sleeping ≡ none
      → suc s.next_pid < 2 ^ 31
      → round s now ≡ some (s', out)
      → Step s s'
  woke : (s : Manager) (c : Choice) → s.sleeping ≡ some c → s.checked ≡ false → Step s (wake s)
  went_on :
      (s : Manager) (c : Choice) (s' : Manager) (out : List Output)
      → s.sleeping ≡ some c
      → s.checked ≡ true
      → suc s.next_pid < 2 ^ 31
      → start s c ≡ some (s', out)
      → Step s s'

-- What a Task Manager that has just started can become.
pub data Reach : Manager → Type 0 where
  here : Reach create
  next : {s s' : Manager} → Reach s → Step s s' → Reach s'

-- A slot of the table, when `n` is the next pid.
pub record IsSound (n : ℕ) (t : Task) : Type 0 where
  pub pid_lt : t.pid < n
  pub free : has_state inactive t ≡ true → (t.pid ≡ 0) × (t.pm_component_id ≡ component_id_invalid)
  pub named : t.filename ≡ none → has_state inactive t ≡ true
  pub scheduled_pid : has_state scheduled t ≡ true → 0 < t.pid
  pub undelayed : 0 < t.pid → t.timeout ≡ 0

-- The task that was chosen before a sleep is still in its slot.
pub record Chosen (l : TaskList) (c : Choice) : Type 0 where
  pub task : Task
  pub at : get_elem? l c.task_index ≡ some task
  pub is_pending : task.state ≡ pending
  pub same : assign task ≡ c.task_data
  pub no_pid : task.pid ≡ 0

pub record Inv (s : Manager) : Type 0 where
  pub tasks : All (IsSound s.next_pid) s.task_list
  pub unique : (p : ℕ) → 0 < p → count_pid p s.task_list ≤ 1
  pub managers : All HasPort s.pm_list.slots
  pub next_pos : 0 < s.next_pid
  pub chosen : (c : Choice) → s.sleeping ≡ some c → s.scheduler_reset ≡ false → Chosen s.task_list c
