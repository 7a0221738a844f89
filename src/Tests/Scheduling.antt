-- ===== src/Tests/Scheduling.antt =====
-- Runs of the Task Manager's handlers and threads.
use vn_sdm.Common.{
  ℕ, suc, ◌^◌, ◌<◌, ◌≡◌, refl, arith, if◌then◌else◌, true, false, [], ◌∷◌, none, some, get_elem?,
  set, get_or, ◌⊎◌,
}
use vn_sdm.Common.Int.{pos}
use vn_sdm.Wire.{Buffer, strlen, get_text}
use vn_sdm.ComponentId.{ComponentId}
use vn_sdm.Header
use vn_sdm.Header.{Timeval}
use vn_sdm.Message.SdmRegPm
use vn_sdm.Message.SdmPostTask
use vn_sdm.Message.SdmTask
use vn_sdm.Message.SdmTask.{SdmTask}
use vn_sdm.Message.SdmTaskFinished
use vn_sdm.Message.SdmTaskFinished.{SdmTaskFinished}
use vn_sdm.Tm.Resources.{is_preferred_pm_id_set}
use vn_sdm.Tm.Task.{text_of, Task, init_task, assign, pending, scheduled, inactive, has_state}
use vn_sdm.Tm.TaskList.{find_pending_task, find_index, pm_failure}
use vn_sdm.Tm.TaskList.Update.{count_pid}
use vn_sdm.Tm.PmRecordList.{port_pm, is_empty}
use vn_sdm.Tm.PmRecordList.Eligible.{find_pm}
use vn_sdm.Tm.Manager.{
  pm_running_task_handler, Manager, Choice, create, post_task, reg_pm_handler, schedule, begin,
  choose_pm, running_task, enter_running, finish, round, wake, start, reset,
}
use vn_sdm.Tm.Manager.Step.{
  Reach, here, next, posted, registered, running, went_round, woke, was_reset, Inv,
}
use vn_sdm.Tm.Manager.Reach.{Reach-Inv}
use vn_sdm.Tm.Manager.Exceptions.{Starts, IsRound, wake_lem, round_lem}
use vn_sdm.Tm.Manager.Ended.{ended, finish_lem}
use vn_sdm.Tm.Manager.Recovered.{enter_running_failure}

abbrev zeros : Buffer
zeros _ = 0

abbrev node : ℕ → ComponentId
node n = record { sensor_id = 0; address = n; port = port_pm }

abbrev now : Timeval
now = record { tv_sec = 1700000000; tv_usec = 250000 }

-- A task with a delay of 3 s, and the registration of a manager.
abbrev posted_bytes : Buffer
posted_bytes =
    (SdmPostTask.marshal now
      (record SdmPostTask.create {
        resources = 0x0121;
        sched_interval = 3;
        filename = λ i. get_or (b'l' ∷ b's' ∷ []) i 0;
      })
      zeros).1

abbrev registered_bytes : Buffer
registered_bytes =
    (SdmRegPm.marshal now (record SdmRegPm.create { source = node 7; resources = 0x0121 }) zeros).1

abbrev with_task : Manager
with_task = (post_task create posted_bytes).0

abbrev with_pm : Manager
with_pm = reg_pm_handler with_task registered_bytes

with_pm-Reach : Reach with_pm
with_pm-Reach =
    next (next here (posted create posted_bytes)) (registered with_task registered_bytes)

abbrev delayed : Task
delayed = record init_task {
  state = pending;
  resources = 0x0121;
  filename = some (b'l' ∷ b's' ∷ []);
  timeout = 3;
}

abbrev choice : Choice
choice = record {
  task_index = 0;
  task_data = delayed;
  pm_data = record { component_id = node 7; resources = 0x0121; tasks = pos 0; in_use = true };
}

abbrev asleep : Manager
asleep = record with_pm {
  sleeping = some choice;
  pm_list = record (with_pm.pm_list) { scheduler_info_index = 1 };
}

falls_asleep : round with_pm 100 ≡ some (asleep, [])
unfolding round schedule begin choose_pm post_task SdmPostTask.marshal reg_pm_handler
    SdmRegPm.marshal find_pending_task find_pm is_preferred_pm_id_set is_empty
    Header.marshal_old_time_stamp strlen get_text
falls_asleep = refl

pids_left : suc with_pm.next_pid < 2 ^ 31
unfolding post_task reg_pm_handler SdmPostTask.marshal SdmRegPm.marshal
    Header.marshal_old_time_stamp strlen get_text
pids_left = omega arith

not_asleep : with_pm.sleeping ≡ none
unfolding post_task reg_pm_handler SdmPostTask.marshal SdmRegPm.marshal
    Header.marshal_old_time_stamp strlen get_text
not_asleep = refl

asleep-Reach : Reach asleep
asleep-Reach =
    next with_pm-Reach (went_round with_pm 100 asleep [] not_asleep pids_left falls_asleep)

Reach-Inv_example : Inv asleep
Reach-Inv_example = Reach-Inv asleep-Reach

round_lem_example : IsRound with_pm (round with_pm 100)
round_lem_example = round_lem with_pm 100 with_pm-Reach not_asleep pids_left

wake_lem_example :
    ((wake asleep).sleeping ≡ (if asleep.scheduler_reset then none else some choice))
    × ((wake asleep).scheduler_reset ≡ false)
    × ((asleep.scheduler_reset ≡ true)
        ⊎ ((t : Task) × Starts asleep choice t (start asleep choice)))
    × (start (reset asleep) choice ≡ none)
wake_lem_example = wake_lem asleep choice asleep-Reach refl pids_left

-- A reset between the look at the flag and the start.
reset_late-Reach : Reach (reset (wake asleep))
unfolding reg_pm_handler SdmRegPm.marshal Header.marshal_old_time_stamp post_task
    SdmPostTask.marshal strlen
reset_late-Reach = next (next asleep-Reach (woke asleep choice refl refl)) (was_reset (wake asleep))

-- The Process Manager of node 7 runs task 12, and reports it.
abbrev reported : SdmTask
reported = record SdmTask.create {
  source = node 7;
  pid = 12;
  filename = λ i. get_or (b'l' ∷ b's' ∷ []) i 0;
}

first_free : find_index (has_state inactive) create.task_list ≡ some 0
unfolding find_index
first_free = refl

enter_running_failure_example :
    let t = assign (running_task reported) in
    (get_elem? (enter_running create reported).task_list 0 ≡ some t)
    × (get_elem? (pm_failure (enter_running create reported).task_list (node 7)).0 0 ≡ some t)
    × (t.state ≡ scheduled)
    × (t.pid ≡ reported.pid)
enter_running_failure_example = enter_running_failure create reported 0 (node 7) first_free refl

abbrev running_bytes : Buffer
running_bytes = (SdmTask.marshal now reported zeros).1

abbrev with_running : Manager
with_running = pm_running_task_handler create running_bytes

running_pid : (SdmTask.unmarshal SdmTask.create running_bytes).0.pid ≡ 12
unfolding SdmTask.marshal SdmTask.unmarshal Header.marshal_old_time_stamp strlen get_text
running_pid = refl

new_pid : count_pid 12 create.task_list ≡ 0
unfolding count_pid
new_pid = refl

with_running-Reach : Reach with_running
with_running-Reach = next here (
    running create running_bytes (omega (arith, running_pid)) (omega (arith, running_pid))
      (rw running_pid new_pid))

abbrev report : SdmTaskFinished
report = record SdmTaskFinished.create { source = node 7; pid = 12 }

abbrev entry : Task
entry = record init_task { state = scheduled; pid = 12; filename = some (b'l' ∷ b's' ∷ []) }

entered : get_elem? with_running.task_list 0 ≡ some entry
unfolding pm_running_task_handler running_task assign SdmTask.marshal Header.marshal_old_time_stamp
    strlen get_text text_of
entered = refl

finish_lem_example :
    (finish with_running report).0.task_list ≡ set with_running.task_list 0 (ended entry)
finish_lem_example =
    finish_lem with_running report 0 entry with_running-Reach (omega arith) entered refl
