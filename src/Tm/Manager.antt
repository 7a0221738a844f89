-- ===== src/Tm/Manager.antt =====
-- tm/tm.cpp: the handlers and threads of the Task Manager that work on its two lists, in a build without
-- PNP_BACKUP. A handler runs as one step; `Scheduler` is three: it chooses a task and sleeps, it looks
-- at the reset flag, and it starts the task; it holds no mutex between them. What is printed and counted is left out, and a notification to be published is an
-- output.
pub mod Step
pub mod Kept
pub mod Sweep
pub mod Reach
pub mod Handlers
pub mod Failure
pub mod Scheduling
pub mod Exceptions
pub mod Ended
pub mod Recovered
use vn_sdm.Common.{
  ℕ, zero, suc, ◌+◌, ◌-◌, ◌^◌, ◌%◌, ltb, leb, ◌==◌, if◌then◌else◌, Bool, true, false, not, ◌&&◌,
  List, [], ◌∷◌, get_or, Option, none, some, set, map,
}
use vn_sdm.Wire.{Buffer, max_filename_size}
use vn_sdm.ComponentId.{ComponentId}
use vn_sdm.Header.{Result, invalid_message, read}
use vn_sdm.Message.SdmPostTask
use vn_sdm.Message.SdmRegPm
use vn_sdm.Message.SdmTask
use vn_sdm.Message.SdmTask.{SdmTask}
use vn_sdm.Message.SdmTaskError.{SdmTaskError}
use vn_sdm.Message.SdmTaskFinished
use vn_sdm.Tm.Resources.{Resources, is_preferred_pm_id_set}
use vn_sdm.Tm.Task.{Task, init_task, set_task, text_of, pending, scheduled, mode_normal}
use vn_sdm.Tm.TaskList
use vn_sdm.Tm.TaskList.{
  TaskList, num_tasks, any_in, add_to, clear_list, find_pending_task, remove_preferred_pm_id,
  pm_failure, index,
}
use vn_sdm.Tm.PmRecordList
use vn_sdm.Tm.PmRecordList.{
  PmRecord, Slot, PmRecordList, already_registered, register_pm, clear_all_running_tasks,
  task_has_started, find_pmid, is_empty, get_tasks, set_tasks, remove_any_failed,
}
use vn_sdm.Tm.PmRecordList.Eligible.{find_pm}

-- What `Scheduler` keeps over `sleep`: TaskIndex, TaskData and PMData.
pub record Choice : Type 0 where
  pub task_index : ℕ
  pub task_data : Task
  pub pm_data : PmRecord

-- The globals. `last_seconds`, `sleeping` and `checked` are the local state of `Scheduler`: `checked` when
-- it slept and found no reset, but does not hold `list_mutex` yet.
pub record Manager : Type 0 where
  pub task_list : TaskList
  pub pm_list : PmRecordList
  pub pending_pms : List Slot
  pub next_pid : ℕ
  pub scheduler_reset : Bool
  pub last_seconds : ℕ
  pub sleeping : Option Choice
  pub checked : Bool

-- What it sends and publishes.
pub data Output : Type 0 where
  task_sent : SdmTask → ComponentId → Output
  error_sent : SdmTaskError → Output
  kill_sent : ℕ → ComponentId → Output
  task_queued : List ℕ → Output
  task_started : List ℕ → ℕ → Output
  task_finished : List ℕ → ℕ → ℕ → Output

-- The state at the start.
abbrev pub init_tasks : ℕ → TaskList
init_tasks zero = []
init_tasks (suc n) = init_task ∷ init_tasks n

abbrev pub create : Manager
create = record {
  task_list = init_tasks num_tasks;
  pm_list = PmRecordList.create;
  pending_pms = PmRecordList.create.slots;
  next_pid = 1;
  scheduler_reset = false;
  last_seconds = 0;
  sleeping = none;
  checked = false;
}

-- A message that is rejected has no effect.
abbrev pub if_read {ℓ} : {A : Type ℓ} → Result → A → A → A
if_read invalid_message a b = a
if_read (read n) a b = b

-- The task that `PostTask` enters.
unfoldable pub posted_task : SdmPostTask.SdmPostTask → Task
unfolding set_task
posted_task msg =
    set_task init_task pending msg.priority 0 msg.resources
      (text_of max_filename_size msg.filename 0) msg.sched_interval msg.mode msg.version

-- `PostTask`, of a message that was read
unfoldable pub post : Manager → SdmPostTask.SdmPostTask → Manager × List Output
unfolding text_of add_to posted_task
post s msg = (
  record s { task_list = (add_to s.task_list (posted_task msg)).0 },
  task_queued (text_of max_filename_size msg.filename 0) ∷ [],
)

-- `PostTask`
unfoldable pub post_task : Manager → Buffer → Manager × List Output
unfolding SdmPostTask.unmarshal post
post_task s buf =
    let (msg, r) = SdmPostTask.unmarshal SdmPostTask.create buf in if_read r (s, []) (post s msg)

-- `RegPMHandler`, of a message that was read
unfoldable pub register : Manager → SdmRegPm.SdmRegPm → Manager
unfolding already_registered register_pm get_tasks set_tasks
register s msg =
    let slots = s.pm_list.slots in
    let registered = (register_pm slots msg.source msg.resources).0 in
    let slots' =
      if already_registered s.pending_pms msg.source
      then set_tasks registered msg.source (get_tasks s.pending_pms msg.source)
      else registered in
    if already_registered slots msg.source
    then s
    else record s { pm_list = record (s.pm_list) { slots = slots' } }

-- `RegPMHandler`
unfoldable pub reg_pm_handler : Manager → Buffer → Manager
unfolding SdmRegPm.unmarshal register
reg_pm_handler s buf =
    let (msg, r) = SdmRegPm.unmarshal SdmRegPm.create buf in if_read r s (register s msg)

-- `TaskFinishedHandler`, of a message that was read
unfoldable pub finish : Manager → SdmTaskFinished.SdmTaskFinished → Manager × List Output
unfolding text_of PmRecordList.task_finished TaskList.task_finished
finish s msg = (
  record s {
    pm_list = record (s.pm_list) {
      slots = (PmRecordList.task_finished s.pm_list.slots msg.source).0;
    };
    task_list = (TaskList.task_finished s.task_list msg.pid).0;
  },
  task_finished (text_of (max_filename_size - 1) msg.filename 0) msg.result msg.pid ∷ [],
)

-- `TaskFinishedHandler`
unfoldable pub task_finished_handler : Manager → Buffer → Manager × List Output
unfolding SdmTaskFinished.unmarshal finish
task_finished_handler s buf =
    let (msg, r) = SdmTaskFinished.unmarshal SdmTaskFinished.create buf in
    if_read r (s, []) (finish s msg)

-- The task that `PMRunningTaskHandler` enters.
unfoldable pub running_task : SdmTask → Task
unfolding set_task
running_task msg =
    set_task init_task scheduled msg.priority msg.pid 0 (text_of max_filename_size msg.filename 0) 0
      mode_normal 0

-- The managers that `PMRunningTaskHandler` leaves: those registered, and those that have not yet.
unfoldable pub count_running : List Slot → List Slot → ComponentId → List Slot × List Slot
unfolding task_has_started already_registered register_pm
count_running slots pendings a =
    let (slots', found) = task_has_started slots a in
    if found
    then (slots', pendings)
    else if already_registered pendings a
    then (slots', (task_has_started pendings a).0)
    else (slots', (task_has_started (register_pm pendings a 0).0 a).0)

-- `PMRunningTaskHandler`, of a message that was read. Its pid is a long: the pattern of a negative one
-- is at least 2 ^ 31.
unfoldable pub enter_running : Manager → SdmTask → Manager
unfolding running_task add_to count_running
enter_running s msg =
    let (slots, pendings) = count_running s.pm_list.slots s.pending_pms msg.source in
    record s {
      task_list = (add_to s.task_list (running_task msg)).0;
      pm_list = record (s.pm_list) { slots = slots };
      pending_pms = pendings;
      next_pid = if leb s.next_pid msg.pid && ltb msg.pid (2 ^ 31) then msg.pid + 1 else s.next_pid;
    }

-- `PMRunningTaskHandler`
unfoldable pub pm_running_task_handler : Manager → Buffer → Manager
unfolding SdmTask.unmarshal enter_running
pm_running_task_handler s buf =
    let (msg, r) = SdmTask.unmarshal SdmTask.create buf in if_read r s (enter_running s msg)

-- `PerformKill`
unfoldable pub perform_kill : Manager → ℕ → List Output
unfolding TaskList.get_pm_address
perform_kill s pid = kill_sent pid (TaskList.get_pm_address s.task_list pid) ∷ []

-- The reset of `CommandHandler`, up to the tasks that `InitialStartUp` posts.
unfoldable pub reset : Manager → Manager
unfolding clear_list clear_all_running_tasks
reset s = record s {
  scheduler_reset = true;
  task_list = clear_list s.task_list;
  pm_list = record (s.pm_list) { slots = clear_all_running_tasks s.pm_list.slots };
}

-- A round of the loop of `PMHeartbeat` that removes the failed managers, and whether it goes on.
unfoldable pub remove_failed_pm : Manager → Manager × List Output × Bool
unfolding remove_any_failed pm_failure
remove_failed_pm s =
    let (slots, found) = remove_any_failed s.pm_list.slots in
    elim found [
      | none ↦ (record s { pm_list = record (s.pm_list) { slots = slots } }, [], false)
      | some pm ↦
          let (tasks, errors) = pm_failure s.task_list pm.component_id in
          (
            record s { pm_list = record (s.pm_list) { slots = slots }; task_list = tasks },
            map error_sent errors,
            true,
          )
    ]

-- PREFERRED_SCHEDULE_TIMEOUT
abbrev pub preferred_schedule_timeout : ℕ
preferred_schedule_timeout = 60

-- `SendTask`: the message. `strncpy` fills the array from the name.
unfoldable pub send_task : PmRecord → Task → List Output
send_task pm task =
    let name : List ℕ = elim task.filename [ none ↦ [] | some f ↦ f ] in
    task_sent
      (record SdmTask.create {
        priority = task.priority;
        filename = λ i. if ltb i max_filename_size then get_or name i 0 else 0;
        pid = task.pid;
        version = task.task_version;
      })
      pm.component_id
    ∷ task_started name task.pid
    ∷ []

-- The slot of a task that was started.
abbrev pub started : Task → ℕ → PmRecord → Task
started t pid pm = record t {
  pid = pid;
  state = scheduled;
  timeout = 0;
  pm_component_id = pm.component_id;
}

-- The end of a round of `Scheduler`: the task is started. `none` is the exception of `operator[]`.
unfoldable pub start : Manager → Choice → Option (Manager × List Output)
unfolding index send_task task_has_started
start s c =
    let pid = s.next_pid % 2 ^ 32 in
    let pm = c.pm_data in
    elim (index s.task_list c.task_index) [
      | none ↦ none
      | some t ↦ some (
        record s {
          task_list = set s.task_list c.task_index (started t pid pm);
          pm_list = record (s.pm_list) {
            slots = (task_has_started s.pm_list.slots pm.component_id).0;
          };
          next_pid = s.next_pid + 1;
          last_seconds = 0;
          sleeping = none;
          checked = false;
        },
        send_task pm (record (c.task_data) { pid = pid }),
      )
    ]

-- No manager has the preferred id: the time that `Scheduler` waits for one.
unfoldable pub wait_preferred : Manager → ℕ → Resources → Manager
unfolding remove_preferred_pm_id
wait_preferred s now r =
    if s.last_seconds == 0
    then record s { last_seconds = now }
    else if ltb preferred_schedule_timeout ((now + (2 ^ 32 - s.last_seconds)) % 2 ^ 32)
    then record s { task_list = remove_preferred_pm_id s.task_list r }
    else s

-- The manager that `Scheduler` chooses for a task.
unfoldable pub choose_pm : PmRecordList → Resources → PmRecordList × Option PmRecord
choose_pm l r = if is_preferred_pm_id_set r then (l, find_pmid l.slots r) else find_pm l r 0 50

-- A task and a manager were chosen: the task is started at once, or after `sleep`.
unfoldable pub begin : Manager → Choice → Option (Manager × List Output)
begin s c =
    if c.task_data.timeout == 0
    then start s c
    else some (record s { sleeping = some c; checked = false }, [])

-- A round of `Scheduler` that has found the pending task of slot `i`.
unfoldable pub schedule : Manager → ℕ → ℕ → Task → Option (Manager × List Output)
schedule s now i task =
    let r = task.resources in
    let (pms, found) = choose_pm s.pm_list r in
    let s' : Manager = record s { pm_list = pms } in
    let waiting = if is_preferred_pm_id_set r then wait_preferred s' now r else s' in
    if is_empty s.pm_list.slots then some (s, []) else elim found [
      | none ↦ some (waiting, [])
      | some pm ↦ begin s' (record { task_index = i; task_data = task; pm_data = pm })
    ]

-- A round of `Scheduler` at the time `now`, from its start to `sleep` or to its end. `AnyPending` and
-- `FindPendingTask` are one step here.
unfoldable pub round : Manager → ℕ → Option (Manager × List Output)
round s now = elim (find_pending_task s.task_list) [
  | none ↦ some (record s { last_seconds = 0 }, [])
  | some (i, task) ↦ schedule s now i task
]

-- `Scheduler` behind its `sleep`, while it holds `g_mutexSchedulerReset`. What it does then is `start`.
unfoldable pub wake : Manager → Manager
wake s =
    if s.scheduler_reset
    then record s { scheduler_reset = false; sleeping = none }
    else record s { checked = true }
