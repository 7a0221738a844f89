-- ===== src/Tm/TaskList.antt =====
-- tm/tasklist.{h,cpp}: the Task Manager's tasks, a table of NUMTASKS slots of which the inactive ones are
-- free.
pub mod Update
pub mod Blob
use vn_sdm.Common.{
  ℕ, zero, suc, ◌+◌, ◌-◌, ltb, leb, ◌==◌, if◌then◌else◌, Bool, true, false, not, ◌&&◌, ◌||◌, List,
  [], ◌∷◌, ◌++◌, length, Option, none, some, get_elem?, set, equal_text,
}
use vn_sdm.Wire.{Buffer, poke, put_short}
use vn_sdm.ComponentId
use vn_sdm.ComponentId.{ComponentId, component_id_invalid}
use vn_sdm.Message.SdmTaskError
use vn_sdm.Message.SdmTaskError.{SdmTaskError}
use vn_sdm.Tm.Resources.{Resources, match_resources, preferred_pm_id, set_preferred_pm_node_id}
use vn_sdm.Tm.Task.{
  TaskState, inactive, scheduled, pending, finished, Task, init_task, assign, set_pm, has_state,
  pid_invalid, mode_normal, mode_always_running,
}

-- NUMTASKS
abbrev pub num_tasks : ℕ
num_tasks = 50

-- `tasks`
abbrev pub TaskList : Type 0
TaskList = List Task

-- The loop that looks for a slot: the index of the first for which the test holds.
unfoldable pub find_index : (Task → Bool) → TaskList → Option ℕ
find_index test [] = none
find_index test (t ∷ l) =
    let rest = find_index test l in
    if test t then some 0 else elim rest [ none ↦ none | some n ↦ some (suc n) ]

-- The slot for which the test holds first, changed.
unfoldable pub update_first : (Task → Bool) → (Task → Task) → TaskList → TaskList × Bool
update_first test f [] = ([], false)
update_first test f (t ∷ l) =
    let (l', found) = update_first test f l in if test t then (f t ∷ l, true) else (t ∷ l', found)

-- The slot for which the test holds first.
unfoldable pub find_first : (Task → Bool) → TaskList → Option Task
find_first test [] = none
find_first test (t ∷ l) = let rest = find_first test l in if test t then some t else rest

abbrev pub has_pid : ℕ → Task → Bool
has_pid p t = t.pid == p

abbrev pub has_name : List ℕ → Task → Bool
has_name f t = elim t.filename [ none ↦ false | some g ↦ equal_text g f ]

-- `AnyInactive` and `AnyPending`
unfoldable pub any_in : TaskState → TaskList → Bool
any_in s [] = false
any_in s (t ∷ l) = has_state s t || any_in s l

-- `AddTo`
unfoldable pub add_to : TaskList → Task → TaskList × Bool
unfolding any_in update_first assign
add_to l t =
    if any_in inactive l then update_first (has_state inactive) (λ _. assign t) l else (l, false)

-- `RemoveFrom(unsigned int)`
unfoldable pub remove_from : TaskList → ℕ → TaskList × Bool
unfolding update_first
remove_from l p = update_first (has_pid p) (λ _. init_task) l

-- `RemoveFrom(char*)`, of a name
unfoldable pub remove_from_name : TaskList → List ℕ → TaskList × Bool
unfolding update_first
remove_from_name l f = update_first (has_name f) (λ _. init_task) l

-- A task to be scheduled again.
abbrev pub rescheduled : Task → Task
rescheduled t = record t { state = pending; pid = 0 }

-- `TaskFinished`: what becomes of the task depends on its mode; an unknown mode is refused.
unfoldable pub task_finished : TaskList → ℕ → TaskList × Bool
unfolding find_first update_first remove_from
task_finished l p = elim (find_first (has_pid p) l) [
  | none ↦ (l, false)
  | some t ↦
      if t.task_mode == mode_normal
      then remove_from l p
      else if t.task_mode == mode_always_running
      then ((update_first (has_pid p) rescheduled l).0, true)
      else (l, false)
]

-- `ClearList`
unfoldable pub clear_list : TaskList → TaskList
clear_list [] = []
clear_list (t ∷ l) = init_task ∷ clear_list l

-- `IsFilePresent`
unfoldable pub is_file_present : TaskList → List ℕ → Bool
is_file_present [] f = false
is_file_present (t ∷ l) f = has_name f t || is_file_present l f

-- The members that `SetState` sets.
abbrev pub with_state : TaskState → Task → Task
with_state finished t = record t { state = finished; pid = pid_invalid }
with_state s t = record t { state = s }

-- `SetState`
unfoldable pub set_state : TaskList → ℕ → TaskState → TaskList × ℕ
unfolding find_first update_first
set_state l p s = (
  (update_first (has_pid p) (with_state s) l).0,
  elim (find_first (has_pid p) l) [ none ↦ 0 | some t ↦ (with_state s t).pid ],
)

-- `FindPendingTask`: the index and the copy; `none` is -1.
unfoldable pub find_pending_task : TaskList → Option (ℕ × Task)
unfolding find_index find_first assign
find_pending_task l = elim (find_index (has_state pending) l) [
  | none ↦ none
  | some n ↦ elim (find_first (has_state pending) l) [ none ↦ none | some t ↦ some (n, assign t) ]
]

-- The condition of `FindPendingMatch`: the priority is compared with that of a new task, which is 0, as
-- signed chars.
abbrev pub matches : Resources → Task → Bool
matches r t = has_state pending t && (match_resources r t.resources && ltb t.priority 128)

-- `FindPendingMatch`: the table, and the task found.
unfoldable pub find_pending_match : TaskList → Resources → ℕ → TaskList × Option Task
unfolding update_first find_first assign
find_pending_match l r new_pid = (
  (update_first (matches r) (λ t. record t { pid = new_pid }) l).0,
  elim (find_first (matches r) l) [
    | none ↦ none
    | some t ↦ some (assign (record t { pid = new_pid }))
  ],
)

-- `SetAddress`
unfoldable pub set_address : TaskList → ℕ → ComponentId → TaskList × Bool
unfolding update_first set_pm
set_address l p pm = update_first (has_pid p) (λ t. set_pm t pm) l

-- `RemovePreferredPmId`
unfoldable pub remove_preferred_pm_id : TaskList → Resources → TaskList
unfolding preferred_pm_id set_preferred_pm_node_id
remove_preferred_pm_id [] r = []
remove_preferred_pm_id (t ∷ l) r =
    (if not (has_state inactive t) && preferred_pm_id t.resources == preferred_pm_id r
      then record t { resources = set_preferred_pm_node_id t.resources 0 }
      else t)
    ∷ remove_preferred_pm_id l r

-- `FindPID`, of a name
unfoldable pub find_pid : TaskList → List ℕ → ℕ
unfolding find_first
find_pid l f = elim (find_first (λ t. has_state scheduled t && has_name f t) l) [
  | none ↦ pid_invalid
  | some t ↦ t.pid
]

-- `PMFailure`: the table, and the messages sent, in order.
unfoldable pub pm_failure : TaskList → ComponentId → TaskList × List SdmTaskError
pm_failure [] pm = ([], [])
pm_failure (t ∷ l) pm =
    let (l', sent) = pm_failure l pm in
    if ComponentId.equal t.pm_component_id pm
    then (record t { state = pending } ∷ l', error t ∷ sent)
    else (t ∷ l', sent)
  where
    error : Task → SdmTaskError
    error t = record SdmTaskError.create { source = record pm { sensor_id = t.pid }; pid = t.pid }

-- `GetPMAddress`
unfoldable pub get_pm_address : TaskList → ℕ → ComponentId
unfolding find_first
get_pm_address l p = elim (find_first (has_pid p) l) [
  | none ↦ component_id_invalid
  | some t ↦ t.pm_component_id
]

-- `operator[]`; `none` is the exception SDMBadIndexException.
unfoldable pub index : TaskList → ℕ → Option Task
index l i = elim (get_elem? l i) [
  | none ↦ none
  | some t ↦ if has_state inactive t then none else some t
]
