-- ===== src/Tm/Task.antt =====
-- tm/task.{h,cpp}: a task of the Task Manager. The text of a `char*` is its bytes before the terminator,
-- and `none` for NULL.
use vn_sdm.Common.{ℕ, zero, suc, ◌+◌, ◌==◌, if◌then◌else◌, Bool, List, [], ◌∷◌, Option, none, some}
use vn_sdm.Wire.{Buffer}
use vn_sdm.ComponentId.{ComponentId, component_id_invalid}
use vn_sdm.Tm.Resources.{Resources}

-- The task status of common/task/taskdefs.h
pub data TaskState : Type 0 where
  inactive : TaskState
  active : TaskState
  assigned : TaskState
  scheduled : TaskState
  pending : TaskState
  finished : TaskState
  running : TaskState

-- PID_INVALID
abbrev pub pid_invalid : ℕ
pid_invalid = 0

-- MODE_NORMAL and MODE_ALWAYS_RUNNING
abbrev pub mode_normal : ℕ
mode_normal = 0

abbrev pub mode_always_running : ℕ
mode_always_running = 1

-- class Task
pub record Task : Type 0 where
  pub pm_component_id : ComponentId
  pub state : TaskState
  pub priority : ℕ
  pub pid : ℕ
  pub resources : Resources
  pub filename : Option (List ℕ)
  pub timeout : ℕ
  pub task_mode : ℕ
  pub task_version : ℕ

-- `InitTask`; `Delete` frees the name first.
abbrev pub init_task : Task
init_task = record {
  pm_component_id = component_id_invalid;
  state = inactive;
  priority = 0;
  pid = pid_invalid;
  resources = 0;
  filename = none;
  timeout = 0;
  task_mode = mode_normal;
  task_version = 0;
}

-- `SetTask`
unfoldable pub set_task : Task → TaskState → ℕ → ℕ → Resources → List ℕ → ℕ → ℕ → ℕ → Task
set_task t s pr p r f atimeout a_mode a_version = record t {
  state = s;
  priority = pr;
  pid = p;
  resources = r;
  filename = some f;
  timeout = atimeout;
  task_mode = a_mode;
  task_version = a_version;
}

-- `operator=`, of a right side that has a name: `Delete`, and `SetTask` with the right side's members,
-- which leaves the Process Manager's address out.
unfoldable pub assign : Task → Task
assign t = record t { pm_component_id = component_id_invalid }

-- `SetPM`
unfoldable pub set_pm : Task → ComponentId → Task
set_pm t pm = record t { pm_component_id = pm }

-- The same state.
abbrev pub code : TaskState → ℕ
code inactive = 0
code active = 1
code assigned = 2
code scheduled = 3
code pending = 4
code finished = 5
code running = 6

abbrev pub has_state : TaskState → Task → Bool
has_state s t = code t.state == code s

-- The text of at most `limit` bytes at an offset of a buffer.
unfoldable pub text_of : ℕ → Buffer → ℕ → List ℕ
text_of zero buf q = []
text_of (suc limit) buf q =
    let rest = text_of limit buf (q + 1) in if buf q == 0 then [] else buf q ∷ rest
