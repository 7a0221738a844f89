-- ===== src/Pm/Process.antt =====
-- pm/PMProcess.{h,cpp}: a process of the Process Manager, and the heartbeats it misses. The time is an
-- argument, in seconds; Kill calls the operating system and is left out. The counters are unbounded.
pub mod Patience
use vn_sdm.Common.{
  ℕ, zero, suc, ◌+◌, ◌-◌, ltb, leb, ◌==◌, if◌then◌else◌, Bool, true, false, not, ◌&&◌, List, [],
  ◌∷◌,
}

-- TASK_HEARTBEAT_TIMEOUT and TASK_TIMEOUT_ATTEMPTS
abbrev pub task_heartbeat_timeout : ℕ
task_heartbeat_timeout = 10

abbrev pub task_timeout_attempts : ℕ
task_timeout_attempts = 6

abbrev pub max_filename_size : ℕ
max_filename_size = 128

-- class PMProcess
pub record Process : Type 0 where
  pub filename : List ℕ
  pub last_heartbeat : ℕ
  pub heartbeat_miss_count : ℕ
  pub sdm_pid : ℕ
  pub os_pid : ℕ
  pub total_fail_count : ℕ
  pub failed_state : Bool

-- The bytes of a text that `strncpy` keeps.
unfoldable pub kept : ℕ → List ℕ → List ℕ
kept zero t = []
kept (suc n) [] = []
kept (suc n) (c ∷ t) = c ∷ kept n t

-- The constructor of a process with a name
unfoldable pub create : List ℕ → ℕ → ℕ → Process
unfolding kept
create name sdm_pid os_pid = record {
  filename = kept max_filename_size name;
  last_heartbeat = 0;
  heartbeat_miss_count = 0;
  sdm_pid = sdm_pid;
  os_pid = os_pid;
  total_fail_count = 0;
  failed_state = false;
}

-- `SetOsPid`
abbrev pub set_os_pid : ℕ → Process → Process
set_os_pid pid p = record p { os_pid = pid }

-- `IsNormalFinish`
abbrev pub is_normal_finish : Process → Bool
is_normal_finish p = not p.failed_state

-- `HeartbeatReceived`
unfoldable pub heartbeat_received : ℕ → Process → Process
heartbeat_received now p = record p { last_heartbeat = now; heartbeat_miss_count = 0 }

-- `IsUnresponsive`: the process, and whether it has missed too many heartbeats.
unfoldable pub is_unresponsive : ℕ → Process → Process × Bool
is_unresponsive now p =
    if p.last_heartbeat == 0 && not p.failed_state
    then (p, false)
    else if ltb now p.last_heartbeat
    then (p, false)
    else if ltb (now - p.last_heartbeat) task_heartbeat_timeout
    then (p, false)
    else (
      record p {
        last_heartbeat = p.last_heartbeat + task_heartbeat_timeout;
        heartbeat_miss_count = p.heartbeat_miss_count + 1;
      },
      leb task_timeout_attempts (p.heartbeat_miss_count + 1),
    )

-- `Failure`
unfoldable pub failure : Process → Process
failure p = record p {
  failed_state = true;
  total_fail_count = p.total_fail_count + 1;
  last_heartbeat = 0;
  heartbeat_miss_count = 0;
}

-- `Reset`
unfoldable pub reset : Process → Process
reset p = record p { os_pid = 0; failed_state = false }
