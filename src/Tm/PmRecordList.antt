-- ===== src/Tm/PmRecordList.antt =====
-- tm/pm_record.{h,cpp} and tm/pm_record_list.{h,cpp}: the Process Managers that have registered, and how
-- many heartbeats each has missed. The arrays `pmList` and `HeartbeatStatus` are one list of MAX_PM
-- slots. The number of tasks, a short, is an integer of any size. Every method holds the mutex throughout.
pub mod Eligible
pub mod Failed
pub mod Heartbeats
pub mod Ports
use vn_sdm.Common.{
  ℕ, zero, suc, ◌+◌, ltb, leb, ◌==◌, if◌then◌else◌, Bool, true, false, not, ◌&&◌, ◌||◌, List, [],
  ◌∷◌, length, Option, none, some,
}
use vn_sdm.Common.Int.{ℤ, pos, negsuc, ◌+ℤ◌, ◌-ℤ◌, leb_ℤ}
use vn_sdm.ComponentId.{ComponentId, component_id_invalid}
use vn_sdm.Tm.Resources.{Resources, arch, mem, os, preferred_pm_id, is_preferred_pm_id_set}

-- class pm_record
pub record PmRecord : Type 0 where
  pub component_id : ComponentId
  pub resources : Resources
  pub tasks : ℤ
  pub in_use : Bool

-- An element of `pmList` and of `HeartbeatStatus`.
pub record Slot : Type 0 where
  pub pm : PmRecord
  pub heartbeat_status : ℤ

-- class PMRecordList
pub record PmRecordList : Type 0 where
  pub slots : List Slot
  pub scheduler_info_index : ℕ

-- MAX_PM
abbrev pub max_pm : ℕ
max_pm = 8

-- PORT_PM
abbrev pub port_pm : ℕ
port_pm = 3508

-- HEARTBEAT_INACTIVE
abbrev pub heartbeat_inactive : ℤ
heartbeat_inactive = negsuc 0

-- pm_record(), with the heartbeat status that the constructor of the list sets
abbrev pub free_slot : Slot
free_slot = record {
  pm = record { component_id = component_id_invalid; resources = 0; tasks = pos 0; in_use = false };
  heartbeat_status = pos 0;
}

abbrev pub free_slots : ℕ → List Slot
free_slots zero = []
free_slots (suc n) = free_slot ∷ free_slots n

-- The constructor.
abbrev pub create : PmRecordList
create = record { slots = free_slots max_pm; scheduler_info_index = 0 }

-- `pmList[i].in_use && pmList[i].component_id.getAddress() == PMAddress.getAddress()`
abbrev pub is_at : ComponentId → Slot → Bool
is_at a s = s.pm.in_use && s.pm.component_id.address == a.address

-- `AlreadyRegistered`, which warns of a second manager with the same node number.
unfoldable pub already_registered : List Slot → ComponentId → Bool
already_registered [] a = false
already_registered (s ∷ l) a = is_at a s || already_registered l a

-- The slot for which a test holds first, changed.
unfoldable pub update_first : (Slot → Bool) → (Slot → Slot) → List Slot → List Slot × Bool
update_first test f [] = ([], false)
update_first test f (s ∷ l) =
    let (l', found) = update_first test f l in if test s then (f s ∷ l, true) else (s ∷ l', found)

-- All slots for which a test holds, changed.
unfoldable pub update_all : (Slot → Bool) → (Slot → Slot) → List Slot → List Slot
update_all test f [] = []
update_all test f (s ∷ l) = (if test s then f s else s) ∷ update_all test f l

-- `RegisterPM`: the heartbeat status stays as it was.
unfoldable pub register_pm : List Slot → ComponentId → Resources → List Slot × Bool
unfolding update_first
register_pm l a r =
    update_first (λ s. not s.pm.in_use)
      (λ s. record s {
        pm = record {
          component_id = record a { port = port_pm };
          resources = r;
          tasks = pos 0;
          in_use = true;
        };
      })
      l

abbrev pub with_tasks : ℤ → Slot → Slot
with_tasks n s = record s { pm = record (s.pm) { tasks = n } }

-- `ClearAllRunningTasks`
unfoldable pub clear_all_running_tasks : List Slot → List Slot
unfolding update_all
clear_all_running_tasks l = update_all (λ _. true) (with_tasks (pos 0)) l

-- `TaskFinished`
unfoldable pub task_finished : List Slot → ComponentId → List Slot × Bool
unfolding update_first ◌-ℤ◌
task_finished l a = update_first (is_at a) (λ s. with_tasks (s.pm.tasks -ℤ pos 1) s) l

-- `TaskHasStarted`
unfoldable pub task_has_started : List Slot → ComponentId → List Slot × Bool
unfolding update_first ◌+ℤ◌
task_has_started l a = update_first (is_at a) (λ s. with_tasks (s.pm.tasks +ℤ pos 1) s) l

-- The first slot for which a test holds.
unfoldable pub find_first : (Slot → Bool) → List Slot → Option PmRecord
find_first test [] = none
find_first test (s ∷ l) = let rest = find_first test l in if test s then some s.pm else rest

-- `FindPMID`
unfoldable pub find_pmid : List Slot → Resources → Option PmRecord
unfolding find_first preferred_pm_id is_preferred_pm_id_set
find_pmid l r =
    if is_preferred_pm_id_set r
    then find_first (λ s. preferred_pm_id r == preferred_pm_id s.pm.resources) l
    else none

-- The condition of `FindEligiblePM`. Architecture and system are compared together.
unfoldable pub suits : Resources → Slot → Bool
unfolding arch os mem
suits r s =
    arch s.pm.resources + os s.pm.resources == arch r + os r && leb (mem r) (mem s.pm.resources)

abbrev pub is_eligible : ℕ → Resources → Slot → Bool
is_eligible num_tasks r s = s.pm.in_use && (leb_ℤ s.pm.tasks (pos num_tasks) && suits r s)

-- Its loop: the slots from an index on, `i` being that of the first of the list.
unfoldable pub search : (Slot → Bool) → ℕ → ℕ → List Slot → Option (ℕ × PmRecord)
search test from i [] = none
search test (suc from) i (s ∷ l) = search test from (i + 1) l
search test zero i (s ∷ l) =
    let rest = search test zero (i + 1) l in if test s then some (i, s.pm) else rest

-- `FindEligiblePM`
unfoldable pub find_eligible_pm : PmRecordList → ℕ → Resources → PmRecordList × Option PmRecord
unfolding search suits
find_eligible_pm l num_tasks r =
    elim (search (is_eligible num_tasks r) l.scheduler_info_index 0 l.slots) [
      | none ↦ (record l { scheduler_info_index = 0 }, none)
      | some (i, pm) ↦ (record l { scheduler_info_index = i + 1 }, some pm)
    ]

-- `SendHeartbeatToAll`: the slots, and where it sends, in order.
unfoldable pub send_heartbeat_to_all : List Slot → List Slot × List ComponentId
unfolding ◌+ℤ◌
send_heartbeat_to_all [] = ([], [])
send_heartbeat_to_all (s ∷ l) =
    let (l', sent) = send_heartbeat_to_all l in
    if s.pm.in_use
    then (
      record s { heartbeat_status = s.heartbeat_status +ℤ pos 1 } ∷ l',
      s.pm.component_id ∷ sent,
    )
    else (record s { heartbeat_status = heartbeat_inactive } ∷ l', sent)

-- `SendToAll`
unfoldable pub send_to_all : List Slot → List ComponentId
send_to_all [] = []
send_to_all (s ∷ l) =
    let sent = send_to_all l in if s.pm.in_use then s.pm.component_id ∷ sent else sent

-- `HeartbeatReceived`
unfoldable pub heartbeat_received : List Slot → ComponentId → List Slot
unfolding update_all
heartbeat_received l a = update_all (is_at a) (λ s. record s { heartbeat_status = pos 0 }) l

-- A manager that has missed two heartbeats.
abbrev pub has_failed : Slot → Bool
has_failed s = s.pm.in_use && leb_ℤ (pos 2) s.heartbeat_status

-- What `RemoveAnyFailed` leaves of it: the heartbeat status, too, stays as it was.
abbrev pub removed : Slot → Slot
removed s = record s { pm = record (s.pm) { in_use = false; tasks = pos 0; resources = 0 } }

-- `RemoveAnyFailed`
unfoldable pub remove_any_failed : List Slot → List Slot × Option PmRecord
unfolding update_first find_first
remove_any_failed l = ((update_first has_failed removed l).0, find_first has_failed l)

-- `GetTasks`
unfoldable pub get_tasks : List Slot → ComponentId → ℤ
unfolding find_first
get_tasks l a = elim (find_first (is_at a) l) [ none ↦ pos 0 | some pm ↦ pm.tasks ]

-- `IsEmpty`
unfoldable pub is_empty : List Slot → Bool
is_empty [] = true
is_empty (s ∷ l) = not s.pm.in_use && is_empty l

-- `SetTasks`
unfoldable pub set_tasks : List Slot → ComponentId → ℤ → List Slot
unfolding update_all
set_tasks l a n = update_all (is_at a) (with_tasks n) l
