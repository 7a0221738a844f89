-- ===== src/Tm/Manager/Sweep.antt =====
-- What the operations that go over the whole table keep of the Task Manager's invariant.
use vn_sdm.Common.{
  ℕ, zero, suc, ◌≤◌, ◌<◌, ◌≡◌, ◌≢◌, refl, arith, ◌==◌, if◌then◌else◌, true, false, not, ◌&&◌, [],
  ◌∷◌, some, get_elem?, set, All, Bool-cases, Option-cases, inl, inr,
}
use vn_sdm.ComponentId
use vn_sdm.ComponentId.{ComponentId, component_id_invalid}
use vn_sdm.Tm.Resources.{Resources, preferred_pm_id, set_preferred_pm_node_id}
use vn_sdm.Tm.Task.{Task, inactive, pending, has_state}
use vn_sdm.Tm.TaskList.{
  TaskList, index, clear_list, remove_preferred_pm_id, pm_failure, find_pending_task, find_index,
}
use vn_sdm.Tm.TaskList.Update.{
  count_pid, count_pid-set, count_pid_zero, set-All, get_elem?-All, find_index-find_first,
}
use vn_sdm.Tm.PmRecordList.{PmRecord, port_pm}
use vn_sdm.Tm.Manager.{Choice, started}
use vn_sdm.Tm.Manager.Step.{IsSound, Chosen}
use vn_sdm.Tm.Manager.Kept.{IsSound_mono, init_task-IsSound, Chosen-at}

-- A failed manager's task is taken up again; it has a name, since a free slot has no manager.
retry-IsSound :
    (n : ℕ) (t : Task) (pm : ComponentId)
    → pm.port ≡ port_pm
    → ComponentId.equal t.pm_component_id pm ≡ true
    → IsSound n t
    → IsSound n (record t { state = pending })
unfolding ComponentId.equal
retry-IsSound n t pm hp e s = ground (arith, s.pid_lt, s.free, s.named, s.undelayed)

pub pm_failure-IsSound :
    (n : ℕ) (l : TaskList) (pm : ComponentId)
    → pm.port ≡ port_pm
    → All (IsSound n) l
    → All (IsSound n) (pm_failure l pm).0
unfolding pm_failure
pm_failure-IsSound n [] pm hp ss = ss
pm_failure-IsSound n (t ∷ l) pm hp (s, ss) =
    elim (Bool-cases (ComponentId.equal t.pm_component_id pm)) [
      | inl e ↦ rw e (retry-IsSound n t pm hp e s, pm_failure-IsSound n l pm hp ss)
      | inr e ↦ rw e (s, pm_failure-IsSound n l pm hp ss)
    ]

pub count_pid-pm_failure :
    (p : ℕ) (l : TaskList) (pm : ComponentId) → count_pid p (pm_failure l pm).0 ≡ count_pid p l
unfolding pm_failure count_pid
count_pid-pm_failure p [] pm = refl
count_pid-pm_failure p (t ∷ l) pm = ground (arith, count_pid-pm_failure p l pm)

-- A pending task stays as it is.
pm_failure-pending :
    (l : TaskList) (pm : ComponentId) (i : ℕ) (t : Task)
    → get_elem? l i ≡ some t
    → t.state ≡ pending
    → get_elem? (pm_failure l pm).0 i ≡ some t
unfolding pm_failure
pm_failure-pending [] pm i t g e = ground arith
pm_failure-pending (x ∷ l) pm zero t g e = ground arith
pm_failure-pending (x ∷ l) pm (suc i) t g e = ground (arith, pm_failure-pending l pm i t)

pub pm_failure-Chosen :
    (l : TaskList) (pm : ComponentId) (c : Choice) → Chosen l c → Chosen (pm_failure l pm).0 c
pm_failure-Chosen l pm c h =
    Chosen-at l (pm_failure l pm).0 c h
      (pm_failure-pending l pm c.task_index h.task h.at h.is_pending)

pub clear_list-IsSound : (n : ℕ) (l : TaskList) → 0 < n → All (IsSound n) (clear_list l)
unfolding clear_list
clear_list-IsSound n [] h = tt
clear_list-IsSound n (t ∷ l) h = (init_task-IsSound n h, clear_list-IsSound n l h)

pub count_pid-clear_list : (p : ℕ) (l : TaskList) → 0 < p → count_pid p (clear_list l) ≡ 0
unfolding clear_list count_pid
count_pid-clear_list p [] h = refl
count_pid-clear_list p (t ∷ l) h = ground (arith, count_pid-clear_list p l h)

pub remove_preferred_pm_id-IsSound :
    (n : ℕ) (l : TaskList) (r : Resources)
    → All (IsSound n) l
    → All (IsSound n) (remove_preferred_pm_id l r)
unfolding remove_preferred_pm_id
remove_preferred_pm_id-IsSound n [] r ss = ss
remove_preferred_pm_id-IsSound n (t ∷ l) r (s, ss) =
    (changed, remove_preferred_pm_id-IsSound n l r ss)
  where
    changed : IsSound n (
        if not (has_state inactive t) && preferred_pm_id t.resources == preferred_pm_id r
        then record t { resources = set_preferred_pm_node_id t.resources 0 }
        else t)
    changed = ground (arith, s.pid_lt, s.free, s.named, s.scheduled_pid, s.undelayed)

pub count_pid-remove_preferred_pm_id :
    (p : ℕ) (l : TaskList) (r : Resources)
    → count_pid p (remove_preferred_pm_id l r) ≡ count_pid p l
unfolding remove_preferred_pm_id count_pid
count_pid-remove_preferred_pm_id p [] r = refl
count_pid-remove_preferred_pm_id p (t ∷ l) r =
    ground (arith, count_pid-remove_preferred_pm_id p l r)

-- `operator[]` yields a task in use, that of the slot.
pub index-some :
    (l : TaskList) (i : ℕ) (t : Task)
    → index l i ≡ some t
    → (get_elem? l i ≡ some t) × (has_state inactive t ≡ false)
unfolding index
index-some l i t e = ground arith

started-IsSound :
    (n : ℕ) (t : Task) (pm : PmRecord)
    → 0 < n
    → has_state inactive t ≡ false
    → IsSound n t
    → IsSound (suc n) (started t n pm)
started-IsSound n t pm h u s = ground (arith, s.named)

pub start-IsSound :
    (n : ℕ) (l : TaskList) (i : ℕ) (t : Task) (pm : PmRecord)
    → 0 < n
    → index l i ≡ some t
    → All (IsSound n) l
    → All (IsSound (suc n)) (set l i (started t n pm))
start-IsSound n l i t pm h e ss =
    let (g, u) = index-some l i t e in
    set-All (IsSound (suc n)) l i (started t n pm)
      (started-IsSound n t pm h u (get_elem?-All (IsSound n) l i t g ss))
      (IsSound_mono n (suc n) l (omega arith) ss)

pub pids_lt : (n : ℕ) (l : TaskList) → All (IsSound n) l → All (λ t. t.pid < n) l
pids_lt n [] ss = tt
pids_lt n (t ∷ l) (s, ss) = (s.pid_lt, pids_lt n l ss)

-- The new pid is one that no other task has.
pub start_unique :
    (n : ℕ) (l : TaskList) (i : ℕ) (t : Task) (pm : PmRecord) (p : ℕ)
    → All (IsSound n) l
    → count_pid p l ≤ 1
    → count_pid p (set l i (started t n pm)) ≤ 1
start_unique n l i t pm p ss h =
    ground (arith, count_pid-set p l i (started t n pm), count_pid_zero n l (pids_lt n l ss))

-- The task that `FindPendingTask` yields is the one of its slot. A delayed task has no pid yet.
pub find_pending_task-Chosen :
    (n : ℕ) (l : TaskList) (i : ℕ) (task : Task) (pm : PmRecord)
    → All (IsSound n) l
    → find_pending_task l ≡ some (i, task)
    → task.timeout ≢ 0
    → Chosen l (record { task_index = i; task_data = task; pm_data = pm })
unfolding find_pending_task
find_pending_task-Chosen n l i task pm ss e late =
    elim (Option-cases (find_index (has_state pending) l)) [
      | inl x ↦ ground arith
      | inr (j, x) ↦
          let (t, g, f, y) = find_index-find_first (has_state pending) l j x in
          let s = get_elem?-All (IsSound n) l j t g ss in
          record {
            task = t;
            at = ground arith;
            is_pending = ground arith;
            same = ground arith;
            no_pid = ground (arith, s.undelayed);
          }
    ]
