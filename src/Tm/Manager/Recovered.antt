-- ===== src/Tm/Manager/Recovered.antt =====
-- A task that a Process Manager reports to a Task Manager that was started again.
use vn_sdm.Common.{
  ℕ, zero, suc, ◌≡◌, refl, arith, Bool, true, false, [], ◌∷◌, some, get_elem?, Bool-cases,
  Option-cases, inl, inr,
}
use vn_sdm.ComponentId
use vn_sdm.ComponentId.{ComponentId, component_id_invalid}
use vn_sdm.Message.SdmTask.{SdmTask}
use vn_sdm.Tm.Task.{Task, inactive, scheduled, has_state, assign}
use vn_sdm.Tm.TaskList.{TaskList, find_index, update_first, any_in, add_to, pm_failure}
use vn_sdm.Tm.PmRecordList.{port_pm}
use vn_sdm.Tm.Manager.{Manager, running_task, enter_running}

update_first_found :
    (test : Task → Bool) (u : Task) (l : TaskList) (i : ℕ)
    → find_index test l ≡ some i
    → get_elem? (update_first test (λ _. u) l).0 i ≡ some u
unfolding find_index update_first
update_first_found test u [] i e = ground arith
update_first_found test u (x ∷ l) i e = elim (Bool-cases (test x)) [
  | inl h ↦ ground arith
  | inr h ↦ elim (Option-cases (find_index test l)) [
    | inl x' ↦ ground arith
    | inr (j, x') ↦ ground (arith, update_first_found test u l j x')
  ]
]

find_index_any :
    (l : TaskList) (i : ℕ) → find_index (has_state inactive) l ≡ some i → any_in inactive l ≡ true
unfolding find_index any_in
find_index_any [] i e = ground arith
find_index_any (x ∷ l) i e = elim (Option-cases (find_index (has_state inactive) l)) [
  | inl h ↦ ground arith
  | inr (j, h) ↦ ground (arith, find_index_any l j h)
]

pm_failure_other :
    (l : TaskList) (pm : ComponentId) (i : ℕ) (t : Task)
    → get_elem? l i ≡ some t
    → ComponentId.equal t.pm_component_id pm ≡ false
    → get_elem? (pm_failure l pm).0 i ≡ some t
unfolding pm_failure
pm_failure_other [] pm i t g e = ground arith
pm_failure_other (x ∷ l) pm zero t g e = ground arith
pm_failure_other (x ∷ l) pm (suc i) t g e = ground (arith, pm_failure_other l pm i t)

not_at_port :
    (pm : ComponentId) → pm.port ≡ port_pm → ComponentId.equal component_id_invalid pm ≡ false
unfolding ComponentId.equal
not_at_port pm e = ground arith

-- The Task Manager enters a reported task, as scheduled, in the first free slot, but without its Process
-- Manager. When any Process Manager then fails, the one that runs the task included, the task stays
-- scheduled: unlike a task that this Task Manager has started, it is not taken up again.
pub enter_running_failure :
    (s : Manager) (msg : SdmTask) (i : ℕ) (pm : ComponentId)
    → find_index (has_state inactive) s.task_list ≡ some i
    → pm.port ≡ port_pm
    → let t = assign (running_task msg) in
      (get_elem? (enter_running s msg).task_list i ≡ some t)
      × (get_elem? (pm_failure (enter_running s msg).task_list pm).0 i ≡ some t)
      × (t.state ≡ scheduled)
      × (t.pid ≡ msg.pid)
unfolding enter_running running_task add_to
enter_running_failure s msg i pm e p =
    let t = assign (running_task msg) in
    let at : get_elem? (add_to s.task_list (running_task msg)).0 i ≡ some t = ground (
      arith,
      find_index_any s.task_list i e,
      update_first_found (has_state inactive) t s.task_list i e,
    ) in
    (at, pm_failure_other _ pm i t at (not_at_port pm p), refl, refl)
