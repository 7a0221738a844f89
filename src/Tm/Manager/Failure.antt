-- ===== src/Tm/Manager/Failure.antt =====
-- The removal of a failed Process Manager keeps the Task Manager's invariant.
use vn_sdm.Common.{◌≡◌, arith, List, none, some, All, Option-cases, inl, inr}
use vn_sdm.Tm.TaskList.{pm_failure}
use vn_sdm.Tm.PmRecordList.{PmRecord, Slot, remove_any_failed}
use vn_sdm.Tm.PmRecordList.Ports.{HasPort, remove_any_failed-HasPort, remove_any_failed_port}
use vn_sdm.Tm.Manager.{Manager, remove_failed_pm}
use vn_sdm.Tm.Manager.Step.{Inv, with_slots}
use vn_sdm.Tm.Manager.Handlers.{with_slots-Inv}
use vn_sdm.Tm.Manager.Sweep.{pm_failure-IsSound, count_pid-pm_failure, pm_failure-Chosen}

pm_failed-Inv :
    (s : Manager) (slots : List Slot) (pm : PmRecord)
    → All HasPort slots
    → (remove_any_failed s.pm_list.slots).1 ≡ some pm
    → Inv s
    → Inv (record (with_slots s slots) { task_list = (pm_failure s.task_list pm.component_id).0 })
pm_failed-Inv s slots pm ports e h = record {
  tasks =
      pm_failure-IsSound s.next_pid s.task_list pm.component_id
        (remove_any_failed_port s.pm_list.slots pm h.managers e) h.tasks;
  unique = λ p l. rw (count_pid-pm_failure p s.task_list pm.component_id) (h.unique p l);
  managers = ports;
  next_pos = h.next_pos;
  chosen = λ c e f. pm_failure-Chosen s.task_list pm.component_id c (h.chosen c e f);
}

remove_failed_pm-none :
    (s : Manager)
    → (remove_any_failed s.pm_list.slots).1 ≡ none
    → (remove_failed_pm s).0 ≡ with_slots s (remove_any_failed s.pm_list.slots).0
unfolding remove_failed_pm
remove_failed_pm-none s e = ground arith

remove_failed_pm-some :
    (s : Manager) (pm : PmRecord)
    → (remove_any_failed s.pm_list.slots).1 ≡ some pm
    → (remove_failed_pm s).0 ≡ record (with_slots s (remove_any_failed s.pm_list.slots).0) {
      task_list = (pm_failure s.task_list pm.component_id).0;
    }
unfolding remove_failed_pm
remove_failed_pm-some s pm e = ground arith

pub remove_failed_pm-Inv : (s : Manager) → Inv s → Inv (remove_failed_pm s).0
remove_failed_pm-Inv s h =
    let slots = (remove_any_failed s.pm_list.slots).0 in
    let ports = remove_any_failed-HasPort s.pm_list.slots h.managers in
    elim (Option-cases (remove_any_failed s.pm_list.slots).1) [
      | inl e ↦ rw (remove_failed_pm-none s e) (with_slots-Inv s slots ports h)
      | inr (pm, e) ↦ rw (remove_failed_pm-some s pm e) (pm_failed-Inv s slots pm ports e h)
    ]
