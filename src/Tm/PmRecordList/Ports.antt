-- ===== src/Tm/PmRecordList/Ports.antt =====
-- Every registered Process Manager listens at the port of Process Managers.
use vn_sdm.Common.{
  ◌≡◌, refl, arith, Bool, true, List, [], ◌∷◌, some, All, Bool-cases, inl, inr, ◌∙◌,
}
use vn_sdm.Common.Int.{ℤ, pos}
use vn_sdm.ComponentId.{ComponentId}
use vn_sdm.Tm.Resources.{Resources}
use vn_sdm.Tm.PmRecordList.{
  PmRecord, Slot, port_pm, is_at, update_first, update_all, find_first, register_pm, with_tasks,
  clear_all_running_tasks, task_finished, task_has_started, send_heartbeat_to_all,
  heartbeat_received, remove_any_failed, set_tasks,
}

-- The slot is free, or its manager listens at PORT_PM.
abbrev pub HasPort : Slot → Type 0
HasPort s = s.pm.in_use ≡ true → s.pm.component_id.port ≡ port_pm

update_first-All :
    (test : Slot → Bool) (f : Slot → Slot) (l : List Slot)
    → ((s : Slot) → HasPort s → HasPort (f s))
    → All HasPort l
    → All HasPort (update_first test f l).0
unfolding update_first
update_first-All test f [] step h = h
update_first-All test f (s ∷ l) step (p, ps) = elim (Bool-cases (test s)) [
  | inl e ↦ rw e (step s p, ps)
  | inr e ↦ rw e (p, update_first-All test f l step ps)
]

update_all-All :
    (test : Slot → Bool) (f : Slot → Slot) (l : List Slot)
    → ((s : Slot) → HasPort s → HasPort (f s))
    → All HasPort l
    → All HasPort (update_all test f l)
unfolding update_all
update_all-All test f [] step h = h
update_all-All test f (s ∷ l) step (p, ps) = elim (Bool-cases (test s)) [
  | inl e ↦ rw e (step s p, update_all-All test f l step ps)
  | inr e ↦ rw e (p, update_all-All test f l step ps)
]

pub register_pm-HasPort :
    (l : List Slot) (a : ComponentId) (r : Resources)
    → All HasPort l
    → All HasPort (register_pm l a r).0
unfolding register_pm
register_pm-HasPort l a r = update_first-All _ _ l (λ s h u. refl)

pub clear_all_running_tasks-HasPort :
    (l : List Slot) → All HasPort l → All HasPort (clear_all_running_tasks l)
unfolding clear_all_running_tasks
clear_all_running_tasks-HasPort l = update_all-All (λ _. true) (with_tasks (pos 0)) l (λ s h. h)

pub task_finished-HasPort :
    (l : List Slot) (a : ComponentId) → All HasPort l → All HasPort (task_finished l a).0
unfolding task_finished
task_finished-HasPort l a = update_first-All _ _ l (λ s h. h)

pub task_has_started-HasPort :
    (l : List Slot) (a : ComponentId) → All HasPort l → All HasPort (task_has_started l a).0
unfolding task_has_started
task_has_started-HasPort l a = update_first-All _ _ l (λ s h. h)

pub set_tasks-HasPort :
    (l : List Slot) (a : ComponentId) (n : ℤ) → All HasPort l → All HasPort (set_tasks l a n)
unfolding set_tasks
set_tasks-HasPort l a n = update_all-All (is_at a) (with_tasks n) l (λ s h. h)

pub heartbeat_received-HasPort :
    (l : List Slot) (a : ComponentId) → All HasPort l → All HasPort (heartbeat_received l a)
unfolding heartbeat_received
heartbeat_received-HasPort l a =
    update_all-All (is_at a) (λ s. record s { heartbeat_status = pos 0 }) l (λ s h. h)

pub send_heartbeat_to_all-HasPort :
    (l : List Slot) → All HasPort l → All HasPort (send_heartbeat_to_all l).0
unfolding send_heartbeat_to_all
send_heartbeat_to_all-HasPort [] h = h
send_heartbeat_to_all-HasPort (s ∷ l) (p, ps) = elim (Bool-cases s.pm.in_use) [
  | inl e ↦ simp e (λ u. p (e ∙ u), send_heartbeat_to_all-HasPort l ps)
  | inr e ↦ simp e (λ u. p (e ∙ u), send_heartbeat_to_all-HasPort l ps)
]

pub remove_any_failed-HasPort :
    (l : List Slot) → All HasPort l → All HasPort (remove_any_failed l).0
unfolding remove_any_failed
remove_any_failed-HasPort l = update_first-All _ _ l (λ s h u. cc)

-- A manager that is removed had the port.
pub remove_any_failed_port :
    (l : List Slot) (pm : PmRecord)
    → All HasPort l
    → (remove_any_failed l).1 ≡ some pm
    → pm.component_id.port ≡ port_pm
unfolding remove_any_failed find_first
remove_any_failed_port [] pm h e = ground arith
remove_any_failed_port (s ∷ l) pm (p, ps) e = ground (arith, remove_any_failed_port l pm ps)
