-- ===== src/Tm/Manager/Reach.antt =====
-- What holds of every Task Manager.
use vn_sdm.Common.{ℕ, zero, suc, ◌<◌, ◌≡◌, refl, arith, All}
use mathlib.Core.Path.{subst}
use vn_sdm.Tm.TaskList.Update.{count_pid}
use vn_sdm.Tm.PmRecordList.Ports.{heartbeat_received-HasPort, send_heartbeat_to_all-HasPort}
use vn_sdm.Tm.Manager.{Manager, create, init_tasks}
use vn_sdm.Tm.Manager.Step.{
  Step, posted, registered, finished, running, was_reset, heartbeats_sent, heartbeat_came,
  pm_removed, went_round, woke, went_on, Reach, here, next, Inv, IsSound,
}
use vn_sdm.Tm.Manager.Kept.{init_task-IsSound}
use vn_sdm.Tm.Manager.Handlers.{
  post_task-Inv, pm_running_task_handler-Inv, with_slots-Inv, reg_pm_handler-Inv,
  task_finished_handler-Inv, reset-Inv,
}
use vn_sdm.Tm.Manager.Failure.{remove_failed_pm-Inv}
use vn_sdm.Tm.Manager.Scheduling.{InvOf, round-InvOf, wake-Inv, start-InvOf}

init_tasks-IsSound : (n : ℕ) → All (IsSound 1) (init_tasks n)
init_tasks-IsSound zero = tt
init_tasks-IsSound (suc n) = (init_task-IsSound 1 (omega arith), init_tasks-IsSound n)

count_pid-init_tasks : (p n : ℕ) → 0 < p → count_pid p (init_tasks n) ≡ 0
unfolding count_pid
count_pid-init_tasks p zero h = refl
count_pid-init_tasks p (suc n) h = ground (arith, count_pid-init_tasks p n h)

create-Inv : Inv create
create-Inv = record {
  tasks = init_tasks-IsSound 50;
  unique = λ p h. omega (arith, count_pid-init_tasks p 50 h);
  managers = ground arith;
  next_pos = omega arith;
  chosen = λ c e f. cc;
}

Step-Inv : {s s' : Manager} → Step s s' → Inv s → Inv s'
Step-Inv (posted s buf) h = post_task-Inv s buf h
Step-Inv (registered s buf) h = reg_pm_handler-Inv s buf h
Step-Inv (finished s buf p) h = task_finished_handler-Inv s buf p h
Step-Inv (running s buf p l new) h = pm_running_task_handler-Inv s buf p l new h
Step-Inv (was_reset s) h = reset-Inv s h
Step-Inv (heartbeats_sent s) h =
    with_slots-Inv s _ (send_heartbeat_to_all-HasPort s.pm_list.slots h.managers) h
Step-Inv (heartbeat_came s a) h =
    with_slots-Inv s _ (heartbeat_received-HasPort s.pm_list.slots a h.managers) h
Step-Inv (pm_removed s) h = remove_failed_pm-Inv s h
Step-Inv (went_round s now s' out awake lt e) h = subst InvOf e (round-InvOf s now awake lt h)
Step-Inv (woke s c e f) h = wake-Inv s h
Step-Inv (went_on s c s' out e f lt e') h = subst InvOf e' (start-InvOf s c lt h)

-- Whenever the threads run, while the pids last, and whatever messages come, but that a finished task
-- is reported by a pid that is not 0, and a running one by a positive pid that no task of the table
-- has: the pids in use are different, and below the next one; a scheduled task has a pid, and a task
-- with a pid has no delay left; a free slot has no pid and no manager, and a slot in use has a name;
-- every registered manager listens at PORT_PM; and unless a reset came, the task for which `Scheduler`
-- sleeps, or has slept and not yet started, is still in its slot.
pub Reach-Inv : {s : Manager} → Reach s → Inv s
Reach-Inv here = create-Inv
Reach-Inv (next r step) = Step-Inv step (Reach-Inv r)
