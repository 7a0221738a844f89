-- ===== src/Tm/Manager/Ended.antt =====
-- What the end of a task does to the table.
use vn_sdm.Common.{
  ℕ, zero, suc, ◌≤◌, ◌<◌, ◌≡◌, refl, ap, arith, ◌==◌, if◌then◌else◌, [], ◌∷◌, some, get_elem?, set,
}
use vn_sdm.Message.SdmTaskFinished.{SdmTaskFinished}
use vn_sdm.Tm.Task.{Task, init_task, mode_normal, mode_always_running}
use vn_sdm.Tm.TaskList.{
  TaskList, has_pid, update_first, find_first, remove_from, rescheduled, task_finished,
}
use vn_sdm.Tm.TaskList.Update.{count_pid}
use vn_sdm.Tm.Manager.{Manager, finish}
use vn_sdm.Tm.Manager.Step.{Reach}
use vn_sdm.Tm.Manager.Reach.{Reach-Inv}

-- What becomes of a task that ended.
abbrev pub ended : Task → Task
ended t =
    if t.task_mode == mode_normal
    then init_task
    else if t.task_mode == mode_always_running
    then rescheduled t
    else t

count_pid_pos :
    (p : ℕ) (l : TaskList) (i : ℕ) (t : Task)
    → get_elem? l i ≡ some t
    → t.pid ≡ p
    → 0 < count_pid p l
unfolding count_pid
count_pid_pos p [] i t g e = ground arith
count_pid_pos p (x ∷ l) zero t g e = ground arith
count_pid_pos p (x ∷ l) (suc i) t g e = ground (arith, count_pid_pos p l i t g e)

-- The only task with a pid is the one that is found, and changed.
find_first_only :
    (p : ℕ) (l : TaskList) (i : ℕ) (t : Task)
    → get_elem? l i ≡ some t
    → t.pid ≡ p
    → count_pid p l ≤ 1
    → find_first (has_pid p) l ≡ some t
unfolding find_first count_pid
find_first_only p [] i t g e u = ground arith
find_first_only p (x ∷ l) zero t g e u = ground arith
find_first_only p (x ∷ l) (suc i) t g e u =
    ground (arith, count_pid_pos p l i t g e, find_first_only p l i t g e)

update_first_only :
    (p : ℕ) (f : Task → Task) (l : TaskList) (i : ℕ) (t : Task)
    → get_elem? l i ≡ some t
    → t.pid ≡ p
    → count_pid p l ≤ 1
    → (update_first (has_pid p) f l).0 ≡ set l i (f t)
unfolding update_first count_pid
update_first_only p f [] i t g e u = ground arith
update_first_only p f (x ∷ l) zero t g e u = ground arith
update_first_only p f (x ∷ l) (suc i) t g e u =
    ground (arith, count_pid_pos p l i t g e, update_first_only p f l i t g e)

set_same : (l : TaskList) (i : ℕ) (t : Task) → get_elem? l i ≡ some t → set l i t ≡ l
set_same [] i t g = refl
set_same (x ∷ l) zero t g = ground arith
set_same (x ∷ l) (suc i) t g = ap (λ y. x ∷ y) (set_same l i t g)

task_finished_at :
    (l : TaskList) (p i : ℕ) (t : Task)
    → get_elem? l i ≡ some t
    → t.pid ≡ p
    → count_pid p l ≤ 1
    → (task_finished l p).0 ≡ set l i (ended t)
unfolding task_finished remove_from
task_finished_at l p i t g e u = ground (
  arith,
  find_first_only p l i t g e u,
  update_first_only p (λ _. init_task) l i t g e u,
  update_first_only p rescheduled l i t g e u,
  set_same l i t g,
)

-- A Process Manager reports that the task of some slot has ended. In every reachable state, exactly that
-- slot changes: a task of normal mode leaves it free, one that is always to run is pending again and has
-- lost its pid, and one of any other mode stays.
pub finish_lem :
    (s : Manager) (msg : SdmTaskFinished) (i : ℕ) (t : Task)
    → Reach s
    → 0 < msg.pid
    → get_elem? s.task_list i ≡ some t
    → t.pid ≡ msg.pid
    → (finish s msg).0.task_list ≡ set s.task_list i (ended t)
unfolding finish
finish_lem s msg i t r h g e =
    task_finished_at s.task_list msg.pid i t g e ((Reach-Inv r).unique msg.pid h)
