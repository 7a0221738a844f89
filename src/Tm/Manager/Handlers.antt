-- ===== src/Tm/Manager/Handlers.antt =====
-- The handlers of the Task Manager keep its invariant.
use vn_sdm.Common.{
  ℕ, ◌+◌, ◌^◌, ◌≤◌, ◌<◌, ◌≡◌, refl, arith, ltb, leb, if◌then◌else◌, Bool, true, false, ◌&&◌, List,
  [], All,
}
use vn_sdm.Wire.{Buffer}
use vn_sdm.ComponentId.{ComponentId}
use vn_sdm.Header.{Result, invalid_message, read}
use vn_sdm.Message.SdmPostTask
use vn_sdm.Message.SdmRegPm
use vn_sdm.Message.SdmTask
use vn_sdm.Message.SdmTaskFinished
use vn_sdm.Tm.Task.{Task, assign}
use vn_sdm.Tm.TaskList.{add_to}
use vn_sdm.Tm.TaskList.Update.{count_pid}
use vn_sdm.Tm.PmRecordList.{
  Slot, already_registered, register_pm, get_tasks, set_tasks, task_has_started,
}
use vn_sdm.Tm.PmRecordList.Ports.{
  HasPort, register_pm-HasPort, clear_all_running_tasks-HasPort, task_finished-HasPort,
  task_has_started-HasPort, set_tasks-HasPort,
}
use vn_sdm.Tm.Manager.{
  Manager, if_read, posted_task, post, post_task, register, reg_pm_handler, finish,
  task_finished_handler, running_task, count_running, enter_running, pm_running_task_handler, reset,
}
use vn_sdm.Tm.Manager.Step.{Inv, with_slots, IsSound}
use vn_sdm.Tm.Manager.Kept.{
  IsSound_mono, add_to-IsSound, count_pid-add_to, add_to-Chosen, task_finished-IsSound,
  count_pid-task_finished, task_finished-Chosen,
}
use vn_sdm.Tm.Manager.Sweep.{clear_list-IsSound, count_pid-clear_list}

if_read_lem {ℓ κ} :
    {A : Type ℓ} (P : A → Type κ) (r : Result) (a b : A) → P a → P b → P (if_read r a b)
if_read_lem P invalid_message a b x y = x
if_read_lem P (read n) a b x y = y

pub if_lem {ℓ κ} :
    {A : Type ℓ} (P : A → Type κ) (b : Bool) (x y : A) → P x → P y → P (if b then x else y)
if_lem P true x y p q = p
if_lem P false x y p q = q

-- A task is entered, and the managers and the next pid may change with it.
add_task-Inv :
    (s : Manager) (t : Task) (n : ℕ) (slots pendings : List Slot)
    → s.next_pid ≤ n
    → IsSound n (assign t)
    → (0 < t.pid → count_pid t.pid s.task_list ≡ 0)
    → All HasPort slots
    → Inv s
    → Inv (record s {
      task_list = (add_to s.task_list t).0;
      pm_list = record (s.pm_list) { slots = slots };
      pending_pms = pendings;
      next_pid = n;
    })
add_task-Inv s t n slots pendings le sound new ports h = record {
  tasks = add_to-IsSound n s.task_list t sound (IsSound_mono s.next_pid n s.task_list le h.tasks);
  unique = λ p hp. ground (arith, h.unique p hp, count_pid-add_to p s.task_list t, new);
  managers = ports;
  next_pos = omega (arith, h.next_pos);
  chosen = λ c e f. add_to-Chosen s.task_list t c (h.chosen c e f);
}

posted_task-IsSound :
    (n : ℕ) (msg : SdmPostTask.SdmPostTask) → 0 < n → IsSound n (assign (posted_task msg))
unfolding posted_task assign
posted_task-IsSound n msg h = ground arith

posted_task_pid : (msg : SdmPostTask.SdmPostTask) → (posted_task msg).pid ≡ 0
unfolding posted_task
posted_task_pid msg = refl

pub post-Inv : (s : Manager) (msg : SdmPostTask.SdmPostTask) → Inv s → Inv (post s msg).0
unfolding post
post-Inv s msg h =
    add_task-Inv s (posted_task msg) s.next_pid s.pm_list.slots s.pending_pms (omega arith)
      (posted_task-IsSound s.next_pid msg h.next_pos) (λ l. omega (arith, posted_task_pid msg))
      h.managers h

pub post_task-Inv : (s : Manager) (buf : Buffer) → Inv s → Inv (post_task s buf).0
unfolding post_task
post_task-Inv s buf h =
    let (msg, r) = SdmPostTask.unmarshal SdmPostTask.create buf in
    if_read_lem (λ x. Inv x.0) r (s, []) (post s msg) h (post-Inv s msg h)

count_running-HasPort :
    (slots pendings : List Slot) (a : ComponentId)
    → All HasPort slots
    → All HasPort (count_running slots pendings a).0
unfolding count_running
count_running-HasPort slots pendings a h =
    let kept = task_has_started-HasPort slots a h in
    let (slots', found) = task_has_started slots a in
    let new : List Slot × List Slot =
      (slots', (task_has_started (register_pm pendings a 0).0 a).0) in
    let old : List Slot × List Slot = (slots', (task_has_started pendings a).0) in
    if_lem (λ x. All HasPort x.0) found (slots', pendings)
      (if already_registered pendings a then old else new) kept
      (if_lem (λ x. All HasPort x.0) (already_registered pendings a) old new kept kept)

running_task-IsSound :
    (n : ℕ) (msg : SdmTask.SdmTask)
    → 0 < msg.pid
    → msg.pid < n
    → IsSound n (assign (running_task msg))
unfolding running_task assign
running_task-IsSound n msg h l = ground arith

running_task_pid : (msg : SdmTask.SdmTask) → (running_task msg).pid ≡ msg.pid
unfolding running_task
running_task_pid msg = refl

enter_running-Inv :
    (s : Manager) (msg : SdmTask.SdmTask)
    → 0 < msg.pid
    → msg.pid < 2 ^ 31
    → count_pid msg.pid s.task_list ≡ 0
    → Inv s
    → Inv (enter_running s msg)
unfolding enter_running
enter_running-Inv s msg hp lt new h =
    let n = if leb s.next_pid msg.pid && ltb msg.pid (2 ^ 31) then msg.pid + 1 else s.next_pid in
    add_task-Inv s (running_task msg) n (count_running s.pm_list.slots s.pending_pms msg.source).0
      (count_running s.pm_list.slots s.pending_pms msg.source).1 (ground arith)
      (running_task-IsSound n msg hp (ground arith)) (λ l. rw (running_task_pid msg) new)
      (count_running-HasPort s.pm_list.slots s.pending_pms msg.source h.managers) h

pub pm_running_task_handler-Inv :
    (s : Manager) (buf : Buffer)
    → 0 < (SdmTask.unmarshal SdmTask.create buf).0.pid
    → (SdmTask.unmarshal SdmTask.create buf).0.pid < 2 ^ 31
    → count_pid (SdmTask.unmarshal SdmTask.create buf).0.pid s.task_list ≡ 0
    → Inv s
    → Inv (pm_running_task_handler s buf)
unfolding pm_running_task_handler
pm_running_task_handler-Inv s buf hp lt new h =
    let (msg, r) = SdmTask.unmarshal SdmTask.create buf in
    if_read_lem Inv r s (enter_running s msg) h (enter_running-Inv s msg hp lt new h)

pub with_slots-Inv :
    (s : Manager) (slots : List Slot) → All HasPort slots → Inv s → Inv (with_slots s slots)
with_slots-Inv s slots ports h = record {
  tasks = h.tasks;
  unique = h.unique;
  managers = ports;
  next_pos = h.next_pos;
  chosen = h.chosen;
}

register-Inv : (s : Manager) (msg : SdmRegPm.SdmRegPm) → Inv s → Inv (register s msg)
unfolding register
register-Inv s msg h =
    let slots = (register_pm s.pm_list.slots msg.source msg.resources).0 in
    let counted = set_tasks slots msg.source (get_tasks s.pending_pms msg.source) in
    let pending = already_registered s.pending_pms msg.source in
    let ports = register_pm-HasPort s.pm_list.slots msg.source msg.resources h.managers in
    let slots' = if pending then counted else slots in
    if_lem Inv (already_registered s.pm_list.slots msg.source) s (with_slots s slots') h (
      with_slots-Inv s slots'
        (if_lem (All HasPort) pending counted slots
          (set_tasks-HasPort slots msg.source (get_tasks s.pending_pms msg.source) ports) ports)
        h)

pub reg_pm_handler-Inv : (s : Manager) (buf : Buffer) → Inv s → Inv (reg_pm_handler s buf)
unfolding reg_pm_handler
reg_pm_handler-Inv s buf h =
    let (msg, r) = SdmRegPm.unmarshal SdmRegPm.create buf in
    if_read_lem Inv r s (register s msg) h (register-Inv s msg h)

finish-Inv :
    (s : Manager) (msg : SdmTaskFinished.SdmTaskFinished)
    → 0 < msg.pid
    → Inv s
    → Inv (finish s msg).0
unfolding finish
finish-Inv s msg hp h = record {
  tasks = task_finished-IsSound s.next_pid s.task_list msg.pid h.next_pos hp h.tasks;
  unique = λ p l. omega (arith, h.unique p l, count_pid-task_finished p s.task_list msg.pid l);
  managers = task_finished-HasPort s.pm_list.slots msg.source h.managers;
  next_pos = h.next_pos;
  chosen = λ c e f. task_finished-Chosen s.task_list msg.pid c hp (h.chosen c e f);
}

pub task_finished_handler-Inv :
    (s : Manager) (buf : Buffer)
    → 0 < (SdmTaskFinished.unmarshal SdmTaskFinished.create buf).0.pid
    → Inv s
    → Inv (task_finished_handler s buf).0
unfolding task_finished_handler
task_finished_handler-Inv s buf hp h =
    let (msg, r) = SdmTaskFinished.unmarshal SdmTaskFinished.create buf in
    if_read_lem (λ x. Inv x.0) r (s, []) (finish s msg) h (finish-Inv s msg hp h)

pub reset-Inv : (s : Manager) → Inv s → Inv (reset s)
unfolding reset
reset-Inv s h = record {
  tasks = clear_list-IsSound s.next_pid s.task_list h.next_pos;
  unique = λ p l. omega (arith, count_pid-clear_list p s.task_list l);
  managers = clear_all_running_tasks-HasPort s.pm_list.slots h.managers;
  next_pos = h.next_pos;
  chosen = λ c e f. cc;
}
