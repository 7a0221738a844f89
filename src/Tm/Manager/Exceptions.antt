-- ===== src/Tm/Manager/Exceptions.antt =====
-- What the scheduler starts, and when `operator[]` throws.
use vn_sdm.Common.{
  ℕ, zero, suc, if◌then◌else◌, ◌∷◌, ◌^◌, ◌<◌, ◌≡◌, refl, sym, arith, ◌==◌, true, false, List, [],
  Option, none, some, get_elem?, Bool-cases, Option-cases, inl, inr, ◌⊎◌,
}
use mathlib.Core.Path.{subst}
use vn_sdm.Tm.Task.{Task, pending, has_state, assign}
use vn_sdm.Tm.TaskList.{TaskList, index, clear_list, find_pending_task, find_index}
use vn_sdm.Tm.TaskList.Update.{count_pid, count_pid_zero, find_index-find_first}
use vn_sdm.Tm.PmRecordList.{PmRecord, PmRecordList}
use vn_sdm.Tm.Manager.{
  Manager, Choice, Output, send_task, start, wait_preferred, choose_pm, begin, round, wake, reset,
}
use vn_sdm.Tm.Manager.Step.{Inv, Reach}
use vn_sdm.Tm.Manager.Handlers.{if_lem}
use vn_sdm.Tm.Manager.Sweep.{pids_lt}
use vn_sdm.Tm.Manager.Scheduling.{
  after_start, start_lem, schedule_cases, round-none, round-some, awake-Inv, choose_pm_slots,
}
use vn_sdm.Tm.Manager.Reach.{Reach-Inv}

index-pending :
    (l : TaskList) (i : ℕ) (t : Task)
    → get_elem? l i ≡ some t
    → t.state ≡ pending
    → index l i ≡ some t
unfolding index
index-pending l i t g p = ground arith

-- The task of a slot is started, with a new pid.
pub record Starts (s : Manager) (c : Choice) (t : Task) (result : Option (Manager × List Output))
    : Type 0 where
  pub at : get_elem? s.task_list c.task_index ≡ some t
  pub was_pending : t.state ≡ pending
  pub same : assign t ≡ c.task_data
  pub new_pid : count_pid s.next_pid s.task_list ≡ 0
  pub result_eq :
      result
      ≡ some (after_start s c t, send_task c.pm_data (record (c.task_data) { pid = s.next_pid }))

slot-Starts :
    (s : Manager) (c : Choice) (t : Task)
    → get_elem? s.task_list c.task_index ≡ some t
    → t.state ≡ pending
    → assign t ≡ c.task_data
    → suc s.next_pid < 2 ^ 31
    → Inv s
    → Starts s c t (start s c)
slot-Starts s c t g p same lt inv = record {
  at = g;
  was_pending = p;
  same = same;
  new_pid = count_pid_zero s.next_pid s.task_list (pids_lt s.next_pid s.task_list inv.tasks);
  result_eq = start_lem s c t lt (index-pending s.task_list c.task_index t g p);
}

index-clear_list : (l : TaskList) (i : ℕ) → index (clear_list l) i ≡ none
unfolding index clear_list
index-clear_list [] i = ground arith
index-clear_list (t ∷ l) zero = ground arith
index-clear_list (t ∷ l) (suc i) = index-clear_list l i

start-reset : (s : Manager) (c : Choice) → start (reset s) c ≡ none
unfolding start reset
start-reset s c = ground (arith, index-clear_list s.task_list c.task_index)

wake_sleeping :
    (s : Manager) (c : Choice)
    → s.sleeping ≡ some c
    → ((wake s).sleeping ≡ (if s.scheduler_reset then none else some c))
      × ((wake s).scheduler_reset ≡ false)
unfolding wake
wake_sleeping s c e = ground arith

-- When `Scheduler` awakes, it gives up the task that it chose exactly if a reset came, and the reset
-- flag is taken back. As long as none has come, up to the moment of the start, the task is still the
-- pending one of its slot, so that `operator[]` does not throw; it is sent with a pid that no task has,
-- and becomes the slot's. But a reset right before the start, also behind the look at the flag, makes
-- `operator[]` throw, while no task is posted after it.
pub wake_lem :
    (s : Manager) (c : Choice)
    → Reach s
    → s.sleeping ≡ some c
    → suc s.next_pid < 2 ^ 31
    → ((wake s).sleeping ≡ (if s.scheduler_reset then none else some c))
      × ((wake s).scheduler_reset ≡ false)
      × ((s.scheduler_reset ≡ true) ⊎ ((t : Task) × Starts s c t (start s c)))
      × (start (reset s) c ≡ none)
wake_lem s c r e lt =
    let inv = Reach-Inv r in
    let (slept, flag) = wake_sleeping s c e in
    let chosen : (s.scheduler_reset ≡ true) ⊎ ((t : Task) × Starts s c t (start s c)) =
      elim (Bool-cases s.scheduler_reset) [
        | inl x ↦ inl x
        | inr x ↦
            let h = inv.chosen c e x in
            inr (h.task, slot-Starts s c h.task h.at h.is_pending h.same lt inv)
      ] in
    (slept, flag, chosen, start-reset s c)

find_pending_task_at :
    (l : TaskList) (i : ℕ) (task : Task)
    → find_pending_task l ≡ some (i, task)
    → (t : Task) × (get_elem? l i ≡ some t) × (t.state ≡ pending) × (assign t ≡ task)
unfolding find_pending_task
find_pending_task_at l i task e = elim (Option-cases (find_index (has_state pending) l)) [
  | inl x ↦ ground arith
  | inr (j, x) ↦
      let (t, g, f, y) = find_index-find_first (has_state pending) l j x in
      (t, ground arith, ground arith, ground arith)
]

-- Nothing is started, or the task of a slot, by a manager among those registered.
abbrev pub IsRound : Manager → Option (Manager × List Output) → Type 0
IsRound s result =
    ((s' : Manager) × (result ≡ some (s', [])))
    ⊎ ((pms : PmRecordList) × (c : Choice) × (t : Task) × (pms.slots ≡ s.pm_list.slots)
        × Starts (record s { pm_list = pms }) c t result)

begin-IsRound :
    (s : Manager) (pms : PmRecordList) (i : ℕ) (task : Task) (pm : PmRecord)
    → pms.slots ≡ s.pm_list.slots
    → find_pending_task s.task_list ≡ some (i, task)
    → s.sleeping ≡ none
    → suc s.next_pid < 2 ^ 31
    → Inv s
    → IsRound s (
        begin
          (record s { pm_list = pms })
          (record { task_index = i; task_data = task; pm_data = pm }))
unfolding begin
begin-IsRound s pms i task pm same e awake lt inv =
    let c : Choice = record { task_index = i; task_data = task; pm_data = pm } in
    let s' : Manager = record s { pm_list = pms } in
    let (t, g, p, a) = find_pending_task_at s.task_list i task e in
    let inv' = awake-Inv s pms s.task_list s.last_seconds inv.tasks (λ _. refl) same awake inv in
    if_lem (IsRound s) (task.timeout == 0) (start s' c)
      (some (record s' { sleeping = some c; checked = false }, []))
      (inr (pms, c, t, same, slot-Starts s' c t g p a lt inv'))
      (inl (record s' { sleeping = some c; checked = false }, refl))

-- A round of `Scheduler` never throws. It starts nothing, or it starts the pending task of a slot,
-- which is sent with a pid that no task has, and becomes the slot's.
pub round_lem :
    (s : Manager) (now : ℕ)
    → Reach s
    → s.sleeping ≡ none
    → suc s.next_pid < 2 ^ 31
    → IsRound s (round s now)
round_lem s now r awake lt =
    let inv = Reach-Inv r in
    elim (Option-cases (find_pending_task s.task_list)) [
      | inl e ↦ inl (record s { last_seconds = 0 }, round-none s now e)
      | inr ((i, task), e) ↦ subst (IsRound s) (sym (round-some s now i task e)) (
          let same = choose_pm_slots s.pm_list task.resources in
          elim (schedule_cases s now i task) [
            | inl x ↦ inl (s, x)
            | inr (inl x) ↦ inl (record s { pm_list = (choose_pm s.pm_list task.resources).0 }, x)
            | inr (inr (inl x)) ↦ inl (
              wait_preferred (record s { pm_list = (choose_pm s.pm_list task.resources).0 }) now
                  task.resources,
              x,
            )
            | inr (inr (inr (pm, _, x))) ↦ subst (IsRound s) (sym x) (
                begin-IsRound s (choose_pm s.pm_list task.resources).0 i task pm same e awake lt
                  inv)
          ])
    ]
