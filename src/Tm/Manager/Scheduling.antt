-- ===== src/Tm/Manager/Scheduling.antt =====
-- The scheduler keeps the Task Manager's invariant.
use vn_sdm.Common.{
  ℕ, suc, ◌+◌, ◌%◌, ◌^◌, ◌<◌, ◌≡◌, ◌≢◌, refl, arith, ltb, ◌==◌, true, false, List, [], Option, none,
  some, set, All, Bool-cases, Option-cases, inl, inr, ◌⊎◌, ◌-◌,
}
use mathlib.Core.Option.{some-injective}
use vn_sdm.Tm.Resources.{Resources, is_preferred_pm_id_set}
use vn_sdm.Tm.Task.{Task}
use vn_sdm.Tm.TaskList.{TaskList, index, find_pending_task, remove_preferred_pm_id}
use vn_sdm.Tm.TaskList.Update.{count_pid}
use vn_sdm.Tm.PmRecordList.{PmRecord, PmRecordList, task_has_started, is_empty}
use vn_sdm.Tm.PmRecordList.Eligible.{find_pm_slots}
use vn_sdm.Tm.PmRecordList.Ports.{task_has_started-HasPort}
use vn_sdm.Tm.Manager.{
  Manager, preferred_schedule_timeout, Choice, Output, started, start, wait_preferred, choose_pm,
  begin, schedule, round, send_task, wake,
}
use vn_sdm.Tm.Manager.Step.{Inv, IsSound, Chosen}
use vn_sdm.Tm.Manager.Handlers.{if_lem}
use vn_sdm.Tm.Manager.Sweep.{
  remove_preferred_pm_id-IsSound, count_pid-remove_preferred_pm_id, start-IsSound, start_unique,
  find_pending_task-Chosen,
}

-- What a start leaves.
abbrev pub after_start : Manager → Choice → Task → Manager
after_start s c t = record s {
  task_list = set s.task_list c.task_index (started t s.next_pid c.pm_data);
  pm_list = record (s.pm_list) {
    slots = (task_has_started s.pm_list.slots c.pm_data.component_id).0;
  };
  next_pid = s.next_pid + 1;
  last_seconds = 0;
  sleeping = none;
  checked = false;
}

after_start-Inv :
    (s : Manager) (c : Choice) (t : Task)
    → index s.task_list c.task_index ≡ some t
    → Inv s
    → Inv (after_start s c t)
after_start-Inv s c t x h = record {
  tasks =
      rw add-one
        (start-IsSound s.next_pid s.task_list c.task_index t c.pm_data h.next_pos x h.tasks);
  unique =
      λ p l. start_unique s.next_pid s.task_list c.task_index t c.pm_data p h.tasks (h.unique p l);
  managers = task_has_started-HasPort s.pm_list.slots c.pm_data.component_id h.managers;
  next_pos = omega arith;
  chosen = λ c' e f. cc;
}
  where
    add-one : s.next_pid + 1 ≡ suc s.next_pid
    add-one = omega arith

-- Of the exception, nothing is said here.
abbrev pub InvOf : Option (Manager × List Output) → Type 0
InvOf none = Unit
InvOf (some (s, out)) = Inv s

pub start_lem :
    (s : Manager) (c : Choice) (t : Task)
    → suc s.next_pid < 2 ^ 31
    → index s.task_list c.task_index ≡ some t
    → start s c
      ≡ some (after_start s c t, send_task c.pm_data (record (c.task_data) { pid = s.next_pid }))
unfolding start
start_lem s c t lt e = ground (arith, small)
  where
    small : s.next_pid % 2 ^ 32 ≡ s.next_pid
    small = omega (arith, lt)

start_none : (s : Manager) (c : Choice) → index s.task_list c.task_index ≡ none → start s c ≡ none
unfolding start
start_none s c e = ground arith

pub start-InvOf : (s : Manager) (c : Choice) → suc s.next_pid < 2 ^ 31 → Inv s → InvOf (start s c)
start-InvOf s c lt h = elim (Option-cases (index s.task_list c.task_index)) [
  | inl e ↦ rw (start_none s c e) tt
  | inr (t, e) ↦ rw (start_lem s c t lt e) (after_start-Inv s c t e h)
]

-- While nothing sleeps, the times, the reset and the manager's index are free.
pub awake-Inv :
    (s : Manager) (pms : PmRecordList) (tasks : TaskList) (seconds : ℕ)
    → All (IsSound s.next_pid) tasks
    → ((p : ℕ) → count_pid p tasks ≡ count_pid p s.task_list)
    → pms.slots ≡ s.pm_list.slots
    → s.sleeping ≡ none
    → Inv s
    → Inv (record s { pm_list = pms; task_list = tasks; last_seconds = seconds })
awake-Inv s pms tasks seconds sound same slots awake h = record {
  tasks = sound;
  unique = λ p l. rw (same p) (h.unique p l);
  managers = rw slots h.managers;
  next_pos = h.next_pos;
  chosen = λ c e f. cc;
}

wait_preferred_cases :
    (s : Manager) (now : ℕ) (r : Resources)
    → ((n : ℕ) × (wait_preferred s now r ≡ record s { last_seconds = n }))
      ⊎ (wait_preferred s now r ≡ record s { task_list = remove_preferred_pm_id s.task_list r })
unfolding wait_preferred
wait_preferred_cases s now r = elim (Bool-cases (s.last_seconds == 0)) [
  | inl e ↦ inl (now, ground arith)
  | inr e ↦
      elim (Bool-cases
        (ltb preferred_schedule_timeout ((now + (2 ^ 32 - s.last_seconds)) % 2 ^ 32))) [
          | inl e' ↦ inr (ground arith)
          | inr e' ↦ inl (s.last_seconds, ground arith)
        ]
]

wait_preferred-Inv :
    (s : Manager) (now : ℕ) (r : Resources)
    → s.sleeping ≡ none
    → Inv s
    → Inv (wait_preferred s now r)
wait_preferred-Inv s now r awake h = elim (wait_preferred_cases s now r) [
  | inl (n, e) ↦ rw e (awake-Inv s s.pm_list s.task_list n h.tasks (λ _. refl) refl awake h)
  | inr e ↦ rw e (
      awake-Inv s s.pm_list (remove_preferred_pm_id s.task_list r) s.last_seconds
        (remove_preferred_pm_id-IsSound s.next_pid s.task_list r h.tasks)
        (λ p. count_pid-remove_preferred_pm_id p s.task_list r) refl awake h)
]

begin-InvOf :
    (s : Manager) (c : Choice)
    → suc s.next_pid < 2 ^ 31
    → (c.task_data.timeout ≢ 0 → Chosen s.task_list c)
    → Inv s
    → InvOf (begin s c)
unfolding begin
begin-InvOf s c lt late h = elim (Bool-cases (c.task_data.timeout == 0)) [
  | inl e ↦ rw e (start-InvOf s c lt h)
  | inr e ↦ rw e (record {
    tasks = h.tasks;
    unique = h.unique;
    managers = h.managers;
    next_pos = h.next_pos;
    chosen = λ c' x f. rw (← some-injective c c' x) (late (ground arith));
  })
]

pub choose_pm_slots : (l : PmRecordList) (r : Resources) → (choose_pm l r).0.slots ≡ l.slots
unfolding choose_pm
choose_pm_slots l r = ground (arith, find_pm_slots l r 0 50)

-- The three ways of a round that has found a pending task.
pub schedule_cases :
    (s : Manager) (now i : ℕ) (task : Task)
    → let (pms, found) = choose_pm s.pm_list task.resources in
      let s' : Manager = record s { pm_list = pms } in
      (schedule s now i task ≡ some (s, []))
      ⊎ (schedule s now i task ≡ some (s', []))
      ⊎ (schedule s now i task ≡ some (wait_preferred s' now task.resources, []))
      ⊎ ((pm : PmRecord) × (found ≡ some pm)
          × (schedule s now i task
              ≡ begin s' (record { task_index = i; task_data = task; pm_data = pm })))
unfolding schedule
schedule_cases s now i task = elim (Bool-cases (is_empty s.pm_list.slots)) [
  | inl e ↦ inl (ground arith)
  | inr e ↦ elim (Option-cases (choose_pm s.pm_list task.resources).1) [
    | inr (pm, x) ↦ inr (inr (inr (pm, x, ground arith)))
    | inl x ↦ elim (Bool-cases (is_preferred_pm_id_set task.resources)) [
      | inl y ↦ inr (inr (inl (ground arith)))
      | inr y ↦ inr (inl (ground arith))
    ]
  ]
]

schedule-InvOf :
    (s : Manager) (now i : ℕ) (task : Task)
    → s.sleeping ≡ none
    → suc s.next_pid < 2 ^ 31
    → find_pending_task s.task_list ≡ some (i, task)
    → Inv s
    → InvOf (schedule s now i task)
schedule-InvOf s now i task awake lt e h =
    let pms = (choose_pm s.pm_list task.resources).0 in
    let s' : Manager = record s { pm_list = pms } in
    let h' : Inv s' =
      awake-Inv s pms s.task_list s.last_seconds h.tasks (λ _. refl)
        (choose_pm_slots s.pm_list task.resources) awake h in
    elim (schedule_cases s now i task) [
      | inl x ↦ rw x h
      | inr (inl x) ↦ rw x h'
      | inr (inr (inl x)) ↦ rw x (wait_preferred-Inv s' now task.resources awake h')
      | inr (inr (inr (pm, _, x))) ↦ rw x (
          begin-InvOf s' (record { task_index = i; task_data = task; pm_data = pm }) lt
            (find_pending_task-Chosen s.next_pid s.task_list i task pm h.tasks e) h')
    ]

pub round-none :
    (s : Manager) (now : ℕ)
    → find_pending_task s.task_list ≡ none
    → round s now ≡ some (record s { last_seconds = 0 }, [])
unfolding round
round-none s now e = ground arith

pub round-some :
    (s : Manager) (now i : ℕ) (task : Task)
    → find_pending_task s.task_list ≡ some (i, task)
    → round s now ≡ schedule s now i task
unfolding round
round-some s now i task e = ground arith

pub round-InvOf :
    (s : Manager) (now : ℕ)
    → s.sleeping ≡ none
    → suc s.next_pid < 2 ^ 31
    → Inv s
    → InvOf (round s now)
round-InvOf s now awake lt h = elim (Option-cases (find_pending_task s.task_list)) [
  | inl e ↦
      rw (round-none s now e) (awake-Inv s s.pm_list s.task_list 0 h.tasks (λ _. refl) refl awake h)
  | inr ((i, task), e) ↦ rw (round-some s now i task e) (schedule-InvOf s now i task awake lt e h)
]

pub wake-Inv : (s : Manager) → Inv s → Inv (wake s)
unfolding wake
wake-Inv s h =
    if_lem Inv s.scheduler_reset (record s { scheduler_reset = false; sleeping = none })
      (record s { checked = true }) woken looked
  where
    woken : Inv (record s { scheduler_reset = false; sleeping = none })
    woken = record {
      tasks = h.tasks;
      unique = h.unique;
      managers = h.managers;
      next_pos = h.next_pos;
      chosen = λ c' e f. cc;
    }

    looked : Inv (record s { checked = true })
    looked = record {
      tasks = h.tasks;
      unique = h.unique;
      managers = h.managers;
      next_pos = h.next_pos;
      chosen = h.chosen;
    }
