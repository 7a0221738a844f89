-- ===== src/Tm/Manager/Kept.antt =====
-- What the operations of the table keep of the Task Manager's invariant.
use vn_sdm.Common.{
  ℕ, ◌+◌, ◌≤◌, ◌<◌, ◌≡◌, refl, arith, ◌==◌, if◌then◌else◌, true, false, [], ◌∷◌, some, get_elem?,
  All, Bool-cases, Option-cases, inl, inr, ◌⊎◌,
}
use vn_sdm.Tm.Task.{Task, init_task, assign, inactive, has_state}
use vn_sdm.Tm.TaskList.{
  TaskList, update_first, find_first, has_pid, any_in, add_to, remove_from, rescheduled,
  task_finished,
}
use vn_sdm.Tm.TaskList.Update.{
  count_pid, update_first-All, count_pid-update_first, count_pid-update_first_new,
  update_first_kept,
}
use vn_sdm.Tm.Manager.{Choice}
use vn_sdm.Tm.Manager.Step.{IsSound, Chosen}

pub IsSound_mono : (m n : ℕ) (l : TaskList) → m ≤ n → All (IsSound m) l → All (IsSound n) l
IsSound_mono m n [] h s = s
IsSound_mono m n (t ∷ l) h (s, ss) = (
  record {
    pid_lt = omega (arith, s.pid_lt);
    free = s.free;
    named = s.named;
    scheduled_pid = s.scheduled_pid;
    undelayed = s.undelayed;
  },
  IsSound_mono m n l h ss,
)

pub Chosen-at :
    (l l' : TaskList) (c : Choice) (h : Chosen l c)
    → get_elem? l' c.task_index ≡ some h.task
    → Chosen l' c
Chosen-at l l' c h e = record {
  task = h.task;
  at = e;
  is_pending = h.is_pending;
  same = h.same;
  no_pid = h.no_pid;
}

pub init_task-IsSound : (n : ℕ) → 0 < n → IsSound n init_task
init_task-IsSound n h = ground arith

pub add_to-IsSound :
    (n : ℕ) (l : TaskList) (t : Task)
    → IsSound n (assign t)
    → All (IsSound n) l
    → All (IsSound n) (add_to l t).0
unfolding add_to
add_to-IsSound n l t s ss = elim (Bool-cases (any_in inactive l)) [
  | inl e ↦
      rw e (update_first-All (IsSound n) (has_state inactive) (λ _. assign t) l (λ _ _ _. s) ss)
  | inr e ↦ rw e ss
]

pub count_pid-add_to :
    (p : ℕ) (l : TaskList) (t : Task)
    → count_pid p (add_to l t).0 ≤ count_pid p l + (if t.pid == p then 1 else 0)
unfolding add_to
count_pid-add_to p l t =
    ground
      (arith, count_pid-update_first_new p t.pid (has_state inactive) (λ _. assign t) l (λ _. refl))

pub add_to-Chosen : (l : TaskList) (t : Task) (c : Choice) → Chosen l c → Chosen (add_to l t).0 c
unfolding add_to
add_to-Chosen l t c h = Chosen-at l (add_to l t).0 c h (
    ground (
      arith,
      update_first_kept (has_state inactive) (λ _. assign t) l c.task_index h.task h.at
          (ground (arith, h.is_pending)),
      h.at,
    ))

-- The change that `TaskFinished` makes is one of three.
pub task_finished_cases :
    (l : TaskList) (p : ℕ)
    → ((task_finished l p).0 ≡ l)
      ⊎ ((task_finished l p).0 ≡ (update_first (has_pid p) (λ _. init_task) l).0)
      ⊎ ((task_finished l p).0 ≡ (update_first (has_pid p) rescheduled l).0)
unfolding task_finished remove_from
task_finished_cases l p = elim (Option-cases (find_first (has_pid p) l)) [
  | inl e ↦ inl (ground arith)
  | inr (t, e) ↦ ground arith
]

pub task_finished-IsSound :
    (n : ℕ) (l : TaskList) (p : ℕ)
    → 0 < n
    → 0 < p
    → All (IsSound n) l
    → All (IsSound n) (task_finished l p).0
task_finished-IsSound n l p h hp ss = elim (task_finished_cases l p) [
  | inl e ↦ rw e ss
  | inr (inl e) ↦ rw e (
      update_first-All (IsSound n) (has_pid p) (λ _. init_task) l (λ _ _ _. init_task-IsSound n h)
        ss)
  | inr (inr e) ↦ rw e (update_first-All (IsSound n) (has_pid p) rescheduled l again ss)
]
  where
    again : (t : Task) → IsSound n t → has_pid p t ≡ true → IsSound n (rescheduled t)
    again t s e = ground (arith, s, s.named)

pub count_pid-task_finished :
    (q : ℕ) (l : TaskList) (p : ℕ) → 0 < q → count_pid q (task_finished l p).0 ≤ count_pid q l
count_pid-task_finished q l p h = elim (task_finished_cases l p) [
  | inl e ↦ rw e (omega arith)
  | inr (inl e) ↦ rw e (count_pid-update_first q (has_pid p) (λ _. init_task) l h (λ t. inl refl))
  | inr (inr e) ↦ rw e (count_pid-update_first q (has_pid p) rescheduled l h (λ t. inl refl))
]

pub task_finished-Chosen :
    (l : TaskList) (p : ℕ) (c : Choice) → 0 < p → Chosen l c → Chosen (task_finished l p).0 c
task_finished-Chosen l p c hp h =
    let other : has_pid p h.task ≡ false = ground (arith, h.no_pid) in
    let kept =
      λ (f : Task → Task). update_first_kept (has_pid p) f l c.task_index h.task h.at other in
    elim (task_finished_cases l p) [
      | inl e ↦ rw e h
      | inr (inl e) ↦ rw e (Chosen-at l _ c h (kept (λ _. init_task)))
      | inr (inr e) ↦ rw e (Chosen-at l _ c h (kept rescheduled))
    ]
