-- ===== src/Tm/TaskList/Update.antt =====
-- What a change of one slot keeps of the table.
use vn_sdm.Common.{
  ℕ, zero, suc, ◌+◌, ◌≤◌, ◌<◌, ◌≡◌, refl, arith, ◌==◌, if◌then◌else◌, Bool, true, false, [], ◌∷◌,
  some, get_elem?, set, All, Bool-cases, inl, inr, ◌⊎◌, Option-cases,
}
use vn_sdm.Tm.Task.{Task}
use vn_sdm.Tm.TaskList.{TaskList, find_index, find_first, update_first, has_pid}

-- How many tasks have a pid.
unfoldable pub count_pid : ℕ → TaskList → ℕ
count_pid p [] = 0
count_pid p (t ∷ l) = if has_pid p t then count_pid p l + 1 else count_pid p l

pub update_first-All {ℓ} :
    (P : Task → Type ℓ) (test : Task → Bool) (f : Task → Task) (l : TaskList)
    → ((t : Task) → P t → test t ≡ true → P (f t))
    → All P l
    → All P (update_first test f l).0
unfolding update_first
update_first-All P test f [] step h = h
update_first-All P test f (t ∷ l) step (p, ps) = elim (Bool-cases (test t)) [
  | inl e ↦ rw e (step t p e, ps)
  | inr e ↦ rw e (p, update_first-All P test f l step ps)
]

pub set-All {ℓ} :
    (P : Task → Type ℓ) (l : TaskList) (i : ℕ) (t : Task) → P t → All P l → All P (set l i t)
set-All P [] i t h ps = ps
set-All P (x ∷ l) zero t h (p, ps) = (h, ps)
set-All P (x ∷ l) (suc i) t h (p, ps) = (p, set-All P l i t h ps)

pub get_elem?-All {ℓ} :
    (P : Task → Type ℓ) (l : TaskList) (i : ℕ) (t : Task) → get_elem? l i ≡ some t → All P l → P t
get_elem?-All P [] i t g ps = cc
get_elem?-All P (x ∷ l) zero t g (p, ps) = rw (← some_inj g) p
  where
    some_inj : some x ≡ some t → x ≡ t
    some_inj h = cc
get_elem?-All P (x ∷ l) (suc i) t g (p, ps) = get_elem?-All P l i t g ps

-- No pid but 0 is more frequent, when the changed slots keep their pids or lose them.
pub count_pid-update_first :
    (p : ℕ) (test : Task → Bool) (f : Task → Task) (l : TaskList)
    → 0 < p
    → ((t : Task) → ((f t).pid ≡ 0) ⊎ ((f t).pid ≡ t.pid))
    → count_pid p (update_first test f l).0 ≤ count_pid p l
unfolding update_first count_pid
count_pid-update_first p test f [] h keep = omega arith
count_pid-update_first p test f (t ∷ l) h keep =
    ground (arith, count_pid-update_first p test f l h keep, keep t)

-- A slot that gets a new pid.
pub count_pid-update_first_new :
    (p q : ℕ) (test : Task → Bool) (f : Task → Task) (l : TaskList)
    → ((t : Task) → (f t).pid ≡ q)
    → count_pid p (update_first test f l).0 ≤ count_pid p l + (if q == p then 1 else 0)
unfolding update_first count_pid
count_pid-update_first_new p q test f [] keep = omega arith
count_pid-update_first_new p q test f (t ∷ l) keep =
    ground (arith, count_pid-update_first_new p q test f l keep, keep t)

pub count_pid-set :
    (p : ℕ) (l : TaskList) (i : ℕ) (t : Task)
    → count_pid p (set l i t) ≤ count_pid p l + (if t.pid == p then 1 else 0)
unfolding count_pid
count_pid-set p [] i t = omega arith
count_pid-set p (x ∷ l) zero t = ground arith
count_pid-set p (x ∷ l) (suc i) t = ground (arith, count_pid-set p l i t)

pub count_pid_zero : (p : ℕ) (l : TaskList) → All (λ t. t.pid < p) l → count_pid p l ≡ 0
unfolding count_pid
count_pid_zero p [] h = refl
count_pid_zero p (t ∷ l) (h, hs) = ground (arith, count_pid_zero p l hs)

-- The index and the task that a search yields belong together.
pub find_index-find_first :
    (test : Task → Bool) (l : TaskList) (i : ℕ)
    → find_index test l ≡ some i
    → (t : Task) × (get_elem? l i ≡ some t) × (find_first test l ≡ some t) × (test t ≡ true)
unfolding find_index find_first
find_index-find_first test [] i h = ground arith
find_index-find_first test (x ∷ l) i h = elim (Bool-cases (test x)) [
  | inl e ↦ (x, ground arith, ground arith, e)
  | inr e ↦ elim (Option-cases (find_index test l)) [
    | inl e' ↦ ground arith
    | inr (j, e') ↦
        let (t, g, f, y) = find_index-find_first test l j e' in (t, ground arith, ground arith, y)
  ]
]

-- A slot for which the test does not hold stays.
pub update_first_kept :
    (test : Task → Bool) (f : Task → Task) (l : TaskList) (i : ℕ) (t : Task)
    → get_elem? l i ≡ some t
    → test t ≡ false
    → get_elem? (update_first test f l).0 i ≡ some t
unfolding update_first
update_first_kept test f [] i t g e = ground arith
update_first_kept test f (x ∷ l) zero t g e = ground arith
update_first_kept test f (x ∷ l) (suc i) t g e = ground (arith, update_first_kept test f l i t)
