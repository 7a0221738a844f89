-- ===== src/Tm/PmRecordList/Eligible.antt =====
-- How the scheduler balances the load: the search for a Process Manager with few tasks.
use vn_sdm.Common.{
  ℕ, zero, suc, ◌+◌, ◌≤◌, ◌≡◌, refl, arith, ◌-◌, Bool, true, false, List, [], ◌∷◌, Option, none,
  some, get_elem?, inl, inr, Option-cases, Bool-cases, ◌∙◌, ap,
}
use vn_sdm.Common.Int.{pos_part}
use vn_sdm.Tm.Resources.{Resources}
use vn_sdm.Tm.PmRecordList.{PmRecord, Slot, PmRecordList, is_eligible, search, find_eligible_pm}

-- The loop of the scheduler of tm/tm.cpp: `FindEligiblePM` with j, j + 1, … tasks, `tries` times.
unfoldable pub find_pm : PmRecordList → Resources → ℕ → ℕ → PmRecordList × Option PmRecord
unfolding find_eligible_pm
find_pm l r j zero = (l, none)
find_pm l r j (suc tries) =
    let (l', found) = find_eligible_pm l j r in
    elim found [ none ↦ find_pm l' r (j + 1) tries | some pm ↦ (l', some pm) ]

-- A search finds a slot for which its test holds.
search_found :
    (test : Slot → Bool) (from i : ℕ) (l : List Slot) (j : ℕ) (pm : PmRecord)
    → search test from i l ≡ some (j, pm)
    → (k : ℕ) × (s : Slot) × (get_elem? l k ≡ some s) × (test s ≡ true) × (pm ≡ s.pm)
unfolding search
search_found test from i [] j pm h = ground arith
search_found test (suc from) i (s ∷ l) j pm h =
    let (k, t, g, e, p) = search_found test from (i + 1) l j pm h in (suc k, t, g, e, p)
search_found test zero i (s ∷ l) j pm h = elim (Bool-cases (test s)) [
  | inl e ↦ (0, s, refl, e, ground arith)
  | inr e ↦
      let (k, t, g, e', p) = search_found test zero (i + 1) l j pm (ground arith) in
      (suc k, t, g, e', p)
]

-- A search from the start that finds nothing has seen every slot.
search-none :
    (test : Slot → Bool) (i : ℕ) (l : List Slot) (k : ℕ) (s : Slot)
    → search test 0 i l ≡ none
    → get_elem? l k ≡ some s
    → test s ≡ false
unfolding search
search-none test i [] k s h g = ground arith
search-none test i (x ∷ l) zero s h g = ground arith
search-none test i (x ∷ l) (suc k) s h g = search-none test (i + 1) l k s (ground arith) g

-- A manager of an eligible slot, with at most `m` tasks.
abbrev pub IsFrom : List Slot → Resources → ℕ → PmRecord → Type 0
IsFrom l r m pm =
    (k : ℕ) × (s : Slot) × (get_elem? l k ≡ some s) × (is_eligible m r s ≡ true) × (pm ≡ s.pm)

is_eligible_mono :
    (r : Resources) (s : Slot) (m n : ℕ)
    → m ≤ n
    → is_eligible m r s ≡ true
    → is_eligible n r s ≡ true
is_eligible_mono r s m n le h = ground arith

IsFrom-mono :
    (l : List Slot) (r : Resources) (pm : PmRecord) (m n : ℕ)
    → m ≤ n
    → IsFrom l r m pm
    → IsFrom l r n pm
IsFrom-mono l r pm m n le (k, s, g, e, p) = (k, s, g, is_eligible_mono r s m n le e, p)

find_eligible_pm_found :
    (l : PmRecordList) (r : Resources) (j : ℕ) (pm : PmRecord)
    → (find_eligible_pm l j r).1 ≡ some pm
    → IsFrom l.slots r j pm
unfolding find_eligible_pm
find_eligible_pm_found l r j pm h =
    elim (Option-cases (search (is_eligible j r) l.scheduler_info_index 0 l.slots)) [
      | inl e ↦ ground arith
      | inr ((i, pm'), e) ↦
          search_found (is_eligible j r) l.scheduler_info_index 0 l.slots i pm (ground arith)
    ]

-- When no manager is found, the next search starts at the first slot.
find_eligible_pm-none :
    (l : PmRecordList) (r : Resources) (j : ℕ)
    → (find_eligible_pm l j r).1 ≡ none
    → (find_eligible_pm l j r).0 ≡ record l { scheduler_info_index = 0 }
unfolding find_eligible_pm
find_eligible_pm-none l r j h = ground arith

find_eligible_pm-none_start :
    (l : List Slot) (r : Resources) (j k : ℕ) (s : Slot)
    → (find_eligible_pm (record { slots = l; scheduler_info_index = 0 }) j r).1 ≡ none
    → get_elem? l k ≡ some s
    → is_eligible j r s ≡ false
unfolding find_eligible_pm
find_eligible_pm-none_start l r j k s h g = search-none (is_eligible j r) 0 l k s (ground arith) g

find_eligible_pm_slots :
    (l : PmRecordList) (r : Resources) (j : ℕ) → (find_eligible_pm l j r).0.slots ≡ l.slots
unfolding find_eligible_pm
find_eligible_pm_slots l r j = ground arith

-- The loop only moves the index.
pub find_pm_slots :
    (l : PmRecordList) (r : Resources) (j t : ℕ) → (find_pm l r j t).0.slots ≡ l.slots
unfolding find_pm
find_pm_slots l r j zero = refl
find_pm_slots l r j (suc t) = elim (Option-cases (find_eligible_pm l j r).1) [
  | inl e ↦
      ground
        (arith, find_pm_slots (find_eligible_pm l j r).0 r (j + 1) t, find_eligible_pm_slots l r j)
  | inr (pm, e) ↦ ground (arith, find_eligible_pm_slots l r j)
]

find_pm_hit :
    (l : PmRecordList) (r : Resources) (j t : ℕ) (pm : PmRecord)
    → (find_eligible_pm l j r).1 ≡ some pm
    → (find_pm l r j (suc t)).1 ≡ some pm
unfolding find_pm
find_pm_hit l r j t pm h = ground arith

find_pm_miss :
    (l : PmRecordList) (r : Resources) (j t : ℕ)
    → (find_eligible_pm l j r).1 ≡ none
    → find_pm l r j (suc t) ≡ find_pm (record l { scheduler_info_index = 0 }) r (j + 1) t
unfolding find_pm find_eligible_pm
find_pm_miss l r j t h = ground arith

-- From the first slot on, a slot `s` that suits is in reach as soon as enough tasks are allowed.
find_pm_start :
    (l : List Slot) (r : Resources) (k : ℕ) (s : Slot) (j t m : ℕ)
    → get_elem? l k ≡ some s
    → is_eligible (j + t) r s ≡ true
    → pos_part s.pm.tasks ≤ m
    → j ≤ m
    → (pm : PmRecord) × ((find_pm (record { slots = l; scheduler_info_index = 0 }) r j (suc t)).1
        ≡ some pm)
      × IsFrom l r m pm
find_pm_start l r k s j zero m g e le jm =
    let start : PmRecordList = record { slots = l; scheduler_info_index = 0 } in
    elim (Option-cases (find_eligible_pm start j r).1) [
      | inr (pm, h) ↦ (
        pm,
        find_pm_hit start r j zero pm h,
        IsFrom-mono l r pm j m jm (find_eligible_pm_found start r j pm h),
      )
      | inl h ↦ ground (arith, find_eligible_pm-none_start l r j k s h g)
    ]
find_pm_start l r k s j (suc t) m g e le jm =
    let start : PmRecordList = record { slots = l; scheduler_info_index = 0 } in
    elim (Option-cases (find_eligible_pm start j r).1) [
      | inr (pm, h) ↦ (
        pm,
        find_pm_hit start r j (suc t) pm h,
        IsFrom-mono l r pm j m jm (find_eligible_pm_found start r j pm h),
      )
      | inl h ↦
          let no = find_eligible_pm-none_start l r j k s h g in
          let (pm, h', from) =
            find_pm_start l r k s (j + 1) t m g
              (is_eligible_mono r s (j + suc t) (j + 1 + t) (omega arith) e) le (ground arith) in
          (pm, ap (λ x. x.1) (find_pm_miss start r j (suc t) h) ∙ h', from)
    ]

-- The scheduler's loop tries 0, 1, … 49 tasks. Wherever the last search stopped, and while no other
-- thread changes the list, it finds a manager when some registered one has the resources and at most
-- 49 tasks. The manager found is registered, has the resources, and has at most as many tasks as that
-- one, or one task.
pub find_pm_light :
    (l : PmRecordList) (r : Resources) (k : ℕ) (s : Slot)
    → get_elem? l.slots k ≡ some s
    → is_eligible 49 r s ≡ true
    → (pm : PmRecord) × ((find_pm l r 0 50).1 ≡ some pm)
      × IsFrom l.slots r (pos_part s.pm.tasks + (1 - pos_part s.pm.tasks)) pm
find_pm_light l r k s g e =
    let m = pos_part s.pm.tasks + (1 - pos_part s.pm.tasks) in
    elim (Option-cases (find_eligible_pm l 0 r).1) [
      | inr (pm, h) ↦ (
        pm,
        find_pm_hit l r 0 49 pm h,
        IsFrom-mono l.slots r pm 0 m (omega arith) (find_eligible_pm_found l r 0 pm h),
      )
      | inl h ↦
          let (pm, h', from) = find_pm_start l.slots r k s 1 48 m g e (omega arith) (omega arith) in
          (pm, ap (λ x. x.1) (find_pm_miss l r 0 49 h) ∙ h', from)
    ]
