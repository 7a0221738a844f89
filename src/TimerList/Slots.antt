-- ===== src/TimerList/Slots.antt =====
-- The timer table as a finite map from numbers to timers: what AddTimer, RemoveTimer and TimerFired
-- do to it.
use vn_sdm.Common.{
  ℕ, ◌+◌, ◌<◌, ◌≤◌, ◌≡◌, ◌≢◌, ◌⊎◌, refl, arith, ◌==◌, if◌then◌else◌, Bool, true, false, ◌&&◌, List,
  [], ◌∷◌, Option, none, some, set, inr,
}
use vn_sdm.SecTime.{SecTime, zero_time}
use vn_sdm.TimerList.{
  TimerListItem, TimerList, get_index_of_id, new_item, add_timer, update, remove_timer,
}

-- The timer with a number.
abbrev pub find : ℕ → List TimerListItem → Option TimerListItem
find id [] = none
find id (t ∷ l) = if t.timer_id == id then some t else find id l

abbrev pub is_some {ℓ} : {A : Type ℓ} → Option A → Bool
is_some none = false
is_some (some a) = true

-- The numbers in use are below the next one, and different.
abbrev pub Below : ℕ → List TimerListItem → Type 0
Below n [] = Unit {0}
Below n (t ∷ l) = (t.timer_id < n) × Below n l

abbrev pub Distinct : List TimerListItem → Type 0
Distinct [] = Unit {0}
Distinct (t ∷ l) = ((t.timer_id ≡ 0) ⊎ (find t.timer_id l ≡ none)) × Distinct l

pub record IsTable (m : TimerList) : Type 0 where
  pub positive : 0 < m.cur_id
  pub below : Below m.cur_id m.timers
  pub distinct : Distinct m.timers

-- The table with the first free slot filled.
abbrev fill : TimerListItem → List TimerListItem → List TimerListItem
fill new [] = []
fill new (t ∷ l) = if t.timer_id == 0 then new ∷ l else t ∷ fill new l

-- The table with the timer of a number changed.
abbrev change : ℕ → (TimerListItem → TimerListItem) → List TimerListItem → List TimerListItem
change id f [] = []
change id f (t ∷ l) = if t.timer_id == id then f t ∷ l else t ∷ change id f l

set-fill :
    (new : TimerListItem) (l : List TimerListItem)
    → elim (get_index_of_id 0 l) [ none ↦ l | some i ↦ set l i new ] ≡ fill new l
unfolding get_index_of_id
set-fill new [] = refl
set-fill new (t ∷ l) = ground (arith, set-fill new l)

update-change :
    (id : ℕ) (f : TimerListItem → TimerListItem) (l : List TimerListItem)
    → elim (get_index_of_id id l) [ none ↦ l | some i ↦ update l i f ] ≡ change id f l
unfolding get_index_of_id update
update-change id f [] = refl
update-change id f (t ∷ l) = ground (arith, update-change id f l)

index-find :
    (id : ℕ) (l : List TimerListItem) → is_some (get_index_of_id id l) ≡ is_some (find id l)
unfolding get_index_of_id
index-find id [] = refl
index-find id (t ∷ l) = ground (arith, index-find id l)

Below-find : (n id : ℕ) (l : List TimerListItem) → Below n l → n ≤ id → find id l ≡ none
Below-find n id [] b h = refl
Below-find n id (t ∷ l) b h = ground (arith, Below-find n id l b.1 h)

Below-mono : (n k : ℕ) (l : List TimerListItem) → Below n l → n ≤ k → Below k l
Below-mono n k [] b h = tt
Below-mono n k (t ∷ l) b h = (omega arith, Below-mono n k l b.1 h)

fill-Below :
    (n : ℕ) (new : TimerListItem) (l : List TimerListItem)
    → new.timer_id < n
    → Below n l
    → Below n (fill new l)
fill-Below n new [] h b = tt
fill-Below n new (t ∷ l) h b = ground (arith, fill-Below n new l h b.1)

find-fill :
    (j : ℕ) (new : TimerListItem) (l : List TimerListItem)
    → j ≢ 0
    → find new.timer_id l ≡ none
    → find j (fill new l) ≡ (if is_some (find 0 l) && new.timer_id == j then some new else find j l)
find-fill j new [] h f = refl
find-fill j new (t ∷ l) h f = ground (arith, find-fill j new l h)

fill-Distinct :
    (new : TimerListItem) (l : List TimerListItem)
    → find new.timer_id l ≡ none
    → Distinct l
    → Distinct (fill new l)
fill-Distinct new [] f d = tt
fill-Distinct new (t ∷ l) f d = ground (arith, find-fill t.timer_id new l, fill-Distinct new l)

find-change_ne :
    (id j : ℕ) (f : TimerListItem → TimerListItem) (l : List TimerListItem)
    → ((t : TimerListItem) → ((f t).timer_id ≡ t.timer_id) ⊎ ((f t).timer_id ≡ 0))
    → j ≢ 0
    → j ≢ id
    → find j (change id f l) ≡ find j l
find-change_ne id j f [] keep h ne = refl
find-change_ne id j f (t ∷ l) keep h ne = ground (arith, keep t, find-change_ne id j f l keep h ne)

-- Freed, a number that was used once is used no more.
abbrev freed : TimerListItem → TimerListItem
freed t = record t { timer_val = zero_time; callback = 0; timer_id = 0 }

find-change-freed :
    (id : ℕ) (l : List TimerListItem) → id ≢ 0 → Distinct l → find id (change id freed l) ≡ none
find-change-freed id [] h d = refl
find-change-freed id (t ∷ l) h d = ground (arith, find-change-freed id l h d.1)

find-none-change :
    (id j : ℕ) (f : TimerListItem → TimerListItem) (l : List TimerListItem)
    → ((t : TimerListItem) → ((f t).timer_id ≡ t.timer_id) ⊎ ((f t).timer_id ≡ 0))
    → j ≢ 0
    → find j l ≡ none
    → find j (change id f l) ≡ none
find-none-change id j f [] keep h e = refl
find-none-change id j f (t ∷ l) keep h e = ground (arith, keep t, find-none-change id j f l keep h)

change-Below :
    (n id : ℕ) (f : TimerListItem → TimerListItem) (l : List TimerListItem)
    → ((t : TimerListItem) → ((f t).timer_id ≡ t.timer_id) ⊎ ((f t).timer_id ≡ 0))
    → 0 < n
    → Below n l
    → Below n (change id f l)
change-Below n id f [] keep h b = tt
change-Below n id f (t ∷ l) keep h b = ground (arith, keep t, change-Below n id f l keep h b.1)

change-Distinct :
    (id : ℕ) (f : TimerListItem → TimerListItem) (l : List TimerListItem)
    → ((t : TimerListItem) → ((f t).timer_id ≡ t.timer_id) ⊎ ((f t).timer_id ≡ 0))
    → Distinct l
    → Distinct (change id f l)
change-Distinct id f [] keep d = tt
change-Distinct id f (t ∷ l) keep d =
    ground (arith, keep t, change-Distinct id f l keep d.1, find-none-change id t.timer_id f l keep)

add_lem :
    (m : TimerList) (val now : SecTime) (callback : ℕ) (periodic : Bool) (j : ℕ)
    → IsTable m
    → j ≢ 0
    → let (m', id) = add_timer m val now callback periodic in
      (id ≡ (if is_some (find 0 m.timers) then some m.cur_id else none))
      × (find j m'.timers ≡ (
          if is_some (find 0 m.timers) && m.cur_id == j
          then some (new_item val now callback periodic m.cur_id)
          else find j m.timers))
      × IsTable m'
unfolding add_timer
add_lem m val now callback periodic j v ne =
    let new = new_item val now callback periodic m.cur_id in
    let fresh = Below-find m.cur_id m.cur_id m.timers v.below (omega arith) in
    ground (
      arith,
      set-fill new m.timers,
      index-find 0 m.timers,
      find-fill j new m.timers ne,
      fill-Distinct new m.timers,
      fill-Below (m.cur_id + 1) new m.timers,
      Below-mono m.cur_id (m.cur_id + 1) m.timers,
      fresh,
    )

remove_lem :
    (m : TimerList) (id j : ℕ)
    → IsTable m
    → id ≢ 0
    → j ≢ 0
    → let (m', removed) = remove_timer m id in
      (removed ≡ is_some (find id m.timers))
      × (find j m'.timers ≡ (if id == j then none else find j m.timers))
      × IsTable m'
unfolding remove_timer
remove_lem m id j v h ne = ground (
  arith,
  update-change id freed m.timers,
  index-find id m.timers,
  find-change-freed id m.timers h v.distinct,
  find-change_ne id j freed m.timers (λ t. inr refl) ne,
  change-Below m.cur_id id freed m.timers (λ t. inr refl) v.positive v.below,
  change-Distinct id freed m.timers (λ t. inr refl) v.distinct,
)

-- A timer is added exactly when a slot is free: it gets the next number, which finds it, while every
-- other number finds what it found. Of a number in use, RemoveTimer frees the slot and reports so, else
-- nothing is freed; afterwards the number finds nothing, and every other number what it found before.
-- The numbers in use stay below the next one and different.
pub add_remove_lem :
    (m : TimerList) (val now : SecTime) (callback : ℕ) (periodic : Bool) (id j : ℕ)
    → IsTable m
    → id ≢ 0
    → j ≢ 0
    → let (m', id') = add_timer m val now callback periodic in
      let (m'', removed) = remove_timer m id in
      ((id' ≡ (if is_some (find 0 m.timers) then some m.cur_id else none))
        × (find j m'.timers ≡ (
            if is_some (find 0 m.timers) && m.cur_id == j
            then some (new_item val now callback periodic m.cur_id)
            else find j m.timers))
        × IsTable m')
      × (removed ≡ is_some (find id m.timers))
      × (find j m''.timers ≡ (if id == j then none else find j m.timers))
      × IsTable m''
add_remove_lem m val now callback periodic id j v h ne =
    let (a, b, c) = remove_lem m id j v h ne in
    (add_lem m val now callback periodic j v ne, a, b, c)
