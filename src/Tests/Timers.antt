-- ===== src/Tests/Timers.antt =====
-- Runs of common/Time.
use vn_sdm.Common.{
  ℕ, ◌≡◌, ◌≢◌, refl, arith, inl, inr, ◌==◌, if◌then◌else◌, true, false, ◌&&◌, [], ◌∷◌, none, some,
  get_elem?,
}
use vn_sdm.Common.Int.{pos, negsuc, ◌+ℤ◌, ◌-ℤ◌, ltb_ℤ, leb_ℤ, eq_ℤ}
use vn_sdm.SecTime
use vn_sdm.SecTime.{SecTime, IsNormal}
use vn_sdm.SecTime.Micros.{micros, micros_lem}
use vn_sdm.TimerList.{
  magnitude, get_smallest_timer_interval, consider_pending, TimerListItem, TimerList, free_item,
  add_timer, new_item, remove_timer, update, expire_time, which_expired, scan, consider_expired,
  get_index_of_id,
}
use vn_sdm.TimerList.Slots.{find, is_some, IsTable, add_remove_lem}
use vn_sdm.TimerList.Pending.{left, pending, smallest_interval_least}
use vn_sdm.TimerList.Expiry.{expired, which_expired_least}

abbrev at : ℕ → ℕ → SecTime
at s u = record { sec = pos s; usec = pos u }

abbrev timer : ℕ → ℕ → TimerListItem
timer id s = record {
  timer_val = at s 600000;
  start_time = at 100 500000;
  timer_id = id;
  periodic = false;
  callback = 0;
}

abbrev table : TimerList
table = record {
  cur_id = 4;
  cur_running_timer = negsuc 0;
  timers = timer 3 7 ∷ free_item ∷ timer 2 5 ∷ free_item ∷ free_item ∷ [];
}

table-IsTable : IsTable table
table-IsTable = record {
  positive = omega arith;
  below = (omega arith, (omega arith, (omega arith, (omega arith, (omega arith, tt)))));
  distinct = (inr refl, (inl refl, (inr refl, (inl refl, (inl refl, tt)))));
}

abbrev second : ℕ
second = 2

two_ne_zero : second ≢ 0
two_ne_zero = omega arith

-- The second slot is free, and is filled.
timer_added : (add_timer table (at 1 0) (at 101 0) 9 true).1 ≡ some 4
unfolding add_timer get_index_of_id
timer_added = refl

abbrev third : ℕ
third = 3

three_ne_zero : third ≢ 0
three_ne_zero = omega arith

add_remove_lem_example :
    let (m', id) = add_timer table (at 1 0) (at 101 0) 9 true in
    let (m'', removed) = remove_timer table 3 in
    ((id ≡ (if is_some (find 0 table.timers) then some table.cur_id else none))
      × (find 2 m'.timers ≡ (
          if is_some (find 0 table.timers) && table.cur_id == second
          then some (new_item (at 1 0) (at 101 0) 9 true 4)
          else find 2 table.timers))
      × IsTable m')
    × (removed ≡ is_some (find 3 table.timers))
    × (find 2 m''.timers ≡ (if third == second then none else find 2 table.timers))
    × IsTable m''
add_remove_lem_example =
    add_remove_lem table (at 1 0) (at 101 0) 9 true 3 2 table-IsTable three_ne_zero two_ne_zero

-- Both timers have expired at 110 s, and the one of 5.6 s first.
which_expired_least_example :
    let (m', id) = which_expired table (at 110 0) in
    (k : ℕ) × (u : TimerListItem) × (get_elem? table.timers k ≡ some u)
    × (expired (at 110 0) u ≡ true)
    × (SecTime.less (expire_time (timer 3 7)) (expire_time u) ≡ false)
    × (id ≡ some u.timer_id)
    × (m' ≡ record table { timers = update table.timers k λ t. record t { start_time = at 110 0 } })
unfolding SecTime.less SecTime.plus ◌+ℤ◌
which_expired_least_example = which_expired_least table (at 110 0) 0 (timer 3 7) refl refl refl

first_expired : (which_expired table (at 110 0)).1 ≡ some 2
unfolding which_expired scan consider_expired SecTime.less SecTime.plus ◌+ℤ◌
first_expired = refl

at-IsNormal : IsNormal (at 3 700000)
at-IsNormal = record { nonneg = refl; below = omega arith }

later-IsNormal : IsNormal (at 5 400000)
later-IsNormal = record { nonneg = refl; below = omega arith }

-- 3.7 s and 5.4 s are 9.1 s.
carried : SecTime.plus (at 3 700000) (at 5 400000) ≡ at 9 100000
unfolding SecTime.plus ◌+ℤ◌ ◌-ℤ◌
carried = refl

-- At 101 s, the timer of 5.6 s has the least time left.
smallest_interval_least_example :
    (k : ℕ) × (u : TimerListItem) × (get_elem? table.timers k ≡ some u)
    × (pending (at 101 0) u ≡ true)
    × (SecTime.less (left (at 101 0) (timer 3 7)) (left (at 101 0) u) ≡ false)
    × (get_smallest_timer_interval table (at 101 0)
        ≡ (magnitude (left (at 101 0) u).sec, magnitude (left (at 101 0) u).usec, some u.timer_id))
unfolding SecTime.less SecTime.plus SecTime.minus ◌+ℤ◌ ◌-ℤ◌
smallest_interval_least_example =
    smallest_interval_least table (at 101 0) 0 (timer 3 7) refl refl refl

least_left : get_smallest_timer_interval table (at 101 0) ≡ (5, 100000, some 2)
unfolding get_smallest_timer_interval scan consider_pending SecTime.less SecTime.plus SecTime.minus
    ◌+ℤ◌ ◌-ℤ◌
least_left = refl

micros_lem_example :
    let a = at 3 700000 in
    let b = at 5 400000 in
    (micros (SecTime.plus a b) ≡ micros a +ℤ micros b)
    × (micros (SecTime.minus a b) ≡ micros a -ℤ micros b)
    × (SecTime.minus_assign a b ≡ SecTime.minus a b)
    × IsNormal (SecTime.plus a b)
    × IsNormal (SecTime.minus a b)
    × (SecTime.less a b ≡ ltb_ℤ (micros a) (micros b))
    × (SecTime.less_eq a b ≡ leb_ℤ (micros a) (micros b))
    × (SecTime.equal a b ≡ eq_ℤ (micros a) (micros b))
    × (SecTime.greater a b ≡ SecTime.less b a)
    × (SecTime.greater_eq a b ≡ SecTime.less_eq b a)
micros_lem_example = micros_lem (at 3 700000) (at 5 400000) at-IsNormal later-IsNormal
