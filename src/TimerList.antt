-- ===== src/TimerList.antt =====
-- common/Time/TimerList.{h,cpp}: the table of the running timers. A timer's number is a natural
-- number, 0 for a free slot: the negative numbers of `int` are never assigned.
pub mod Slots
pub mod Scan
pub mod Expiry
pub mod Pending
use vn_sdm.Common.{
  ℕ, zero, suc, ◌+◌, ◌==◌, if◌then◌else◌, Bool, true, false, not, ◌&&◌, List, [], ◌∷◌, Option, none,
  some, set, get_elem?,
}
use vn_sdm.Common.Int.{ℤ, pos, negsuc, pos_part, neg_part, ltb_ℤ, leb_ℤ, signed32}
use vn_sdm.SecTime
use vn_sdm.SecTime.{SecTime, zero_time}

-- struct TimerListItem; the callback is a pointer, 0 for NULL.
pub record TimerListItem : Type 0 where
  pub timer_val : SecTime
  pub start_time : SecTime
  pub timer_id : ℕ
  pub periodic : Bool
  pub callback : ℕ

-- class TimerList
pub record TimerList : Type 0 where
  pub cur_id : ℕ
  pub cur_running_timer : ℤ
  pub timers : List TimerListItem

-- TimerListItem()
abbrev pub free_item : TimerListItem
free_item = record {
  timer_val = zero_time;
  start_time = zero_time;
  timer_id = 0;
  periodic = false;
  callback = 0;
}

-- The constructor: MAX_NUM_TIMERS free slots.
abbrev pub create : TimerList
create = record {
  cur_id = 1;
  cur_running_timer = negsuc 0;
  timers = free_item ∷ free_item ∷ free_item ∷ free_item ∷ free_item ∷ [];
}

-- `GetIndexOfID`, and with the number 0 the search for a free slot.
unfoldable pub get_index_of_id : ℕ → List TimerListItem → Option ℕ
get_index_of_id id [] = none
get_index_of_id id (t ∷ l) =
    let rest = get_index_of_id id l in
    if t.timer_id == id then some 0 else elim rest [ none ↦ none | some i ↦ some (suc i) ]

-- The constructor `SecTime(long, long)` at two unsigned ints.
abbrev pub time_of : ℕ → ℕ → SecTime
time_of seconds useconds = record { sec = signed32 seconds; usec = signed32 useconds }

-- What both forms of `AddTimer` write (the callers pass each time as two
-- unsigned ints, `time_of`) into a free slot, with the number that they give it.
unfoldable pub new_item : SecTime → SecTime → ℕ → Bool → ℕ → TimerListItem
new_item val now callback periodic id = record {
  timer_val = val;
  start_time = now;
  timer_id = id;
  periodic = periodic;
  callback = callback;
}

-- `AddTimer` with an assigned number; `none` is -1.
unfoldable pub add_timer_as : TimerList → SecTime → SecTime → ℕ → Bool → ℕ → TimerList × Option ℕ
unfolding get_index_of_id new_item
add_timer_as m val now callback periodic assigned = elim (get_index_of_id 0 m.timers) [
  | none ↦ (m, none)
  | some i ↦ (
    record m { timers = set m.timers i (new_item val now callback periodic assigned) },
    some assigned,
  )
]

-- `AddTimer` with the next number
unfoldable pub add_timer : TimerList → SecTime → SecTime → ℕ → Bool → TimerList × Option ℕ
unfolding get_index_of_id new_item
add_timer m val now callback periodic = elim (get_index_of_id 0 m.timers) [
  | none ↦ (m, none)
  | some i ↦ (
    record m {
      cur_id = m.cur_id + 1;
      timers = set m.timers i (new_item val now callback periodic m.cur_id);
    },
    some m.cur_id,
  )
]

-- A slot changed where it stands, if there is one at the index.
unfoldable pub update :
    List TimerListItem → ℕ → (TimerListItem → TimerListItem) → List TimerListItem
update [] i f = []
update (t ∷ l) zero f = f t ∷ l
update (t ∷ l) (suc i) f = t ∷ update l i f

-- `RemoveTimer`
unfoldable pub remove_timer : TimerList → ℕ → TimerList × Bool
unfolding get_index_of_id update
remove_timer m id = elim (get_index_of_id id m.timers) [
  | none ↦ (m, false)
  | some i ↦ (
    record m {
      timers =
          update m.timers i λ t. record t { timer_val = zero_time; callback = 0; timer_id = 0 };
    },
    true,
  )
]

-- `GetCallback`
unfoldable pub get_callback : TimerList → ℕ → ℕ
unfolding get_index_of_id
get_callback m id = elim (get_index_of_id id m.timers) [
  | none ↦ 0
  | some i ↦ elim (get_elem? m.timers i) [ none ↦ 0 | some t ↦ t.callback ]
]

-- `IsPeriodic`
unfoldable pub is_periodic : TimerList → ℕ → Bool
unfolding get_index_of_id
is_periodic m id = elim (get_index_of_id id m.timers) [
  | none ↦ false
  | some i ↦ elim (get_elem? m.timers i) [ none ↦ false | some t ↦ t.periodic ]
]

-- `TimerFired`
unfoldable pub timer_fired : TimerList → ℕ → SecTime → TimerList
unfolding get_index_of_id update
timer_fired m id now = elim (get_index_of_id id m.timers) [
  | none ↦ m
  | some i ↦ record m { timers = update m.timers i λ t. record t { start_time = now } }
]

-- `GetTimeRemaining`; `none` is -1.
unfoldable pub get_time_remaining : TimerList → ℕ → SecTime → Option SecTime
unfolding get_index_of_id SecTime.minus
get_time_remaining m id now = elim (get_index_of_id id m.timers) [
  | none ↦ none
  | some i ↦ elim (get_elem? m.timers i) [
    | none ↦ none
    | some t ↦ some (SecTime.minus t.timer_val (SecTime.minus now t.start_time))
  ]
]

-- The loop of `IsEmpty`
unfoldable pub all_free : List TimerListItem → Bool
all_free [] = true
all_free (t ∷ l) = t.timer_id == 0 && all_free l

-- `SetRunningTimer`
unfoldable pub set_running_timer : TimerList → ℤ → TimerList
set_running_timer m id =
    if leb_ℤ (pos 0) id && ltb_ℤ id (pos m.cur_id) then record m { cur_running_timer = id } else m

-- The time at which a timer expires.
abbrev pub expire_time : TimerListItem → SecTime
expire_time t = SecTime.plus t.timer_val t.start_time

-- The smallest time found so far, and the slot that has it.
abbrev pub Best : Type 0
Best = SecTime × Option ℕ

-- `SmallestTime(0x7FFFFFFF, 0x7FFFFFFF)`, and no slot.
abbrev pub no_best : Best
no_best = (record { sec = pos 0x7fff_ffff; usec = pos 0x7fff_ffff }, none)

-- One round of the loop of `WhichExpired`.
unfoldable pub consider_expired : SecTime → TimerListItem → ℕ → Best → Best
consider_expired now t i best =
    if t.timer_id == 0
    then best
    else if SecTime.less (expire_time t) now && SecTime.less (expire_time t) best.0
    then (expire_time t, some i)
    else best

-- One round of the loop of `GetSmallestTimerInterval`.
unfoldable pub consider_pending : SecTime → TimerListItem → ℕ → Best → Best
consider_pending now t i best =
    let left = SecTime.minus (expire_time t) now in
    if t.timer_id == 0
    then best
    else if SecTime.less left zero_time
    then best
    else if SecTime.less left best.0
    then (left, some i)
    else best

-- Both loops: the slots in order, from the index `i` on.
unfoldable pub scan : (TimerListItem → ℕ → Best → Best) → List TimerListItem → ℕ → Best → Best
scan consider [] i best = best
scan consider (t ∷ l) i best = scan consider l (i + 1) (consider t i best)

-- `WhichExpired`; `none` is -1.
unfoldable pub which_expired : TimerList → SecTime → TimerList × Option ℕ
unfolding scan consider_expired update
which_expired m now = elim (scan (consider_expired now) m.timers 0 no_best).1 [
  | none ↦ (m, none)
  | some i ↦ (
    record m { timers = update m.timers i λ t. record t { start_time = now } },
    elim (get_elem? m.timers i) [ none ↦ none | some t ↦ some t.timer_id ],
  )
]

-- `abs`
abbrev pub magnitude : ℤ → ℕ
magnitude z = pos_part z + neg_part z

-- `GetSmallestTimerInterval`: the two numbers written out, and the timer's number; `none` is -1.
unfoldable pub get_smallest_timer_interval : TimerList → SecTime → ℕ × ℕ × Option ℕ
unfolding scan consider_pending
get_smallest_timer_interval m now =
    let best = scan (consider_pending now) m.timers 0 no_best in
    elim best.1 [
      | none ↦ (0, 0, none)
      | some i ↦ (
        magnitude best.0.sec,
        magnitude best.0.usec,
        elim (get_elem? m.timers i) [ none ↦ none | some t ↦ some t.timer_id ],
      )
    ]
