-- ===== src/TimerList/Pending.antt =====
-- What `GetSmallestTimerInterval` reports: the least time that is left of a running timer.
use vn_sdm.Common.{
  ℕ, ◌≡◌, arith, ◌==◌, if◌then◌else◌, Bool, true, false, not, ◌&&◌, some, get_elem?, inl, inr,
}
use vn_sdm.SecTime
use vn_sdm.SecTime.{SecTime, zero_time}
use vn_sdm.TimerList.{
  TimerListItem, TimerList, Best, no_best, expire_time, magnitude, consider_pending,
  get_smallest_timer_interval,
}
use vn_sdm.TimerList.Scan.{final-least, final-Found}

-- The time that is left of a timer.
abbrev pub left : SecTime → TimerListItem → SecTime
left now t = SecTime.minus (expire_time t) now

-- A running timer that has time left.
abbrev pub pending : SecTime → TimerListItem → Bool
pending now t = not (t.timer_id == 0) && not (SecTime.less (left now t) zero_time)

pending_lem :
    (now : SecTime) (t : TimerListItem) (i : ℕ) (best : Best)
    → consider_pending now t i best
      ≡ (if pending now t && SecTime.less (left now t) best.0 then (left now t, some i) else best)
unfolding consider_pending
pending_lem now t i best = ground arith

-- If some running timer has time left (less than the initial bound of the search), then the number of
-- one is reported, with the seconds and microseconds that it has left, and no running timer has less.
pub smallest_interval_least :
    (m : TimerList) (now : SecTime) (j : ℕ) (t : TimerListItem)
    → get_elem? m.timers j ≡ some t
    → pending now t ≡ true
    → SecTime.less (left now t) no_best.0 ≡ true
    → (k : ℕ) × (u : TimerListItem) × (get_elem? m.timers k ≡ some u)
      × (pending now u ≡ true)
      × (SecTime.less (left now t) (left now u) ≡ false)
      × (get_smallest_timer_interval m now
          ≡ (magnitude (left now u).sec, magnitude (left now u).usec, some u.timer_id))
unfolding get_smallest_timer_interval
smallest_interval_least m now j t g e h =
    let least =
      final-least (consider_pending now) (pending now) (left now) (pending_lem now) m.timers 0
        no_best j g e in
    elim (final-Found (consider_pending now) (pending now) (left now) (pending_lem now) m.timers 0
      no_best) [
        | inl p ↦ absurd (ground (arith, least))
        | inr (k, u, gu, eu, hu, p) ↦ (k, u, gu, eu, ground (arith, least), ground arith)
      ]
