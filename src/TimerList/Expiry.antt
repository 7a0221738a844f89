-- ===== src/TimerList/Expiry.antt =====
-- Which timer `WhichExpired` reports: of those that have expired, one that expired first.
use vn_sdm.Common.{
  ℕ, ◌≡◌, refl, arith, ◌==◌, if◌then◌else◌, Bool, true, false, not, ◌&&◌, none, some, get_elem?,
  inl, inr,
}
use vn_sdm.SecTime
use vn_sdm.SecTime.{SecTime}
use vn_sdm.TimerList.{
  TimerListItem, TimerList, Best, no_best, expire_time, consider_expired, update, which_expired,
}
use vn_sdm.TimerList.Scan.{final-least, final-Found}

-- A running timer that has expired.
abbrev pub expired : SecTime → TimerListItem → Bool
expired now t = not (t.timer_id == 0) && SecTime.less (expire_time t) now

-- A round takes the slot if its timer has expired and expires before the best so far.
consider_lem :
    (now : SecTime) (t : TimerListItem) (i : ℕ) (best : Best)
    → consider_expired now t i best ≡ (
        if expired now t && SecTime.less (expire_time t) best.0
        then (expire_time t, some i)
        else best)
unfolding consider_expired
consider_lem now t i best = ground arith

-- If some timer has expired (at a time that the initial bound of the search does not exclude), then
-- one that expired is reported, no expired timer expired before it, and it is restarted.
pub which_expired_least :
    (m : TimerList) (now : SecTime) (j : ℕ) (t : TimerListItem)
    → get_elem? m.timers j ≡ some t
    → expired now t ≡ true
    → SecTime.less (expire_time t) no_best.0 ≡ true
    → let (m', id) = which_expired m now in
      (k : ℕ) × (u : TimerListItem) × (get_elem? m.timers k ≡ some u)
      × (expired now u ≡ true)
      × (SecTime.less (expire_time t) (expire_time u) ≡ false)
      × (id ≡ some u.timer_id)
      × (m' ≡ record m { timers = update m.timers k λ t. record t { start_time = now } })
unfolding which_expired
which_expired_least m now j t g e h =
    elim (final-Found (consider_expired now) (expired now) expire_time (consider_lem now) m.timers 0
      no_best) [
        | inl p ↦ absurd (
            ground (
              arith,
              final-least (consider_expired now) (expired now) expire_time (consider_lem now)
                  m.timers 0 no_best j g e,
            ))
        | inr (k, u, gu, eu, hu, p) ↦ (
          k,
          u,
          gu,
          eu,
          ground (
            arith,
            final-least (consider_expired now) (expired now) expire_time (consider_lem now) m.timers
                0 no_best j g e,
          ),
          ground arith,
          ground arith,
        )
      ]

-- If no timer has expired, none is reported and nothing changes.
pub which_expired-none :
    (m : TimerList) (now : SecTime)
    → ((j : ℕ) (t : TimerListItem) → get_elem? m.timers j ≡ some t → expired now t ≡ false)
    → which_expired m now ≡ (m, none)
unfolding which_expired
which_expired-none m now h =
    elim (final-Found (consider_expired now) (expired now) expire_time (consider_lem now) m.timers 0
      no_best) [
        | inl p ↦ rw (p, which_expired) refl
        | inr (k, u, gu, eu, hu, p) ↦ absurd (ground (arith, h k u gu))
      ]
