-- ===== src/Pm/Process/Patience.antt =====
-- How long the Process Manager waits for a heartbeat.
use vn_sdm.Common.{
  not, ◌||◌, ◌<◌, ◌≤◌, if◌then◌else◌, Bool-cases, inl, inr, ℕ, ◌+◌, ◌*◌, ◌≡◌, refl, arith, leb,
  Bool, true, false, ◌&&◌, ◌==◌, List, [], ◌∷◌,
}
use vn_sdm.Pm.Process.{
  Process, task_heartbeat_timeout, task_timeout_attempts, heartbeat_received, is_unresponsive,
}

-- The process after questions at the given times, the last of them first.
abbrev pub asked : List ℕ → Process → Process
asked [] p = p
asked (now ∷ ts) p = (is_unresponsive now (asked ts p)).0

-- The time by which a process is given up.
abbrev pub deadline : ℕ → ℕ
deadline h = h + task_timeout_attempts * task_heartbeat_timeout

-- Every missed heartbeat stands for one interval, and was counted after its end.
asked_counts :
    (p : Process) (h : ℕ) (ts : List ℕ)
    → p.last_heartbeat ≡ h
    → p.heartbeat_miss_count ≡ 0
    → let q = asked ts p in q.last_heartbeat ≡ h + q.heartbeat_miss_count * task_heartbeat_timeout
unfolding is_unresponsive
asked_counts p h [] e e' = ground arith
asked_counts p h (t ∷ ts) e e' = ground (arith, asked_counts p h ts e e')

-- One of the questions was answered that the process is unresponsive.
abbrev pub given_up : List ℕ → Process → Bool
given_up [] p = false
given_up (now ∷ ts) p = given_up ts p || (is_unresponsive now (asked ts p)).1

-- How many of the questions come after that time.
abbrev pub late : ℕ → List ℕ → ℕ
late h [] = 0
late h (t ∷ ts) = if leb (deadline h) t then late h ts + 1 else late h ts

-- The count goes up until the process is given up: a late question then counts, and at six it is.
before_given_up :
    (p : Process) (h : ℕ) (ts : List ℕ)
    → 0 < h
    → p.last_heartbeat ≡ h
    → p.heartbeat_miss_count ≡ 0
    → given_up ts p ≡ false
    → (late h ts ≤ (asked ts p).heartbeat_miss_count)
      × ((asked ts p).heartbeat_miss_count < task_timeout_attempts)
unfolding is_unresponsive
before_given_up p h [] z e e' g = ground arith
before_given_up p h (t ∷ ts) z e e' g =
    ground (arith, before_given_up p h ts z e e', asked_counts p h ts e e')

answer :
    (q : Process) (h now : ℕ)
    → 0 < h
    → q.last_heartbeat ≡ h + q.heartbeat_miss_count * task_heartbeat_timeout
    → (is_unresponsive now q).1 ≡ (
        leb task_timeout_attempts (q.heartbeat_miss_count + 1)
        && leb (h + (q.heartbeat_miss_count + 1) * task_heartbeat_timeout) now)
unfolding is_unresponsive
answer q h now z e = ground arith

given_up-late :
    (p : Process) (h : ℕ) (ts : List ℕ)
    → 0 < h
    → p.last_heartbeat ≡ h
    → p.heartbeat_miss_count ≡ 0
    → given_up ts p ≡ true
    → 0 < late h ts
given_up-late p h [] z e e' g = ground arith
given_up-late p h (t ∷ ts) z e e' g = elim (Bool-cases (given_up ts p)) [
  | inl x ↦ ground (arith, given_up-late p h ts z e e' x)
  | inr x ↦ ground (arith, x, answer (asked ts p) h t z (asked_counts p h ts e e'))
]

-- After a heartbeat at a time that is not 0, and without a further one, whenever and however often the
-- process is asked about: it is not given up unless a question comes when six intervals have passed, and
-- it is given up by one of the questions if six of them come that late, whatever came before or between.
pub patience_lem :
    (p : Process) (h : ℕ) (ts : List ℕ)
    → 0 < h
    → let gone = given_up ts (heartbeat_received h p) in
      ((gone && late h ts == 0) ≡ false)
      × ((leb task_timeout_attempts (late h ts) && not gone) ≡ false)
unfolding heartbeat_received
patience_lem p h ts z =
    let p' = heartbeat_received h p in
    elim (Bool-cases (given_up ts p')) [
      | inl g ↦ ground (arith, g, given_up-late p' h ts z refl refl g)
      | inr g ↦ ground (arith, g, before_given_up p' h ts z refl refl g)
    ]
