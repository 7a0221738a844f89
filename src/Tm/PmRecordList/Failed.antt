-- ===== src/Tm/PmRecordList/Failed.antt =====
-- The end of a round of `PMHeartbeat` of tm/tm.cpp: the failed Process Managers are removed, one by one.
use vn_sdm.Common.{
  ℕ, zero, suc, ◌+◌, ◌≤◌, ◌<◌, ◌≡◌, refl, arith, if◌then◌else◌, Bool, true, false, List, [], ◌∷◌,
  length, none, some, Bool-cases, ◌⊎◌, inl, inr, ap,
}
use vn_sdm.Tm.PmRecordList.{
  PmRecord, Slot, update_first, update_all, find_first, has_failed, removed, remove_any_failed,
}

-- The loop `while (pmList.RemoveAnyFailed(PMNode))` of at most `fuel` rounds: the slots, the managers
-- removed, in order, and whether it ended.
unfoldable pub remove_failed : ℕ → List Slot → List Slot × List PmRecord × Bool
unfolding remove_any_failed
remove_failed zero l = (l, [], false)
remove_failed (suc fuel) l =
    let (l', found) = remove_any_failed l in
    let (end, pms, ended) = remove_failed fuel l' in
    elim found [ none ↦ (l', [], true) | some pm ↦ (end, pm ∷ pms, ended) ]

-- The managers that have failed.
unfoldable pub failed : List Slot → List PmRecord
failed [] = []
failed (s ∷ l) = let rest = failed l in if has_failed s then s.pm ∷ rest else rest

record NoneFailed (l : List Slot) : Type 0 where
  found : find_first has_failed l ≡ none
  pms : failed l ≡ []
  same : update_all has_failed removed l ≡ l
  kept : (update_first has_failed removed l).0 ≡ l

record OneFailed (l : List Slot) (pm : PmRecord) : Type 0 where
  found : find_first has_failed l ≡ some pm
  pms : failed l ≡ pm ∷ failed (update_first has_failed removed l).0
  same :
      update_all has_failed removed (update_first has_failed removed l).0
      ≡ update_all has_failed removed l

NoneFailed-cons :
    (s : Slot) (l : List Slot) → has_failed s ≡ false → NoneFailed l → NoneFailed (s ∷ l)
unfolding find_first failed update_all update_first
NoneFailed-cons s l e h = ground (arith, h.found, h.pms, h.same, h.kept)

OneFailed-here : (s : Slot) (l : List Slot) → has_failed s ≡ true → OneFailed (s ∷ l) s.pm
unfolding find_first failed update_all update_first
OneFailed-here s l e = ground arith

OneFailed-cons :
    (s : Slot) (l : List Slot) (pm : PmRecord)
    → has_failed s ≡ false
    → OneFailed l pm
    → OneFailed (s ∷ l) pm
unfolding find_first failed update_all update_first
OneFailed-cons s l pm e h = ground (arith, h.found, h.pms, h.same)

failed_cases : (l : List Slot) → NoneFailed l ⊎ ((pm : PmRecord) × OneFailed l pm)
unfolding find_first failed update_all update_first
failed_cases [] = inl (record { found = refl; pms = refl; same = refl; kept = refl })
failed_cases (s ∷ l) = elim (Bool-cases (has_failed s)) [
  | inl e ↦ inr (s.pm, OneFailed-here s l e)
  | inr e ↦ elim (failed_cases l) [
    | inl h ↦ inl (NoneFailed-cons s l e h)
    | inr (pm, h) ↦ inr (pm, OneFailed-cons s l pm e h)
  ]
]

failed_le : (l : List Slot) → length (failed l) ≤ length l
unfolding failed
failed_le [] = omega arith
failed_le (s ∷ l) = ground (arith, failed_le l)

remove_failed_enough :
    (fuel : ℕ) (l : List Slot)
    → length (failed l) < fuel
    → remove_failed fuel l ≡ (update_all has_failed removed l, failed l, true)
unfolding remove_failed remove_any_failed
remove_failed_enough zero l h = ground arith
remove_failed_enough (suc fuel) l h = elim (failed_cases l) [
  | inl n ↦ ground (arith, n.found, n.pms, n.same, n.kept)
  | inr (pm, n) ↦
      let rest =
        remove_failed_enough fuel (update_first has_failed removed l).0
          (omega (arith, ap length n.pms)) in
      ground (arith, n.found, n.pms, n.same)
]

still_failed : (l : List Slot) → failed (update_all has_failed removed l) ≡ []
unfolding failed update_all
still_failed [] = refl
still_failed (s ∷ l) = ground (arith, still_failed l)

-- A round for each slot, and one more, is enough for the loop to end. It then has removed exactly the
-- managers that had failed, in the order of their slots, has left the other slots as they were, and
-- no failed one is left.
pub remove_failed_lem :
    (l : List Slot)
    → (remove_failed (length l + 1) l ≡ (update_all has_failed removed l, failed l, true))
      × (failed (update_all has_failed removed l) ≡ [])
remove_failed_lem l =
    (remove_failed_enough (length l + 1) l (omega (arith, failed_le l)), still_failed l)
