-- ===== src/TimerList/Scan.antt =====
-- Both searches of the timer table: of the timers that are due, one with the least time is found.
use vn_sdm.Common.{
  ℕ, zero, suc, ◌+◌, ◌≡◌, ◌⊎◌, refl, arith, if◌then◌else◌, Bool, true, false, ◌&&◌, List, [], ◌∷◌,
  some, get_elem?, inl, inr, Bool-cases,
}
use vn_sdm.SecTime
use vn_sdm.SecTime.{SecTime}
use vn_sdm.TimerList.{TimerListItem, Best, scan}

less_trans :
    (a b c : SecTime) → SecTime.less a b ≡ true → SecTime.less b c ≡ true → SecTime.less a c ≡ true
unfolding SecTime.less
less_trans a b c h k = ground arith

not_less_trans :
    (a b c : SecTime)
    → SecTime.less a b ≡ false
    → SecTime.less b c ≡ false
    → SecTime.less a c ≡ false
unfolding SecTime.less
not_less_trans a b c h k = ground arith

less_asym : (a b : SecTime) → SecTime.less a b ≡ true → SecTime.less b a ≡ false
unfolding SecTime.less
less_asym a b h = ground arith

less_irrefl : (a : SecTime) → SecTime.less a a ≡ false
unfolding SecTime.less
less_irrefl a = ground arith

-- A round takes a slot if its timer is due and its time is less than the best so far.
module _ (consider : TimerListItem → ℕ → Best → Best) (due : TimerListItem → Bool)
    (time : TimerListItem → SecTime)
    (consider_lem : (t : TimerListItem) (i : ℕ) (best : Best)
      → consider t i best
        ≡ (if due t && SecTime.less (time t) best.0 then (time t, some i) else best)) where
  abbrev pub final : List TimerListItem → ℕ → Best → Best
  final = scan (consider)

  -- The best time only falls.
  final-not_above :
      (l : List TimerListItem) (i : ℕ) (best : Best)
      → SecTime.less best.0 (final l i best).0 ≡ false
  unfolding scan
  final-not_above [] i best = less_irrefl best.0
  final-not_above (t ∷ l) i best =
      let best' = consider t i best in
      ground (
        arith,
        consider_lem t i best,
        final-not_above l (i + 1) best',
        not_less_trans best.0 best'.0 (final l (i + 1) best').0,
        less_asym (time t) best.0,
        less_irrefl best.0,
      )

  -- No timer that is due has a time less than the best one.
  pub final-least :
      (l : List TimerListItem) (i : ℕ) (best : Best) (j : ℕ) {t : TimerListItem}
      → get_elem? l j ≡ some t
      → due t ≡ true
      → SecTime.less (time t) (final l i best).0 ≡ false
  unfolding scan
  final-least [] i best j g e = ground arith
  final-least (x ∷ l) i best zero {t} g e =
      let best' = consider x i best in
      ground (
        arith,
        consider_lem x i best,
        final-not_above l (i + 1) best',
        not_less_trans (time t) best'.0 (final l (i + 1) best').0,
        less_irrefl (time t),
      )
  final-least (x ∷ l) i best (suc j) g e = final-least l (i + 1) (consider x i best) j g e

  -- The slot of the best time holds a timer that is due and has this time, or nothing was found.
  abbrev pub Found : List TimerListItem → ℕ → Best → Best → Type 0
  Found l i best b =
      (b ≡ best)
      ⊎ ((j : ℕ) × (t : TimerListItem) × (get_elem? l j ≡ some t)
          × (due t ≡ true)
          × (SecTime.less (time t) best.0 ≡ true)
          × (b ≡ (time t, some (i + j))))

  Found-taken :
      (x : TimerListItem) (l : List TimerListItem) (i : ℕ) (best b : Best)
      → due x ≡ true
      → SecTime.less (time x) best.0 ≡ true
      → Found l (i + 1) (time x, some i) b
      → Found (x ∷ l) i best b
  Found-taken x l i best b e h (inl p) = inr (0, x, refl, e, h, ground arith)
  Found-taken x l i best b e h (inr (j, t, g, e', h', p)) =
      inr (suc j, t, g, e', less_trans (time t) (time x) best.0 h' h, ground arith)

  Found-skipped :
      (x : TimerListItem) (l : List TimerListItem) (i : ℕ) (best b : Best)
      → Found l (i + 1) best b
      → Found (x ∷ l) i best b
  Found-skipped x l i best b (inl p) = inl p
  Found-skipped x l i best b (inr (j, t, g, e, h, p)) = inr (suc j, t, g, e, h, ground arith)

  pub final-Found : (l : List TimerListItem) (i : ℕ) (best : Best) → Found l i best (final l i best)
  unfolding scan
  final-Found [] i best = inl refl
  final-Found (x ∷ l) i best = elim (Bool-cases (due x && SecTime.less (time x) best.0)) [
    | inl e ↦
        rw (consider_lem x i best, e)
          (Found-taken x l i best _ (ground arith) (ground arith)
            (final-Found l (i + 1) (time x, some i)))
    | inr e ↦
        rw (consider_lem x i best, e) (Found-skipped x l i best _ (final-Found l (i + 1) best))
  ]
