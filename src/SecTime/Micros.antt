-- ===== src/SecTime/Micros.antt =====
-- SecTime as a number of microseconds: its arithmetic and its order are those of the integers.
use vn_sdm.Common.{◌+◌, ◌*◌, ◌≡◌, arith, refl, inl, inr, Bool-cases}
use vn_sdm.Common.Int.{
  ℤ, pos, pos_part, neg_part, ◌+ℤ◌, ◌-ℤ◌, ltb_ℤ, leb_ℤ, eq_ℤ, scale, +ℤ_parts, int_laws, one_part,
  leb_ℤ→le, leb_ℤ→lt, ltb_ℤ→lt, ltb_ℤ→le,
}
use vn_sdm.SecTime.{
  SecTime, equal, less, greater, less_eq, greater_eq, plus, minus, minus_assign, usec_max_value,
  IsNormal,
}

-- The whole time in microseconds.
abbrev pub micros : SecTime → ℤ
micros t = scale 1000000 t.sec +ℤ t.usec

scale_parts :
    (a : ℤ)
    → pos_part (scale 1000000 a) + 1000000 * neg_part a
      ≡ neg_part (scale 1000000 a) + 1000000 * pos_part a
unfolding scale
scale_parts a = ground arith

plus-micros : (a b : SecTime) → micros (plus a b) ≡ micros a +ℤ micros b
unfolding plus
plus-micros a b = elim (Bool-cases (leb_ℤ usec_max_value (a.usec +ℤ b.usec))) [
  | inl e ↦ rw e (omega (int_laws, scale_parts))
  | inr e ↦ rw e (omega (int_laws, scale_parts))
]

minus-micros : (a b : SecTime) → micros (minus a b) ≡ micros a -ℤ micros b
unfolding minus
minus-micros a b = elim (Bool-cases (ltb_ℤ (a.usec -ℤ b.usec) (pos 0))) [
  | inl e ↦ rw e (omega (int_laws, scale_parts))
  | inr e ↦ rw e (omega (int_laws, scale_parts))
]

plus-IsNormal : (a b : SecTime) → IsNormal a → IsNormal b → IsNormal (plus a b)
unfolding plus
plus-IsNormal a b na nb = elim (Bool-cases (leb_ℤ usec_max_value (a.usec +ℤ b.usec))) [
  | inl e ↦ rw e (
      omega (
        int_laws,
        leb_ℤ→le usec_max_value (a.usec +ℤ b.usec) e,
        one_part (a.usec +ℤ b.usec),
        one_part (a.usec +ℤ b.usec -ℤ usec_max_value),
      ))
  | inr e ↦
      rw e (
        omega (int_laws, leb_ℤ→lt usec_max_value (a.usec +ℤ b.usec) e, one_part (a.usec +ℤ b.usec)))
]

minus-IsNormal : (a b : SecTime) → IsNormal a → IsNormal b → IsNormal (minus a b)
unfolding minus
minus-IsNormal a b na nb = elim (Bool-cases (ltb_ℤ (a.usec -ℤ b.usec) (pos 0))) [
  | inl e ↦ rw e (
      omega (
        int_laws,
        ltb_ℤ→lt (a.usec -ℤ b.usec) (pos 0) e,
        one_part (a.usec -ℤ b.usec),
        one_part (usec_max_value +ℤ a.usec -ℤ b.usec),
        one_part (usec_max_value +ℤ a.usec),
      ))
  | inr e ↦
      rw e (omega (int_laws, ltb_ℤ→le (a.usec -ℤ b.usec) (pos 0) e, one_part (a.usec -ℤ b.usec)))
]

minus_assign-minus : (a b : SecTime) → minus_assign a b ≡ minus a b
unfolding minus minus_assign
minus_assign-minus a b = refl

-- Addition and subtraction are those of the microseconds, and yield normal times from normal times.
plus_minus_lem :
    (a b : SecTime)
    → IsNormal a
    → IsNormal b
    → (micros (plus a b) ≡ micros a +ℤ micros b)
      × (micros (minus a b) ≡ micros a -ℤ micros b)
      × (minus_assign a b ≡ minus a b)
      × IsNormal (plus a b)
      × IsNormal (minus a b)
plus_minus_lem a b na nb = (
  plus-micros a b,
  minus-micros a b,
  minus_assign-minus a b,
  plus-IsNormal a b na nb,
  minus-IsNormal a b na nb,
)

-- Of normal times, the five comparisons are those of the microseconds.
compare_lem :
    (a b : SecTime)
    → IsNormal a
    → IsNormal b
    → (less a b ≡ ltb_ℤ (micros a) (micros b))
      × (less_eq a b ≡ leb_ℤ (micros a) (micros b))
      × (equal a b ≡ eq_ℤ (micros a) (micros b))
      × (greater a b ≡ less b a)
      × (greater_eq a b ≡ less_eq b a)
unfolding less greater less_eq greater_eq equal
compare_lem a b na nb = ground (
  arith,
  +ℤ_parts (scale 1000000 a.sec) a.usec,
  +ℤ_parts (scale 1000000 b.sec) b.usec,
  scale_parts a.sec,
  scale_parts b.sec,
)

-- Addition and subtraction of times are those of the microseconds, the subtraction in place as well,
-- and of normal times they are normal. Of normal times, the five comparisons are those of the
-- microseconds.
pub micros_lem :
    (a b : SecTime)
    → IsNormal a
    → IsNormal b
    → (micros (plus a b) ≡ micros a +ℤ micros b)
      × (micros (minus a b) ≡ micros a -ℤ micros b)
      × (minus_assign a b ≡ minus a b)
      × IsNormal (plus a b)
      × IsNormal (minus a b)
      × (less a b ≡ ltb_ℤ (micros a) (micros b))
      × (less_eq a b ≡ leb_ℤ (micros a) (micros b))
      × (equal a b ≡ eq_ℤ (micros a) (micros b))
      × (greater a b ≡ less b a)
      × (greater_eq a b ≡ less_eq b a)
micros_lem a b na nb =
    let (sum, difference, same, np, nm) = plus_minus_lem a b na nb in
    let (lt, le, eq, gt, ge) = compare_lem a b na nb in
    (sum, difference, same, np, nm, lt, le, eq, gt, ge)
