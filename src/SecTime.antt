-- ===== src/SecTime.antt =====
-- common/Time/SecTime.{h,cpp}: a time as seconds and microseconds, both signed.
pub mod Micros
use vn_sdm.Common.{ℕ, ◌<◌, ◌≡◌, if◌then◌else◌, Bool, true, false, ◌&&◌, ◌||◌}
use vn_sdm.Common.Int.{ℤ, pos, negsuc, pos_part, neg_part, ◌+ℤ◌, ◌-ℤ◌, ltb_ℤ, leb_ℤ, eq_ℤ}

-- class SecTime
pub record SecTime : Type 0 where
  pub sec : ℤ
  pub usec : ℤ

abbrev pub usec_max_value : ℤ
usec_max_value = pos 1000000

-- The default constructor, and `Clear`.
abbrev pub zero_time : SecTime
zero_time = record { sec = pos 0; usec = pos 0 }

-- `operator==`
unfoldable pub equal : SecTime → SecTime → Bool
equal a b = eq_ℤ a.sec b.sec && eq_ℤ a.usec b.usec

-- `operator <`
unfoldable pub less : SecTime → SecTime → Bool
less a b =
    if ltb_ℤ a.sec b.sec
    then true
    else if eq_ℤ a.sec b.sec && ltb_ℤ a.usec b.usec
    then true
    else false

-- `operator >`
unfoldable pub greater : SecTime → SecTime → Bool
greater a b =
    if ltb_ℤ b.sec a.sec
    then true
    else if eq_ℤ a.sec b.sec && ltb_ℤ b.usec a.usec
    then true
    else false

-- `operator <=`
unfoldable pub less_eq : SecTime → SecTime → Bool
less_eq a b =
    if ltb_ℤ a.sec b.sec
    then true
    else if eq_ℤ a.sec b.sec && leb_ℤ a.usec b.usec
    then true
    else false

-- `operator >=`
unfoldable pub greater_eq : SecTime → SecTime → Bool
greater_eq a b =
    if ltb_ℤ b.sec a.sec
    then true
    else if eq_ℤ a.sec b.sec && leb_ℤ b.usec a.usec
    then true
    else false

-- `operator +`
unfoldable pub plus : SecTime → SecTime → SecTime
plus a b =
    let s = a.sec +ℤ b.sec in
    let u = a.usec +ℤ b.usec in
    if leb_ℤ usec_max_value u
    then record { sec = s +ℤ pos 1; usec = u -ℤ usec_max_value }
    else record { sec = s; usec = u }

-- `operator -`
unfoldable pub minus : SecTime → SecTime → SecTime
minus a b =
    let s = a.sec -ℤ b.sec in
    if ltb_ℤ (a.usec -ℤ b.usec) (pos 0)
    then record { sec = s -ℤ pos 1; usec = usec_max_value +ℤ a.usec -ℤ b.usec }
    else record { sec = s; usec = a.usec -ℤ b.usec }

-- `operator -=`
unfoldable pub minus_assign : SecTime → SecTime → SecTime
minus_assign a b =
    let s = a.sec -ℤ b.sec in
    let rhs = b.usec in
    if ltb_ℤ (a.usec -ℤ rhs) (pos 0)
    then record { sec = s -ℤ pos 1; usec = usec_max_value +ℤ a.usec -ℤ rhs }
    else record { sec = s; usec = a.usec -ℤ rhs }

-- The microseconds are those of a fraction of a second.
pub record IsNormal (t : SecTime) : Type 0 where
  pub nonneg : neg_part t.usec ≡ 0
  pub below : pos_part t.usec < 1000000
