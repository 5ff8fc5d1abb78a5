-- ===== src/Clib/Time/RoundTrip.antt =====
-- `mktime` after `gmtime` in lib/common/time/time.c, in the first year, and where `gmtime` leaves
-- its table.
use fruity_orange.Base.{
  ℕ, suc, ◌+◌, ◌-◌, ◌*◌, ◌/◌, ◌%◌, ◌^◌, ◌≤◌, ◌<◌, ◌≡◌, ◌≢◌, none, some, arith, ap, ◌∙◌,
  Option-cases, inl, inr, get_or,
}
use fruity_orange.Clib.Time.{
  Tm, mktime, gmtime, clock_fields, year_loop, month_loop, month_day, num_sec_in_day,
  num_sec_in_year, begin_days, begin_days_leap_year,
}

-- The month of a day of a leap year is found in the table.
month_facts :
    (y m : ℕ)
    → 1 ≤ y
    → month_loop begin_days_leap_year y 0 ≡ some m
    → (1 ≤ m) × (m ≤ 12) × (get_or begin_days (m - 1) 0 < y)
unfolding month_loop
month_facts y m lo e = (ground arith, ground arith, ground arith)

month_none : (y : ℕ) → y ≤ 335 → month_loop begin_days_leap_year y 0 ≢ none
unfolding month_loop
month_none y hi = ground arith

-- The date that `gmtime` finds for a day of the year 2000, once the month is known.
abbrev first_year : ℕ → ℕ → Tm
first_year time mon = record (clock_fields time) {
  yday = (time / num_sec_in_day + 1) % 256;
  mon = mon;
  mday = ((time / num_sec_in_day + 1) % 256 + 2 ^ 32 - get_or begin_days (mon - 1) 0) % 256;
  wday = (time / num_sec_in_day + 6) % 7;
}

year_loop_first : (k day : ℕ) → day < 366 → year_loop (suc k) day 0 ≡ some (day, 0)
unfolding year_loop
year_loop_first k day h = ground arith

gmtime_first :
    (k time : ℕ)
    → time < 256 * num_sec_in_day
    → gmtime (suc k) time ≡ month_day (clock_fields time) (time / num_sec_in_day) 0
unfolding gmtime
gmtime_first k time h =
    let y : time / num_sec_in_year ≡ 0 = omega arith in
    rw (y, year_loop_first k (time / num_sec_in_day) (omega arith))

month_day_first :
    (time mon : ℕ)
    → time < 256 * num_sec_in_day
    → month_loop begin_days_leap_year ((time / num_sec_in_day + 1) % 256) 0 ≡ some mon
    → 1 ≤ mon
    → month_day (clock_fields time) (time / num_sec_in_day) 0 ≡ some (first_year time mon)
unfolding month_day
month_day_first time mon h e lo =
    let d : time / num_sec_in_day % 2 ^ 16 ≡ time / num_sec_in_day = omega arith in
    ground (arith, ap (λ (t : ℕ). month_loop begin_days_leap_year ((t + 1) % 256) 0) d, d, e)

mktime-first_year :
    (time mon : ℕ)
    → time < 255 * num_sec_in_day
    → 1 ≤ mon
    → mon ≤ 12
    → get_or begin_days (mon - 1) 0 < (time / num_sec_in_day + 1) % 256
    → mktime (first_year time mon) ≡ some time
unfolding mktime clock_fields
mktime-first_year time mon h lo hi b = ground arith

-- For the first 255 days of the year 2000, `mktime` gives back the time that `gmtime` was given.
pub mktime-gmtime :
    (k time : ℕ)
    → time < 255 * num_sec_in_day
    → (tm : Tm) × (gmtime (suc k) time ≡ some tm) × (mktime tm ≡ some time)
mktime-gmtime k time h = elim (Option-cases (month_loop begin_days_leap_year y 0)) [
  | inl out ↦ absurd (month_none y (omega arith) out)
  | inr (mon, found) ↦
      let (lo, hi, b) = month_facts y mon (omega arith) found in
      (
        first_year time mon,
        gmtime_first k time (omega arith) ∙ month_day_first time mon (omega arith) found lo,
        mktime-first_year time mon h lo hi b,
      )
]
  where
    y : ℕ
    y = (time / num_sec_in_day + 1) % 256

-- On the day after these the day of the year does not fit in 8 bits: it becomes 0, and `gmtime`
-- reads in front of its table of months, whatever the time of day.
pub gmtime_wraps : (k time : ℕ) → time / num_sec_in_day ≡ 255 → gmtime (suc k) time ≡ none
unfolding month_day month_loop
gmtime_wraps k time h = gmtime_first k time (omega arith) ∙ ground arith
