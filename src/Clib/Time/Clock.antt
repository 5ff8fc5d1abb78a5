-- ===== src/Clib/Time/Clock.antt =====
-- The time of day in lib/common/time/time.c, and that `gmtime` comes to an end.
use fruity_orange.Base.{
  ℕ, zero, suc, ◌+◌, ◌-◌, ◌*◌, ◌/◌, ◌%◌, ◌^◌, ◌≤◌, ◌<◌, ◌≡◌, ◌||◌, some, ◌==◌, ltb, leb, arith,
  Bool-cases, Option-cases, inl, inr, get_or, All-get_or,
}
use fruity_orange.Clib.Time.{
  Tm, mktime, gmtime, clock_fields, year_loop, year_size, month_loop, month_table, month_day,
  num_sec_in_day, num_sec_in_hour, num_sec_in_min, num_sec_in_year, begin_days, years_of,
}

-- Every round takes at least 365 days off, so one round for each day is enough.
year_loop_total : (k day year : ℕ) → day < k → (r : ℕ × ℕ) × (year_loop k day year ≡ some r)
unfolding year_loop
year_loop_total zero day year h = absurd (omega arith)
year_loop_total (suc k) day year h = elim (Bool-cases (leb (year_size year) day)) [
  | inl more ↦
      let r : (r : ℕ × ℕ) × (year_loop k (day - year_size year) (year + 1) ≡ some r) =
        year_loop_total k (day - year_size year) (year + 1) (ground arith) in
      (r.0, rw more r.1)
  | inr done ↦ ((day, year), rw done)
]

-- The loop of `gmtime` over the years comes to an end when it is given a round for each day.
pub gmtime_ends :
    (k time : ℕ)
    → time / num_sec_in_day < k
    → (day year : ℕ) × (gmtime k time ≡ month_day (clock_fields time) day year)
unfolding gmtime
gmtime_ends k time h =
    let (r, e) = year_loop_total k (time / num_sec_in_day) (time / num_sec_in_year) h in
    (r.0, r.1, rw e)

-- The time of day of a broken-down time.
abbrev pub clock : Tm → ℕ
clock tm = tm.hour * num_sec_in_hour + tm.min * num_sec_in_min + tm.sec

record SameClock (a b : Tm) : Type 0 where
  hour : a.hour ≡ b.hour
  min : a.min ≡ b.min
  sec : a.sec ≡ b.sec

month_day_clock :
    (tm : Tm) (day year : ℕ) {r : Tm} → month_day tm day year ≡ some r → SameClock r tm
unfolding month_day
month_day_clock tm day year e =
    elim (Option-cases (month_loop (month_table year) ((day % 2 ^ 16 + 1) % 256) 0)) [
      | inl stop ↦ absurd (ground arith)
      | inr (mon, found) ↦ record { hour = ground arith; min = ground arith; sec = ground arith }
    ]

clock_fields_lem :
    (time : ℕ)
    → (clock (clock_fields time) ≡ time % num_sec_in_day)
      × ((clock_fields time).hour < 24)
      × ((clock_fields time).min < 60)
      × ((clock_fields time).sec < 60)
unfolding clock_fields
clock_fields_lem time = omega arith

-- Whatever date `gmtime` finds, its hour, minute and second are in range and make up the seconds
-- of the day.
pub gmtime-clock :
    (k time : ℕ) {tm : Tm}
    → gmtime k time ≡ some tm
    → (clock tm ≡ time % num_sec_in_day) × (tm.hour < 24) × (tm.min < 60) × (tm.sec < 60)
unfolding gmtime
gmtime-clock k time e =
    elim (Option-cases (year_loop k (time / num_sec_in_day) (time / num_sec_in_year))) [
      | inl stop ↦ absurd (ground arith)
      | inr ((day, year), found) ↦ omega (
        arith,
        month_day_clock (clock_fields time) day year (rw found at e),
        clock_fields_lem time,
      )
    ]

begin_days-le : (i : ℕ) → get_or begin_days i 0 ≤ 334
begin_days-le i = All-get_or (λ (d : ℕ). d ≤ 334) begin_days i 0 (omega arith) (omega arith)

-- `mktime` keeps the time of day: what it returns has the seconds of the day of its argument.
pub mktime-clock :
    (tm : Tm) {time : ℕ}
    → clock tm < num_sec_in_day
    → years_of tm < 130
    → 1 ≤ tm.mday
    → tm.mday ≤ 31
    → mktime tm ≡ some time
    → time % num_sec_in_day ≡ clock tm
unfolding mktime
mktime-clock tm c y d1 d2 e = elim (Bool-cases ((tm.mon == 0) || ltb 12 tm.mon)) [
  | inl bad ↦ absurd (ground arith)
  | inr good ↦ ground (arith, begin_days-le (tm.mon - 1))
]
