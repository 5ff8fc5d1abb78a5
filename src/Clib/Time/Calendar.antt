-- ===== src/Clib/Time/Calendar.antt =====
-- The dates of lib/common/time/time.c against a calendar that counts days year by year.
use fruity_orange.Base.{
  ℕ, zero, suc, ◌+◌, ◌-◌, ◌*◌, ◌/◌, ◌%◌, ◌≤◌, ◌<◌, ◌≡◌, refl, ◌&&◌, some, ◌==◌, ltb, if◌then◌else◌,
  arith, get_or, All-get_or,
}
use fruity_orange.Clib.Time.{
  Tm, mktime, year_size, month_table, num_sec_in_day, begin_days, begin_days_leap_year, years_of,
  leap_year, mktime_sum,
}
use fruity_orange.Clib.Time.Clock.{clock}

-- The days from 2000-01-01 to the first day of the year 2000 + n.
abbrev pub days_before : ℕ → ℕ
days_before zero = 0
days_before (suc n) = days_before n + year_size (2000 + n)

-- The days from the first day of a year to that of a month.
abbrev pub days_to_month : ℕ → ℕ → ℕ
days_to_month year mon = get_or (month_table year) (mon - 1) 0

-- The seconds from 2000-01-01 00:00:00 to a broken-down time of the year 2000 + n.
abbrev pub seconds_since : ℕ → Tm → ℕ
seconds_since n tm =
    (days_before n + days_to_month (2000 + n) tm.mon + tm.mday - 1) * num_sec_in_day + clock tm

-- A date of the years 2000 to 2099, with a time of day.
pub record IsDate (n : ℕ) (tm : Tm) : Type 0 where
  pub year : tm.year ≡ 2000 + n
  pub century : n < 100
  pub mon_low : 1 ≤ tm.mon
  pub mon_high : tm.mon ≤ 12
  pub day_low : 1 ≤ tm.mday
  pub day_high : tm.mday ≤ 31
  pub time : clock tm < num_sec_in_day

days_before_closed : (n : ℕ) → n ≤ 100 → days_before n ≡ n * 365 + (n + 3) / 4
days_before_closed zero h = refl
days_before_closed (suc n) h = ground (arith, days_before_closed n)

-- The two tables differ by a day from March on.
tables :
    (i : ℕ)
    → i < 12
    → get_or begin_days_leap_year i 0 ≡ get_or begin_days i 0 + (if ltb i 2 then 0 else 1)
tables zero h = refl
tables (suc zero) h = refl
tables (suc (suc zero)) h = refl
tables (suc (suc (suc zero))) h = refl
tables (suc (suc (suc (suc zero)))) h = refl
tables (suc (suc (suc (suc (suc zero))))) h = refl
tables (suc (suc (suc (suc (suc (suc zero)))))) h = refl
tables (suc (suc (suc (suc (suc (suc (suc zero))))))) h = refl
tables (suc (suc (suc (suc (suc (suc (suc (suc zero)))))))) h = refl
tables (suc (suc (suc (suc (suc (suc (suc (suc (suc zero))))))))) h = refl
tables (suc (suc (suc (suc (suc (suc (suc (suc (suc (suc zero)))))))))) h = refl
tables (suc (suc (suc (suc (suc (suc (suc (suc (suc (suc (suc zero))))))))))) h = refl
tables (suc (suc (suc (suc (suc (suc (suc (suc (suc (suc (suc (suc i)))))))))))) h =
    absurd (omega arith)

begin_days-le : (i : ℕ) → get_or begin_days i 0 ≤ 334
begin_days-le i = All-get_or (λ (d : ℕ). d ≤ 334) begin_days i 0 (omega arith) (omega arith)

-- A day is missing, but in January and February of a leap year.
abbrev late : ℕ → Tm → ℕ
late n tm = if (n % 4 == 0) && ltb tm.mon 3 then 0 else 1

leap_iff : (n : ℕ) → n < 100 → leap_year (2000 + n) ≡ (n % 4 == 0)
leap_iff n h = ground arith

day_count :
    (n : ℕ) (tm : Tm)
    → IsDate n tm
    → days_before n + days_to_month (2000 + n) tm.mon
      ≡ n * 365 + n / 4 + get_or begin_days (tm.mon - 1) 0 + late n tm
day_count n tm d = ground (
  arith,
  leap_iff n d.century,
  days_before_closed n (omega arith),
  tables (tm.mon - 1) (omega arith),
)

sum_value :
    (n : ℕ) (tm : Tm)
    → IsDate n tm
    → mktime_sum tm
      ≡ (n * 365 + n / 4 + get_or begin_days (tm.mon - 1) 0 + tm.mday - 1) * num_sec_in_day
        + clock tm
sum_value n tm d = omega (arith, years, begin_days-le (tm.mon - 1))
  where
    years : years_of tm ≡ n
    years = omega arith

-- In the years 2000 to 2099 `mktime` returns the seconds since 2000-01-01 in January and February
-- of a leap year, and a day less than these on every other date.
pub mktime_lem :
    (n : ℕ) (tm : Tm)
    → IsDate n tm
    → (time : ℕ) × (mktime tm ≡ some time)
      × (seconds_since n tm ≡ time + (if (n % 4 == 0) && ltb tm.mon 3 then 0 else num_sec_in_day))
unfolding mktime
mktime_lem n tm d = (
  mktime_sum tm,
  ground (arith, d.mon_low, d.mon_high),
  ground (arith, day_count n tm d, sum_value n tm d, d.day_low),
)
