-- ===== src/Clib/Time.antt =====
-- lib/common/time/time.c, with the macros of include/time.h. `time_t` and `long` have 32 bits;
-- the fields of `tm_t` have 8, the year has 16.
pub mod Clock
pub mod Calendar
pub mod RoundTrip
use fruity_orange.Base.{
  ℕ, zero, suc, ◌+◌, ◌-◌, ◌*◌, ◌/◌, ◌%◌, ◌^◌, Bool, true, false, ◌&&◌, ◌||◌, not, Option, none,
  some, List, [], ◌∷◌, ◌==◌, ltb, leb, if◌then◌else◌, get_or,
}

abbrev pub time_epoch_start : ℕ
time_epoch_start = 2000

abbrev pub num_sec_in_min : ℕ
num_sec_in_min = 60

abbrev pub num_sec_in_hour : ℕ
num_sec_in_hour = 60 * 60

abbrev pub num_sec_in_day : ℕ
num_sec_in_day = 60 * 60 * 24

abbrev pub num_sec_in_year : ℕ
num_sec_in_year = 60 * 60 * 24 * 365

abbrev pub leap_days : ℕ → ℕ
leap_days x = x / 4 - x / 100 + x / 400

abbrev pub leap_year : ℕ → Bool
leap_year x = ((x % 4 == 0) && not (x % 100 == 0)) || (x % 400 == 0)

abbrev pub year_size : ℕ → ℕ
year_size x = if leap_year x then 366 else 365

abbrev pub begin_days : List ℕ
begin_days = 0 ∷ 31 ∷ 59 ∷ 90 ∷ 120 ∷ 151 ∷ 181 ∷ 212 ∷ 243 ∷ 273 ∷ 304 ∷ 334 ∷ []

abbrev pub begin_days_leap_year : List ℕ
begin_days_leap_year = 0 ∷ 31 ∷ 60 ∷ 91 ∷ 121 ∷ 152 ∷ 182 ∷ 213 ∷ 244 ∷ 274 ∷ 305 ∷ 335 ∷ []

pub record Tm : Type 0 where
  pub sec : ℕ
  pub min : ℕ
  pub hour : ℕ
  pub mon : ℕ
  pub mday : ℕ
  pub wday : ℕ
  pub yday : ℕ
  pub year : ℕ

-- `uint16_t years = tm.year - TIME_EPOCH_START`
abbrev pub years_of : Tm → ℕ
years_of tm = (tm.year + 2 ^ 16 - time_epoch_start) % 2 ^ 16

-- The sum of `mktime`, which wraps at 32 bits.
abbrev pub mktime_sum : Tm → ℕ
mktime_sum tm =
    (tm.sec
      + tm.min * num_sec_in_min
      + tm.hour * num_sec_in_hour
      + (get_or begin_days (tm.mon - 1) 0 + tm.mday + 2 ^ 32 - 1) * num_sec_in_day
      + years_of tm * num_sec_in_year
      + leap_days (years_of tm) % 2 ^ 16 * num_sec_in_day)
    % 2 ^ 32

-- `none` where `tm.mon - 1` is no index of the table.
pub mktime : Tm → Option ℕ
mktime tm = if (tm.mon == 0) || ltb 12 tm.mon then none else some (mktime_sum tm)

-- `while (day >= YEAR_SIZE(year)) { day -= YEAR_SIZE(year); year++; }`, on fuel.
pub year_loop : ℕ → ℕ → ℕ → Option (ℕ × ℕ)
year_loop zero day year = none
year_loop (suc k) day year =
    let rest = year_loop k (day - year_size year) (year + 1) in
    if leb (year_size year) day then rest else some (day, year)

-- `for(tm.mon = 0; tm.yday > table[tm.mon]; tm.mon++)`; `none` where it reads past the table.
pub month_loop : List ℕ → ℕ → ℕ → Option ℕ
month_loop [] yday mon = none
month_loop (b ∷ bs) yday mon =
    let rest = month_loop bs yday (mon + 1) in if ltb b yday then rest else some mon

abbrev pub month_table : ℕ → List ℕ
month_table year = if leap_year year then begin_days_leap_year else begin_days

-- The part of `gmtime` behind the loop over the years; `none` where it reads `begin_days[-1]`.
pub month_day : Tm → ℕ → ℕ → Option Tm
month_day tm day year =
    let yday = (day % 2 ^ 16 + 1) % 256 in
    elim (month_loop (month_table year) yday 0) [
      | none ↦ none
      | some mon ↦
          if mon == 0
          then none
          else some (record tm {
            yday = yday;
            mon = mon;
            mday = (yday + 2 ^ 32 - get_or begin_days (mon - 1) 0) % 256;
            wday = (day + 6) % 7;
          })
    ]

abbrev pub after_years : Tm → Option (ℕ × ℕ) → Option Tm
after_years tm none = none
after_years tm (some (day, year)) = month_day tm day year

-- The fields that `gmtime` sets before the loop over the years.
pub clock_fields : ℕ → Tm
clock_fields time = record {
  sec = time % num_sec_in_day % num_sec_in_min;
  min = time % num_sec_in_day % num_sec_in_hour / num_sec_in_min;
  hour = time % num_sec_in_day / num_sec_in_hour;
  mon = 0;
  mday = 0;
  wday = 0;
  yday = 0;
  year = (time / num_sec_in_year + time_epoch_start) % 2 ^ 16;
}

pub gmtime : ℕ → ℕ → Option Tm
gmtime fuel time =
    after_years (clock_fields time)
      (year_loop fuel (time / num_sec_in_day) (time / num_sec_in_year))
