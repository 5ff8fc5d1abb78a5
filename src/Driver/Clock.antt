-- ===== src/Driver/Clock.antt =====
-- kernel/driver/cmos/rtc.c and mktm.c: the time of the clock, as `update_time` reads it from the
-- registers and as `mktm` hands it on. `cmos_read_byte` reads ports, and is an argument.
use fruity_orange.Base.{ℕ, ◌+◌, ◌*◌, ◌/◌, ◌%◌, ◌<◌, ◌≡◌, arith}
use fruity_orange.Clib.Time.{Tm}

-- `BCD_DECODE` of include/math.h
abbrev pub bcd_decode : ℕ → ℕ
bcd_decode x = x % 16 + 10 * (x / 16 % 16)

pub record CmosTime : Type 0 where
  pub second : ℕ
  pub alarm_sec : ℕ
  pub minute : ℕ
  pub alarm_min : ℕ
  pub hour : ℕ
  pub alarm_hour : ℕ
  pub week_day : ℕ
  pub day_in_month : ℕ
  pub month : ℕ
  pub year : ℕ
  pub century : ℕ

-- The fields have 8 bits.
pub update_time : (ℕ → ℕ) → CmosTime
update_time cmos_read_byte = record {
  second = bcd_decode (cmos_read_byte 0x00);
  alarm_sec = bcd_decode (cmos_read_byte 0x01);
  minute = bcd_decode (cmos_read_byte 0x02);
  alarm_min = bcd_decode (cmos_read_byte 0x03);
  hour = bcd_decode (cmos_read_byte 0x04);
  alarm_hour = bcd_decode (cmos_read_byte 0x05);
  week_day = (bcd_decode (cmos_read_byte 0x06) + 255) % 256;
  day_in_month = bcd_decode (cmos_read_byte 0x07);
  month = bcd_decode (cmos_read_byte 0x08);
  year = bcd_decode (cmos_read_byte 0x09);
  century = bcd_decode (cmos_read_byte 0x32);
}

-- `yday` is not written: it is what was there.
pub mktm : ℕ → CmosTime → Tm
mktm yday cmos_time = record {
  sec = cmos_time.second;
  min = cmos_time.minute;
  hour = cmos_time.hour;
  mon = cmos_time.month;
  mday = cmos_time.day_in_month;
  wday = cmos_time.week_day;
  yday = yday;
  year = cmos_time.year + 2000;
}

-- Two decimal digits, one in each half of the byte, are read as their number.
bcd_decode_lem :
    (tens ones : ℕ) → tens < 10 → ones < 10 → bcd_decode (tens * 16 + ones) ≡ tens * 10 + ones
bcd_decode_lem tens ones ht ho = omega arith
