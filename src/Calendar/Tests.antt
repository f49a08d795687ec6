-- ===== src/Calendar/Tests.antt =====
-- The calendar at some dates, and its theorems there.
use neonix.Prelude.{◌≡◌, refl, some, arith}
use neonix.Calendar.{Tm, mktime, years_since_1970, localtime}
use neonix.Calendar.Mktime.{
  seconds, is_leap, days_of_months, month_length, days_of_years, mktime-seconds,
}

-- 2023-11-26 18:30:05, as the clock gives it.
abbrev date : Tm
date = record {
  tm_sec = 5;
  tm_min = 30;
  tm_hour = 18;
  tm_mday = 26;
  tm_mon = 11;
  tm_year = 23;
  tm_wday = 0;
  tm_yday = 0;
}

-- The last day of 1972 is given the year 1973.
last_day_of_1972 : (localtime 94608000).tm_year ≡ 73
unfolding localtime
last_day_of_1972 = refl

mktime-seconds_example : mktime date ≡ some 1701023405
unfolding seconds years_since_1970 days_of_years days_of_months month_length is_leap
mktime-seconds_example =
    mktime-seconds date (omega arith) (omega arith) (omega arith) (omega arith) (omega arith)
      (omega arith) (omega arith) (omega arith) (omega arith)
