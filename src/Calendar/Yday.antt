-- ===== src/Calendar/Yday.antt =====
-- `get_yday` of src/kernel/time.c.
use neonix.Prelude.{◌+◌, ◌-◌, ◌%◌, ◌≤◌, ◌<◌, ◌≡◌, arith, ◌==◌}
use neonix.Calendar.{Tm, years_since_1970, get_yday}
use neonix.Calendar.Mktime.{is_leap, days_of_months, leap_eq, months_eq, le_month, year_lt}

-- For a year from 1970 to 2069, given by its last two digits, and a month from 1 to 12,
-- `get_yday` is the day of the year by the Gregorian calendar, counted from 1.
pub get_yday-days_of_months :
    (time : Tm)
    → time.tm_year < 100
    → 1 ≤ time.tm_mon
    → time.tm_mon ≤ 12
    → get_yday time
      ≡ days_of_months (is_leap (1970 + years_since_1970 time)) (time.tm_mon - 1) + time.tm_mday
unfolding get_yday
get_yday-days_of_months time hy m1 m12 =
    let y = year_lt time hy in
    let late = le_month time.tm_mon (omega arith) in
    rw
      (
        leap_eq (years_since_1970 time) y,
        months_eq ((years_since_1970 time + 2) % 4 == 0) time.tm_mon m1 (omega arith),
      )
      (ground arith)
