-- ===== src/Calendar.antt =====
-- The calendar of src/kernel/time.c (and src/lib/time.c, whose part of it is the same text), and
-- the binary coded decimals of src/lib/stdlib.c. `time_t` is u32, and what is added to one wraps
-- around.
pub mod Mktime
pub mod Yday
pub mod Localtime
pub mod Tests
use neonix.Prelude.{
  ℕ, zero, suc, ◌+◌, ◌-◌, ◌*◌, ◌/◌, ◌%◌, ◌^◌, Bool, ◌&&◌, ◌||◌, not, Option, some, List, [], ◌∷◌,
  ltb, leb, ◌==◌, if◌then◌else◌, get_or, ◌>>◌, assert,
}
use neonix.Prelude.Words.{add32, sub32}

-- `tm`, as `mktime` reads it and `localtime` writes it.
pub record Tm : Type 0 where
  pub tm_sec : ℕ
  pub tm_min : ℕ
  pub tm_hour : ℕ
  pub tm_mday : ℕ
  pub tm_mon : ℕ
  pub tm_year : ℕ
  pub tm_wday : ℕ
  pub tm_yday : ℕ

-- The days of a leap year before each month; there is no month 0.
abbrev pub month : List ℕ
month = 0 ∷ 0 ∷ 31 ∷ 60 ∷ 91 ∷ 121 ∷ 152 ∷ 182 ∷ 213 ∷ 244 ∷ 274 ∷ 305 ∷ 335 ∷ []

unfoldable pub bcd_to_bin : ℕ → ℕ
bcd_to_bin value = (value % 16 + value / 16 * 10) % 256

unfoldable pub bin_to_bcd : ℕ → ℕ
bin_to_bcd value = (value / 10 * 16 + value % 10) % 256

-- The years since 1970: `tm_year` counts from 1900, or, below 70, from 2000.
unfoldable pub years_since_1970 : Tm → ℕ
years_since_1970 time = if leb 70 time.tm_year then time.tm_year - 70 else time.tm_year + 100 - 70

-- The month's number lies within the table. `none` is the overflow of `YEAR * year`, which is an `int`.
unfoldable pub mktime : Tm → Option ℕ
mktime time =
    let year = years_since_1970 time in
    let r1 = 31536000 * year in
    let r2 = add32 r1 (86400 * ((year + 1) / 4)) in
    let r3 = add32 r2 (get_or month time.tm_mon 0 * 86400) in
    let r4 = if ltb 2 time.tm_mon && not ((year + 2) % 4 == 0) then sub32 r3 86400 else r3 in
    let r5 = add32 r4 (sub32 (86400 * time.tm_mday) 86400) in
    let r6 = add32 r5 (3600 * time.tm_hour) in
    assert (ltb r1 (2 ^ 31)) >> some (add32 (add32 r6 (60 * time.tm_min)) time.tm_sec)

unfoldable pub get_yday : Tm → ℕ
get_yday time =
    let res = get_or month time.tm_mon 0 + time.tm_mday in
    if not ((years_since_1970 time + 2) % 4 == 0) && ltb 2 time.tm_mon then res - 1 else res

-- For a year of at least 70, counted from 1900, no difference is negative.
unfoldable pub elapsed_leap_years : ℕ → ℕ
elapsed_leap_years year = (year - 1) / 4 + (year + 299) / 400 - (year - 1) / 100 - 17

unfoldable pub is_leap_year : ℕ → Bool
is_leap_year year = (year % 4 == 0 && not (year % 100 == 0)) || (year + 1900) % 400 == 0

-- The loop of `localtime`, with the rounds left: the first month, from `mon` on, that begins
-- behind the day, or 13.
unfoldable pub month_behind : (rounds mon offset yday : ℕ) → ℕ
month_behind zero mon offset yday = mon
month_behind (suc rounds) mon offset yday =
    let rest = month_behind rounds (mon + 1) offset yday in
    if ltb (yday + offset) (get_or month mon 0) then mon else rest

unfoldable pub localtime : ℕ → Tm
localtime stamp =
    let days = stamp / 60 / 60 / 24 in
    let years = days / 365 + 70 in
    let offset = if is_leap_year years then 0 else 1 in
    let yday = sub32 days (elapsed_leap_years years) % (366 - offset) in
    let mon = month_behind 12 1 offset yday - 1 in
    record {
      tm_sec = stamp % 60;
      tm_min = stamp / 60 % 60;
      tm_hour = stamp / 60 / 60 % 24;
      tm_mday = yday + offset + 1 - get_or month mon 0;
      tm_mon = mon;
      tm_year = years;
      tm_wday = (days + 4) % 7;
      tm_yday = yday;
    }
