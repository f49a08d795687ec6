-- ===== src/Calendar/Mktime.antt =====
-- `mktime` of src/kernel/time.c counts the seconds since 1970, for the hundred years it serves.
use neonix.Prelude.{
  ℕ, zero, suc, ◌+◌, ◌-◌, ◌*◌, ◌/◌, ◌%◌, ◌^◌, ◌≤◌, ◌<◌, ◌≡◌, refl, ap, ◌∙◌, Bool, true, false, ◌&&◌,
  ◌||◌, not, some, arith, ltb, leb, ◌==◌, if◌then◌else◌, get_or,
}
use neonix.Prelude.Words.{add32, sub32, check_all, check_all_sound}
use neonix.Calendar.{Tm, month, years_since_1970, mktime}

-- The Gregorian calendar, by its rules.
unfoldable pub is_leap : ℕ → Bool
is_leap year = year % 4 == 0 && (not (year % 100 == 0) || year % 400 == 0)

unfoldable pub month_length : Bool → ℕ → ℕ
month_length leap mon =
    if mon == 2
    then (if leap then 29 else 28)
    else if mon == 4 || mon == 6 || mon == 9 || mon == 11
    then 30
    else 31

-- The days of the first `n` years from 1970 on.
unfoldable pub days_of_years : ℕ → ℕ
days_of_years zero = 0
days_of_years (suc n) = days_of_years n + (if is_leap (1970 + n) then 366 else 365)

-- The days of the first `n` months of a year.
unfoldable pub days_of_months : Bool → ℕ → ℕ
days_of_months leap zero = 0
days_of_months leap (suc n) = days_of_months leap n + month_length leap (suc n)

-- The seconds from the start of 1970 to the given second of the year 1970 + `year`.
unfoldable pub seconds : (year mon mday hour minute sec : ℕ) → ℕ
seconds year mon mday hour minute sec =
    (days_of_years year + days_of_months (is_leap (1970 + year)) (mon - 1) + (mday - 1)) * 86400
    + hour * 3600
    + minute * 60
    + sec

abbrev year_test : ℕ → Bool
year_test k =
    365 * k + (k + 1) / 4 == days_of_years k
    && (if (k + 2) % 4 == 0 then is_leap (1970 + k) else not (is_leap (1970 + k)))

year_table : check_all year_test 100 ≡ true
unfolding check_all is_leap days_of_years
year_table = refl

years_eq : (k : ℕ) → k < 100 → days_of_years k ≡ 365 * k + (k + 1) / 4
years_eq k lt = let t = check_all_sound year_test 100 k lt year_table in ground arith

pub leap_eq : (k : ℕ) → k < 100 → is_leap (1970 + k) ≡ ((k + 2) % 4 == 0)
leap_eq k lt = let t = check_all_sound year_test 100 k lt year_table in ground arith

-- `month`, less the day that a common year lacks from March on.
abbrev month_start : Bool → ℕ → ℕ
month_start leap mon = get_or month mon 0 - (if ltb 2 mon && not leap then 1 else 0)

abbrev month_test : ℕ → Bool
month_test mon =
    mon == 0
    || (days_of_months true (mon - 1) == month_start true mon
        && days_of_months false (mon - 1) == month_start false mon)

month_table : check_all month_test 13 ≡ true
unfolding check_all days_of_months month_length
month_table = refl

pub months_eq :
    (leap : Bool) (mon : ℕ)
    → 1 ≤ mon
    → mon < 13
    → days_of_months leap (mon - 1) ≡ month_start leap mon
months_eq true mon ge lt = let t = check_all_sound month_test 13 mon lt month_table in ground arith
months_eq false mon ge lt = let t = check_all_sound month_test 13 mon lt month_table in ground arith

abbrev bound_test : ℕ → Bool
bound_test mon =
    leb (get_or month mon 0) 335 && (if ltb 2 mon then leb 60 (get_or month mon 0) else true)

bound_table : check_all bound_test 13 ≡ true
unfolding check_all
bound_table = refl

month_le : (mon : ℕ) → mon < 13 → get_or month mon 0 ≤ 335
month_le mon lt = let t = check_all_sound bound_test 13 mon lt bound_table in ground arith

pub le_month : (mon : ℕ) → mon < 13 → ltb 2 mon ≡ true → 60 ≤ get_or month mon 0
le_month mon lt gt = let t = check_all_sound bound_test 13 mon lt bound_table in ground arith

add32_eq : (a b : ℕ) → a + b < 2 ^ 32 → add32 a b ≡ a + b
add32_eq a b lt = omega arith

sub32_eq : (a b : ℕ) → b ≤ a → a < 2 ^ 32 → sub32 a b ≡ a - b
sub32_eq a b le lt = omega arith

-- The seconds behind the first of the month.
rest_eq :
    (r d h m s : ℕ)
    → r ≤ 3200000000
    → d < 31
    → h < 24
    → m < 60
    → s < 60
    → add32 (add32 (add32 (add32 r (86400 * d)) (3600 * h)) (60 * m)) s
      ≡ r + d * 86400 + h * 3600 + m * 60 + s
rest_eq r d h m s hr hd hh hm hs =
    let e1 = add32_eq r (86400 * d) (omega arith) in
    let e2 = add32_eq (r + 86400 * d) (3600 * h) (omega arith) in
    let e3 = add32_eq (r + 86400 * d + 3600 * h) (60 * m) (omega arith) in
    let e4 = add32_eq (r + 86400 * d + 3600 * h + 60 * m) s (omega arith) in
    ap (λ x. add32 (add32 (add32 x (3600 * h)) (60 * m)) s) e1
    ∙ ap (λ x. add32 (add32 x (60 * m)) s) e2
    ∙ ap (λ x. add32 x s) e3
    ∙ e4
    ∙ omega arith

-- The day that a common year lacks, in seconds and in days.
drop_day :
    (late leap : Bool) (y q m : ℕ)
    → y < 100
    → q ≤ 25
    → m ≤ 335
    → (late ≡ true → 60 ≤ m)
    → (if late && not leap
        then sub32 (31536000 * y + 86400 * q + m * 86400) 86400
        else 31536000 * y + 86400 * q + m * 86400)
      ≡ (365 * y + q + (m - (if late && not leap then 1 else 0))) * 86400
drop_day false leap y q m hy hq hm h = omega arith
drop_day true true y q m hy hq hm h = omega arith
drop_day true false y q m hy hq hm h =
    let g : 60 ≤ m = h refl in
    sub32_eq (31536000 * y + 86400 * q + m * 86400) 86400 (omega arith) (omega arith) ∙ omega arith

-- The seconds before the first of the month.
start_eq :
    (year mon : ℕ)
    → year < 100
    → 1 ≤ mon
    → mon < 13
    → (let r3 =
          add32 (add32 (31536000 * year) (86400 * ((year + 1) / 4))) (get_or month mon 0 * 86400) in
        if ltb 2 mon && not ((year + 2) % 4 == 0) then sub32 r3 86400 else r3)
      ≡ (days_of_years year + days_of_months (is_leap (1970 + year)) (mon - 1)) * 86400
start_eq year mon hy ge hm =
    let q : (year + 1) / 4 ≤ 25 = omega arith in
    let b = month_le mon hm in
    let e1 = add32_eq (31536000 * year) (86400 * ((year + 1) / 4)) (omega arith) in
    let e2 =
      add32_eq (31536000 * year + 86400 * ((year + 1) / 4)) (get_or month mon 0 * 86400)
        (omega arith) in
    rw (e1, e2, years_eq year hy, leap_eq year hy, months_eq ((year + 2) % 4 == 0) mon ge hm)
      (drop_day (ltb 2 mon) ((year + 2) % 4 == 0) year ((year + 1) / 4) (get_or month mon 0) hy q b
        (le_month mon hm))

start_le :
    (year mon : ℕ)
    → year < 100
    → 1 ≤ mon
    → mon < 13
    → (days_of_years year + days_of_months (is_leap (1970 + year)) (mon - 1)) * 86400 ≤ 3200000000
start_le year mon hy ge hm =
    let b = month_le mon hm in
    rw (years_eq year hy, months_eq (is_leap (1970 + year)) mon ge hm) (omega arith)

pub year_lt : (time : Tm) → time.tm_year < 100 → years_since_1970 time < 100
unfolding years_since_1970
year_lt time hy = ground arith

-- For a valid date from 1970 to 2038, whose year is given as the clock gives it, by its last two
-- digits, `mktime` counts the seconds since the start of 1970 exactly: it agrees with the
-- Gregorian calendar, and no product overflows and no sum wraps around.
pub mktime-seconds :
    (time : Tm)
    → time.tm_year < 100
    → years_since_1970 time < 69
    → 1 ≤ time.tm_mon
    → time.tm_mon ≤ 12
    → 1 ≤ time.tm_mday
    → time.tm_mday ≤ 31
    → time.tm_hour < 24
    → time.tm_min < 60
    → time.tm_sec < 60
    → mktime time
      ≡ some (
          seconds
            (years_since_1970 time)
            time.tm_mon
            time.tm_mday
            time.tm_hour
            time.tm_min
            time.tm_sec)
unfolding mktime seconds
mktime-seconds time hy before m1 m12 d1 d31 hh hm hs =
    let y : years_since_1970 time < 100 = omega arith in
    let e = start_eq (years_since_1970 time) time.tm_mon y m1 (omega arith) in
    let b = start_le (years_since_1970 time) time.tm_mon y m1 (omega arith) in
    let day : sub32 (86400 * time.tm_mday) 86400 ≡ 86400 * (time.tm_mday - 1) = omega arith in
    let fits : ltb (31536000 * years_since_1970 time) (2 ^ 31) ≡ true = ground arith in
    rw (fits, e, day)
      (ap some (
        rest_eq _ (time.tm_mday - 1) time.tm_hour time.tm_min time.tm_sec b (omega arith) hh hm hs
        ∙ omega arith))
