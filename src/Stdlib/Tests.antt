-- ===== src/Stdlib/Tests.antt =====
-- `atoi` of src/lib/stdlib.c at a short string.
use neonix.Prelude.{◌-◌, ◌^◌, ◌≡◌, refl, some, ◌==◌, if◌then◌else◌}
use neonix.Strings.{Memory}
use neonix.Stdlib.{atoi, digits_from, digit_value}

-- The string "-42" at 10.
abbrev memory : Memory
memory a = if a == 10 then 45 else if a == 11 then 52 else if a == 12 then 50 else 0

minus_42 : atoi 5 10 memory ≡ some (2 ^ 32 - 42)
unfolding atoi digits_from digit_value
minus_42 = refl
