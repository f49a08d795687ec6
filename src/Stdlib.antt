-- ===== src/Stdlib.antt =====
-- `atoi` of src/lib/stdlib.c, over the memory of src/lib/string.c. The result is the 32 bits of an
-- `int`; an overflow wraps around.
pub mod Decimal
pub mod Tests
use neonix.Prelude.{
  ℕ, zero, suc, ◌+◌, ◌-◌, ◌*◌, ◌%◌, Option, none, some, ltb, ◌==◌, if◌then◌else◌, ◌>>=◌,
}
use neonix.Prelude.Words.{add32, sub32, u32_mod}
use neonix.Strings.{Memory}

-- `*str - '0'`, of a signed character.
unfoldable pub digit_value : ℕ → ℕ
digit_value byte = sub32 (if ltb byte 128 then byte else byte + u32_mod - 256) 48

-- The loop of `atoi`.
unfoldable pub digits_from : (fuel str result : ℕ) → Memory → Option ℕ
digits_from zero str result m = none
digits_from (suc fuel) str result m =
    let rest = digits_from fuel (str + 1) (add32 (result * 10 % u32_mod) (digit_value (m str))) m in
    if m str == 0 then some result else rest

unfoldable pub atoi : (fuel str : ℕ) → Memory → Option ℕ
atoi fuel str m =
    if str == 0
    then some 0
    else if m str == b'-'
    then (digits_from fuel (str + 1) 0 m >>= λ result. some (sub32 0 result))
    else digits_from fuel str 0 m
