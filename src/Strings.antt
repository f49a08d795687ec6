-- ===== src/Strings.antt =====
-- src/lib/string.c: strings and blocks of bytes. Memory is a function from addresses to bytes, a
-- string ends at its first byte 0. A scan takes fuel, and `none` is a scan that has used it up.
pub mod Copy
pub mod Compare
pub mod Search
pub mod Block
pub mod Tests
use neonix.Prelude.{
  ℕ, zero, suc, ◌+◌, ◌-◌, ◌%◌, Bool, true, false, ◌&&◌, ◌||◌, not, Option, none, some, ltb, ◌==◌,
  if◌then◌else◌, ◌>>=◌, ◌>>◌,
}
use neonix.Prelude.Int.{ℤ, pos, negsuc}
use neonix.Prelude.Words.{signed_lt}

abbrev pub Memory : Type 0
Memory = ℕ → ℕ

unfoldable pub store : (a byte : ℕ) → Memory → Memory
store a byte m = λ b. if b == a then byte else m b

-- The loop of `strcpy`, and the second one of `strcat`.
unfoldable pub copy_from : (fuel ptr src : ℕ) → Memory → Option Memory
copy_from zero ptr src m = none
copy_from (suc fuel) ptr src m =
    let m' = store ptr (m src) m in
    let rest = copy_from fuel (ptr + 1) (src + 1) m' in if m' src == 0 then some m' else rest

unfoldable pub strcpy : (fuel dest src : ℕ) → Memory → Option (ℕ × Memory)
strcpy fuel dest src m = copy_from fuel dest src m >>= λ m'. some (dest, m')

-- The loop of `strncpy`, with the rounds left, and whether it ended at the end of the string.
unfoldable pub copy_upto : (rounds ptr src : ℕ) → Memory → Bool × Memory
copy_upto zero ptr src m = (false, m)
copy_upto (suc rounds) ptr src m =
    let m' = store ptr (m src) m in
    let rest = copy_upto rounds (ptr + 1) (src + 1) m' in if m' src == 0 then (true, m') else rest

unfoldable pub strncpy : (dest src count : ℕ) → Memory → ℕ × Memory
strncpy dest src count m =
    let (ended, m') = copy_upto count dest src m in
    if ended then (dest, m') else (dest, store (dest + count - 1) 0 m')

-- `while (*ptr != EOS) ptr++`.
unfoldable pub end_from : (fuel ptr : ℕ) → Memory → Option ℕ
end_from zero ptr m = none
end_from (suc fuel) ptr m =
    let rest = end_from fuel (ptr + 1) m in if m ptr == 0 then some ptr else rest

unfoldable pub strcat : (fuel dest src : ℕ) → Memory → Option (ℕ × Memory)
strcat fuel dest src m = do
  ptr ← end_from fuel dest m
  m' ← copy_from fuel ptr src m
  some (dest, m')

unfoldable pub strlen : (fuel str : ℕ) → Memory → Option ℕ
strlen fuel str m = end_from fuel str m >>= λ ptr. some (ptr - str)

-- `*lhs < *rhs ? -1 : *lhs > *rhs`.
unfoldable pub order : (x y : ℕ) → ℤ
order x y = if signed_lt x y then negsuc 0 else if signed_lt y x then pos 1 else pos 0

unfoldable pub strcmp : (fuel lhs rhs : ℕ) → Memory → Option ℤ
strcmp zero lhs rhs m = none
strcmp (suc fuel) lhs rhs m =
    let rest = strcmp fuel (lhs + 1) (rhs + 1) m in
    if m lhs == m rhs && not (m lhs == 0) && not (m rhs == 0)
    then rest
    else some (order (m lhs) (m rhs))

-- A plain `char` as an `int`, and the comparison of two of these.
unfoldable pub char_int : ℕ → ℤ
char_int byte = if ltb byte 128 then pos byte else negsuc (255 - byte)

unfoldable pub eq_ℤ : ℤ → ℤ → Bool
eq_ℤ (pos a) (pos b) = a == b
eq_ℤ (pos a) (negsuc b) = false
eq_ℤ (negsuc a) (pos b) = false
eq_ℤ (negsuc a) (negsuc b) = a == b

-- `strchr` and `strsep`: the address of the first character that passes the test, or 0, which is
-- NULL. The end of the string is tested too.
unfoldable pub first_from : (ℕ → Bool) → (fuel ptr : ℕ) → Memory → Option ℕ
first_from test zero ptr m = none
first_from test (suc fuel) ptr m =
    let rest = first_from test fuel (ptr + 1) m in
    if test (m ptr) then some ptr else if m ptr == 0 then some 0 else rest

-- `strrchr` and `strrsep`: the last one.
unfoldable pub last_from : (ℕ → Bool) → (fuel last ptr : ℕ) → Memory → Option ℕ
last_from test zero last ptr m = none
last_from test (suc fuel) last ptr m =
    let last' = if test (m ptr) then ptr else last in
    let rest = last_from test fuel last' (ptr + 1) m in if m ptr == 0 then some last' else rest

unfoldable pub strchr : (fuel str : ℕ) → ℤ → Memory → Option ℕ
strchr fuel str ch m = first_from (λ byte. eq_ℤ (char_int byte) ch) fuel str m

unfoldable pub strrchr : (fuel str : ℕ) → ℤ → Memory → Option ℕ
strrchr fuel str ch m = last_from (λ byte. eq_ℤ (char_int byte) ch) fuel 0 str m

unfoldable pub is_separator : ℕ → Bool
is_separator c = c == b'/' || c == 92

unfoldable pub strsep : (fuel str : ℕ) → Memory → Option ℕ
strsep fuel str m = first_from is_separator fuel str m

unfoldable pub strrsep : (fuel str : ℕ) → Memory → Option ℕ
strrsep fuel str m = last_from is_separator fuel 0 str m

unfoldable pub memcmp : (lhs rhs count : ℕ) → Memory → ℤ
memcmp lhs rhs zero m = pos 0
memcmp lhs rhs (suc count) m =
    let rest = memcmp (lhs + 1) (rhs + 1) count m in
    if m lhs == m rhs then rest else order (m lhs) (m rhs)

unfoldable pub memset : (dest ch count : ℕ) → Memory → Memory
memset dest ch zero m = m
memset dest ch (suc count) m = memset (dest + 1) ch count (store dest (ch % 256) m)

unfoldable pub memcpy : (dest src count : ℕ) → Memory → Memory
memcpy dest src zero m = m
memcpy dest src (suc count) m = memcpy (dest + 1) (src + 1) count (store dest (m src) m)

-- Without a `return` behind its loop, `memchr` has no result where the byte does not occur.
unfoldable pub memchr : (str : ℕ) → ℤ → (count : ℕ) → Memory → Option ℕ
memchr str ch zero m = none
memchr str ch (suc count) m =
    let rest = memchr (str + 1) ch count m in if eq_ℤ (char_int (m str)) ch then some str else rest
