-- ===== src/Format.antt =====
-- `number` of src/lib/vsprintf.c, which prints an integer in a base, and `skip_atoi`. What is printed
-- is a list of characters; `none` is the null pointer for a base that is not
-- served, or a size that leaves the range of `int`.
pub mod Digits
pub mod Roundtrip
pub mod Tests
use neonix.Prelude.{
  ℕ, zero, suc, ◌+◌, ◌-◌, ◌*◌, ◌/◌, ◌%◌, ◌^◌, Bool, ◌&&◌, ◌||◌, not, Option, none, some, List, [],
  ◌∷◌, ◌++◌, ltb, leb, ◌==◌, if◌then◌else◌, length, replicate,
}
use neonix.Prelude.Int.{ℤ, pos, negsuc, pos_part, neg_part, sub_ℕ, lt_ℤ}
use neonix.Prelude.Words.{u32_mod}

abbrev pub zeropad : ℕ
zeropad = 1

abbrev pub sign : ℕ
sign = 2

abbrev pub plus : ℕ
plus = 4

abbrev pub space : ℕ
space = 8

abbrev pub left : ℕ
left = 16

abbrev pub special : ℕ
special = 32

abbrev pub small : ℕ
small = 64

-- `flags & flag`, for one of the flags above, as a truth value.
abbrev pub flagged : (flags flag : ℕ) → Bool
flagged flags flag = flags / flag % 2 == 1

abbrev pub sub_ℤ : ℤ → ℤ → ℤ
sub_ℤ a b = sub_ℕ (pos_part a + neg_part b) (neg_part a + pos_part b)

-- `digits[d]`, in capital or in small letters.
unfoldable pub digit_char : (lower : Bool) → ℕ → ℕ
digit_char lower d = if ltb d 10 then 48 + d else if lower then 87 + d else 55 + d

-- The digits of `num` in `tmp`, the last one first. A number of 32 bits has 32 at most.
unfoldable pub digits_of : (lower : Bool) → (fuel num base : ℕ) → List ℕ
digits_of lower zero num base = []
digits_of lower (suc fuel) num base =
    let rest = digit_char lower (num % base) ∷ digits_of lower fuel (num / base) base in
    if num == 0 then [] else rest

unfoldable pub tmp_digits : (lower : Bool) → (num base : ℕ) → List ℕ
tmp_digits lower num base = if num == 0 then 48 ∷ [] else digits_of lower 32 num base

-- The sign that is printed, or none.
unfoldable pub sign_char : (flags num : ℕ) → Option ℕ
sign_char flags num =
    if flagged flags sign && leb (2 ^ 31) num
    then some b'-'
    else if flagged flags plus
    then some b'+'
    else if flagged flags space
    then some b' '
    else none

-- `num`, or its negation where it is printed with a minus sign.
unfoldable pub magnitude : (flags num : ℕ) → ℕ
magnitude flags num = if flagged flags sign && leb (2 ^ 31) num then u32_mod - num else num

unfoldable pub sign_part : Option ℕ → List ℕ
sign_part none = []
sign_part (some c) = c ∷ []

-- `0x` or `0`.
unfoldable pub prefix : (flags base : ℕ) → List ℕ
prefix flags base =
    if flagged flags special
    then (if base == 8
        then 48 ∷ []
        else if base == 16
        then 48 ∷ digit_char (flagged flags small) 33 ∷ []
        else [])
    else []

-- `while (size-- > 0) *str++ = c`: what is printed, and the size.
abbrev pub pad : (c : ℕ) → (size : ℤ) → List ℕ
pad c size = replicate (pos_part size) c

unfoldable pub padded : (size : ℤ) → ℤ
padded size = if lt_ℤ (pos 0) size then negsuc 0 else sub_ℤ size (pos 1)

-- The precision, raised to the count of the digits.
unfoldable pub precise : (i : ℕ) → ℤ → ℕ
precise i precision = if lt_ℤ precision (pos i) then i else pos_part precision

unfoldable pub reverse_onto : List ℕ → List ℕ → List ℕ
reverse_onto [] ys = ys
reverse_onto (x ∷ xs) ys = reverse_onto xs (x ∷ ys)

-- The part of `number` from the size that is left on: three loops fill with spaces or with `fill`,
-- before the sign, behind it, or at the end.
unfoldable pub layout :
    (spaces filled : Bool) → (fill : ℕ) → (size : ℤ) → (mark body : List ℕ) → List ℕ
layout spaces filled fill size mark body =
    let size1 = if spaces then padded size else size in
    let size2 = if filled then padded size1 else size1 in
    (if spaces then pad b' ' size else [])
    ++ (mark ++ ((if filled then pad fill size1 else []) ++ (body ++ pad b' ' size2)))

-- The size behind the three loops.
unfoldable pub size_left : (spaces filled : Bool) → (size : ℤ) → ℤ
size_left spaces filled size =
    let size1 = if spaces then padded size else size in
    padded (if filled then padded size1 else size1)

unfoldable pub number : (num base : ℕ) → (size precision : ℤ) → (flags : ℕ) → Option (List ℕ)
number num base size precision flags =
    let zeros = flagged flags zeropad && not (flagged flags left) in
    let mark = sign_part (sign_char flags num) ++ prefix flags base in
    let tmp = tmp_digits (flagged flags small) (magnitude flags num) base in
    let digits = precise (length tmp) precision in
    let size' = sub_ℤ size (pos (length mark + digits)) in
    let body = replicate (digits - length tmp) 48 ++ reverse_onto tmp [] in
    let spaces = not zeros && not (flagged flags left) in
    let filled = not (flagged flags left) in
    if ltb base 2 || ltb 36 base
    then none
    else if lt_ℤ (size_left spaces filled size') (negsuc 2147483647)
    then none
    else some (layout spaces filled (if zeros then 48 else b' ') size' mark body)

-- The digits at the front of a text, and the text behind them; the sum is an `int`.
unfoldable pub skip_atoi : (text : List ℕ) → (i : ℕ) → ℕ × List ℕ
skip_atoi [] i = (i, [])
skip_atoi (c ∷ text) i =
    let rest = skip_atoi text ((i * 10 + (c - 48)) % u32_mod) in
    if leb 48 c && leb c 57 then rest else (i, c ∷ text)
