-- ===== src/Format/Tests.antt =====
-- `number` of src/lib/vsprintf.c at some numbers, and its theorems there.
use neonix.Prelude.{
  ℕ, suc, ◌+◌, ◌-◌, ◌^◌, ◌≡◌, refl, ◌≢◌, some, [], ◌∷◌, arith, ◌==◌, if◌then◌else◌,
}
use neonix.Prelude.Int.{pos, negsuc}
use neonix.Strings.{Memory}
use neonix.Stdlib.{atoi}
use neonix.Format.{
  size_left, number, layout, digit_char, digits_of, tmp_digits, sign_char, sign_part, magnitude,
  prefix, precise, reverse_onto, padded,
}
use neonix.Format.Roundtrip.{atoi-number}

-- `%#06x` of 255.
hex_example :
    number 255 16 (pos 6) (negsuc 0) (1 + 32 + 64)
    ≡ some (b'0' ∷ b'x' ∷ b'0' ∷ b'0' ∷ b'f' ∷ b'f' ∷ [])
unfolding number layout digit_char digits_of tmp_digits sign_char sign_part magnitude prefix precise
    reverse_onto padded size_left
hex_example = refl

-- `%-5d` of -7.
left_example :
    number (2 ^ 32 - 7) 10 (pos 5) (negsuc 0) (2 + 16) ≡ some (b'-' ∷ b'7' ∷ 32 ∷ 32 ∷ 32 ∷ [])
unfolding number layout digit_char digits_of tmp_digits sign_char sign_part magnitude prefix precise
    reverse_onto padded size_left
left_example = refl

-- The string "-42" at 10.
abbrev memory : Memory
memory a = if a == 10 then 45 else if a == 11 then 52 else if a == 12 then 50 else 0

nonzero : (n : ℕ) → suc n ≢ 0
nonzero n e = omega arith

atoi-number_example : atoi 5 10 memory ≡ some (2 ^ 32 - 42)
unfolding number layout digit_char digits_of tmp_digits sign_char sign_part magnitude prefix precise
    reverse_onto padded size_left
atoi-number_example =
    atoi-number (2 ^ 32 - 42) (45 ∷ 52 ∷ 50 ∷ []) 5 10 memory (omega arith) (λ e. omega arith) refl
      (nonzero 9) (omega arith) (refl, nonzero 44, (refl, nonzero 51, (refl, nonzero 49, refl)))
