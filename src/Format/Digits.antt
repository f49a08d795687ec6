-- ===== src/Format/Digits.antt =====
-- The digits that `number` of src/lib/vsprintf.c prints.
use neonix.Prelude.{
  ℕ, zero, suc, ◌+◌, ◌-◌, ◌*◌, ◌/◌, ◌%◌, ◌^◌, ◌<◌, ◌≡◌, refl, sym, ap, ◌∙◌, inl, inr, Bool, List,
  [], ◌∷◌, arith, ◌==◌, Bool-cases, length, All,
}
use neonix.Format.{digit_char, digits_of, tmp_digits, reverse_onto}
use neonix.Stdlib.Decimal.{IsDigit, decimal}

pub length-reverse_onto : (xs ys : List ℕ) → length (reverse_onto xs ys) ≡ length xs + length ys
unfolding reverse_onto
length-reverse_onto [] ys = omega arith
length-reverse_onto (x ∷ xs) ys = omega (arith, length-reverse_onto xs (x ∷ ys))

All-reverse_onto :
    (P : ℕ → Type 0) (xs ys : List ℕ) → All P xs → All P ys → All P (reverse_onto xs ys)
unfolding reverse_onto
All-reverse_onto P [] ys hx hy = hy
All-reverse_onto P (x ∷ xs) ys hx hy = All-reverse_onto P xs (x ∷ ys) hx.1 (hx.0, hy)

digit_char-IsDigit : (lower : Bool) (d : ℕ) → d < 10 → IsDigit (digit_char lower d)
unfolding digit_char
digit_char-IsDigit lower d lt = (ground arith, ground arith)

digit_char-value : (lower : Bool) (d : ℕ) → d < 10 → digit_char lower d ≡ 48 + d
unfolding digit_char
digit_char-value lower d lt = ground arith

digits_of-IsDigit : (lower : Bool) (fuel n : ℕ) → All IsDigit (digits_of lower fuel n 10)
unfolding digits_of
digits_of-IsDigit lower zero n = tt
digits_of-IsDigit lower (suc fuel) n = elim (Bool-cases (n == 0)) [
  | inl none_left ↦ rw none_left tt
  | inr more ↦
      rw more
        (digit_char-IsDigit lower (n % 10) (omega arith), digits_of-IsDigit lower fuel (n / 10))
]

half_lt : (n fuel : ℕ) → n < 2 ^ suc fuel → n / 10 < 2 ^ fuel
half_lt n fuel lt = let e : 2 ^ suc fuel ≡ 2 * 2 ^ fuel = omega arith in omega arith

-- With fuel for its binary digits, the digits of `n` stand for `n`.
digits_of-decimal :
    (lower : Bool) (fuel n : ℕ) (acc : List ℕ)
    → n < 2 ^ fuel
    → decimal 0 (reverse_onto (digits_of lower fuel n 10) acc) ≡ decimal n acc
unfolding digits_of reverse_onto decimal
digits_of-decimal lower zero n acc lt = (let e : n ≡ 0 = omega arith in rw e refl)
digits_of-decimal lower (suc fuel) n acc lt = elim (Bool-cases (n == 0)) [
  | inl done ↦ let e : n ≡ 0 = ground arith in rw (done, e) refl
  | inr more ↦
      let ih =
        digits_of-decimal lower fuel (n / 10) (digit_char lower (n % 10) ∷ acc)
          (half_lt n fuel lt) in
      let c = digit_char-value lower (n % 10) (omega arith) in
      let sum : n / 10 * 10 + (48 + n % 10 - 48) ≡ n = omega arith in
      rw more (ih ∙ rw c (ap (λ k. decimal k acc) sum))
]

pub tmp_digits-IsDigit :
    (lower : Bool) (n : ℕ) → All IsDigit (reverse_onto (tmp_digits lower n 10) [])
unfolding tmp_digits
tmp_digits-IsDigit lower n = elim (Bool-cases (n == 0)) [
  | inl is_zero ↦
      rw is_zero (All-reverse_onto IsDigit (48 ∷ []) [] ((omega arith, omega arith), tt) tt)
  | inr more ↦
      rw more
        (All-reverse_onto IsDigit (digits_of lower 32 n 10) [] (digits_of-IsDigit lower 32 n) tt)
]

-- The digits of a number of 32 bits, read from the left, stand for it.
pub tmp_digits-decimal :
    (lower : Bool) (n : ℕ) → n < 2 ^ 32 → decimal 0 (reverse_onto (tmp_digits lower n 10) []) ≡ n
unfolding tmp_digits decimal reverse_onto
tmp_digits-decimal lower n lt = elim (Bool-cases (n == 0)) [
  | inl is_zero ↦ let e : n ≡ 0 = ground arith in rw is_zero (sym e)
  | inr more ↦ rw more (digits_of-decimal lower 32 n [] lt)
]
