-- ===== src/Format/Roundtrip.antt =====
-- What `number` of src/lib/vsprintf.c prints, `atoi` of src/lib/stdlib.c reads.
use mathlib.Core.Path.{subst}
use neonix.Prelude.{
  ℕ, zero, suc, ◌+◌, ◌-◌, ◌/◌, ◌^◌, ◌≤◌, ◌<◌, ◌≡◌, refl, sym, ap, ◌∙◌, ◌≢◌, inl, inr, Bool, true,
  false, Option, none, some, List, [], ◌∷◌, ◌++◌, append-nil, arith, leb, ◌==◌, Bool-cases, length,
}
use neonix.Prelude.Int.{lt_ℤ, ℤ, pos, negsuc, pos_part}
use neonix.Prelude.Words.{u32_mod}
use neonix.Strings.{Memory}
use neonix.Strings.Copy.{Holds}
use neonix.Stdlib.{atoi}
use neonix.Stdlib.Decimal.{decimal, atoi-decimal, atoi-negative}
use neonix.Format.{
  digits_of, size_left, sign, tmp_digits, sign_char, sign_part, prefix, magnitude, padded, precise,
  layout, sub_ℤ, number, reverse_onto,
}
use neonix.Format.Digits.{tmp_digits-IsDigit, tmp_digits-decimal}

padded-le : (size : ℤ) → pos_part (padded size) ≡ 0
unfolding padded
padded-le (pos zero) = refl
padded-le (pos (suc n)) = ground arith
padded-le (negsuc n) = ground arith

length-digits_of :
    (lower : Bool) (fuel num base : ℕ) → length (digits_of lower fuel num base) ≤ fuel
unfolding digits_of
length-digits_of lower zero num base = omega arith
length-digits_of lower (suc fuel) num base =
    let rest = length-digits_of lower fuel (num / base) base in
    elim (Bool-cases (num == 0)) [
      | inl end ↦ rw end (omega arith)
      | inr more ↦ rw more (omega arith)
    ]

length-tmp_digits : (lower : Bool) (num base : ℕ) → length (tmp_digits lower num base) ≤ 32
unfolding tmp_digits
length-tmp_digits lower num base =
    let all = length-digits_of lower 32 num base in
    elim (Bool-cases (num == 0)) [ inl nil ↦ rw nil (omega arith) | inr some_ ↦ rw some_ all ]

length-sign_part : (c : Option ℕ) → length (sign_part c) ≤ 1
unfolding sign_part
length-sign_part none = omega arith
length-sign_part (some c) = omega arith

-- A width that is not given does not overflow.
no_overflow :
    (n : ℕ)
    → n ≤ 40
    → lt_ℤ (size_left true true (sub_ℤ (pos 0) (pos n))) (negsuc 2147483647) ≡ false
unfolding size_left padded
no_overflow n le = ground arith

-- A width that is used up prints no padding.
layout_full :
    (size : ℤ) (mark body : List ℕ)
    → pos_part size ≡ 0
    → layout true true 32 size mark body ≡ mark ++ body
unfolding layout
layout_full size mark body e =
    rw (e, padded-le size, padded-le (padded size)) (ap (λ l. mark ++ l) (append-nil body))

no_precision : (i : ℕ) → precise i (negsuc 0) ≡ i
unfolding precise
no_precision i = ground arith

no_width : (n : ℕ) → pos_part (sub_ℤ (pos 0) (pos n)) ≡ 0
no_width n = ground arith

minus_self : (n : ℕ) → n - n ≡ 0
minus_self n = omega arith

-- The text of an `int` in base 10, with no width, precision or flag but `SIGN`.
number-plain :
    (num : ℕ)
    → number num 10 (pos 0) (negsuc 0) sign
      ≡ some
          (sign_part (sign_char 2 num) ++ reverse_onto (tmp_digits false (magnitude 2 num) 10) [])
unfolding number prefix
number-plain num =
    let tmp = tmp_digits false (magnitude 2 num) 10 in
    let mark = sign_part (sign_char 2 num) in
    let body = reverse_onto tmp [] in
    let plain : precise (length tmp) (negsuc 0) ≡ length tmp = no_precision (length tmp) in
    let one = length-sign_part (sign_char 2 num) in
    let many = length-tmp_digits false (magnitude 2 num) 10 in
    let fits = no_overflow (length mark + length tmp) (omega arith) in
    rw (append-nil mark, plain, fits, minus_self (length tmp))
      (ap some (layout_full _ mark body (no_width _)))

-- For each `int` but the smallest, `atoi` reads back what `number` prints in base 10 with no width, no
-- precision and only the flag `SIGN`: of a string
-- that holds the printed text, at an address other than NULL and with more fuel than the text has
-- characters, it returns the integer.
pub atoi-number :
    (num : ℕ) (text : List ℕ) (fuel str : ℕ) (m : Memory)
    → num < 2 ^ 32
    → num ≢ 2 ^ 31
    → number num 10 (pos 0) (negsuc 0) sign ≡ some text
    → str ≢ 0
    → length text < fuel
    → Holds m str text
    → atoi fuel str m ≡ some num
unfolding sign_char magnitude sign_part
atoi-number num text fuel str m lt ne e nz f h = elim (Bool-cases (leb (2 ^ 31) num)) [
  | inl negative ↦
      let n = u32_mod - num in
      let small : n < 2 ^ 31 = ground arith in
      let digits = reverse_onto (tmp_digits false n 10) [] in
      let d : decimal 0 digits ≡ n = tmp_digits-decimal false n (omega arith) in
      let t : b'-' ∷ digits ≡ text = printed num text (b'-' ∷ digits) e (rw negative refl) in
      let f' : length (b'-' ∷ digits) < fuel = subst (λ l. length l < fuel) (sym t) f in
      let h' : Holds m str (b'-' ∷ digits) = subst (Holds m str) (sym t) h in
      let run =
        atoi-negative m digits fuel str nz (omega arith) h' (tmp_digits-IsDigit false n)
          (rw d small) in
      run ∙ rw d (ap some (omega arith))
  | inr plain ↦
      let small : num < 2 ^ 31 = ground arith in
      let digits = reverse_onto (tmp_digits false num 10) [] in
      let d : decimal 0 digits ≡ num = tmp_digits-decimal false num lt in
      let t : digits ≡ text = printed num text digits e (rw plain refl) in
      let f' : length digits < fuel = subst (λ l. length l < fuel) (sym t) f in
      let h' : Holds m str digits = subst (Holds m str) (sym t) h in
      atoi-decimal m digits fuel str nz f' h' (tmp_digits-IsDigit false num) (rw d small)
      ∙ ap some d
]
  where
    printed :
        (num : ℕ) (text expected : List ℕ)
        → number num 10 (pos 0) (negsuc 0) sign ≡ some text
        → sign_part (sign_char 2 num) ++ reverse_onto (tmp_digits false (magnitude 2 num) 10) []
          ≡ expected
        → expected ≡ text
    printed num text expected e same = let p = sym (ap some same) ∙ sym (number-plain num) ∙ e in cc
