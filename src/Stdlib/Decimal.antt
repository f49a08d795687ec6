-- ===== src/Stdlib/Decimal.antt =====
-- `atoi` of src/lib/stdlib.c reads decimal numbers.
use neonix.Prelude.{
  ℕ, zero, suc, ◌+◌, ◌-◌, ◌*◌, ◌%◌, ◌^◌, ◌≤◌, ◌<◌, ◌≡◌, refl, ◌≢◌, false, some, List, [], ◌∷◌,
  arith, ◌==◌, length, All,
}
use neonix.Prelude.Words.{add32, sub32, u32_mod}
use neonix.Strings.{Memory}
use neonix.Strings.Copy.{Holds}
use neonix.Stdlib.{digit_value, digits_from, atoi}

abbrev pub IsDigit : ℕ → Type 0
IsDigit d = (48 ≤ d) × (d ≤ 57)

-- The number whose digits follow those of `r`.
unfoldable pub decimal : ℕ → List ℕ → ℕ
decimal r [] = r
decimal r (d ∷ ds) = decimal (r * 10 + (d - 48)) ds

le-decimal : (r : ℕ) (ds : List ℕ) → r ≤ decimal r ds
unfolding decimal
le-decimal r [] = omega arith
le-decimal r (d ∷ ds) = omega (arith, le-decimal (r * 10 + (d - 48)) ds)

digit_value-eq : (d : ℕ) → IsDigit d → digit_value d ≡ d - 48
unfolding digit_value
digit_value-eq d (ge, le) = ground arith

-- The sum of a round does not wrap around.
round_eq :
    (r d : ℕ)
    → IsDigit d
    → r * 10 + (d - 48) < 2 ^ 32
    → add32 (r * 10 % u32_mod) (d - 48) ≡ r * 10 + (d - 48)
round_eq r d digit lt = omega arith

digits_from-decimal :
    (m : Memory) (ds : List ℕ) (fuel str r : ℕ)
    → length ds < fuel
    → Holds m str ds
    → All IsDigit ds
    → decimal r ds < 2 ^ 32
    → digits_from fuel str r m ≡ some (decimal r ds)
unfolding digits_from decimal
digits_from-decimal m ds zero str r lt h digits small = elim lt [ ]
digits_from-decimal m [] (suc fuel) str r lt h digits small = rw h refl
digits_from-decimal m (d ∷ ds) (suc fuel) str r lt (e, ne, h) (digit, digits) small =
    let b = le-decimal (r * 10 + (d - 48)) ds in
    let s = round_eq r d digit (omega arith) in
    let ih =
      digits_from-decimal m ds fuel (str + 1) (r * 10 + (d - 48)) (omega arith) h digits small in
    rw (e, digit_value-eq d digit, s) (ground (arith, ih))

-- `atoi` of a string of decimal digits whose number fits an `int` ends and returns the number.
pub atoi-decimal :
    (m : Memory) (ds : List ℕ) (fuel str : ℕ)
    → str ≢ 0
    → length ds < fuel
    → Holds m str ds
    → All IsDigit ds
    → decimal 0 ds < 2 ^ 31
    → atoi fuel str m ≡ some (decimal 0 ds)
unfolding atoi
atoi-decimal m ds fuel str ne lt h digits small =
    let run = digits_from-decimal m ds fuel str 0 lt h digits (omega arith) in
    let plain = no_sign m str ds h digits in ground (arith, run)
  where
    no_sign :
        (m : Memory) (str : ℕ) (ds : List ℕ)
        → Holds m str ds
        → All IsDigit ds
        → (m str == 45) ≡ false
    no_sign m str [] h digits = rw h refl
    no_sign m str (d ∷ ds) (e, ne, h) ((ge, le), digits) = rw e (ground arith)

-- `atoi` of a minus sign and decimal digits whose number fits an `int` ends and returns the
-- negated number, in two's complement.
pub atoi-negative :
    (m : Memory) (ds : List ℕ) (fuel str : ℕ)
    → str ≢ 0
    → length ds < fuel
    → Holds m str (b'-' ∷ ds)
    → All IsDigit ds
    → decimal 0 ds < 2 ^ 31
    → atoi fuel str m ≡ some (sub32 0 (decimal 0 ds))
unfolding atoi
atoi-negative m ds fuel str ne lt (e, nz, h) digits small =
    let run = digits_from-decimal m ds fuel (str + 1) 0 lt h digits (omega arith) in
    rw (e, run) (ground arith)
