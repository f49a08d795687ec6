-- ===== src/Strings/Search.antt =====
-- The searches of src/lib/string.c for the last character of a kind.
use neonix.Prelude.{
  ℕ, zero, suc, ◌+◌, ◌<◌, ◌≡◌, refl, Bool, true, false, some, List, [], ◌∷◌, ◌++◌, arith,
  if◌then◌else◌, length, All,
}
use neonix.Strings.{Memory, last_from, strrsep, is_separator}
use neonix.Strings.Copy.{Holds}

module _ (test : ℕ → Bool) (end_fails : test 0 ≡ false) (m : Memory) where
  last_from-none :
      (xs : List ℕ) (fuel last p : ℕ)
      → length xs < fuel
      → Holds m p xs
      → All (λ b. test b ≡ false) xs
      → last_from test fuel last p m ≡ some last
  unfolding last_from
  last_from-none xs zero last p lt h fails = elim lt [ ]
  last_from-none [] (suc fuel) last p lt h fails = rw (h, end_fails) refl
  last_from-none (x ∷ xs) (suc fuel) last p lt (e, ne, h) (fail, fails) =
      let ih = last_from-none xs fuel last (p + 1) (omega arith) h fails in
      rw (e, fail) (ground (arith, ih))

  last_from-append :
      (xs : List ℕ) (c : ℕ) (ys : List ℕ) (fuel last p : ℕ)
      → length (xs ++ c ∷ ys) < fuel
      → Holds m p (xs ++ c ∷ ys)
      → test c ≡ true
      → All (λ b. test b ≡ false) ys
      → last_from test fuel last p m ≡ some (p + length xs)
  unfolding last_from
  last_from-append xs c ys zero last p lt h found fails = elim lt [ ]
  last_from-append [] c ys (suc fuel) last p lt (e, ne, h) found fails =
      let ih = last_from-none ys fuel p (p + 1) (omega arith) h fails in
      rw (e, found) (ground (arith, ih))
  last_from-append (x ∷ xs) c ys (suc fuel) last p lt (e, ne, h) found fails =
      let ih =
        last_from-append xs c ys fuel (if test x then p else last) (p + 1) (omega arith) h found
          fails in
      rw e (ground (arith, ih))

-- `strrsep` ends on a string that ends within the fuel, and returns the address of its last
-- separator, slash or backslash, where the string has one.
pub strrsep-append :
    (m : Memory) (str : ℕ) (xs : List ℕ) (c : ℕ) (ys : List ℕ) (fuel : ℕ)
    → length (xs ++ c ∷ ys) < fuel
    → Holds m str (xs ++ c ∷ ys)
    → is_separator c ≡ true
    → All (λ b. is_separator b ≡ false) ys
    → strrsep fuel str m ≡ some (str + length xs)
unfolding strrsep is_separator
strrsep-append m str xs c ys fuel lt h found fails =
    last_from-append is_separator refl m xs c ys fuel 0 str lt h found fails
