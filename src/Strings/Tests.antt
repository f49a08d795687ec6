-- ===== src/Strings/Tests.antt =====
-- src/lib/string.c at short strings, and its theorems there.
use neonix.Prelude.{
  ℕ, suc, ◌≡◌, refl, ◌≢◌, ◌↔◌, inr, ◌||◌, some, List, [], ◌∷◌, arith, ◌==◌, if◌then◌else◌,
}
use neonix.Prelude.Int.{ℤ, pos}
use neonix.Strings.{Memory, store, strcpy, strcmp, strncpy, copy_upto}
use neonix.Strings.Copy.{Holds, SameOutside, strcpy-Holds}
use neonix.Strings.Compare.{strcmp-eq_iff}

-- The strings "a/b" at 10, and "a/c" at 20.
abbrev memory : Memory
memory a =
    if a == 10 || a == 20
    then 97
    else if a == 11 || a == 21
    then 47
    else if a == 12
    then 98
    else if a == 22
    then 99
    else 0

abbrev ab : List ℕ
ab = 97 ∷ 47 ∷ 98 ∷ []

abbrev ac : List ℕ
ac = 97 ∷ 47 ∷ 99 ∷ []

ne : (n : ℕ) → suc n ≢ 0
ne n e = omega arith

ab-Holds : Holds memory 10 ab
ab-Holds = (refl, ne 96, (refl, ne 46, (refl, ne 97, refl)))

ac-Holds : Holds memory 20 ac
ac-Holds = (refl, ne 96, (refl, ne 46, (refl, ne 98, refl)))

strncpy_cut : (strncpy 40 10 2 memory).1 41 ≡ 0
unfolding strncpy copy_upto store
strncpy_cut = refl

strcpy-Holds_example :
    (m' : Memory) × (strcpy 5 40 10 memory ≡ some (40, m'))
    × Holds m' 40 ab
    × SameOutside 4 40 memory m'
strcpy-Holds_example = strcpy-Holds memory 40 10 ab 5 (omega arith) (inr (omega arith)) ab-Holds

strcmp-eq_iff_example : (r : ℤ) × (strcmp 5 10 20 memory ≡ some r) × ((r ≡ pos 0) ↔ (ab ≡ ac))
strcmp-eq_iff_example =
    strcmp-eq_iff memory 10 20 ab ac 5 (omega arith) ab-Holds ac-Holds
      ((omega arith, ne 96), ((omega arith, ne 46), ((omega arith, ne 97), tt)))
      ((omega arith, ne 96), ((omega arith, ne 46), ((omega arith, ne 98), tt)))
