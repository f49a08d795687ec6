-- ===== src/Strings/Compare.antt =====
-- `strcmp` and the searches of src/lib/string.c.
use neonix.Prelude.{
  ℕ, zero, suc, ◌+◌, ◌<◌, ◌≡◌, refl, sym, ◌≢◌, ◌↔◌, inl, inr, some, List, [], ◌∷◌, arith, ◌==◌,
  if◌then◌else◌, Bool-cases, length, All,
}
use neonix.Prelude.Int.{ℤ, pos}
use neonix.Strings.{Memory, order, strcmp}
use neonix.Strings.Copy.{Holds}

-- How two strings of signed characters compare; the end stands before every other character but
-- the negative ones.
abbrev pub compare_strings : List ℕ → List ℕ → ℤ
compare_strings [] [] = pos 0
compare_strings [] (y ∷ ys) = order 0 y
compare_strings (x ∷ xs) [] = order x 0
compare_strings (x ∷ xs) (y ∷ ys) = if x == y then compare_strings xs ys else order x y

-- `strcmp` ends on two strings that end within the fuel, and compares them character by
-- character, as signed ones, up to the first that differ.
pub strcmp-compare_strings :
    (m : Memory) (lhs rhs : ℕ) (xs ys : List ℕ) (fuel : ℕ)
    → length xs < fuel
    → Holds m lhs xs
    → Holds m rhs ys
    → strcmp fuel lhs rhs m ≡ some (compare_strings xs ys)
unfolding strcmp order
strcmp-compare_strings m lhs rhs xs ys zero lt hx hy = elim lt [ ]
strcmp-compare_strings m lhs rhs [] [] (suc fuel) lt hx hy = rw (hx, hy) refl
strcmp-compare_strings m lhs rhs [] (y ∷ ys) (suc fuel) lt hx (e, ne, hy) =
    rw (hx, e) (ground arith)
strcmp-compare_strings m lhs rhs (x ∷ xs) [] (suc fuel) lt (e, ne, hx) hy =
    rw (hy, e) (ground arith)
strcmp-compare_strings m lhs rhs (x ∷ xs) (y ∷ ys) (suc fuel) lt (e, ne, hx) (e', ne', hy) =
    let ih = strcmp-compare_strings m (lhs + 1) (rhs + 1) xs ys fuel (omega arith) hx hy in
    rw (e, e', ih) (ground arith)

-- A byte.
abbrev pub IsByte : ℕ → Type 0
IsByte b = b < 256

pub order-eq_zero : (x y : ℕ) → x < 256 → y < 256 → order x y ≡ pos 0 → x ≡ y
unfolding order
order-eq_zero x y hx hy e = ground arith

compare_strings-eq :
    (xs ys : List ℕ)
    → All (λ b. IsByte b × (b ≢ 0)) xs
    → All (λ b. IsByte b × (b ≢ 0)) ys
    → compare_strings xs ys ≡ pos 0
    → xs ≡ ys
compare_strings-eq [] [] ax ay e = refl
compare_strings-eq [] (y ∷ ys) ax ((ly, ne), ay) e =
    absurd (ne (sym (order-eq_zero 0 y (omega arith) ly e)))
compare_strings-eq (x ∷ xs) [] ((lx, ne), ax) ay e =
    absurd (ne (order-eq_zero x 0 lx (omega arith) e))
compare_strings-eq (x ∷ xs) (y ∷ ys) ((lx, nx), ax) ((ly, ny), ay) e = elim (Bool-cases (x == y)) [
  | inl same ↦
      let at : x ≡ y = ground arith in
      let e' : compare_strings xs ys ≡ pos 0 = ground arith in
      let ih = compare_strings-eq xs ys ax ay e' in rw (at, ih)
  | inr differ ↦
      let e' : order x y ≡ pos 0 = ground arith in
      let at = order-eq_zero x y lx ly e' in absurd (ground arith)
]

pub order_self : (x : ℕ) → order x x ≡ pos 0
unfolding order
order_self x = ground arith

compare_strings_self : (xs : List ℕ) → compare_strings xs xs ≡ pos 0
unfolding order
compare_strings_self [] = order_self 0
compare_strings_self (x ∷ xs) = ground (arith, compare_strings_self xs)

-- On two strings of bytes that end within the fuel, `strcmp` ends, and what it returns is 0 just
-- when the strings are equal.
pub strcmp-eq_iff :
    (m : Memory) (lhs rhs : ℕ) (xs ys : List ℕ) (fuel : ℕ)
    → length xs < fuel
    → Holds m lhs xs
    → Holds m rhs ys
    → All (λ b. IsByte b × (b ≢ 0)) xs
    → All (λ b. IsByte b × (b ≢ 0)) ys
    → (r : ℤ) × (strcmp fuel lhs rhs m ≡ some r) × ((r ≡ pos 0) ↔ (xs ≡ ys))
strcmp-eq_iff m lhs rhs xs ys fuel lt hx hy bx by' = (
  compare_strings xs ys,
  strcmp-compare_strings m lhs rhs xs ys fuel lt hx hy,
  (λ e. compare_strings-eq xs ys bx by' e, λ e. rw (sym e) (compare_strings_self xs)),
)
