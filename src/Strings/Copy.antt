-- ===== src/Strings/Copy.antt =====
-- The functions of src/lib/string.c that copy: `memcpy`, `strcpy`, `strcat`; and `strlen`.
use neonix.Prelude.{
  ℕ, zero, suc, ◌+◌, ◌≤◌, ◌<◌, ◌≡◌, refl, ap, ◌∙◌, ◌≢◌, ◌⊎◌, inl, false, some, List, [], ◌∷◌, ◌++◌,
  arith, ◌==◌, length,
}
use neonix.Strings.{Memory, store, copy_from, strcpy, end_from, strcat, strlen}

-- The string at `p` is `xs`: its bytes are not 0, and a byte 0 follows.
abbrev pub Holds : Memory → ℕ → List ℕ → Type 0
Holds m p [] = m p ≡ 0
Holds m p (x ∷ xs) = (m p ≡ x) × (x ≢ 0) × Holds m (p + 1) xs

-- Two blocks of `count` bytes share none.
abbrev pub Apart : (count p q : ℕ) → Type 0
Apart count p q = (p + count ≤ q) ⊎ (q + count ≤ p)

-- Only the `count` bytes from `p` on differ.
abbrev pub SameOutside : (count p : ℕ) → Memory → Memory → Type 0
SameOutside count p m m' = (a : ℕ) → (a < p) ⊎ (p + count ≤ a) → m' a ≡ m a

store_self : (m : Memory) (a v : ℕ) → store a v m a ≡ v
unfolding store
store_self m a v = ground arith

store_ne : (m : Memory) (a b v : ℕ) → b ≢ a → store a v m b ≡ m b
unfolding store
store_ne m a b v ne = ground arith

Holds-store :
    (m : Memory) (p : ℕ) (xs : List ℕ) (a v : ℕ)
    → (a < p) ⊎ (p + length xs < a)
    → Holds m p xs
    → Holds (store a v m) p xs
Holds-store m p [] a v out h = store_ne m a p v (λ e. ground arith) ∙ h
Holds-store m p (x ∷ xs) a v out (e, ne, h) =
    (store_ne m a p v (λ e. ground arith) ∙ e, ne, Holds-store m (p + 1) xs a v (ground arith) h)

store_copy : (m : Memory) (a b : ℕ) → store a (m b) m b ≡ m b
unfolding store
store_copy m a b = ground arith

ne→==_false : (x : ℕ) → x ≢ 0 → (x == 0) ≡ false
ne→==_false x ne = ground arith

pub end_from-Holds :
    (m : Memory) (p : ℕ) (xs : List ℕ) (fuel : ℕ)
    → length xs < fuel
    → Holds m p xs
    → end_from fuel p m ≡ some (p + length xs)
unfolding end_from
end_from-Holds m p xs zero lt h = elim lt [ ]
end_from-Holds m p [] (suc fuel) lt h = rw h (ap some (omega arith))
end_from-Holds m p (x ∷ xs) (suc fuel) lt (e, ne, h) =
    let ih = end_from-Holds m (p + 1) xs fuel (omega arith) h in
    rw (e, ne→==_false x ne) (ih ∙ ap some (omega arith))

pub copy_from-Holds :
    (m : Memory) (ptr src : ℕ) (xs : List ℕ) (fuel : ℕ)
    → length xs < fuel
    → Apart (length xs + 1) ptr src
    → Holds m src xs
    → (m' : Memory) × (copy_from fuel ptr src m ≡ some m')
      × Holds m' ptr xs
      × SameOutside (length xs + 1) ptr m m'
unfolding copy_from
copy_from-Holds m ptr src xs zero lt apart h = elim lt [ ]
copy_from-Holds m ptr src [] (suc fuel) lt apart h = (
  store ptr (m src) m,
  rw (store_copy m ptr src, h) refl,
  store_self m ptr (m src) ∙ h,
  λ a out. store_ne m ptr a (m src) (λ e. ground arith),
)
copy_from-Holds m ptr src (x ∷ xs) (suc fuel) lt apart (e, ne, h) =
    let m1 = store ptr x m in
    let h1 : Holds m1 (src + 1) xs = Holds-store m (src + 1) xs ptr x (ground arith) h in
    let (m', run, held, same) =
      copy_from-Holds m1 (ptr + 1) (src + 1) xs fuel (omega arith) (ground arith) h1 in
    (
      m',
      rw (store_copy m ptr src, e, ne→==_false x ne) run,
      (same ptr (inl (omega arith)) ∙ store_self m ptr x, ne, held),
      λ a out. same a (ground arith) ∙ store_ne m ptr a x (λ e. ground arith),
    )

-- A string that ends within the fuel is copied with its end: `strcpy` returns `dest`, which then
-- holds the same string, and no byte outside of the copy changes. The two strings lie apart.
pub strcpy-Holds :
    (m : Memory) (dest src : ℕ) (xs : List ℕ) (fuel : ℕ)
    → length xs < fuel
    → Apart (length xs + 1) dest src
    → Holds m src xs
    → (m' : Memory) × (strcpy fuel dest src m ≡ some (dest, m'))
      × Holds m' dest xs
      × SameOutside (length xs + 1) dest m m'
unfolding strcpy
strcpy-Holds m dest src xs fuel lt apart h =
    let (m', run, held, same) = copy_from-Holds m dest src xs fuel lt apart h in
    (m', rw run refl, held, same)

-- `strlen` of a string that ends within the fuel ends and returns the length of the string.
pub strlen-Holds :
    (m : Memory) (str : ℕ) (xs : List ℕ) (fuel : ℕ)
    → length xs < fuel
    → Holds m str xs
    → strlen fuel str m ≡ some (length xs)
unfolding strlen
strlen-Holds m str xs fuel lt h = rw (end_from-Holds m str xs fuel lt h) (ap some (omega arith))

Holds-append :
    (m m' : Memory) (p q count : ℕ) (xs ys : List ℕ)
    → p + length xs ≡ q
    → Holds m p xs
    → SameOutside count q m m'
    → Holds m' q ys
    → Holds m' p (xs ++ ys)
Holds-append m m' p q count [] ys at h same held = let here : p ≡ q = omega arith in rw here held
Holds-append m m' p q count (x ∷ xs) ys at (e, ne, h) same held = (
  same p (inl (omega arith)) ∙ e,
  ne,
  Holds-append m m' (p + 1) q count xs ys (omega arith) h same held,
)

-- `strcat` appends: of two strings that lie apart, with the room behind the first for the second,
-- it returns `dest`, which then holds the one string followed by the other, and no byte outside
-- of the appended part changes.
pub strcat-append :
    (m : Memory) (dest src : ℕ) (xs ys : List ℕ) (fuel : ℕ)
    → length xs < fuel
    → length ys < fuel
    → Apart (length ys + 1) (dest + length xs) src
    → Holds m dest xs
    → Holds m src ys
    → (m' : Memory) × (strcat fuel dest src m ≡ some (dest, m'))
      × Holds m' dest (xs ++ ys)
      × SameOutside (length ys + 1) (dest + length xs) m m'
unfolding strcat
strcat-append m dest src xs ys fuel lt lt' apart hx hy =
    let at = end_from-Holds m dest xs fuel lt hx in
    let (m', run, held, same) = copy_from-Holds m (dest + length xs) src ys fuel lt' apart hy in
    (
      m',
      rw (at, run) refl,
      Holds-append m m' dest (dest + length xs) (length ys + 1) xs ys refl hx same held,
      same,
    )
