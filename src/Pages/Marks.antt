-- ===== src/Pages/Marks.antt =====
-- The counts that src/kernel/memory.c sets to 1 in a row.
use neonix.Prelude.{
  ℕ, zero, suc, ◌+◌, ◌≤◌, ◌<◌, ◌≡◌, refl, ◌∙◌, ◌⊎◌, inl, inr, some, List, [], ◌∷◌, arith, ◌==◌,
  Bool-cases, length, get_elem?, set, replicate, All, length-set, get_elem?-set_self,
  get_elem?-set_ne, All-set, some_injective,
}
use neonix.Pages.{mark_used}
use neonix.Pages.Counts.{unused}

pub mark_used-outside :
    (n i j : ℕ) (counts : List ℕ)
    → (j < i) ⊎ (i + n ≤ j)
    → get_elem? (mark_used n i counts) j ≡ get_elem? counts j
unfolding mark_used
mark_used-outside zero i j counts out = refl
mark_used-outside (suc n) i j counts (inl lt) =
    mark_used-outside n (i + 1) j (set counts i 1) (inl (omega arith))
    ∙ get_elem?-set_ne counts i j 1 (λ e. absurd (omega arith))
mark_used-outside (suc n) i j counts (inr ge) =
    mark_used-outside n (i + 1) j (set counts i 1) (inr (omega arith))
    ∙ get_elem?-set_ne counts i j 1 (λ e. absurd (omega arith))

pub mark_used-inside :
    (n i j : ℕ) (counts : List ℕ)
    → i ≤ j
    → j < i + n
    → j < length counts
    → get_elem? (mark_used n i counts) j ≡ some 1
unfolding mark_used
mark_used-inside zero i j counts le lt inside = absurd (omega arith)
mark_used-inside (suc n) i j counts le lt inside = elim (Bool-cases (i == j)) [
  | inl same ↦
      let e : i ≡ j = ground arith in
      mark_used-outside n (i + 1) j (set counts i 1) (inl (omega arith))
      ∙ rw e (get_elem?-set_self counts j 1 inside)
  | inr other ↦
      mark_used-inside n (i + 1) j (set counts i 1) (ground arith) (omega arith)
        (omega (arith, length-set counts i 1))
]

pub length-mark_used : (n i : ℕ) (counts : List ℕ) → length (mark_used n i counts) ≡ length counts
unfolding mark_used
length-mark_used zero i counts = refl
length-mark_used (suc n) i counts =
    length-mark_used n (i + 1) (set counts i 1) ∙ length-set counts i 1

pub mark_used-small :
    (n i : ℕ) (counts : List ℕ)
    → All (λ c. c < 255) counts
    → All (λ c. c < 255) (mark_used n i counts)
unfolding mark_used
mark_used-small zero i counts a = a
mark_used-small (suc n) i counts a =
    mark_used-small n (i + 1) (set counts i 1) (All-set (λ c. c < 255) counts i 1 a (omega arith))

pub get_elem?-replicate : (n i a : ℕ) → i < n → get_elem? (replicate n a) i ≡ some a
get_elem?-replicate zero i a lt = absurd (omega arith)
get_elem?-replicate (suc n) zero a lt = refl
get_elem?-replicate (suc n) (suc i) a lt = get_elem?-replicate n i a (omega arith)

-- The pages before `a` have one reference, and those behind it none.
pub unused-by_places :
    (n a : ℕ) (counts : List ℕ)
    → a ≤ n
    → ((j : ℕ) → j < a → get_elem? counts j ≡ some 1)
    → ((j : ℕ) → a ≤ j → j < n → get_elem? counts j ≡ some 0)
    → unused n counts + a ≡ n
unused-by_places zero a counts le ones zeros = omega arith
unused-by_places (suc n) zero [] le ones zeros =
    let e = zeros 0 (omega arith) (omega arith) in absurd cc
unused-by_places (suc n) zero (c ∷ counts) le ones zeros =
    let e : c ≡ 0 = some_injective (zeros 0 (omega arith) (omega arith)) in
    let rest =
      unused-by_places n 0 counts (omega arith) (λ j lt. absurd (omega arith))
        (λ j ge lt. zeros (suc j) (omega arith) (omega arith)) in
    rw e (omega arith)
unused-by_places (suc n) (suc a) [] le ones zeros = let e = ones 0 (omega arith) in absurd cc
unused-by_places (suc n) (suc a) (c ∷ counts) le ones zeros =
    let e : c ≡ 1 = some_injective (ones 0 (omega arith)) in
    let rest =
      unused-by_places n a counts (omega arith) (λ j lt. ones (suc j) (omega arith))
        (λ j ge lt. zeros (suc j) (omega arith) (omega arith)) in
    rw e (omega arith)
