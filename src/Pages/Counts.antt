-- ===== src/Pages/Counts.antt =====
-- The counts of references of src/kernel/memory.c, and the number of free pages.
use mathlib.Core.Path.{subst}
use neonix.Prelude.{
  ℕ, zero, suc, ◌+◌, ◌-◌, ◌*◌, ◌^◌, ◌≤◌, ◌<◌, ◌≡◌, refl, sym, ap, ◌∙◌, inl, inr, Option, none, some,
  List, [], ◌∷◌, arith, ◌==◌, if◌then◌else◌, Bool-cases, length, get_elem?, get_or, set, All,
  length-set, get_elem?-eq-get_or, All-set, >>=-eq-some, some_injective, get_elem?-lt,
}
use neonix.Prelude.Words.{sub32}
use neonix.Pages.{Pages, page, find_page, get_page}

abbrev pub one_if_zero : ℕ → ℕ
one_if_zero n = if n == 0 then 1 else 0

-- How many of the first `n` counts are 0.
abbrev pub unused : (n : ℕ) → List ℕ → ℕ
unused zero counts = 0
unused (suc n) [] = 0
unused (suc n) (c ∷ counts) = one_if_zero c + unused n counts

pub unused-set :
    (n i : ℕ) (counts : List ℕ) (old new : ℕ)
    → i < n
    → get_elem? counts i ≡ some old
    → unused n (set counts i new) + one_if_zero old ≡ unused n counts + one_if_zero new
unused-set zero i counts old new lt at = absurd (omega arith)
unused-set (suc n) i [] old new lt at = cc
unused-set (suc n) zero (c ∷ counts) old new lt at =
    let e : c ≡ old = some_injective at in rw e (omega arith)
unused-set (suc n) (suc i) (c ∷ counts) old new lt at =
    omega (arith, unused-set n i counts old new (omega arith) at)

pub unused-set_beyond :
    (n i : ℕ) (counts : List ℕ) (new : ℕ) → n ≤ i → unused n (set counts i new) ≡ unused n counts
unused-set_beyond zero i counts new le = refl
unused-set_beyond (suc n) i [] new le = refl
unused-set_beyond (suc n) zero (c ∷ counts) new le = absurd (omega arith)
unused-set_beyond (suc n) (suc i) (c ∷ counts) new le =
    omega (arith, unused-set_beyond n i counts new (omega arith))

-- The pages are accounted for: the number of free pages is the number of the pages without a
-- reference and `extra` more, no count is above 254, and each page has a count and an address.
pub record Accounted (extra : ℕ) (p : Pages) : Type 0 where
  pub account : p.free_pages ≡ unused p.total_pages p.memory_map + extra
  pub below : p.free_pages < p.total_pages
  pub small : p.total_pages ≤ 2 ^ 20
  pub room : p.total_pages ≤ length p.memory_map
  pub counts : All (λ n. n < 255) p.memory_map

-- A page that can be given out.
abbrev pub IsFree : Pages → ℕ → Type 0
IsFree p i = (p.start_page ≤ i) × (i < p.total_pages) × (get_elem? p.memory_map i ≡ some 0)

-- The page that a search finds has no reference.
find_page-free :
    (rounds i : ℕ) (counts : List ℕ) (k : ℕ)
    → find_page rounds i counts ≡ some k
    → (i ≤ k) × (k < i + rounds) × (get_elem? counts k ≡ some 0)
unfolding find_page
find_page-free zero i counts k h = cc
find_page-free (suc rounds) i counts k h =
    go (get_elem? counts i) refl (find_page-free rounds (i + 1) counts k)
  where
    go :
        (o : Option ℕ)
        → get_elem? counts i ≡ o
        → (find_page rounds (i + 1) counts ≡ some k
            → (i + 1 ≤ k) × (k < i + 1 + rounds) × (get_elem? counts k ≡ some 0))
        → (i ≤ k) × (k < i + suc rounds) × (get_elem? counts k ≡ some 0)
    go none at rest = absurd (ground arith)
    go (some n) at rest = elim (Bool-cases (n == 0)) [
      | inl free ↦
          let e : i ≡ k = ground arith in
          let z : n ≡ 0 = ground arith in
          (omega arith, omega arith, subst (λ j. get_elem? counts j ≡ some 0) e (at ∙ ap some z))
      | inr used ↦ let (le, lt, z) = rest (ground arith) in (omega arith, omega arith, z)
    ]

-- A search finds a page where there is one.
pub find_page-finds :
    (rounds i : ℕ) (counts : List ℕ) (k : ℕ)
    → i ≤ k
    → k < i + rounds
    → get_elem? counts k ≡ some 0
    → (found : ℕ) × (find_page rounds i counts ≡ some found)
unfolding find_page
find_page-finds zero i counts k le lt at = absurd (omega arith)
find_page-finds (suc rounds) i counts k le lt at =
    let here = get_elem?-eq-get_or counts i 0 (omega (arith, get_elem?-lt counts k at)) in
    elim (Bool-cases (get_or counts i 0 == 0)) [
      | inl free ↦ (i, rw (here, free) refl)
      | inr used ↦ elim (Bool-cases (i == k)) [
        | inl same ↦
            let e : i ≡ k = ground arith in
            let z : get_or counts i 0 ≡ 0 =
              some_injective (sym here ∙ subst (λ j. get_elem? counts j ≡ some 0) (sym e) at) in
            absurd (ground arith)
        | inr other ↦
            let (found, rest) =
              find_page-finds rounds (i + 1) counts k (ground arith) (omega arith) at in
            (found, rw (here, used) rest)
      ]
    ]

-- The page is taken: it was free, and now has one reference.
abbrev pub Taken : Pages → (addr : ℕ) → Pages → Type 0
Taken p addr p' =
    (i : ℕ) × IsFree p i
    × (addr ≡ i * 4096)
    × (0 < p.free_pages)
    × (p' ≡ record p { memory_map = set p.memory_map i 1; free_pages = p.free_pages - 1 })

unused-positive :
    (n i : ℕ) (counts : List ℕ) → i < n → get_elem? counts i ≡ some 0 → 0 < unused n counts
unused-positive n i counts lt at = omega (arith, unused-set n i counts 0 1 lt at)

pub get_page-Taken :
    (extra : ℕ) (p p' : Pages) (addr : ℕ)
    → Accounted extra p
    → get_page p ≡ some (addr, p')
    → Taken p addr p'
unfolding get_page
get_page-Taken extra p p' addr v h =
    let (i, found, r) =
      >>=-eq-some (find_page (p.total_pages - p.start_page) p.start_page p.memory_map) _ h in
    let (le, lt, at) =
      find_page-free (p.total_pages - p.start_page) p.start_page p.memory_map i found in
    let inside : i < p.total_pages = omega arith in
    let pos_ = unused-positive p.total_pages i p.memory_map inside at in
    let free : 0 < p.free_pages = omega (arith, v.account) in
    let whole : page i ≡ i * 4096 = omega (arith, v.small) in
    let less : sub32 p.free_pages 1 ≡ p.free_pages - 1 = omega (arith, v.small, v.below) in
    let both = some_injective r in
    (
      i,
      (le, inside, at),
      sym (ap (λ x. x.0) both) ∙ whole,
      free,
      sym (ap (λ x. x.1) both)
          ∙ ap (λ n. record p { memory_map = set p.memory_map i 1; free_pages = n }) less,
    )

pub Taken-Accounted :
    (extra : ℕ) (p p' : Pages) (addr : ℕ) → Accounted extra p → Taken p addr p' → Accounted extra p'
Taken-Accounted extra p p' addr v (i, (le, lt, at), e, free, same) =
    subst (Accounted extra) (sym same) (record {
      account = omega (arith, v.account, unused-set p.total_pages i p.memory_map 0 1 lt at);
      below = omega (arith, v.below);
      small = v.small;
      room = omega (arith, v.room, length-set p.memory_map i 1);
      counts = All-set (λ n. n < 255) p.memory_map i 1 v.counts (omega arith);
    })
