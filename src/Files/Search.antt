-- ===== src/Files/Search.antt =====
-- The searches of src/fs/file.c and src/kernel/task.c for a free place.
use mathlib.Core.Path.{subst}
use neonix.Prelude.{
  ℕ, zero, suc, ◌+◌, ◌≤◌, ◌<◌, ◌≡◌, refl, sym, ◌∙◌, ◌≢◌, inl, inr, Option, none, some, List, arith,
  ltb, ◌==◌, Bool-cases, length, get_elem?, get_or, get_elem?-eq-get_or, get_elem?-eq-none,
}
use neonix.Files.{File, find_file, find_fd}

-- The descriptor `a` is free, and those from `i` to it are in use.
abbrev pub FirstFree : List (Option ℕ) → (i a : ℕ) → Type 0
FirstFree fds i a =
    (get_elem? fds a ≡ some none)
    × (i ≤ a)
    × ((k : ℕ) → i ≤ k → k < a → get_elem? fds k ≢ some none)

here-FirstFree : (fds : List (Option ℕ)) (i : ℕ) → get_elem? fds i ≡ some none → FirstFree fds i i
here-FirstFree fds i e = (e, omega arith, λ k ge lt. absurd (omega arith))

later-FirstFree :
    (fds : List (Option ℕ)) (i a f : ℕ)
    → get_elem? fds i ≡ some (some f)
    → FirstFree fds (i + 1) a
    → FirstFree fds i a
later-FirstFree fds i a f e (free, le, used) = (
  free,
  omega arith,
  λ k ge lt empty. elim (Bool-cases (i == k)) [
    | inl same ↦
        let h : i ≡ k = ground arith in
        let e' : get_elem? fds k ≡ some (some f) =
          subst (λ j. get_elem? fds j ≡ some (some f)) h e in
        cc
    | inr other ↦ used k (ground arith) lt empty
  ],
)

-- The search finds the first free descriptor from `i` on.
pub find_fd-FirstFree :
    (rounds i : ℕ) (fds : List (Option ℕ)) (a : ℕ)
    → find_fd rounds i fds ≡ some a
    → FirstFree fds i a
unfolding find_fd
find_fd-FirstFree zero i fds a e = cc
find_fd-FirstFree (suc rounds) i fds a e =
    go (get_elem? fds i) refl (find_fd-FirstFree rounds (i + 1) fds a)
  where
    go :
        (s : Option (Option ℕ))
        → get_elem? fds i ≡ s
        → (find_fd rounds (i + 1) fds ≡ some a → FirstFree fds (i + 1) a)
        → FirstFree fds i a
    go none at rest = absurd (ground arith)
    go (some none) at rest =
        let h : i ≡ a = ground arith in subst (FirstFree fds i) h (here-FirstFree fds i at)
    go (some (some f)) at rest = later-FirstFree fds i a f at (rest (ground arith))

-- The file that is found is in the table, and nobody has it open.
pub find_file-free :
    (rounds i : ℕ) (files : List File) (a : ℕ)
    → find_file rounds i files ≡ some a
    → (f : File) × (get_elem? files a ≡ some f) × (f.count ≡ 0) × (a < i + rounds)
unfolding find_file
find_file-free zero i files a e = cc
find_file-free (suc rounds) i files a e =
    go (get_elem? files i) refl (find_file-free rounds (i + 1) files a)
  where
    go :
        (s : Option File)
        → get_elem? files i ≡ s
        → (find_file rounds (i + 1) files ≡ some a
            → (f : File) × (get_elem? files a ≡ some f) × (f.count ≡ 0) × (a < i + 1 + rounds))
        → (f : File) × (get_elem? files a ≡ some f) × (f.count ≡ 0) × (a < i + suc rounds)
    go none at rest = absurd (ground arith)
    go (some f) at rest = elim (Bool-cases (f.count == 0)) [
      | inl free ↦
          let h : i ≡ a = ground arith in
          (f, subst (λ j. get_elem? files j ≡ some f) h at, ground arith, omega arith)
      | inr used ↦ let (g, e', z, lt) = rest (ground arith) in (g, e', z, omega arith)
    ]

-- A place before an element of a list holds one.
in_use :
    (fds : List (Option ℕ)) (i a : ℕ)
    → get_elem? fds a ≡ some none
    → i < a
    → get_elem? fds i ≡ some (get_or fds i none)
in_use fds i a e lt = elim (Bool-cases (ltb i (length fds))) [
  | inl inside ↦ get_elem?-eq-get_or fds i none (ground arith)
  | inr outside ↦
      let z = get_elem?-eq-none fds a (ground arith) in let c : some none ≡ none = sym e ∙ z in cc
]

-- A first free descriptor within the rounds is found.
pub find_fd-FirstFree_eq :
    (rounds i : ℕ) (fds : List (Option ℕ)) (a : ℕ)
    → a < i + rounds
    → FirstFree fds i a
    → find_fd rounds i fds ≡ some a
unfolding find_fd
find_fd-FirstFree_eq zero i fds a lt (free, le, used) = absurd (omega arith)
find_fd-FirstFree_eq (suc rounds) i fds a lt (free, le, used) = elim (Bool-cases (i == a)) [
  | inl same ↦
      let h : a ≡ i = ground arith in
      let e : get_elem? fds i ≡ some none = subst (λ j. get_elem? fds j ≡ some none) h free in
      rw (e, h) refl
  | inr other ↦
      let later : i < a = ground arith in
      let rest =
        find_fd-FirstFree_eq rounds (i + 1) fds a (omega arith)
          (free, omega arith, λ k ge. used k (omega arith)) in
      go later rest (get_or fds i none) (in_use fds i a free later)
]
  where
    go :
        i < a
        → find_fd rounds (i + 1) fds ≡ some a
        → (s : Option ℕ) → get_elem? fds i ≡ some s
        → find_fd (suc rounds) i fds ≡ some a
    go later rest none at = absurd (used i (omega arith) later at)
    go later rest (some f) at = rw at rest
