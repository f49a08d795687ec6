-- ===== src/Names/Match.antt =====
-- One name of a path against the entries of a directory.
use mathlib.Core.Path.{subst}
use neonix.Prelude.{
  ℕ, ◌≡◌, refl, sym, ◌∙◌, inl, inr, Bool, true, false, ◌&&◌, not, Option, none, some, List, [], ◌∷◌,
  ◌++◌, arith, ◌==◌, if◌then◌else◌, Bool-cases, All, some_injective,
}
use neonix.Strings.{is_separator}
use neonix.Names.{Dentry, match_name, find_in, behind_last}
use neonix.Names.Counts.{Plain}

abbrev pub same_name : (c e : List ℕ) → Bool
same_name [] [] = true
same_name [] (r ∷ e) = false
same_name (l ∷ c) [] = false
same_name (l ∷ c) (r ∷ e) = l == r && same_name c e

-- A name ends here: the path does, or a separator follows.
abbrev pub Ends : List ℕ → Type 0
Ends [] = Unit
Ends (s ∷ rest) = is_separator s ≡ true

-- What is behind the separator.
abbrev pub behind : List ℕ → List ℕ
behind [] = []
behind (s ∷ rest) = rest

-- A name of a path matches just the entry of that name.
pub match_name_lem :
    (c e tail : List ℕ)
    → Plain c
    → Plain e
    → Ends tail
    → match_name (c ++ tail) e ≡ (if same_name c e then some (behind tail) else none)
unfolding match_name
match_name_lem [] [] [] pc pe end = refl
match_name_lem [] [] (s ∷ rest) pc pe end = rw end refl
match_name_lem [] (r ∷ e) [] pc pe end = refl
match_name_lem [] (r ∷ e) (s ∷ rest) pc (p, pe) end = elim (Bool-cases (s == r)) [
  | inl same ↦
      let eq : s ≡ r = ground arith in
      absurd (let x : true ≡ false = sym (subst (λ k. is_separator k ≡ true) eq end) ∙ p in cc)
  | inr other ↦ rw other refl
]
match_name_lem (l ∷ c) [] tail (p, pc) pe end = rw p refl
match_name_lem (l ∷ c) (r ∷ e) tail (p, pc) (q, pe) end =
    let rest = match_name_lem c e tail pc pe end in
    elim (Bool-cases (l == r)) [ inl same ↦ rw same rest | inr other ↦ rw other refl ]

-- The first entry in use with a name.
unfoldable pub lookup : (c : List ℕ) → List Dentry → Option Dentry
lookup c [] = none
lookup c (e ∷ entries) =
    let rest = lookup c entries in if same_name c e.name && not (e.nr == 0) then some e else rest

abbrev pub with_rest : List ℕ → Option Dentry → Option (Dentry × List ℕ)
with_rest next none = none
with_rest next (some e) = some (e, next)

pub find_in-lookup :
    (c tail : List ℕ) (entries : List Dentry)
    → Plain c
    → All (λ e. Plain e.name) entries
    → Ends tail
    → find_in (c ++ tail) entries ≡ with_rest (behind tail) (lookup c entries)
unfolding find_in lookup
find_in-lookup c tail [] pc pe end = refl
find_in-lookup c tail (e ∷ entries) pc (p, pe) end =
    let rest = find_in-lookup c tail entries pc pe end in
    let here = match_name_lem c e.name tail pc p end in
    elim (Bool-cases (same_name c e.name)) [
      | inr other ↦ rw (find_in, here, other) rest
      | inl same ↦ elim (Bool-cases (e.nr == 0)) [
        | inl free ↦ rw (find_in, here, same, free) rest
        | inr used ↦ rw (find_in, here, same, used) refl
      ]
    ]

-- The entry that is found is one of the directory.
pub lookup-All :
    (P : Dentry → Type 0) (c : List ℕ) (entries : List Dentry) (e : Dentry)
    → All P entries
    → lookup c entries ≡ some e
    → P e
unfolding lookup
lookup-All P c [] e a h = cc
lookup-All P c (x ∷ entries) e (p, a) h =
    elim (Bool-cases (same_name c x.name && not (x.nr == 0))) [
      | inl found ↦ subst P (some_injective (rw found at h)) p
      | inr other ↦ lookup-All P c entries e a (rw other at h)
    ]

-- A path: names, each with the separator behind it, and the last name.
abbrev pub path_of : List (List ℕ × ℕ) → (last : List ℕ) → List ℕ
path_of [] last = last
path_of ((c, s) ∷ dirs) last = c ++ (s ∷ path_of dirs last)

abbrev pub IsPath : List (List ℕ × ℕ) → Type 0
IsPath [] = Unit
IsPath ((c, s) ∷ dirs) = (Plain c × (is_separator s ≡ true)) × IsPath dirs

behind_last-Plain : (c : List ℕ) → Plain c → behind_last c ≡ none
unfolding behind_last
behind_last-Plain [] p = refl
behind_last-Plain (x ∷ c) (p, pc) = rw (behind_last-Plain c pc, p) refl

behind_last-append :
    (c rest : List ℕ) (r : List ℕ) → behind_last rest ≡ some r → behind_last (c ++ rest) ≡ some r
unfolding behind_last
behind_last-append [] rest r h = h
behind_last-append (x ∷ c) rest r h = rw (behind_last-append c rest r h) refl

-- What is behind the last separator of a path is its last name.
pub behind_last-path_of :
    (dirs : List (List ℕ × ℕ)) (d : List ℕ × ℕ) (last : List ℕ)
    → IsPath (d ∷ dirs)
    → Plain last
    → behind_last (path_of (d ∷ dirs) last) ≡ some last
unfolding behind_last
behind_last-path_of [] (c, s) last ((pc, sep), p) pl =
    behind_last-append c (s ∷ last) last (rw (behind_last-Plain last pl, sep) refl)
behind_last-path_of (d ∷ dirs) (c, s) last ((pc, sep), p) pl =
    behind_last-append c (s ∷ path_of (d ∷ dirs) last) last
      (rw (behind_last-path_of dirs d last p pl) refl)

pub behind_last-last : (last : List ℕ) → Plain last → behind_last last ≡ none
behind_last-last = behind_last-Plain
