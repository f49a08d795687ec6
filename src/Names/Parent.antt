-- ===== src/Names/Parent.antt =====
-- The beginning of the functions of src/fs/namei.c that change a directory.
use mathlib.Core.Path.{subst}
use neonix.Prelude.{
  ℕ, ◌≡◌, refl, ◌⊎◌, inl, inr, Bool, true, ◌||◌, not, Option, none, some, List, [], ◌∷◌, append-nil,
  arith, if◌then◌else◌, Bool-cases, Option-cases, ◌>>=◌,
}
use neonix.Prelude.Words.{sub32}
use neonix.Names.{Dentry, Ino, same_ino, Fs, User, is_dir, p_write, permission, iput, find_entry}
use neonix.Names.Counts.{Plain, Held, IsSound, at_counts, put-Held}
use neonix.Names.Match.{with_rest, path_of, IsPath}
use neonix.Names.Walk.{up, entry_of, walk, find_entry-Held}
use neonix.Names.Paths.{walk-dir, first_dir, after_root, named-walk}
use neonix.Names.Changes.{is_nil, search_parent, search_in_parent}

-- A path from a directory, and its names.
pub record IsGiven (fs : Fs) (user : User) (c : ℕ) (left : List ℕ) (dirs : List (List ℕ × ℕ))
    (last : List ℕ) : Type 0 where
  pub first : is_dir (fs.desc (first_dir user c)).mode ≡ true
  pub split : after_root c left ≡ path_of dirs last
  pub whole_dirs : IsPath dirs
  pub whole_last : Plain last

abbrev pub Target : Type 0
Target = Ino × List ℕ × Option (Dentry × List ℕ)

-- The directory in which a task may change the last name, and the entry of that name.
unfoldable pub parent : Fs → User → (may : Ino → Bool) → (last : List ℕ) → Ino → Option Target
parent fs user may last d =
    if is_nil last || not (may d) || not (permission user (fs.desc d) p_write)
    then none
    else some (up fs d last, last, with_rest [] (entry_of fs d last))

abbrev pub target :
    Fs → User → (may : Ino → Bool) → List (List ℕ × ℕ) → (last : List ℕ) → Ino → Option Target
target fs user may dirs last i = walk fs user dirs i >>= parent fs user may last

abbrev pub held_dir : Option Target → List Ino
held_dir none = []
held_dir (some (dir, name, found)) = dir ∷ []

-- `find_entry` for the last name of a path.
pub find_entry-last :
    (fs : Fs) (c : Ino → ℕ) (l : List Ino) (i : Ino) (x : List ℕ)
    → IsSound fs
    → is_dir (fs.desc i).mode ≡ true
    → Plain x
    → Held fs c (i ∷ l)
    → (c' : Ino → ℕ) × (find_entry i x (at_counts fs c)
        ≡ some (up fs i x, with_rest [] (entry_of fs i x), at_counts fs c'))
      × Held fs c' (up fs i x ∷ l)
find_entry-last fs c l i x v dir px h =
    let (c', found, h') = find_entry-Held fs c l i x [] v dir px tt h in
    (
      c',
      subst
          (λ q.
            find_entry i q (at_counts fs c)
            ≡ some (up fs i x, with_rest [] (entry_of fs i x), at_counts fs c'))
          (append-nil x) found,
      h',
    )

search_parent-Held :
    (fs : Fs) (user : User) (may : Ino → Bool) (c : Ino → ℕ) (d : Ino) (last : List ℕ)
    → IsSound fs
    → is_dir (fs.desc d).mode ≡ true
    → Plain last
    → Held fs c (d ∷ [])
    → (c' : Ino → ℕ) × (search_parent user may (some (d, last)) (at_counts fs c)
        ≡ some (parent fs user may last d, at_counts fs c'))
      × Held fs c' (held_dir (parent fs user may last d))
unfolding search_parent parent iput
search_parent-Held fs user may c d last v dir pl h =
    elim (Bool-cases (is_nil last || not (may d) || not (permission user (fs.desc d) p_write))) [
      | inl bad ↦ (
        λ j. if same_ino d j then sub32 (c j) 1 else c j,
        rw bad refl,
        rw bad (put-Held fs c [] d h),
      )
      | inr good ↦
          let (c', found, h') = find_entry-last fs c [] d last v dir pl h in
          (c', rw (good, found) refl, rw good h')
    ]

pub search_in_parent-Held :
    (fs : Fs) (user : User) (may : Ino → Bool) (c : ℕ) (left : List ℕ) (dirs : List (List ℕ × ℕ))
    (last : List ℕ)
    → IsSound fs
    → IsGiven fs user c left dirs last
    → (c' : Ino → ℕ) × (search_in_parent user may (c ∷ left) fs
        ≡ some (target fs user may dirs last (first_dir user c), at_counts fs c'))
      × Held fs c' (held_dir (target fs user may dirs last (first_dir user c)))
unfolding search_in_parent search_parent
search_in_parent-Held fs user may c left dirs last v given =
    let start = first_dir user c in
    let (c1, run, h) =
      named-walk fs user c left dirs last v given.first given.split given.whole_dirs
        given.whole_last in
    elim (Option-cases (walk fs user dirs start)) [
      | inl lost ↦ (c1, rw (run, lost) refl, rw lost (rw lost at h))
      | inr (d, there) ↦
          let (c2, run', h') =
            search_parent-Held fs user may c1 d last v
              (walk-dir fs user dirs start d given.first there) given.whole_last (rw there at h) in
          (c2, rw (run, there) run', rw there h')
    ]

abbrev pub place : Fs → Ino → (last : List ℕ) → Target
place fs d last = (up fs d last, last, with_rest [] (entry_of fs d last))

-- Either no directory may be changed, or the name is looked up in one.
pub target-cases :
    (fs : Fs) (user : User) (may : Ino → Bool) (dirs : List (List ℕ × ℕ)) (last : List ℕ) (i : Ino)
    → (target fs user may dirs last i ≡ none)
      ⊎ ((d : Ino) × (walk fs user dirs i ≡ some d)
          × (may d ≡ true)
          × (target fs user may dirs last i ≡ some (place fs d last)))
unfolding parent
target-cases fs user may dirs last i = elim (Option-cases (walk fs user dirs i)) [
  | inl lost ↦ inl (rw lost refl)
  | inr (d, there) ↦
      elim (Bool-cases (is_nil last || not (may d) || not (permission user (fs.desc d) p_write))) [
        | inl bad ↦ inl (rw (there, bad) refl)
        | inr good ↦ inr (d, there, ground arith, rw (there, good) refl)
      ]
]
