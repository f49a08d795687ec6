-- ===== src/Names/Paths.antt =====
-- The directory that `named` of src/fs/namei.c gives for a path.
use mathlib.Core.Path.{subst}
use neonix.Prelude.{
  ℕ, zero, suc, ◌≤◌, ◌<◌, ◌≡◌, refl, ◌∙◌, inl, inr, true, false, ◌&&◌, some, List, [], ◌∷◌, ◌++◌,
  arith, ◌==◌, if◌then◌else◌, Bool-cases, Option-cases, length, length-append, >>=-eq-some,
  some_injective,
}
use neonix.Prelude.Words.{add32}
use neonix.Strings.{is_separator}
use neonix.Names.{
  Ino, same_ino, Fs, User, is_dir, p_exec, permission, add_count, arrived, named_from, named_at,
  named,
}
use neonix.Names.Counts.{Plain, Held, IsSound, at_counts, start-Held, add-Held}
use neonix.Names.Match.{path_of, IsPath, behind_last-path_of, behind_last-last}
use neonix.Names.Walk.{
  child, enter, walk, held_by, with_last, find_entry-Held, length-path_of, enter_entry-Held,
}

-- The inode that a task enters is a directory.
enter-dir :
    (fs : Fs) (user : User) (i j : Ino) (x : List ℕ)
    → enter fs user i x ≡ some j
    → is_dir (fs.desc j).mode ≡ true
unfolding enter
enter-dir fs user i j x h =
    let (k, found, r) = >>=-eq-some (child fs i x) _ h in
    elim (Bool-cases (is_dir (fs.desc k).mode && permission user (fs.desc k) p_exec)) [
      | inl good ↦
          let same : k ≡ j = some_injective (rw good at r) in
          subst (λ q. is_dir (fs.desc q).mode ≡ true) same (ground arith)
      | inr bad ↦ let no_ = rw bad at r in absurd cc
    ]

pub walk-dir :
    (fs : Fs) (user : User) (dirs : List (List ℕ × ℕ)) (i j : Ino)
    → is_dir (fs.desc i).mode ≡ true
    → walk fs user dirs i ≡ some j
    → is_dir (fs.desc j).mode ≡ true
unfolding walk
walk-dir fs user [] i j dir h = subst (λ q. is_dir (fs.desc q).mode ≡ true) (some_injective h) dir
walk-dir fs user ((x, s) ∷ dirs) i j dir h =
    let (k, first, rest) = >>=-eq-some (enter fs user i x) _ h in
    walk-dir fs user dirs k j (enter-dir fs user i k x first) rest

-- One round of the loop of `named`.
named_from-round :
    (fs : Fs) (user : User) (fuel : ℕ) (c : Ino → ℕ) (i : Ino) (x : List ℕ) (s : ℕ)
    (rest last : List ℕ)
    → IsSound fs
    → is_dir (fs.desc i).mode ≡ true
    → Plain x
    → is_separator s ≡ true
    → Held fs c (i ∷ [])
    → (c' : Ino → ℕ) × (named_from (suc fuel) user last i (x ++ (s ∷ rest)) (at_counts fs c)
        ≡ arrived last
            (named_from fuel user last)
            (with_last rest (enter fs user i x))
            (at_counts fs c'))
      × Held fs c' (held_by (enter fs user i x))
unfolding named_from
named_from-round fs user fuel c i x s rest last v dir px sep h =
    let (c1, found, h1) = find_entry-Held fs c [] i x (s ∷ rest) v dir px sep h in
    let (c2, entered, h2) = enter_entry-Held fs user c1 i x rest v h1 in
    (c2, rw (found, entered) refl, h2)

-- The loop of `named` walks through the names.
named_from-walk :
    (fs : Fs) (user : User) (fuel : ℕ) (c : Ino → ℕ) (i : Ino) (d : List ℕ × ℕ)
    (dirs : List (List ℕ × ℕ)) (last : List ℕ)
    → IsSound fs
    → is_dir (fs.desc i).mode ≡ true
    → IsPath (d ∷ dirs)
    → length dirs < fuel
    → Held fs c (i ∷ [])
    → (c' : Ino → ℕ) × (named_from fuel user last i (path_of (d ∷ dirs) last) (at_counts fs c)
        ≡ some (with_last last (walk fs user (d ∷ dirs) i), at_counts fs c'))
      × Held fs c' (held_by (walk fs user (d ∷ dirs) i))
unfolding walk arrived
named_from-walk fs user zero c i d dirs last v dir p lt h = absurd (omega arith)
named_from-walk fs user (suc fuel) c i (x, s) [] last v dir ((px, sep), p) lt h =
    let (c2, run, h2) = named_from-round fs user fuel c i x s last last v dir px sep h in
    let same : length last == length last ≡ true = ground arith in
    elim (Option-cases (enter fs user i x)) [
      | inl e ↦ (c2, run ∙ rw e refl, rw e (rw e at h2))
      | inr (j, e) ↦ (c2, run ∙ rw (e, same) refl, rw e (rw e at h2))
    ]
named_from-walk fs user (suc fuel) c i (x, s) (d ∷ dirs) last v dir ((px, sep), p) lt h =
    let (c2, run, h2) =
      named_from-round fs user fuel c i x s (path_of (d ∷ dirs) last) last v dir px sep h in
    let longer = length-path_of d dirs last in
    let other : length last == length (path_of (d ∷ dirs) last) ≡ false = ground arith in
    elim (Option-cases (enter fs user i x)) [
      | inl e ↦ (c2, run ∙ rw e refl, rw e (rw e at h2))
      | inr (j, e) ↦
          let (c', run', h') =
            named_from-walk fs user fuel c2 j d dirs last v (enter-dir fs user i j x e) p
              (omega arith) (rw e at h2) in
          (c', run ∙ rw (e, other) run', rw e h')
    ]

length-dirs : (dirs : List (List ℕ × ℕ)) (last : List ℕ) → length dirs ≤ length (path_of dirs last)
length-dirs [] last = omega arith
length-dirs ((x, s) ∷ dirs) last =
    omega (arith, length-append x (s ∷ path_of dirs last), length-dirs dirs last)

named_at-walk :
    (fs : Fs) (user : User) (i : Ino) (dirs : List (List ℕ × ℕ)) (last : List ℕ)
    → IsSound fs
    → is_dir (fs.desc i).mode ≡ true
    → IsPath dirs
    → Plain last
    → (c' : Ino → ℕ) × (named_at user i (path_of dirs last) fs
        ≡ some (with_last last (walk fs user dirs i), at_counts fs c'))
      × Held fs c' (held_by (walk fs user dirs i))
unfolding named_at walk add_count
named_at-walk fs user i [] last v dir p pl =
    let none_ = behind_last-last last pl in
    (
      λ j. if same_ino i j then add32 (fs.count j) 1 else fs.count j,
      rw (named_at, none_) refl,
      add-Held fs fs.count [] i (start-Held fs v),
    )
named_at-walk fs user i (d ∷ dirs) last v dir p pl =
    let some_ = behind_last-path_of dirs d last p pl in
    let c : Ino → ℕ = λ j. if same_ino i j then add32 (fs.count j) 1 else fs.count j in
    let fits = length-dirs (d ∷ dirs) last in
    let (c', run, h) =
      named_from-walk fs user (length (path_of (d ∷ dirs) last)) c i d dirs last v dir p
        (omega arith) (add-Held fs fs.count [] i (start-Held fs v)) in
    (c', rw (named_at, some_) run, h)

-- The directory where a path begins, and the path from there.
abbrev pub first_dir : User → (c : ℕ) → Ino
first_dir user c = if is_separator c then user.iroot else user.ipwd

abbrev pub after_root : (c : ℕ) (left : List ℕ) → List ℕ
after_root c left = if is_separator c then left else c ∷ left

-- `named` is a walk by whole names: of a path that consists of `dirs`, each with a separator behind
-- it, and a last name, it gives the last name and the directory to which the names lead, or NULL if
-- one of them is missing, no directory, or not to be searched. No assert fails, and of all references
-- that it takes only the one to its result is left. The first directory is one, and the file
-- system is sound.
pub named-walk :
    (fs : Fs) (user : User) (c : ℕ) (left : List ℕ) (dirs : List (List ℕ × ℕ)) (last : List ℕ)
    → IsSound fs
    → is_dir (fs.desc (first_dir user c)).mode ≡ true
    → after_root c left ≡ path_of dirs last
    → IsPath dirs
    → Plain last
    → (c' : Ino → ℕ) × (named user (c ∷ left) fs
        ≡ some (with_last last (walk fs user dirs (first_dir user c)), at_counts fs c'))
      × Held fs c' (held_by (walk fs user dirs (first_dir user c)))
unfolding named
named-walk fs user c left dirs last v dir e p pl = elim (Bool-cases (is_separator c)) [
  | inl root ↦
      rw root
        (rw (rw root at e) (named_at-walk fs user user.iroot dirs last v (rw root at dir) p pl))
  | inr relative ↦ rw relative (
      rw (rw relative at e) (named_at-walk fs user user.ipwd dirs last v (rw relative at dir) p pl))
]
