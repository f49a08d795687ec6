-- ===== src/Names/Walk.antt =====
-- The walk along a path in src/fs/namei.c, against a walk by whole names.
use neonix.Prelude.{
  ℕ, ◌+◌, ◌*◌, ◌/◌, ◌%◌, ◌≤◌, ◌<◌, ◌≡◌, refl, inl, inr, Bool, true, ◌&&◌, not, Option, none, some,
  List, [], ◌∷◌, ◌++◌, arith, ◌==◌, if◌then◌else◌, Bool-cases, Option-cases, length, length-append,
  ◌>>=◌,
}
use neonix.Prelude.Words.{add32, sub32}
use neonix.Strings.{is_separator}
use neonix.Names.{
  is_some, match_name, has_block, reads, Dentry, Ino, same_ino, Fs, User, is_dir, p_exec,
  permission, add_count, iput, leave_root, find_entry, enter_entry,
}
use neonix.Names.Counts.{
  Plain, Held, IsSound, landed, at_counts, add-Held, put-Held, swap-Held, iget-Held,
}
use neonix.Names.Match.{
  same_name, Ends, behind, match_name_lem, lookup, with_rest, find_in-lookup, lookup-All, path_of,
}

-- The directory in which a name is looked up.
unfoldable pub up : Fs → Ino → (c : List ℕ) → Ino
up fs i c = if same_name c (b'.' ∷ b'.' ∷ []) && i.1 == 1 then fs.imount i.0 else i

unfoldable pub entry_of : Fs → Ino → (c : List ℕ) → Option Dentry
entry_of fs i c = lookup c (fs.desc (up fs i c)).entries

-- The inode that a name stands for in a directory.
unfoldable pub child : Fs → Ino → (c : List ℕ) → Option Ino
child fs i c = do e ← entry_of fs i c; some (landed fs ((up fs i c).0, e.nr))

-- The same, if it is a directory in which the task may search.
unfoldable pub enter : Fs → User → Ino → (c : List ℕ) → Option Ino
enter fs user i c = do
  j ← child fs i c
  if is_dir (fs.desc j).mode && permission user (fs.desc j) p_exec then some j else none

-- From a directory through all names.
unfoldable pub walk : Fs → User → List (List ℕ × ℕ) → Ino → Option Ino
walk fs user [] i = some i
walk fs user ((c, s) ∷ dirs) i = enter fs user i c >>= walk fs user dirs

abbrev pub held_by {ℓ} : {A : Type ℓ} → Option A → List A
held_by none = []
held_by (some a) = a ∷ []

abbrev pub with_last : List ℕ → Option Ino → Option (Ino × List ℕ)
with_last last none = none
with_last last (some i) = some (i, last)

leave_root-Held :
    (fs : Fs) (c : Ino → ℕ) (l : List Ino) (i : Ino) (x tail : List ℕ)
    → Plain x
    → Ends tail
    → Held fs c (i ∷ l)
    → (c' : Ino → ℕ) × (leave_root i (x ++ tail) (at_counts fs c) ≡ (up fs i x, at_counts fs c'))
      × Held fs c' (up fs i x ∷ l)
unfolding leave_root up add_count iput is_separator
leave_root-Held fs c l i x tail px end h =
    let dots = match_name_lem x (b'.' ∷ b'.' ∷ []) tail px (refl, (refl, tt)) end in
    elim (Bool-cases (same_name x (b'.' ∷ b'.' ∷ []))) [
      | inr other ↦ (c, rw (dots, other) refl, rw other h)
      | inl same ↦ elim (Bool-cases (i.1 == 1)) [
        | inr inner ↦ (c, rw (dots, same, inner) refl, rw (same, inner) h)
        | inl root ↦
            let m = fs.imount i.0 in
            let c1 : Ino → ℕ = λ j. if same_ino m j then add32 (c j) 1 else c j in
            let c2 : Ino → ℕ = λ j. if same_ino i j then sub32 (c1 j) 1 else c1 j in
            (
              c2,
              rw (dots, same, root) refl,
              rw (same, root)
                  (put-Held fs c1 (m ∷ l) i (swap-Held fs c1 l m i (add-Held fs c (i ∷ l) m h))),
            )
      ]
    ]

-- The blocks that are read are there.
reads-true :
    (zone name : List ℕ) (i : ℕ) (entries : List Dentry)
    → ((k : ℕ) → k * 64 < i + length entries → has_block zone k ≡ true)
    → reads zone name i entries ≡ true
unfolding reads
reads-true zone name i [] all = refl
reads-true zone name i (e ∷ entries) all =
    let rest = reads-true zone name (i + 1) entries (λ k lt. all k (omega arith)) in
    let found : Bool = is_some (match_name name e.name) && not (e.nr == 0) in
    elim (Bool-cases (i % 64 == 0)) [
      | inl start ↦
          let at : i / 64 * 64 < i + length (e ∷ entries) =
            (let z : i % 64 ≡ 0 = ground arith in omega arith) in
          let here = all (i / 64) at in
          elim (Bool-cases found) [
            | inl this ↦ rw (start, here, this) refl
            | inr other ↦ rw (start, here, other) rest
          ]
      | inr inside ↦ elim (Bool-cases found) [
        | inl this ↦ rw (inside, this) refl
        | inr other ↦ rw (inside, other) rest
      ]
    ]

pub find_entry-Held :
    (fs : Fs) (c : Ino → ℕ) (l : List Ino) (i : Ino) (x tail : List ℕ)
    → IsSound fs
    → is_dir (fs.desc i).mode ≡ true
    → Plain x
    → Ends tail
    → Held fs c (i ∷ l)
    → (c' : Ino → ℕ) × (find_entry i (x ++ tail) (at_counts fs c)
        ≡ some (up fs i x, with_rest (behind tail) (entry_of fs i x), at_counts fs c'))
      × Held fs c' (up fs i x ∷ l)
unfolding find_entry entry_of
find_entry-Held fs c l i x tail v dir px end h =
    let (c', left, h') = leave_root-Held fs c l i x tail px end h in
    let found = find_in-lookup x tail (fs.desc (up fs i x)).entries px (v.names (up fs i x)) end in
    let d = fs.desc (up fs i x) in
    let there =
      reads-true d.zone (x ++ tail) 0 d.entries (λ k lt. v.blocks (up fs i x) k (omega arith)) in
    (c', rw (dir, left, there, found) refl, h')

-- The number of an entry is one of the device.
pub entry-le :
    (fs : Fs) (i : Ino) (x : List ℕ) (e : Dentry)
    → IsSound fs
    → entry_of fs i x ≡ some e
    → e.nr ≤ fs.inodes (up fs i x).0
unfolding entry_of
entry-le fs i x e v h =
    lookup-All (λ d. d.nr ≤ fs.inodes (up fs i x).0) x (fs.desc (up fs i x)).entries e
      (v.numbers (up fs i x)) h

pub length-path_of :
    (d : List ℕ × ℕ) (dirs : List (List ℕ × ℕ)) (last : List ℕ)
    → length last < length (path_of (d ∷ dirs) last)
length-path_of (x, s) [] last = omega (arith, length-append x (s ∷ last))
length-path_of (x, s) (d ∷ dirs) last =
    omega (arith, length-append x (s ∷ path_of (d ∷ dirs) last), length-path_of d dirs last)

-- A round of the loop.
pub enter_entry-Held :
    (fs : Fs) (user : User) (c : Ino → ℕ) (i : Ino) (x next : List ℕ)
    → IsSound fs
    → Held fs c (up fs i x ∷ [])
    → (c' : Ino → ℕ) × (enter_entry user
          (up fs i x)
          (with_rest next (entry_of fs i x))
          (at_counts fs c)
        ≡ some (with_last next (enter fs user i x), at_counts fs c'))
      × Held fs c' (held_by (enter fs user i x))
unfolding enter_entry enter child iput
enter_entry-Held fs user c i x next v h = elim (Option-cases (entry_of fs i x)) [
  | inl missing ↦ (
    λ j. if same_ino (up fs i x) j then sub32 (c j) 1 else c j,
    rw missing refl,
    rw missing (put-Held fs c [] (up fs i x) h),
  )
  | inr (e, found) ↦
      let c1 : Ino → ℕ = λ j. if same_ino (up fs i x) j then sub32 (c j) 1 else c j in
      let (c2, got, h2) =
        iget-Held fs c1 [] (up fs i x).0 e.nr v (put-Held fs c [] (up fs i x) h) (omega arith)
          (entry-le fs i x e v found) in
      let k = landed fs ((up fs i x).0, e.nr) in
      elim (Bool-cases (is_dir (fs.desc k).mode)) [
        | inr file ↦ (
          λ j. if same_ino k j then sub32 (c2 j) 1 else c2 j,
          rw (found, got, file) refl,
          rw (found, file) (put-Held fs c2 [] k h2),
        )
        | inl dir ↦ elim (Bool-cases (permission user (fs.desc k) p_exec)) [
          | inr denied ↦ (
            λ j. if same_ino k j then sub32 (c2 j) 1 else c2 j,
            rw (found, got, dir, denied) refl,
            rw (found, dir, denied) (put-Held fs c2 [] k h2),
          )
          | inl allowed ↦ (c2, rw (found, got, dir, allowed) refl, rw (found, dir, allowed) h2)
        ]
      ]
]
