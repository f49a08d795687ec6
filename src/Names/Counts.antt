-- ===== src/Names/Counts.antt =====
-- The counts of references that the functions of src/fs/namei.c and src/fs/inode.c take and release.
use neonix.Prelude.{
  ℕ, ◌+◌, ◌*◌, ◌%◌, ◌^◌, ◌≤◌, ◌<◌, ◌≡◌, refl, inl, inr, Bool, true, false, none, some, List, [],
  ◌∷◌, arith, leb, ◌==◌, if◌then◌else◌, Bool-cases, Option-cases, length, All,
}
use neonix.Prelude.Words.{u32_mod, add32, sub32}
use neonix.Names.{has_block, Ino, same_ino, Fs, add_count, iput, fit_inode, iget}
use neonix.Strings.{is_separator}

abbrev pub one_if : Bool → ℕ
one_if b = if b then 1 else 0

-- How often an inode is in a list.
abbrev pub times : Ino → List Ino → ℕ
times j [] = 0
times j (i ∷ l) = one_if (same_ino i j) + times j l

-- The counts are those of `fs`, and one more for each inode of the list.
abbrev pub Held : Fs → (Ino → ℕ) → List Ino → Type 0
Held fs c l = (j : Ino) → c j ≡ (fs.count j + times j l) % u32_mod

abbrev pub Plain : List ℕ → Type 0
Plain = All (λ c. is_separator c ≡ false)

-- No count is near its end, what is mounted on is in the table, and the entries have numbers of
-- inodes of their device and names without separators; and the blocks of the entries are there.
pub record IsSound (fs : Fs) : Type 0 where
  pub counts : (j : Ino) → fs.count j < 2 ^ 31
  pub mounted : (j : Ino) (dev : ℕ) → fs.mount j ≡ some dev → 0 < fs.count j
  pub numbers : (i : Ino) → All (λ e. e.nr ≤ fs.inodes i.0) (fs.desc i).entries
  pub names : (i : Ino) → All (λ e. Plain e.name) (fs.desc i).entries
  pub blocks :
      (i : Ino) (k : ℕ) → k * 64 < length (fs.desc i).entries → has_block (fs.desc i).zone k ≡ true

-- The inode that stands for another one: what is mounted on it, if there is anything.
abbrev pub landed : Fs → Ino → Ino
landed fs i = elim (fs.mount i) [ none ↦ i | some dev ↦ fs.iroot dev ]

abbrev pub at_counts : Fs → (Ino → ℕ) → Fs
at_counts fs c = record fs { count = c }

pub start-Held : (fs : Fs) → IsSound fs → Held fs fs.count []
start-Held fs v j = let small = v.counts j in omega arith

pub add-Held :
    (fs : Fs) (c : Ino → ℕ) (l : List Ino) (i : Ino)
    → Held fs c l
    → Held fs (λ j. if same_ino i j then add32 (c j) 1 else c j) (i ∷ l)
add-Held fs c l i h j = elim (Bool-cases (same_ino i j)) [
  | inl same ↦ rw same (omega (arith, h j))
  | inr other ↦ rw other (omega (arith, h j))
]

pub put-Held :
    (fs : Fs) (c : Ino → ℕ) (l : List Ino) (i : Ino)
    → Held fs c (i ∷ l)
    → Held fs (λ j. if same_ino i j then sub32 (c j) 1 else c j) l
put-Held fs c l i h j = elim (Bool-cases (same_ino i j)) [
  | inl same ↦
      let e : c j ≡ (fs.count j + (1 + times j l)) % u32_mod = rw same at (h j) in
      rw same (omega (arith, e))
  | inr other ↦
      let e : c j ≡ (fs.count j + (0 + times j l)) % u32_mod = rw other at (h j) in
      rw other (omega (arith, e))
]

pub swap-Held :
    (fs : Fs) (c : Ino → ℕ) (l : List Ino) (i k : Ino)
    → Held fs c (i ∷ k ∷ l)
    → Held fs c (k ∷ i ∷ l)
swap-Held fs c l i k h j = omega (arith, h j)

times-le : (j : Ino) (l : List Ino) → times j l ≤ length l
times-le j [] = omega arith
times-le j (i ∷ l) = let rest = times-le j l in ground arith

-- `iget` gives the inode that stands for the one with the number, and takes one reference to it.
pub iget-Held :
    (fs : Fs) (c : Ino → ℕ) (l : List Ino) (dev nr : ℕ)
    → IsSound fs
    → Held fs c l
    → length l < 2 ^ 31
    → nr ≤ fs.inodes dev
    → (c' : Ino → ℕ) × (iget dev nr (at_counts fs c) ≡ some (landed fs (dev, nr), at_counts fs c'))
      × Held fs c' (landed fs (dev, nr) ∷ l)
unfolding iget fit_inode add_count iput
iget-Held fs c l dev nr v h short le = elim (Bool-cases (c (dev, nr) == 0)) [
  | inl new ↦
      let few = times-le (dev, nr) l in
      let small = v.counts (dev, nr) in
      let unused : fs.count (dev, nr) ≡ 0 = (let e = h (dev, nr) in ground arith) in
      let legal : leb nr (fs.inodes dev) ≡ true = ground arith in
      elim (Option-cases (fs.mount (dev, nr))) [
        | inl bare ↦ (
          λ j. if same_ino (dev, nr) j then add32 (c j) 1 else c j,
          rw (new, legal, landed, bare) refl,
          rw (landed, bare) (add-Held fs c l (dev, nr) h),
        )
        | inr (d, over) ↦ absurd (let pos_ = v.mounted (dev, nr) d over in omega arith)
      ]
  | inr used ↦ elim (Option-cases (fs.mount (dev, nr))) [
    | inl bare ↦ (
      λ j. if same_ino (dev, nr) j then add32 (c j) 1 else c j,
      rw (used, fit_inode, landed, bare) refl,
      rw (landed, bare) (add-Held fs c l (dev, nr) h),
    )
    | inr (d, over) ↦
        let at : Ino = (dev, nr) in
        let c1 : Ino → ℕ = λ j. if same_ino at j then add32 (c j) 1 else c j in
        let c2 : Ino → ℕ = λ j. if same_ino at j then sub32 (c1 j) 1 else c1 j in
        let c3 : Ino → ℕ = λ j. if same_ino (fs.iroot d) j then add32 (c2 j) 1 else c2 j in
        (
          c3,
          rw (used, fit_inode, landed, over) refl,
          rw (landed, over)
              (add-Held fs c2 l (fs.iroot d) (put-Held fs c1 l at (add-Held fs c l at h))),
        )
  ]
]
