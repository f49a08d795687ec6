-- ===== src/Names/Adding.antt =====
-- `add_entry` of src/fs/namei.c, with the number that its callers store in the entry; and the walk from
-- other counts of references.
use mathlib.Core.Path.{fun_ext}
use neonix.Prelude.{
  ℕ, zero, suc, ◌/◌, ◌≤◌, ◌<◌, ◌≡◌, refl, ap, inl, inr, Bool, true, false, none, some, List, [],
  ◌∷◌, arith, ◌==◌, Bool-cases, length, get_or, take, ◌>>=◌,
}
use neonix.Names.{Dentry, Ino, same_ino, Fs, User, is_dir}
use neonix.Names.Counts.{Plain, Held, IsSound, at_counts}
use neonix.Names.Match.{same_name}
use neonix.Names.Walk.{up, entry_of, child, enter, walk}
use neonix.Names.{has_block}
use neonix.Names.Changes.{
  bmap_create, set_desc, set_entries, set_nr, put_name, no_separators, add_entry,
}
use neonix.Names.Entries.{enlist, set_nr-put_name}
use neonix.Names.Parent.{parent, target, find_entry-last}

pub same_ino_self : (i : Ino) → same_ino i i ≡ true
same_ino_self i = ground arith

pub entries-set_entries :
    (i : Ino) (entries : List Dentry) (fs : Fs)
    → ((set_entries i entries fs).desc i).entries ≡ entries
unfolding set_entries set_desc
entries-set_entries i entries fs = rw (same_ino_self i) refl

pub set_entries-set_entries :
    (i : Ino) (entries entries' : List Dentry) (fs : Fs)
    → set_entries i entries' (set_entries i entries fs) ≡ set_entries i entries' fs
unfolding set_entries set_desc
set_entries-set_entries i entries entries' fs =
    ap (λ f. record fs { desc = f })
      (fun_ext (λ j. elim (Bool-cases (same_ino i j)) [
        | inl same ↦ rw (same, same_ino_self i) refl
        | inr other ↦ rw other refl
      ]))

Plain-no_separators : (n : ℕ) (c : List ℕ) → Plain c → no_separators (take n c) ≡ true
unfolding no_separators
Plain-no_separators zero c p = refl
Plain-no_separators (suc n) [] p = refl
Plain-no_separators (suc n) (x ∷ c) (p, pc) = rw p (Plain-no_separators n c pc)

pub set_entries-at :
    (i : Ino) (entries : List Dentry) (fs : Fs) (c : Ino → ℕ)
    → set_entries i entries (at_counts fs c) ≡ at_counts (set_entries i entries fs) c
unfolding set_entries set_desc
set_entries-at i entries fs c = refl

-- Any other name than `..` is looked up in the directory itself.
pub up_self :
    (fs : Fs) (d : Ino) (c : List ℕ) → same_name c (b'.' ∷ b'.' ∷ []) ≡ false → up fs d c ≡ d
unfolding up
up_self fs d c other = rw other refl

put_name-le : (c : List ℕ) (entries : List Dentry) → (put_name c entries).0 ≤ length entries
unfolding put_name
put_name-le c [] = omega arith
put_name-le c (e ∷ entries) =
    let rest = put_name-le c entries in
    elim (Bool-cases (e.nr == 0)) [
      | inl free ↦ rw free (omega arith)
      | inr busy ↦ rw busy (omega arith)
    ]

-- The block of the entry behind the last one is there.
abbrev pub has_room : Fs → Ino → Bool
has_room fs d = has_block (fs.desc d).zone (length (fs.desc d).entries / 64)

bmap_create-there :
    (fs : Fs) (i : Ino) (block : ℕ)
    → has_block (fs.desc i).zone block ≡ true
    → (bmap_create i block fs ≡ some (get_or (fs.desc i).zone block 0, fs))
      × ((get_or (fs.desc i).zone block 0 == 0) ≡ false)
unfolding bmap_create has_block
bmap_create-there fs i block h = (rw h refl, ground arith)

-- The block of a new entry is there.
put_name-block :
    (fs : Fs) (d : Ino) (c : List ℕ)
    → IsSound fs
    → has_room fs d ≡ true
    → has_block (fs.desc d).zone ((put_name c (fs.desc d).entries).0 / 64) ≡ true
put_name-block fs d c v room =
    let k = (put_name c (fs.desc d).entries).0 in
    let le = put_name-le c (fs.desc d).entries in
    elim (Bool-cases (k == length (fs.desc d).entries)) [
      | inl end ↦ let e : k ≡ length (fs.desc d).entries = ground arith in rw e room
      | inr before ↦
          let lt : k < length (fs.desc d).entries = ground arith in
          v.blocks d (k / 64) (omega arith)
    ]

-- A new name is entered in the directory.
pub add_entry-enlist :
    (fs : Fs) (c : Ino → ℕ) (l : List Ino) (d : Ino) (last : List ℕ)
    → IsSound fs
    → is_dir (fs.desc d).mode ≡ true
    → Plain last
    → length last ≤ 13
    → same_name last (b'.' ∷ b'.' ∷ []) ≡ false
    → entry_of fs d last ≡ none
    → has_room fs d ≡ true
    → Held fs c (d ∷ l)
    → (c' : Ino → ℕ) × (k : ℕ) × (g : Fs) × (add_entry d last (at_counts fs c)
        ≡ some (d, k, at_counts g c'))
      × ((nr : ℕ)
          → set_entries d (set_nr k nr (g.desc d).entries) g
            ≡ set_entries d (enlist last nr (fs.desc d).entries) fs)
      × Held fs c' (d ∷ l)
unfolding add_entry
add_entry-enlist fs c l d last v dir pl fits other missing room h =
    let (c', found, h') = find_entry-last fs c l d last v dir pl h in
    let self = up_self fs d last other in
    let es = (fs.desc d).entries in
    let p = put_name last es in
    let (there, some_block) =
      bmap_create-there (at_counts fs c') d (p.0 / 64) (put_name-block fs d last v room) in
    (
      c',
      p.0,
      set_entries d p.1 fs,
      rw (found, missing, self, Plain-no_separators 14 last pl, there, some_block)
          (rw (set_entries-at d p.1 fs c') refl),
      λ nr.
          rw (entries-set_entries d p.1 fs, set_nr-put_name last nr es fits)
            (set_entries-set_entries d p.1 (enlist last nr es) fs),
      rw self at h',
    )

-- The walk does not look at the counts.
walk-at_counts :
    (fs : Fs) (c : Ino → ℕ) (user : User) (dirs : List (List ℕ × ℕ)) (i : Ino)
    → walk (at_counts fs c) user dirs i ≡ walk fs user dirs i
unfolding walk enter child entry_of up
walk-at_counts fs c user [] i = refl
walk-at_counts fs c user ((x, s) ∷ dirs) i =
    ap (λ f. enter fs user i x >>= f) (fun_ext (walk-at_counts fs c user dirs))

pub target-at_counts :
    (fs : Fs) (c : Ino → ℕ) (user : User) (may : Ino → Bool) (dirs : List (List ℕ × ℕ))
    (last : List ℕ) (i : Ino)
    → target (at_counts fs c) user may dirs last i ≡ target fs user may dirs last i
unfolding parent entry_of up
target-at_counts fs c user may dirs last i = rw (walk-at_counts fs c user dirs i) refl
