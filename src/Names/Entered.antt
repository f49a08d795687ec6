-- ===== src/Names/Entered.antt =====
-- The new entry and the new inode that src/fs/namei.c makes for a name.
use mathlib.Core.Path.{subst}
use neonix.Prelude.{
  ℕ, ◌+◌, ◌*◌, ◌/◌, ◌≤◌, ◌<◌, ◌≡◌, refl, ap, ◌∙◌, inl, inr, true, false, none, some, List, [], ◌∷◌,
  arith, ◌==◌, Bool-cases, length, All,
}
use neonix.Names.{has_block, Dentry, Desc, Ino, same_ino, Fs, User, is_dir, iget}
use neonix.Names.Counts.{Plain, Held, IsSound, landed, at_counts, iget-Held}
use neonix.Names.Match.{same_name}
use neonix.Names.Walk.{entry_of}
use neonix.Names.Changes.{set_desc, set_entries, set_super, masked, new_inode, set_nr}
use neonix.Names.Entries.{enlist}
use neonix.Names.Adding.{has_room, add_entry-enlist}
use neonix.Names.Restore.{enlist-PlainNames}
use neonix.Blocks.{Super, ialloc, balloc}
use neonix.Names.Creating.{new_entry}

-- What a new entry in `d` with a new directory takes: `ialloc` gives an inode of the device, which is
-- not `d`, and has nothing mounted on it and no block; and then `balloc` gives a block.
pub record Grows (fs : Fs) (d : Ino) : Type 0 where
  pub nr : ℕ
  pub marked : Super
  pub bit : ℕ
  pub grown : Super
  pub node : ialloc (fs.super d.0) ≡ some (nr, marked)
  pub le : nr ≤ fs.inodes d.0
  pub apart : same_ino d (d.0, nr) ≡ false
  pub bare : fs.mount (d.0, nr) ≡ none
  pub missing : has_block (fs.desc (d.0, nr)).zone 0 ≡ false
  pub block : balloc marked ≡ some (bit, grown)

-- The name stands in the directory, for an inode that is marked now.
abbrev pub entered : Fs → Ino → (c : List ℕ) → (nr : ℕ) → Super → Fs
entered fs d c nr sb = set_super d.0 sb (set_entries d (enlist c nr (fs.desc d).entries) fs)

abbrev pub fresh : User → Desc → Desc
fresh user d = record d {
  mode = masked user 511;
  uid = user.uid;
  gid = user.gid;
  nlinks = 1;
  entries = [];
}

enlist-All :
    (P : Dentry → Type 0) (c : List ℕ) (nr : ℕ) (entries : List Dentry)
    → P (record { nr = nr; name = c })
    → All P entries
    → All P (enlist c nr entries)
unfolding enlist
enlist-All P c nr [] p a = (p, tt)
enlist-All P c nr (e ∷ entries) p (q, a) =
    let rest = enlist-All P c nr entries p a in
    elim (Bool-cases (e.nr == 0)) [ inl free ↦ rw free (p, a) | inr busy ↦ rw busy (q, rest) ]

length-enlist :
    (c : List ℕ) (nr : ℕ) (entries : List Dentry)
    → length (enlist c nr entries) ≤ length entries + 1
unfolding enlist
length-enlist c nr [] = omega arith
length-enlist c nr (e ∷ entries) =
    let rest = length-enlist c nr entries in
    elim (Bool-cases (e.nr == 0)) [
      | inl free ↦ rw free (omega arith)
      | inr busy ↦ rw busy (omega (arith, rest))
    ]

-- The block of the new entry is there.
enlist-blocks :
    (fs : Fs) (d : Ino) (c : List ℕ) (nr k : ℕ)
    → IsSound fs
    → has_room fs d ≡ true
    → k * 64 < length (enlist c nr (fs.desc d).entries)
    → has_block (fs.desc d).zone k ≡ true
enlist-blocks fs d c nr k v room lt =
    let le = length-enlist c nr (fs.desc d).entries in
    elim (Bool-cases (k * 64 == length (fs.desc d).entries)) [
      | inl end ↦
          let e : length (fs.desc d).entries / 64 ≡ k = ground arith in
          subst (λ q. has_block (fs.desc d).zone q ≡ true) e room
      | inr before ↦
          let lt' : k * 64 < length (fs.desc d).entries = ground arith in v.blocks d k lt'
    ]

-- The file system is sound with the name.
entered-IsSound :
    (fs : Fs) (d : Ino) (c : List ℕ) (nr : ℕ) (sb : Super)
    → IsSound fs
    → Plain c
    → nr ≤ fs.inodes d.0
    → has_room fs d ≡ true
    → IsSound (entered fs d c nr sb)
unfolding set_entries set_desc
entered-IsSound fs d c nr sb v pc le room = record {
  counts = v.counts;
  mounted = v.mounted;
  numbers = λ j. elim (Bool-cases (same_ino d j)) [
    | inr other ↦ rw other (v.numbers j)
    | inl same ↦
        let dev : d.0 ≡ j.0 = ground arith in
        rw same (
          enlist-All (λ e. e.nr ≤ fs.inodes j.0) c nr (fs.desc d).entries (rw dev at le)
            (subst (λ q. All (λ e. e.nr ≤ fs.inodes q) (fs.desc d).entries) dev (v.numbers d)))
  ];
  names = λ j. elim (Bool-cases (same_ino d j)) [
    | inr other ↦ rw other (v.names j)
    | inl same ↦ rw same (enlist-PlainNames c nr (fs.desc d).entries pc (v.names d))
  ];
  blocks = λ j k lt. elim (Bool-cases (same_ino d j)) [
    | inr other ↦ (let lt' = rw other at lt in rw other (v.blocks j k lt'))
    | inl same ↦ (let lt' = rw same at lt in rw same (enlist-blocks fs d c nr k v room lt'))
  ];
}

set_entries-same :
    (d : Ino) (entries entries' : List Dentry) (fs g : Fs)
    → set_entries d entries g ≡ set_entries d entries' fs
    → g.super ≡ fs.super
unfolding set_entries set_desc
set_entries-same d entries entries' fs g e = ap (λ q. q.super) e

pub set_desc-at :
    (i : Ino) (d : Desc) (g : Fs) (c : Ino → ℕ)
    → set_desc i d (at_counts g c) ≡ at_counts (set_desc i d g) c
unfolding set_desc
set_desc-at i d g c = refl

set_super-entries :
    (d : Ino) (sb : Super) (entries : List Dentry) (g : Fs) (c : Ino → ℕ)
    → set_entries d entries (set_super d.0 sb (at_counts g c))
      ≡ at_counts (set_super d.0 sb (set_entries d entries g)) c
unfolding set_entries set_desc
set_super-entries d sb entries g c = refl

iget-entered :
    (fs : Fs) (c : Ino → ℕ) (d : Ino) (last : List ℕ) (r : Grows fs d)
    → IsSound fs
    → Plain last
    → has_room fs d ≡ true
    → Held fs c (d ∷ [])
    → let f = entered fs d last r.nr r.marked in
      (c' : Ino → ℕ) × (iget d.0 r.nr (at_counts f c) ≡ some ((d.0, r.nr), at_counts f c'))
      × Held fs c' ((d.0, r.nr) ∷ d ∷ [])
unfolding set_entries set_desc
iget-entered fs c d last r v pl room h =
    let f = entered fs d last r.nr r.marked in
    let (c', got, h') =
      iget-Held f c (d ∷ []) d.0 r.nr (entered-IsSound fs d last r.nr r.marked v pl r.le room) h
        (omega arith) r.le in
    let bare = r.bare in (c', rw (landed, bare) at got, rw (landed, bare) at h')

-- The name is entered with an inode that was free, and references to the inode and the directory are
-- held.
pub new_entry-entered :
    (fs : Fs) (user : User) (c : Ino → ℕ) (d : Ino) (last : List ℕ) (r : Grows fs d)
    → IsSound fs
    → is_dir (fs.desc d).mode ≡ true
    → Plain last
    → length last ≤ 13
    → same_name last (b'.' ∷ b'.' ∷ []) ≡ false
    → entry_of fs d last ≡ none
    → has_room fs d ≡ true
    → Held fs c (d ∷ [])
    → let i : Ino = (d.0, r.nr) in
      let f = entered fs d last r.nr r.marked in
      (c' : Ino → ℕ) × (new_entry user d last (at_counts fs c)
        ≡ some (i, at_counts (set_desc i (fresh user (f.desc i)) f) c'))
      × Held fs c' (i ∷ d ∷ [])
unfolding new_entry new_inode
new_entry-entered fs user c d last r v dir pl fits other missing room h =
    let i : Ino = (d.0, r.nr) in
    let f = entered fs d last r.nr r.marked in
    let (c1, k, g, added, stored, h1) =
      add_entry-enlist fs c [] d last v dir pl fits other missing room h in
    let same =
      set_entries-same d (set_nr k 0 (g.desc d).entries) (enlist last 0 (fs.desc d).entries) fs g
        (stored 0) in
    let node : ialloc (g.super d.0) ≡ some (r.nr, r.marked) =
      ap (λ q. ialloc (q d.0)) same ∙ r.node in
    let (c2, got, h2) = iget-entered fs c1 d last r v pl room h1 in
    (
      c2,
      rw
          (
            added,
            node,
            set_super-entries d r.marked (set_nr k r.nr (g.desc d).entries) g c1,
            stored r.nr,
            got,
          )
          (rw (set_desc-at i (fresh user (f.desc i)) f c2) refl),
      h2,
    )
