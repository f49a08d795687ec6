-- ===== src/Names/Tests.antt =====
-- A small file system: the root directory with a directory bin, and in it a file sh.
use neonix.Prelude.{
  ℕ, ◌*◌, ◌<◌, ◌≡◌, refl, inl, inr, false, none, some, List, [], ◌∷◌, arith, ◌==◌, if◌then◌else◌,
  Bool-cases, replicate, ◌>>=◌,
}
use neonix.Strings.{is_separator}
use neonix.Blocks.{Super}
use neonix.Names.{
  has_block, reads, Desc, Ino, Fs, User, class_bits, permission, match_name, add_count, iput,
  fit_inode, iget, find_in, leave_root, find_entry, behind_last, enter_entry, arrived, named_from,
  named_at, named, get_entry, namei_in, namei,
}
use neonix.Names.Counts.{Held, IsSound, at_counts}
use neonix.Names.Walk.{walk, held_by}
use neonix.Names.Namei.{final, namei-walk}

abbrev pub bin : List ℕ
bin = 98 ∷ 105 ∷ 110 ∷ []

abbrev pub sh : List ℕ
sh = 115 ∷ 104 ∷ []

abbrev pub root_dir : Desc
root_dir = record {
  mode = 0x41ED;
  uid = 0;
  gid = 0;
  nlinks = 3;
  entries =
      record { nr = 1; name = 46 ∷ [] }
      ∷ record { nr = 1; name = 46 ∷ 46 ∷ [] }
      ∷ record { nr = 0; name = bin }
      ∷ record { nr = 2; name = bin }
      ∷ [];
  zone = 7 ∷ replicate 8 0;
}

abbrev pub bin_dir : Desc
bin_dir = record {
  mode = 0x41ED;
  uid = 0;
  gid = 0;
  nlinks = 2;
  entries =
      record { nr = 2; name = 46 ∷ [] }
      ∷ record { nr = 1; name = 46 ∷ 46 ∷ [] }
      ∷ record { nr = 3; name = sh }
      ∷ [];
  zone = 8 ∷ replicate 8 0;
}

abbrev pub file : Desc
file = record {
  mode = 0x81A4;
  uid = 0;
  gid = 0;
  nlinks = 1;
  entries = [];
  zone = 20 ∷ replicate 8 0;
}

-- Inode 3 has a block.
abbrev pub no_dir : Ino → Desc
no_dir i = record file { zone = (if i.1 == 3 then 20 else 0) ∷ replicate 8 0 }

-- The inodes up to 3, and the zones up to 20, are in use.
abbrev pub disk : Super
disk = record {
  imaps =
      some (record { bytes = 15 ∷ replicate 1023 0; dirty = false; disk = [] }) ∷ replicate 7 none;
  zmaps =
      some (record { bytes = 255 ∷ 255 ∷ replicate 1022 0; dirty = false; disk = [] })
      ∷ replicate 7 none;
  inodes = 64;
  zones = 100;
  firstdatazone = 6;
}

abbrev pub fs : Fs
fs = record {
  desc = λ i. if i.1 == 1 then root_dir else if i.1 == 2 then bin_dir else no_dir i;
  count = λ i. if i.1 == 1 then 4 else 0;
  mount = λ i. if i.1 == 1 then some 1 else none;
  super = λ dev. disk;
  inodes = λ dev. 64;
  iroot = λ dev. (dev, 1);
  imount = λ dev. (dev, 1);
}

abbrev pub user : User
user = record { uid = 0; gid = 0; umask = 0; iroot = (1, 1); ipwd = (1, 1) }

pub fs-IsSound : IsSound fs
unfolding is_separator has_block
fs-IsSound = record {
  counts = λ j. ground arith;
  mounted = λ j dev h. elim (Bool-cases (j.1 == 1)) [
    | inl root ↦ rw root (omega arith)
    | inr other ↦ (let e : none ≡ some dev = rw other at h in absurd cc)
  ];
  numbers = λ i. elim (Bool-cases (i.1 == 1)) [
    | inl root ↦ rw root (omega arith, (omega arith, (omega arith, (omega arith, tt))))
    | inr other ↦ elim (Bool-cases (i.1 == 2)) [
      | inl second ↦ rw (other, second) (omega arith, (omega arith, (omega arith, tt)))
      | inr third ↦ rw (other, third) tt
    ]
  ];
  names = λ i. elim (Bool-cases (i.1 == 1)) [
    | inl root ↦ rw root (
      (refl, tt),
      ((refl, (refl, tt)), ((refl, (refl, (refl, tt))), ((refl, (refl, (refl, tt))), tt))),
    )
    | inr other ↦ elim (Bool-cases (i.1 == 2)) [
      | inl second ↦ rw (other, second) ((refl, tt), ((refl, (refl, tt)), ((refl, (refl, tt)), tt)))
      | inr third ↦ rw (other, third) tt
    ]
  ];
  blocks = λ i k h. elim (Bool-cases (i.1 == 1)) [
    | inl root ↦
        let lt : k * 64 < 4 = rw root at h in
        let first : k ≡ 0 = omega (arith, lt) in rw (first, root) refl
    | inr other ↦ elim (Bool-cases (i.1 == 2)) [
      | inl second ↦
          let lt : k * 64 < 3 = rw (other, second) at h in
          let first : k ≡ 0 = omega (arith, lt) in rw (first, other, second) refl
      | inr third ↦ (let lt : k * 64 < 0 = rw (other, third) at h in absurd (omega (arith, lt)))
    ]
  ];
}

-- "/bin/sh".
abbrev pub rest : List ℕ
rest = 98 ∷ 105 ∷ 110 ∷ 47 ∷ 115 ∷ 104 ∷ []

found : (do (inode, fs') ← namei user (47 ∷ rest) fs; inode) ≡ some (1, 3)
unfolding namei named named_at named_from behind_last is_separator find_entry leave_root match_name
    find_in enter_entry iget fit_inode add_count iput permission class_bits arrived namei_in
    get_entry reads has_block
found = refl

namei-walk_example :
    (c' : Ino → ℕ) × (namei user (47 ∷ rest) fs
      ≡ some (walk fs user ((bin, 47) ∷ []) (1, 1) >>= final fs sh, at_counts fs c'))
    × Held fs c' (held_by (walk fs user ((bin, 47) ∷ []) (1, 1) >>= final fs sh))
unfolding is_separator
namei-walk_example =
    namei-walk fs user 47 rest ((bin, 47) ∷ []) sh fs-IsSound refl refl
      (((refl, (refl, (refl, tt))), refl), tt) (refl, (refl, tt))
