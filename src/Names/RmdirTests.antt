-- ===== src/Names/RmdirTests.antt =====
-- The small file system of Names/Tests with an empty directory, which is removed.
use mathlib.Core.Path.{subst}
use neonix.Prelude.{
  ℕ, ◌*◌, ◌<◌, ◌≡◌, refl, sym, inl, inr, Bool, true, false, Option, none, some, [], ◌∷◌, arith,
  ◌==◌, if◌then◌else◌, Bool-cases, replicate, ◌>>=◌, some_injective,
}
use neonix.Strings.{is_separator}
use neonix.Names.{
  has_block, reads, Dentry, Desc, Ino, Fs, class_bits, permission, match_name, add_count, iput,
  fit_inode, iget, find_in, leave_root, find_entry, behind_last, enter_entry, arrived, named_from,
  named_at, named, get_entry, namei_in, namei,
}
use neonix.Names.Tests.{disk, bin, fs, user, root_dir, bin_dir, file}
use neonix.Names.Counts.{landed, Held, IsSound, at_counts}
use neonix.Names.Paths.{first_dir}
use neonix.Names.Changes.{
  set_desc, set_entries, less_links, free_zones, inode_truncate, entry_index, set_nr, search_parent,
  search_in_parent, any_dir,
}
use neonix.Names.Removing.{
  used_entries, reads_all, is_empty, drop_dir, refuses, remove_dir, sys_rmdir,
}
use neonix.Names.Parent.{IsGiven, target}
use neonix.Names.Walk.{walk, entry_of, up}
use neonix.Names.Match.{lookup, same_name}
use neonix.Bitmap.{test_bit, put_bit, bitmap_make, bitmap_test, bitmap_set}
use neonix.Blocks.{Super, bfree, ifree, free_from, free_at, buffer_at, sync, bwrite}
use neonix.Names.Freed.{Frees, IsLinked}
use neonix.Names.Rmdir.{RmdirResult, sys_rmdir-RmdirResult}

abbrev empty_dir : Desc
empty_dir = record bin_dir {
  entries = record { nr = 2; name = 46 ∷ [] } ∷ record { nr = 1; name = 46 ∷ 46 ∷ [] } ∷ [];
}

abbrev hollow : Fs
hollow = record fs {
  desc = λ i. if i.1 == 1 then root_dir else if i.1 == 2 then empty_dir else file;
}

-- Without zone 8, and without inode 2.
abbrev no_zone : Super
no_zone = record disk {
  zmaps =
      some (record {
        bytes = 247 ∷ 255 ∷ replicate 1022 0;
        dirty = false;
        disk = 247 ∷ 255 ∷ replicate 1022 0;
      })
      ∷ replicate 7 none;
}

abbrev no_inode : Super
no_inode = record no_zone {
  imaps =
      some (record { bytes = 11 ∷ replicate 1023 0; dirty = false; disk = 11 ∷ replicate 1023 0 })
      ∷ replicate 7 none;
}

bin-Frees : Frees hollow (1, 2)
unfolding free_zones bfree ifree free_from free_at buffer_at sync bwrite bitmap_test bitmap_set
    bitmap_make test_bit put_bit
bin-Frees = record {
  direct = refl;
  without_zones = no_zone;
  released = no_inode;
  zones = refl;
  node = refl;
}

abbrev after_rmdir : Option (Bool × Option Ino × Super × ℕ)
after_rmdir = do
  (ok, fs') ← sys_rmdir user (47 ∷ bin) hollow
  (inode, fs'') ← namei user (47 ∷ bin) fs'
  some (ok, inode, fs'.super 1, (fs'.desc (1, 1)).nlinks)

removed_bin : after_rmdir ≡ some (true, none, no_inode, 2)
unfolding sys_rmdir remove_dir refuses is_empty used_entries drop_dir search_in_parent search_parent
    less_links set_entries set_desc inode_truncate free_zones bfree ifree free_from free_at
    buffer_at sync bwrite bitmap_test bitmap_set bitmap_make test_bit put_bit reads reads_all
    has_block entry_index set_nr namei named named_at named_from behind_last is_separator find_entry
    leave_root match_name find_in enter_entry iget fit_inode add_count iput permission class_bits
    arrived namei_in get_entry
removed_bin = refl

hollow-IsSound : IsSound hollow
unfolding is_separator has_block
hollow-IsSound = record {
  counts = λ j. ground arith;
  mounted = λ j dev h. elim (Bool-cases (j.1 == 1)) [
    | inl root ↦ rw root (omega arith)
    | inr other ↦ (let e : none ≡ some dev = rw other at h in absurd cc)
  ];
  numbers = λ i. elim (Bool-cases (i.1 == 1)) [
    | inl root ↦ rw root (omega arith, (omega arith, (omega arith, (omega arith, tt))))
    | inr other ↦ elim (Bool-cases (i.1 == 2)) [
      | inl second ↦ rw (other, second) (omega arith, (omega arith, tt))
      | inr third ↦ rw (other, third) tt
    ]
  ];
  names = λ i. elim (Bool-cases (i.1 == 1)) [
    | inl root ↦ rw root (
      (refl, tt),
      ((refl, (refl, tt)), ((refl, (refl, (refl, tt))), ((refl, (refl, (refl, tt))), tt))),
    )
    | inr other ↦ elim (Bool-cases (i.1 == 2)) [
      | inl second ↦ rw (other, second) ((refl, tt), ((refl, (refl, tt)), tt))
      | inr third ↦ rw (other, third) tt
    ]
  ];
  blocks = λ i k h. elim (Bool-cases (i.1 == 1)) [
    | inl root ↦
        let lt : k * 64 < 4 = rw root at h in
        let first : k ≡ 0 = omega (arith, lt) in rw (first, root) refl
    | inr other ↦ elim (Bool-cases (i.1 == 2)) [
      | inl second ↦
          let lt : k * 64 < 2 = rw (other, second) at h in
          let first : k ≡ 0 = omega (arith, lt) in rw (first, other, second) refl
      | inr third ↦ (let lt : k * 64 < 0 = rw (other, third) at h in absurd (omega (arith, lt)))
    ]
  ];
}

hollow-IsLinked : IsLinked hollow
unfolding used_entries
hollow-IsLinked = record {
  some_links = λ i h. elim (Bool-cases (i.1 == 1)) [
    | inl root ↦ rw root (omega arith, omega arith)
    | inr other ↦ elim (Bool-cases (i.1 == 2)) [
      | inl second ↦ rw (other, second) (omega arith, omega arith)
      | inr third ↦ (let e : false ≡ true = rw (other, third) at h in absurd cc)
    ]
  ];
  two_links = λ i h bare. elim (Bool-cases (i.1 == 1)) [
    | inl root ↦ (let e : false ≡ true = rw root at bare in absurd cc)
    | inr other ↦ elim (Bool-cases (i.1 == 2)) [
      | inl second ↦ rw (other, second) refl
      | inr third ↦ (let e : false ≡ true = rw (other, third) at h in absurd cc)
    ]
  ];
}

bin-IsGiven : IsGiven hollow user 47 bin [] bin
unfolding is_separator
bin-IsGiven = record {
  first = refl;
  split = refl;
  whole_dirs = tt;
  whole_last = (refl, (refl, (refl, tt)));
}

root-some : (d : Ino) → walk hollow user [] (first_dir user 47) ≡ some d → (1, 1) ≡ d
unfolding walk is_separator
root-some d h = some_injective h

bin-some : (e : Dentry) → entry_of hollow (1, 1) bin ≡ some e → record { nr = 2; name = bin } ≡ e
unfolding entry_of up lookup same_name is_separator
bin-some e h = some_injective h

of-bin :
    (d : Ino) (e : Dentry)
    → walk hollow user [] (first_dir user 47) ≡ some d
    → entry_of hollow d bin ≡ some e
    → Frees hollow (landed hollow (d.0, e.nr))
of-bin d e way there =
    let at : (1, 1) ≡ d = root-some d way in
    let there' : entry_of hollow (1, 1) bin ≡ some e =
      subst (λ q. entry_of hollow q bin ≡ some e) (sym at) there in
    subst (λ q. Frees hollow (landed hollow (q.0, e.nr))) at
      (subst (λ q. Frees hollow (landed hollow (1, q.nr))) (bin-some e there') bin-Frees)

sys_rmdir-RmdirResult_example :
    (ok : Bool) × (g : Fs) × (c' : Ino → ℕ) × (sys_rmdir user (47 ∷ bin) hollow
      ≡ some (ok, at_counts g c'))
    × Held hollow c' []
    × RmdirResult hollow user (target hollow user any_dir [] bin (first_dir user 47)) ok g
sys_rmdir-RmdirResult_example =
    sys_rmdir-RmdirResult hollow user 47 bin [] bin hollow-IsSound hollow-IsLinked bin-IsGiven refl
      (λ d e way there free bare. of-bin d e way there)
