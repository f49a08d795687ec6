-- ===== src/Names/Freed.antt =====
-- The end of `sys_rmdir` of src/fs/namei.c, for an empty directory.
use neonix.Prelude.{
  ℕ, ◌+◌, ◌*◌, ◌/◌, ◌%◌, ◌≤◌, ◌<◌, ◌≡◌, refl, inl, inr, Bool, true, false, ◌&&◌, ◌||◌, some, List,
  [], ◌∷◌, arith, ltb, ◌==◌, if◌then◌else◌, Bool-cases, length, get_or, take, replicate, ◌>>=◌,
}
use neonix.Names.{has_block, Dentry, Ino, same_ino, Fs, is_dir}
use neonix.Names.Counts.{Plain, IsSound, at_counts}
use neonix.Names.Changes.{
  is_file, set_desc, set_entries, set_super, free_zones, ifree_in, less_links, inode_truncate,
}
use neonix.Names.Entries.{forget, set_nr-entry_index}
use neonix.Names.Adding.{same_ino_self}
use neonix.Blocks.{Super, ifree}
use neonix.Names.Removing.{used_entries, reads_all, is_empty, drop_dir}

-- A directory with `.` and `..` only.
abbrev pub is_bare : List Dentry → Bool
is_bare entries = if ltb (length entries) 2 then false else used_entries entries == 2

-- Under IsSound the asserts of `is_empty` hold.
reads_all-true :
    (zone : List ℕ) (i : ℕ) (entries : List Dentry)
    → ((k : ℕ) → k * 64 < i + length entries → has_block zone k ≡ true)
    → reads_all zone i entries ≡ true
unfolding reads_all
reads_all-true zone i [] all = refl
reads_all-true zone i (e ∷ entries) all =
    let rest = reads_all-true zone (i + 1) entries (λ k lt. all k (omega arith)) in
    elim (Bool-cases (i % 64 == 0)) [
      | inl start ↦
          let at : i / 64 * 64 < i + length (e ∷ entries) =
            (let z : i % 64 ≡ 0 = ground arith in omega arith) in
          let here = all (i / 64) at in rw (start, here) rest
      | inr inside ↦ rw inside rest
    ]

pub is_empty-is_bare :
    (fs : Fs) (c : Ino → ℕ) (m : Ino)
    → IsSound fs
    → is_dir (fs.desc m).mode ≡ true
    → is_empty m (at_counts fs c) ≡ some (is_bare (fs.desc m).entries)
unfolding is_empty has_block
is_empty-is_bare fs c m v dir =
    let d = fs.desc m in
    elim (Bool-cases (ltb (length d.entries) 2)) [
      | inl few ↦ rw (dir, few) refl
      | inr more ↦
          let long : 0 < length d.entries = ground arith in
          let first = v.blocks m 0 (omega (arith, long)) in
          let zone : (get_or d.zone 0 0 == 0) ≡ false = ground arith in
          let there = reads_all-true d.zone 0 d.entries (λ k lt. v.blocks m k (omega arith)) in
          rw (dir, more, zone, there) refl
    ]

-- The blocks and the inode of a directory are in use, so that they can be freed on its device, and
-- it has no index blocks.
pub record Frees (fs : Fs) (m : Ino) : Type 0 where
  pub direct : get_or (fs.desc m).zone 7 0 == 0 && get_or (fs.desc m).zone 8 0 == 0 ≡ true
  pub without_zones : Super
  pub released : Super
  pub zones : free_zones (take 7 (fs.desc m).zone) (fs.super m.0) ≡ some without_zones
  pub node : ifree without_zones m.1 ≡ some released

-- A directory has from two to 255 links, and one with `.` and `..` only has two.
pub record IsLinked (fs : Fs) : Type 0 where
  pub some_links :
      (i : Ino)
      → is_dir (fs.desc i).mode ≡ true
      → (2 ≤ (fs.desc i).nlinks) × (fs.desc i).nlinks < 256
  pub two_links :
      (i : Ino)
      → is_dir (fs.desc i).mode ≡ true
      → is_bare (fs.desc i).entries ≡ true
      → (fs.desc i).nlinks ≡ 2

-- A directory is removed: the name is gone from `d`, which has one link less, and the inode is empty,
-- without links, and free, as its blocks are.
pub record Removed (fs : Fs) (d : Ino) (c : List ℕ) (m : Ino) (r : Frees fs m) (g : Fs)
    : Type 0 where
  pub outer : g.desc d ≡ record (fs.desc d) {
    nlinks = ((fs.desc d).nlinks + 255) % 256;
    entries = forget c (fs.desc d).entries;
  }
  pub inner : g.desc m ≡ record (fs.desc m) { nlinks = 0; zone = replicate 9 0; entries = [] }
  pub others : (j : Ino) → same_ino d j ≡ false → same_ino m j ≡ false → g.desc j ≡ fs.desc j
  pub maps : (dev : ℕ) → g.super dev ≡ (if dev == m.0 then r.released else fs.super dev)

module _ (fs : Fs) (d : Ino) (c : List ℕ) (m : Ino) (r : Frees fs m) (apart : same_ino m d ≡ false)
    (apart' : same_ino d m ≡ false) where
  -- Without its blocks, and free.
  freed : Fs
  freed = set_super m.0 r.released (
      set_super m.0 r.without_zones
        (set_desc m (record (fs.desc m) { zone = replicate 9 0; entries = [] }) fs))

  -- The changes of `sys_rmdir`, once its asserts hold.
  pub removed_dir : Fs
  removed_dir =
      let f = less_links d (set_desc m (record (freed.desc m) { nlinks = 0 }) freed) in
      set_entries d (forget c (fs.desc d).entries) f

  pub removed_dir-Removed : Removed fs d c m r removed_dir
  unfolding removed_dir freed set_desc set_entries less_links
  removed_dir-Removed = record {
    outer = rw (apart, same_ino_self d) refl;
    inner = rw (same_ino_self m, apart') refl;
    others = λ j not_d not_m. rw (not_m, not_d) refl;
    maps =
        λ dev. elim (Bool-cases (dev == m.0)) [ inl at_ ↦ rw at_ refl | inr away ↦ rw away refl ];
  }

  freed-at :
      (c1 : Ino → ℕ)
      → is_dir (fs.desc m).mode ≡ true
      → inode_truncate m (at_counts fs c1) >>= ifree_in m ≡ some (at_counts freed c1)
  unfolding freed inode_truncate set_desc
  freed-at c1 dir =
      let either : is_file (fs.desc m).mode || is_dir (fs.desc m).mode ≡ true = ground arith in
      let self_dev : m.0 == m.0 ≡ true = ground arith in
      rw (either, r.direct, r.zones, self_dev, r.node) refl

  -- Nothing but the inode has changed.
  freed-outer : freed.desc d ≡ fs.desc d
  unfolding freed set_desc
  freed-outer = rw apart refl

  -- The asserts hold.
  pub drop_dir-at :
      (c1 : Ino → ℕ)
      → Plain c
      → IsSound fs
      → IsLinked fs
      → is_dir (fs.desc m).mode ≡ true
      → is_dir (fs.desc d).mode ≡ true
      → is_bare (fs.desc m).entries ≡ true
      → drop_dir d c m (at_counts fs c1) ≡ some (at_counts removed_dir c1)
  unfolding drop_dir removed_dir set_desc set_entries less_links
  drop_dir-at c1 pc v linked dir dir' bare =
      let two : (fs.desc m).nlinks == 2 ≡ true =
        (let e = linked.two_links m dir bare in ground arith) in
      let (low, high) = linked.some_links d dir' in
      let left : ltb 0 (((fs.desc d).nlinks + 255) % 256) ≡ true = ground arith in
      let gone = set_nr-entry_index c (fs.desc d).entries pc (v.names d) in
      rw (two, freed-at c1 dir, apart, same_ino_self d, freed-outer, left, gone) refl
