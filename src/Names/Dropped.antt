-- ===== src/Names/Dropped.antt =====
-- The end of `sys_unlink` of src/fs/namei.c: a name less, and a link less of its inode.
use mathlib.Core.Path.{subst}
use neonix.Prelude.{
  ℕ, ◌+◌, ◌%◌, ◌≡◌, refl, inl, inr, Bool, true, false, ◌&&◌, ◌||◌, some, List, [], arith, ◌==◌,
  if◌then◌else◌, Bool-cases, get_or, take, replicate,
}
use neonix.Blocks.{Super, ifree}
use neonix.Names.{Ino, same_ino, Fs, is_dir}
use neonix.Names.Counts.{at_counts}
use neonix.Names.Changes.{
  is_file, set_desc, set_entries, less_links, set_super, free_zones, inode_truncate,
}
use neonix.Names.Adding.{same_ino_self}
use neonix.Names.Entries.{forget}
use neonix.Names.Links.{drop_link}

-- The zones that an inode gives back: all of its direct blocks, or none of a device.
abbrev pub own_zones : Fs → Ino → List ℕ
own_zones fs m =
    if is_file (fs.desc m).mode || is_dir (fs.desc m).mode then take 7 (fs.desc m).zone else []

-- The zones of an inode and the inode are in use, so that they can be freed on its device.
pub record Releases (fs : Fs) (m : Ino) : Type 0 where
  pub direct : get_or (fs.desc m).zone 7 0 == 0 && get_or (fs.desc m).zone 8 0 == 0 ≡ true
  pub without_zones : Super
  pub released : Super
  pub zones : free_zones (own_zones fs m) (fs.super m.0) ≡ some without_zones
  pub node : ifree without_zones m.1 ≡ some released

abbrev pub links_left : Fs → Ino → ℕ
links_left fs m = ((fs.desc m).nlinks + 255) % 256

-- The last name of a file: its blocks are freed, too.
abbrev pub is_emptied : Fs → Ino → Bool
is_emptied fs m = links_left fs m == 0 && is_file (fs.desc m).mode

-- A name is removed: the directory does not have it, its inode has one link less, and with none left,
-- the zones and the inode are free on its device, and a file is empty.
pub record Unlinked (fs : Fs) (d : Ino) (c : List ℕ) (m : Ino) (r : Releases fs m) (g : Fs)
    : Type 0 where
  pub outer : g.desc d ≡ record (fs.desc d) { entries = forget c (fs.desc d).entries }
  pub inner : g.desc m ≡ record (fs.desc m) {
    nlinks = links_left fs m;
    zone = if is_emptied fs m then replicate 9 0 else (fs.desc m).zone;
    entries = if is_emptied fs m then [] else (fs.desc m).entries;
  }
  pub others : (j : Ino) → same_ino d j ≡ false → same_ino m j ≡ false → g.desc j ≡ fs.desc j
  pub maps :
      (dev : ℕ)
      → g.super dev ≡ (if links_left fs m == 0 && dev == m.0 then r.released else fs.super dev)

-- A file is no directory.
pub other_kind :
    (fs : Fs) (m d : Ino)
    → is_dir (fs.desc m).mode ≡ false
    → is_dir (fs.desc d).mode ≡ true
    → same_ino m d ≡ false
other_kind fs m d file dir = elim (Bool-cases (same_ino m d)) [
  | inr other ↦ other
  | inl same ↦
      let dev : d.0 ≡ m.0 = ground arith in
      let nr : d.1 ≡ m.1 = ground arith in
      let dir' : is_dir (fs.desc m).mode ≡ true =
        subst (λ q. is_dir (fs.desc (m.0, q)).mode ≡ true) nr
          (subst (λ q. is_dir (fs.desc (q, d.1)).mode ≡ true) dev dir) in
      absurd cc
]

pub same_ino_swap : (i j : Ino) → same_ino i j ≡ false → same_ino j i ≡ false
same_ino_swap i j h = ground arith

module _ (fs : Fs) (d : Ino) (c : List ℕ) (m : Ino) (file : is_dir (fs.desc m).mode ≡ false)
    (apart : same_ino m d ≡ false) (apart' : same_ino d m ≡ false) (r : Releases fs m)
    (c1 : Ino → ℕ) where
  abbrev pub Dropped : Type 0
  Dropped =
      (g : Fs) × (drop_link m (set_entries d (forget c (fs.desc d).entries) (at_counts fs c1))
        ≡ some (at_counts g c1))
      × Unlinked fs d c m r g

  self_dev : m.0 == m.0 ≡ true
  self_dev = ground arith

  -- With one link less, and without the name.
  less : Fs
  less = less_links m (set_entries d (forget c (fs.desc d).entries) fs)

  drop_link-kept : (links_left fs m == 0) ≡ false → Dropped
  unfolding less drop_link less_links set_desc set_entries
  drop_link-kept left = (
    less,
    rw (same_ino_self m, apart', left) refl,
    record {
      outer = rw (apart, same_ino_self d) refl;
      inner = rw (same_ino_self m, apart', left) refl;
      others = λ j not_d not_m. rw (not_m, not_d) refl;
      maps = λ dev. rw left refl;
    },
  )

  drop_link-device : (links_left fs m == 0) ≡ true → is_file (fs.desc m).mode ≡ false → Dropped
  unfolding less drop_link less_links set_desc set_entries inode_truncate free_zones
  drop_link-device left bare =
      let kept : free_zones [] (fs.super m.0) ≡ some r.without_zones = rw (bare, file) at r.zones in
      let same : fs.super m.0 ≡ r.without_zones = cc in
      let node : ifree (fs.super m.0) m.1 ≡ some r.released = rw same r.node in
      (
        set_super m.0 r.released less,
        rw (same_ino_self m, apart', left, bare, file, node) refl,
        record {
          outer = rw (apart, same_ino_self d) refl;
          inner = rw (same_ino_self m, apart', left, bare) refl;
          others = λ j not_d not_m. rw (not_m, not_d) refl;
          maps = λ dev. rw left refl;
        },
      )

  drop_link-file : (links_left fs m == 0) ≡ true → is_file (fs.desc m).mode ≡ true → Dropped
  unfolding less drop_link less_links set_desc set_entries inode_truncate
  drop_link-file left plain =
      let zones : free_zones (take 7 (fs.desc m).zone) (fs.super m.0) ≡ some r.without_zones =
        rw plain at r.zones in
      (
        set_super m.0 r.released (
            set_super m.0 r.without_zones
              (set_desc m (record (less.desc m) { zone = replicate 9 0; entries = [] }) less)),
        rw (same_ino_self m, apart', left, plain, r.direct, zones, self_dev, r.node) refl,
        record {
          outer = rw (apart, same_ino_self d) refl;
          inner = rw (same_ino_self m, apart', left, plain) refl;
          others = λ j not_d not_m. rw (not_m, not_d) refl;
          maps = λ dev. elim (Bool-cases (dev == m.0)) [
            | inl at_ ↦ rw (left, at_) refl
            | inr away ↦ rw (left, away) refl
          ];
        },
      )

  pub drop_link-Dropped : Dropped
  drop_link-Dropped = elim (Bool-cases (links_left fs m == 0)) [
    | inr left ↦ drop_link-kept left
    | inl gone ↦ elim (Bool-cases (is_file (fs.desc m).mode)) [
      | inl plain ↦ drop_link-file gone plain
      | inr bare ↦ drop_link-device gone bare
    ]
  ]
