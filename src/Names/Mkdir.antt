-- ===== src/Names/Mkdir.antt =====
-- What `sys_mkdir` of src/fs/namei.c does for a path.
use neonix.Prelude.{
  ℕ, ◌+◌, ◌%◌, ◌^◌, bit_or, ◌≡◌, refl, inl, inr, Bool, true, false, Option, none, some, List, arith,
  ◌==◌, if◌then◌else◌, Bool-cases, set,
}
use neonix.Names.{Ino, same_ino, Fs, User}
use neonix.Names.Counts.{at_counts}
use neonix.Names.Changes.{set_desc, set_entries, set_super, more_links, bmap_create, masked}
use neonix.Names.Entries.{enlist}
use neonix.Names.Adding.{same_ino_self}
use neonix.Names.Entered.{Grows, entered, fresh}
use neonix.Names.Dropped.{same_ino_swap}
use neonix.Names.Parent.{Target}
use neonix.Names.Creating.{dots}

-- A directory is made: it has the name in `d`, which has one link more, and the inode and the block
-- that were free.
pub record Made (fs : Fs) (user : User) (mode : ℕ) (d : Ino) (c : List ℕ) (r : Grows fs d) (g : Fs)
    : Type 0 where
  pub outer : g.desc d ≡ record (fs.desc d) {
    nlinks = ((fs.desc d).nlinks + 1) % 256;
    entries = enlist c r.nr (fs.desc d).entries;
  }
  pub inner : g.desc (d.0, r.nr) ≡ record {
    mode = bit_or (masked user mode) 0x4000;
    uid = user.uid;
    gid = user.gid;
    nlinks = 2;
    entries = dots (d.0, r.nr) d;
    zone = set (fs.desc (d.0, r.nr)).zone 0 (r.bit % 2 ^ 16);
  }
  pub others :
      (j : Ino) → same_ino d j ≡ false → same_ino (d.0, r.nr) j ≡ false → g.desc j ≡ fs.desc j
  pub maps : (dev : ℕ) → g.super dev ≡ (if dev == d.0 then r.grown else fs.super dev)

module _ (fs : Fs) (user : User) (mode : ℕ) (d : Ino) (c : List ℕ) (r : Grows fs d) where
  -- Behind the new entry, before the block of the new directory.
  counted : Fs
  counted =
      let i : Ino = (d.0, r.nr) in
      let f = entered fs d c r.nr r.marked in
      let f1 = set_desc i (fresh user (f.desc i)) f in
      more_links d
        (set_desc i (record (f1.desc i) { mode = bit_or (masked user mode) 0x4000; nlinks = 2 }) f1)

  pub with_block : Fs
  with_block =
      let i : Ino = (d.0, r.nr) in
      set_super d.0 r.grown (
        set_desc i (record (counted.desc i) { zone = set (fs.desc i).zone 0 (r.bit % 2 ^ 16) })
          counted)

  pub made : Fs
  made = set_entries (d.0, r.nr) (dots (d.0, r.nr) d) with_block

  counted-zone : (counted.desc (d.0, r.nr)).zone ≡ (fs.desc (d.0, r.nr)).zone
  unfolding counted set_desc set_entries more_links
  counted-zone = rw (r.apart, same_ino_self (d.0, r.nr)) refl

  counted-super : counted.super d.0 ≡ r.marked
  unfolding counted set_desc set_entries more_links
  counted-super = let self_dev : d.0 == d.0 ≡ true = ground arith in rw self_dev refl

  bmap_create-counted :
      (c1 : Ino → ℕ)
      → bmap_create (d.0, r.nr) 0 (at_counts counted c1)
        ≡ some (r.bit % 2 ^ 16, at_counts with_block c1)
  unfolding bmap_create with_block set_desc
  bmap_create-counted c1 = rw (counted-zone, r.missing, counted-super, r.block) refl

  pub made-at :
      (c1 : Ino → ℕ)
      → let i : Ino = (d.0, r.nr) in
        let f = entered fs d c r.nr r.marked in
        let f1 = set_desc i (fresh user (f.desc i)) f in
        (bmap_create i 0 (
            more_links d (
              set_desc i
                (record (f1.desc i) { mode = bit_or (masked user mode) 0x4000; nlinks = 2 })
                (at_counts f1 c1)))
          ≡ some (r.bit % 2 ^ 16, at_counts with_block c1))
        × (set_entries i (dots i d) (at_counts with_block c1) ≡ at_counts made c1)
  unfolding set_desc set_entries more_links counted made
  made-at c1 = (bmap_create-counted c1, refl)

  pub made-Made : Made fs user mode d c r made
  unfolding made with_block counted set_desc set_entries more_links
  made-Made =
      let i : Ino = (d.0, r.nr) in
      let apart' = same_ino_swap d i r.apart in
      record {
        outer = rw (apart', same_ino_self d) refl;
        inner = rw (same_ino_self i, r.apart) refl;
        others = λ j not_d not_i. rw (not_i, not_d) refl;
        maps = λ dev. elim (Bool-cases (dev == d.0)) [
          | inl at_ ↦ rw at_ refl
          | inr away ↦ rw away refl
        ];
      }

-- What becomes of the file system, without a look at its counts.
abbrev pub MkdirResult : (fs : Fs) → User → (mode : ℕ) → Option Target → Bool → Fs → Type 0
MkdirResult fs user mode none ok g = (ok ≡ false) × (g ≡ fs)
MkdirResult fs user mode (some (d, c, some found)) ok g = (ok ≡ false) × (g ≡ fs)
MkdirResult fs user mode (some (d, c, none)) ok g =
    (ok ≡ true) × (r : Grows fs d) × Made fs user mode d c r g
