-- ===== src/Names/Rmdir.antt =====
-- What `sys_rmdir` of src/fs/namei.c does for a path.
use neonix.Prelude.{
  ℕ, ◌+◌, ◌%◌, ◌^◌, ◌≤◌, ◌≡◌, refl, inl, inr, Bool, true, false, ◌&&◌, ◌||◌, not, Option, none,
  some, List, [], ◌∷◌, arith, ltb, ◌==◌, if◌then◌else◌, Bool-cases, Option-cases,
}
use neonix.Prelude.Words.{sub32}
use neonix.Names.{Dentry, Ino, same_ino, Fs, User, is_dir, iput}
use neonix.Names.Counts.{Plain, Held, IsSound, landed, at_counts, put-Held, iget-Held}
use neonix.Names.Walk.{up, entry_of, entry-le, walk}
use neonix.Names.Match.{same_name}
use neonix.Names.Paths.{walk-dir, first_dir}
use neonix.Names.Changes.{is_sticky, any_dir}
use neonix.Names.Adding.{up_self, same_ino_self}
use neonix.Names.Parent.{IsGiven, Target, place, target-cases, target, search_in_parent-Held}
use neonix.Names.Removing.{refuses, remove_dir, sys_rmdir}
use neonix.Names.Freed.{
  is_bare, is_empty-is_bare, Frees, IsLinked, Removed, removed_dir, removed_dir-Removed,
  drop_dir-at,
}

-- Whether an inode in a directory cannot be removed.
abbrev pub is_kept_dir : Fs → User → (dir m : Ino) → Bool
is_kept_dir fs user dir m =
    same_ino m dir
    || not (is_dir (fs.desc m).mode)
    || (is_sticky (fs.desc dir).mode && not (user.uid == (fs.desc m).uid))
    || not (dir.0 == m.0)
    || ltb 0 (fs.count m)

-- What becomes of the file system, without a look at its counts.
abbrev pub RmdirResult : Fs → User → Option Target → Bool → Fs → Type 0
RmdirResult fs user none ok g = (ok ≡ false) × (g ≡ fs)
RmdirResult fs user (some (d, c, none)) ok g = (ok ≡ false) × (g ≡ fs)
RmdirResult fs user (some (d, c, some (e, next))) ok g =
    let m = landed fs (d.0, e.nr) in
    if is_kept_dir fs user d m || not (is_bare (fs.desc m).entries)
    then (ok ≡ false) × (g ≡ fs)
    else (ok ≡ true) × (r : Frees fs m) × Removed fs d c m r g

-- The reference that is held shows in the count.
refuses-at :
    (fs : Fs) (user : User) (c : Ino → ℕ) (d m : Ino)
    → IsSound fs
    → Held fs c (m ∷ d ∷ [])
    → refuses user d m (at_counts fs c) ≡ is_kept_dir fs user d m
unfolding refuses
refuses-at fs user c d m v h = elim (Bool-cases (same_ino m d)) [
  | inl same ↦ rw same refl
  | inr other ↦
      let self = same_ino_self m in
      let apart : same_ino d m ≡ false = ground arith in
      let e : c m ≡ (fs.count m + (1 + (0 + 0))) % 2 ^ 32 = rw (self, apart) at (h m) in
      let small = v.counts m in
      let count : ltb 1 (c m) ≡ ltb 0 (fs.count m) = ground arith in rw count refl
]

-- The end of `sys_rmdir`, where the name is found.
remove_dir-found :
    (fs : Fs) (user : User) (c : Ino → ℕ) (d : Ino) (last : List ℕ) (e : Dentry)
    → IsSound fs
    → IsLinked fs
    → is_dir (fs.desc d).mode ≡ true
    → Plain last
    → up fs d last ≡ d
    → entry_of fs d last ≡ some e
    → ((e : Dentry)
        → entry_of fs d last ≡ some e
        → is_kept_dir fs user d (landed fs (d.0, e.nr)) ≡ false
        → is_bare (fs.desc (landed fs (d.0, e.nr))).entries ≡ true
        → Frees fs (landed fs (d.0, e.nr)))
    → Held fs c (d ∷ [])
    → (ok : Bool) × (g : Fs) × (c' : Ino → ℕ) × (remove_dir user
          (some (d, last, some (e, [])))
          (at_counts fs c)
        ≡ some (ok, at_counts g c'))
      × Held fs c' []
      × RmdirResult fs user (some (d, last, some (e, []))) ok g
unfolding remove_dir iput
remove_dir-found fs user c d last e v linked dir pl self there frees h =
    let le : e.nr ≤ fs.inodes d.0 = rw self at (entry-le fs d last e v there) in
    let (c2, got, h2) = iget-Held fs c (d ∷ []) d.0 e.nr v h (omega arith) le in
    let m = landed fs (d.0, e.nr) in
    let c3 : Ino → ℕ = λ j. if same_ino m j then sub32 (c2 j) 1 else c2 j in
    let c4 : Ino → ℕ = λ j. if same_ino d j then sub32 (c3 j) 1 else c3 j in
    let h4 : Held fs c4 [] = put-Held fs c3 [] d (put-Held fs c2 (d ∷ []) m h2) in
    let same = refuses-at fs user c2 d m v h2 in
    elim (Bool-cases (is_kept_dir fs user d m)) [
      | inl kept_ ↦ (false, fs, c4, rw (got, same, kept_) refl, h4, rw kept_ (refl, refl))
      | inr free ↦
          let inner : is_dir (fs.desc m).mode ≡ true = ground arith in
          let apart : same_ino m d ≡ false = ground arith in
          let apart' : same_ino d m ≡ false = ground arith in
          let empty = is_empty-is_bare fs c2 m v inner in
          elim (Bool-cases (is_bare (fs.desc m).entries)) [
            | inr full ↦ (
              false,
              fs,
              c4,
              rw (got, same, free, empty, full) refl,
              h4,
              rw (free, full) (refl, refl),
            )
            | inl bare ↦
                let r = frees e there free bare in
                let gone = drop_dir-at fs d last m r apart apart' c2 pl v linked inner dir bare in
                (
                  true,
                  removed_dir fs d last m r apart apart',
                  c4,
                  rw (got, same, free, empty, bare, gone) refl,
                  h4,
                  rw (free, bare) (refl, r, removed_dir-Removed fs d last m r apart apart'),
                )
          ]
    ]

remove_dir-at :
    (fs : Fs) (user : User) (c : Ino → ℕ) (d : Ino) (last : List ℕ)
    → IsSound fs
    → IsLinked fs
    → is_dir (fs.desc d).mode ≡ true
    → Plain last
    → up fs d last ≡ d
    → ((e : Dentry)
        → entry_of fs d last ≡ some e
        → is_kept_dir fs user d (landed fs (d.0, e.nr)) ≡ false
        → is_bare (fs.desc (landed fs (d.0, e.nr))).entries ≡ true
        → Frees fs (landed fs (d.0, e.nr)))
    → Held fs c (d ∷ [])
    → (ok : Bool) × (g : Fs) × (c' : Ino → ℕ) × (remove_dir user
          (some (place fs d last))
          (at_counts fs c)
        ≡ some (ok, at_counts g c'))
      × Held fs c' []
      × RmdirResult fs user (some (place fs d last)) ok g
unfolding remove_dir iput
remove_dir-at fs user c d last v linked dir pl self frees h =
    elim (Option-cases (entry_of fs d last)) [
      | inl missing ↦ (
        false,
        fs,
        λ j. if same_ino d j then sub32 (c j) 1 else c j,
        rw (missing, self) refl,
        put-Held fs c [] d h,
        rw missing (refl, refl),
      )
      | inr (e, there) ↦
          rw (there, self) (remove_dir-found fs user c d last e v linked dir pl self there frees h)
    ]

-- `sys_rmdir` for a path of directories and a last name other than `..`: it succeeds just if the
-- directories lead to one that the task may write, which has the name for another directory of the
-- same device that nobody uses, that is not kept for its owner by the sticky bit of the directory
-- around it, and that has `.` and `..` only. Then the name is gone, the directory around has one link
-- less, the inode has no blocks, entries and links, the bitmaps of its device are those where `bfree`
-- has freed its blocks and `ifree` the inode, and nothing else is changed. Otherwise the file system
-- is as it was. Under the conditions that follow no assert fails, and no reference to an inode is left
-- over or lost: the file system is sound, with the blocks of its directories there; the first
-- directory of the path is one; directories have two to 255 links, and two if they have `.` and `..`
-- only; and where a directory is removed, `bfree` takes its blocks and `ifree` its inode, and it has
-- no index blocks.
pub sys_rmdir-RmdirResult :
    (fs : Fs) (user : User) (c : ℕ) (left : List ℕ) (dirs : List (List ℕ × ℕ)) (last : List ℕ)
    → IsSound fs
    → IsLinked fs
    → IsGiven fs user c left dirs last
    → same_name last (b'.' ∷ b'.' ∷ []) ≡ false
    → ((d : Ino) (e : Dentry)
        → walk fs user dirs (first_dir user c) ≡ some d
        → entry_of fs d last ≡ some e
        → is_kept_dir fs user d (landed fs (d.0, e.nr)) ≡ false
        → is_bare (fs.desc (landed fs (d.0, e.nr))).entries ≡ true
        → Frees fs (landed fs (d.0, e.nr)))
    → (ok : Bool) × (g : Fs) × (c' : Ino → ℕ) × (sys_rmdir user (c ∷ left) fs
        ≡ some (ok, at_counts g c'))
      × Held fs c' []
      × RmdirResult fs user (target fs user any_dir dirs last (first_dir user c)) ok g
unfolding sys_rmdir remove_dir
sys_rmdir-RmdirResult fs user c left dirs last v linked given other frees =
    let start = first_dir user c in
    let (c1, run, h) = search_in_parent-Held fs user any_dir c left dirs last v given in
    elim (target-cases fs user any_dir dirs last start) [
      | inl lost ↦ (false, fs, c1, rw (run, lost) refl, rw lost at h, rw lost (refl, refl))
      | inr (d, way, may, there) ↦
          let self = up_self fs d last other in
          let h1 = rw (there, self) at h in
          let (ok, g, c2, two, h2, r) =
            remove_dir-at fs user c1 d last v linked (walk-dir fs user dirs start d given.first way)
              given.whole_last self (λ e. frees d e way) h1 in
          (ok, g, c2, rw (run, there) two, h2, rw there r)
    ]
