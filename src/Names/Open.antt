-- ===== src/Names/Open.antt =====
-- What `inode_open` of src/fs/namei.c does for a path, where the name exists or no file is asked for.
use neonix.Prelude.{
  ℕ, bit_and, ◌≡◌, refl, inl, inr, Bool, true, false, ◌&&◌, ◌||◌, not, Option, none, some, List, [],
  ◌∷◌, arith, ◌==◌, if◌then◌else◌, Bool-cases, Option-cases, get_or, take, replicate,
}
use neonix.Prelude.Words.{sub32}
use neonix.Names.{Dentry, Ino, same_ino, Fs, User, is_dir, permission, iput}
use neonix.Names.Counts.{Plain, Held, IsSound, landed, at_counts, put-Held, swap-Held, iget-Held}
use neonix.Names.Walk.{up, entry_of, walk, held_by, entry-le}
use neonix.Names.Paths.{walk-dir, first_dir, named-walk}
use neonix.Blocks.{Super}
use neonix.Names.Adding.{same_ino_self}
use neonix.Names.Changes.{is_file, set_desc, set_super, free_zones, inode_truncate}
use neonix.Names.Parent.{IsGiven, find_entry-last}
use neonix.Names.Dropped.{own_zones}
use neonix.Names.Creating.{
  o_creat, o_trunc, access, acc_mode, open_flag, open_inode, open_entry, open_in, inode_open,
}

-- Whether a task may open an inode.
abbrev pub opens : User → (flag : ℕ) → Fs → Ino → Bool
opens user flag fs m =
    permission user (fs.desc m) (acc_mode (access flag))
    && (not (is_dir (fs.desc m).mode) || access flag == 0)

-- The zones of an inode are in use, so that `bfree` takes them, and there are no index blocks.
pub record Empties (fs : Fs) (m : Ino) : Type 0 where
  pub direct : get_or (fs.desc m).zone 7 0 == 0 && get_or (fs.desc m).zone 8 0 == 0 ≡ true
  pub without_zones : Super
  pub zones : free_zones (own_zones fs m) (fs.super m.0) ≡ some without_zones

abbrev pub has_zones : Fs → Ino → Bool
has_zones fs m = is_file (fs.desc m).mode || is_dir (fs.desc m).mode

-- A file is empty, and its blocks are free on its device.
pub record Emptied (fs : Fs) (m : Ino) (r : Empties fs m) (g : Fs) : Type 0 where
  pub inner : g.desc m ≡ record (fs.desc m) {
    zone = if has_zones fs m then replicate 9 0 else (fs.desc m).zone;
    entries = if has_zones fs m then [] else (fs.desc m).entries;
  }
  pub others : (j : Ino) → same_ino m j ≡ false → g.desc j ≡ fs.desc j
  pub maps : (dev : ℕ) → g.super dev ≡ (if dev == m.0 then r.without_zones else fs.super dev)

-- The inode for a flag, which may have been emptied.
abbrev pub OpenedResult : User → (flag : ℕ) → (fs : Fs) → Ino → Option Ino → Fs → Type 0
OpenedResult user flag fs m found g =
    if opens user flag fs m
    then (found ≡ some m)
      × (if bit_and flag o_trunc == 0 then g ≡ fs else (r : Empties fs m) × Emptied fs m r g)
    else (found ≡ none) × (g ≡ fs)

-- The result in a directory for a last name, and the file system without a look at its counts.
abbrev pub OpenResult :
    Fs → User → (flag : ℕ) → (last : List ℕ) → Option Ino → Option Ino → Fs → Type 0
OpenResult fs user flag last none found g = (found ≡ none) × (g ≡ fs)
OpenResult fs user flag [] (some d) found g = (found ≡ some d) × (g ≡ fs)
OpenResult fs user flag (x ∷ last) (some d) found g = elim (entry_of fs d (x ∷ last)) [
  | none ↦ (found ≡ none) × (g ≡ fs)
  | some e ↦
      OpenedResult user (open_flag flag) fs (landed fs ((up fs d (x ∷ last)).0, e.nr)) found g
]

inode_truncate-Emptied :
    (fs : Fs) (m : Ino) (r : Empties fs m) (c : Ino → ℕ)
    → (g : Fs) × (inode_truncate m (at_counts fs c) ≡ some (at_counts g c)) × Emptied fs m r g
unfolding inode_truncate free_zones set_desc
inode_truncate-Emptied fs m r c = elim (Bool-cases (has_zones fs m)) [
  | inl plain ↦
      let zones : free_zones (take 7 (fs.desc m).zone) (fs.super m.0) ≡ some r.without_zones =
        rw plain at r.zones in
      (
        set_super m.0 r.without_zones
            (set_desc m (record (fs.desc m) { zone = replicate 9 0; entries = [] }) fs),
        rw (plain, r.direct, zones) refl,
        record {
          inner = rw (same_ino_self m, plain) refl;
          others = λ j not_m. rw not_m refl;
          maps = λ dev. refl;
        },
      )
  | inr bare ↦
      let kept : free_zones [] (fs.super m.0) ≡ some r.without_zones = rw bare at r.zones in
      let same : fs.super m.0 ≡ r.without_zones = cc in
      (
        fs,
        rw bare refl,
        record {
          inner = rw bare refl;
          others = λ j not_m. refl;
          maps = λ dev. elim (Bool-cases (dev == m.0)) [
            | inr away ↦ rw away refl
            | inl here ↦ (let e : dev ≡ m.0 = ground arith in rw (here, e) same)
          ];
        },
      )
]

open_inode-at :
    (fs : Fs) (user : User) (flag : ℕ) (c : Ino → ℕ) (dir m : Ino)
    → (opens user flag fs m ≡ true → (bit_and flag o_trunc == 0) ≡ false → Empties fs m)
    → Held fs c (m ∷ dir ∷ [])
    → (found : Option Ino) × (g : Fs) × (c' : Ino → ℕ) × OpenedResult user flag fs m found g
      × (open_inode user flag dir m (at_counts fs c) ≡ some (found, at_counts g c'))
      × Held fs c' (held_by found)
unfolding open_inode iput
open_inode-at fs user flag c dir m empties h =
    let c1 : Ino → ℕ = λ j. if same_ino dir j then sub32 (c j) 1 else c j in
    let h1 = put-Held fs c (m ∷ []) dir (swap-Held fs c [] m dir h) in
    let c2 : Ino → ℕ = λ j. if same_ino m j then sub32 (c1 j) 1 else c1 j in
    let q : Bool =
      not (permission user (fs.desc m) (acc_mode (access flag)))
      || (is_dir (fs.desc m).mode && not (access flag == 0)) in
    elim (Bool-cases (opens user flag fs m)) [
      | inl may ↦
          let good : q ≡ false = ground arith in
          elim (Bool-cases (bit_and flag o_trunc == 0)) [
            | inl keep ↦ (some m, fs, c1, rw (may, keep) (refl, refl), rw (good, keep) refl, h1)
            | inr cut ↦
                let r = empties may cut in
                let (g, run, done) = inode_truncate-Emptied fs m r c in
                (some m, g, c1, rw (may, cut) (refl, (r, done)), rw (good, cut, run) refl, h1)
          ]
      | inr no_ ↦
          let bad : q ≡ true = ground arith in
          (none, fs, c2, rw no_ (refl, refl), rw bad refl, put-Held fs c1 [] m h1)
    ]

open_in-at :
    (fs : Fs) (user : User) (flag mode : ℕ) (c : Ino → ℕ) (d : Ino) (last : List ℕ)
    → IsSound fs
    → (bit_and (open_flag flag) o_creat == 0) ≡ true
    → is_dir (fs.desc d).mode ≡ true
    → Plain last
    → ((e : Dentry)
        → entry_of fs d last ≡ some e
        → opens user (open_flag flag) fs (landed fs ((up fs d last).0, e.nr)) ≡ true
        → (bit_and (open_flag flag) o_trunc == 0) ≡ false
        → Empties fs (landed fs ((up fs d last).0, e.nr)))
    → Held fs c (d ∷ [])
    → (found : Option Ino) × (g : Fs) × (c' : Ino → ℕ) × OpenResult fs user flag last
        (some d)
        found
        g
      × (open_in user flag mode (some (d, last)) (at_counts fs c) ≡ some (found, at_counts g c'))
      × Held fs c' (held_by found)
unfolding open_in open_entry iput
open_in-at fs user flag mode c d [] v plain dir pl empties h =
    (some d, fs, c, (refl, refl), refl, h)
open_in-at fs user flag mode c d (x ∷ last) v plain dir pl empties h =
    let name : List ℕ = x ∷ last in
    let (c1, found, h1) = find_entry-last fs c [] d name v dir pl h in
    let up_ = up fs d name in
    elim (Option-cases (entry_of fs d name)) [
      | inl missing ↦ (
        none,
        fs,
        λ j. if same_ino up_ j then sub32 (c1 j) 1 else c1 j,
        rw (OpenResult, missing) (refl, refl),
        rw (found, missing, plain) refl,
        put-Held fs c1 [] up_ h1,
      )
      | inr (e, there) ↦
          let (c2, got, h2) =
            iget-Held fs c1 (up_ ∷ []) up_.0 e.nr v h1 (omega arith)
              (entry-le fs d name e v there) in
          let m = landed fs (up_.0, e.nr) in
          let (r, g, c3, result, run, h3) =
            open_inode-at fs user (open_flag flag) c2 up_ m (empties e there) h2 in
          (r, g, c3, rw (OpenResult, there) result, rw (found, there, got) run, h3)
    ]

-- `inode_open` for a path of directories and a last name, without O_CREAT: it gives the inode that
-- the last name has in the directory to which the others lead, or that directory where the last name
-- is empty, and holds a reference to it. It gives NULL, and holds none, if there is no such inode,
-- the task may not open it as the flag says, or it is a directory and the flag asks for writing. Just
-- a file that is opened with O_TRUNC is emptied: `bfree` has freed its blocks then. Nothing else
-- changes. Under the conditions that follow no assert fails: the file system is sound, with the
-- blocks of its directories there; the first directory of the path is one; and where the inode is
-- opened with O_TRUNC, `bfree` takes the blocks of its file, which has no index blocks.
pub inode_open-OpenResult :
    (fs : Fs) (user : User) (flag mode : ℕ) (c : ℕ) (left : List ℕ) (dirs : List (List ℕ × ℕ))
    (last : List ℕ)
    → IsSound fs
    → IsGiven fs user c left dirs last
    → (bit_and (open_flag flag) o_creat == 0) ≡ true
    → ((d : Ino) (e : Dentry)
        → walk fs user dirs (first_dir user c) ≡ some d
        → entry_of fs d last ≡ some e
        → opens user (open_flag flag) fs (landed fs ((up fs d last).0, e.nr)) ≡ true
        → (bit_and (open_flag flag) o_trunc == 0) ≡ false
        → Empties fs (landed fs ((up fs d last).0, e.nr)))
    → (found : Option Ino) × (g : Fs) × (c' : Ino → ℕ) × OpenResult fs user flag last
        (walk fs user dirs (first_dir user c))
        found
        g
      × (inode_open user (c ∷ left) flag mode fs ≡ some (found, at_counts g c'))
      × Held fs c' (held_by found)
unfolding inode_open open_in
inode_open-OpenResult fs user flag mode c left dirs last v given plain empties =
    let start = first_dir user c in
    let (c1, run, h) =
      named-walk fs user c left dirs last v given.first given.split given.whole_dirs
        given.whole_last in
    elim (Option-cases (walk fs user dirs start)) [
      | inl lost ↦ (none, fs, c1, rw lost (refl, refl), rw (run, lost) refl, rw lost at h)
      | inr (d, there) ↦
          let (r, g, c2, result, two, h2) =
            open_in-at fs user flag mode c1 d last v plain
              (walk-dir fs user dirs start d given.first there) given.whole_last
              (λ e. empties d e there) (rw there at h) in
          (r, g, c2, rw there result, rw (run, there) two, h2)
    ]
