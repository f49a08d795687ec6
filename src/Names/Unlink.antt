-- ===== src/Names/Unlink.antt =====
-- What `sys_unlink` of src/fs/namei.c does for a path.
use neonix.Prelude.{
  ℕ, ◌≡◌, refl, inl, inr, Bool, true, false, ◌&&◌, ◌||◌, not, Option, none, some, List, [], ◌∷◌,
  arith, ◌==◌, if◌then◌else◌, Bool-cases, Option-cases,
}
use neonix.Prelude.Words.{sub32}
use neonix.Names.{Dentry, Ino, same_ino, Fs, User, is_dir, iput}
use neonix.Names.Counts.{Plain, Held, IsSound, landed, at_counts, put-Held, iget-Held}
use neonix.Names.Match.{same_name}
use neonix.Names.Walk.{entry_of, walk, entry-le}
use neonix.Names.Paths.{walk-dir, first_dir}
use neonix.Names.Changes.{is_sticky, any_dir}
use neonix.Names.Adding.{up_self}
use neonix.Names.Entries.{set_nr-entry_index}
use neonix.Names.Parent.{IsGiven, Target, place, target-cases, target, search_in_parent-Held}
use neonix.Names.Links.{unlink_entry, sys_unlink}
use neonix.Names.Dropped.{Releases, Unlinked, other_kind, same_ino_swap, drop_link-Dropped}

-- Whether a task may not remove a name of an inode.
abbrev pub is_fixed : Fs → User → Ino → Bool
is_fixed fs user m =
    is_dir (fs.desc m).mode || (is_sticky (fs.desc m).mode && not (user.uid == (fs.desc m).uid))

-- What becomes of the file system, without a look at its counts.
abbrev pub UnlinkResult : (fs : Fs) → User → Option Target → Bool → Fs → Type 0
UnlinkResult fs user none ok g = (ok ≡ false) × (g ≡ fs)
UnlinkResult fs user (some (d, c, none)) ok g = (ok ≡ false) × (g ≡ fs)
UnlinkResult fs user (some (d, c, some (e, next))) ok g =
    let m = landed fs (d.0, e.nr) in
    if is_fixed fs user m
    then (ok ≡ false) × (g ≡ fs)
    else (ok ≡ true) × (r : Releases fs m) × Unlinked fs d c m r g

unlink_entry-at :
    (fs : Fs) (user : User) (c : Ino → ℕ) (d : Ino) (last : List ℕ)
    → IsSound fs
    → is_dir (fs.desc d).mode ≡ true
    → Plain last
    → same_name last (b'.' ∷ b'.' ∷ []) ≡ false
    → ((e : Dentry)
        → entry_of fs d last ≡ some e
        → is_fixed fs user (landed fs (d.0, e.nr)) ≡ false
        → Releases fs (landed fs (d.0, e.nr)))
    → Held fs c (d ∷ [])
    → (ok : Bool) × (g : Fs) × (c' : Ino → ℕ) × UnlinkResult fs user (some (place fs d last)) ok g
      × (unlink_entry user (some (place fs d last)) (at_counts fs c) ≡ some (ok, at_counts g c'))
      × Held fs c' []
unfolding unlink_entry iput
unlink_entry-at fs user c d last v dir pl other frees h =
    let self = up_self fs d last other in
    elim (Option-cases (entry_of fs d last)) [
      | inl missing ↦ (
        false,
        fs,
        λ j. if same_ino d j then sub32 (c j) 1 else c j,
        rw (self, missing) (refl, refl),
        rw (self, missing) refl,
        put-Held fs c [] d h,
      )
      | inr (e, there) ↦
          let (c2, got, h2) =
            iget-Held fs c (d ∷ []) d.0 e.nr v h (omega arith)
              (rw self at (entry-le fs d last e v there)) in
          let m = landed fs (d.0, e.nr) in
          let c3 : Ino → ℕ = λ j. if same_ino m j then sub32 (c2 j) 1 else c2 j in
          let c4 : Ino → ℕ = λ j. if same_ino d j then sub32 (c3 j) 1 else c3 j in
          let h4 : Held fs c4 [] = put-Held fs c3 [] d (put-Held fs c2 (d ∷ []) m h2) in
          elim (Bool-cases (is_fixed fs user m)) [
            | inl fixed ↦ (
              false,
              fs,
              c4,
              rw (self, there, fixed) (refl, refl),
              rw (self, there, got, fixed) refl,
              h4,
            )
            | inr free ↦
                let file : is_dir (fs.desc m).mode ≡ false = ground arith in
                let apart = other_kind fs m d file dir in
                let r = frees e there free in
                let (g, run, result) =
                  drop_link-Dropped fs d last m file apart (same_ino_swap m d apart) r c2 in
                (
                  true,
                  g,
                  c4,
                  rw (self, there, free) (refl, r, result),
                  rw
                      (
                        self,
                        there,
                        got,
                        free,
                        set_nr-entry_index last (fs.desc d).entries pl (v.names d),
                        run,
                      )
                      refl,
                  h4,
                )
          ]
    ]

-- `sys_unlink`, where a path consists of directories and a last name: it succeeds just if the
-- directories lead to one that the task may write, which has the name, for an inode that is no
-- directory and that is not kept for its owner by its sticky bit. Then the first entry of that name
-- is freed, and the inode has one link less, modulo 256; with none left, the bitmaps of its device
-- are those where `bfree` has freed the blocks of a file and `ifree` the inode, and a file is empty.
-- Nothing else changes. Otherwise the file system is as it was. Under the conditions that follow no
-- assert fails, and no reference to an inode is left over or lost in any case: the file system is
-- sound, with the blocks of its directories there; the first directory of the path is one; the last
-- name is not `..`; and where a name is removed, `bfree` takes the blocks of the inode's file, which
-- has no index blocks, and `ifree` the inode.
pub sys_unlink-UnlinkResult :
    (fs : Fs) (user : User) (c : ℕ) (left : List ℕ) (dirs : List (List ℕ × ℕ)) (last : List ℕ)
    → IsSound fs
    → IsGiven fs user c left dirs last
    → same_name last (b'.' ∷ b'.' ∷ []) ≡ false
    → ((d : Ino) (e : Dentry)
        → walk fs user dirs (first_dir user c) ≡ some d
        → entry_of fs d last ≡ some e
        → is_fixed fs user (landed fs (d.0, e.nr)) ≡ false
        → Releases fs (landed fs (d.0, e.nr)))
    → (ok : Bool) × (g : Fs) × (c' : Ino → ℕ) × UnlinkResult fs user
        (target fs user any_dir dirs last (first_dir user c))
        ok
        g
      × (sys_unlink user (c ∷ left) fs ≡ some (ok, at_counts g c'))
      × Held fs c' []
unfolding sys_unlink unlink_entry
sys_unlink-UnlinkResult fs user c left dirs last v given other frees =
    let start = first_dir user c in
    let (c1, run, h) = search_in_parent-Held fs user any_dir c left dirs last v given in
    elim (target-cases fs user any_dir dirs last start) [
      | inl lost ↦ (false, fs, c1, rw lost (refl, refl), rw (run, lost) refl, rw lost at h)
      | inr (d, way, ok, there) ↦
          let (done, g, c2, result, run', h2) =
            unlink_entry-at fs user c1 d last v (walk-dir fs user dirs start d given.first way)
              given.whole_last other (λ e. frees d e way)
              (rw (up_self fs d last other) at (rw there at h)) in
          (done, g, c2, rw there result, rw (run, there) run', h2)
    ]
