-- ===== src/Names/Link.antt =====
-- What `sys_link` of src/fs/namei.c does for two paths.
use neonix.Prelude.{
  ℕ, ◌+◌, ◌^◌, ◌≤◌, ◌<◌, ◌≡◌, refl, inl, inr, Bool, true, false, Option, none, some, List, [], ◌∷◌,
  arith, ◌==◌, if◌then◌else◌, Bool-cases, Option-cases, length, ◌>>=◌,
}
use neonix.Prelude.Words.{sub32}
use neonix.Names.{Ino, same_ino, Fs, User, is_dir, iput}
use neonix.Names.Counts.{Plain, Held, IsSound, at_counts, put-Held, swap-Held}
use neonix.Names.Match.{same_name}
use neonix.Names.Walk.{entry_of, walk}
use neonix.Names.Paths.{walk-dir, first_dir}
use neonix.Names.Namei.{final, namei-walk}
use neonix.Names.Changes.{set_desc, set_entries, more_links, set_nr}
use neonix.Names.Entries.{enlist}
use neonix.Names.Adding.{has_room, set_entries-at, up_self, add_entry-enlist, target-at_counts}
use neonix.Names.Parent.{
  IsGiven, Target, place, target-cases, target, held_dir, search_in_parent-Held,
}
use neonix.Names.Links.{link_entry, link_to, sys_link}

abbrev pub same_dev : Ino → Ino → Bool
same_dev m dir = dir.0 == m.0

-- A name in a directory is given to an inode.
abbrev pub linked : Fs → Ino → (c : List ℕ) → Ino → Fs
linked fs dir c m = more_links m (set_entries dir (enlist c m.1 (fs.desc dir).entries) fs)

unfoldable pub new_name_result : Fs → Ino → Option Target → Bool × Fs
new_name_result fs m none = (false, fs)
new_name_result fs m (some (dir, c, none)) = (true, linked fs dir c m)
new_name_result fs m (some (dir, c, some found)) = (false, fs)

-- The result for an inode and the place of the new name, and the file system without a look at its
-- counts.
unfoldable pub link_result : Fs → Option Ino → (Ino → Option Target) → Bool × Fs
link_result fs none new = (false, fs)
link_result fs (some m) new =
    if is_dir (fs.desc m).mode then (false, fs) else new_name_result fs m (new m)

-- References that are taken one after the other.
Held-trans :
    (fs : Fs) (c c' : Ino → ℕ) (m : Ino) (l : List Ino)
    → Held fs c (m ∷ [])
    → Held (at_counts fs c) c' l
    → Held fs c' (m ∷ l)
Held-trans fs c c' m l h h' j = omega (arith, h j, h' j)

-- A held inode leaves the file system sound.
Held-IsSound :
    (fs : Fs) (c : Ino → ℕ) (m : Ino)
    → IsSound fs
    → ((j : Ino) → fs.count j + 1 < 2 ^ 31)
    → Held fs c (m ∷ [])
    → IsSound (at_counts fs c)
Held-IsSound fs c m v roomy h = record {
  counts = λ j.
      (let e = h j in
        let r = roomy j in
        elim (Bool-cases (same_ino m j)) [
          | inl same ↦ omega (arith, r, rw same at e)
          | inr other ↦ omega (arith, r, rw other at e)
        ]);
  mounted = λ j dev over.
      (let e = h j in
        let r = roomy j in
        let p = v.mounted j dev over in
        elim (Bool-cases (same_ino m j)) [
          | inl same ↦ omega (arith, r, p, rw same at e)
          | inr other ↦ omega (arith, r, p, rw other at e)
        ]);
  numbers = v.numbers;
  names = v.names;
  blocks = v.blocks;
}

more_links-at :
    (m : Ino) (fs : Fs) (c : Ino → ℕ)
    → more_links m (at_counts fs c) ≡ at_counts (more_links m fs) c
unfolding more_links set_desc
more_links-at m fs c = refl

-- The end of `sys_link`.
link_entry-at :
    (fs : Fs) (c : Ino → ℕ) (m d : Ino) (last : List ℕ)
    → IsSound fs
    → is_dir (fs.desc d).mode ≡ true
    → Plain last
    → length last ≤ 13
    → same_name last (b'.' ∷ b'.' ∷ []) ≡ false
    → has_room fs d ≡ true
    → Held fs c (m ∷ d ∷ [])
    → (c' : Ino → ℕ) × (link_entry m (some (place fs d last)) (at_counts fs c)
        ≡ some (
          (new_name_result fs m (some (place fs d last))).0,
          at_counts (new_name_result fs m (some (place fs d last))).1 c',
        ))
      × Held fs c' []
unfolding link_entry new_name_result iput
link_entry-at fs c m d last v dir pl fits other room h =
    let self = up_self fs d last other in
    elim (Option-cases (entry_of fs d last)) [
      | inr (e, found) ↦
          let c1 : Ino → ℕ = λ j. if same_ino m j then sub32 (c j) 1 else c j in
          (
            λ j. if same_ino d j then sub32 (c1 j) 1 else c1 j,
            rw (found, self) refl,
            put-Held fs c1 [] d (put-Held fs c (d ∷ []) m h),
          )
      | inl missing ↦
          let (c1, k, g, added, stored, h1) =
            add_entry-enlist fs c (m ∷ []) d last v dir pl fits other missing room
              (swap-Held fs c [] m d h) in
          let c2 : Ino → ℕ = λ j. if same_ino m j then sub32 (c1 j) 1 else c1 j in
          let es = set_nr k m.1 (g.desc d).entries in
          (
            λ j. if same_ino d j then sub32 (c2 j) 1 else c2 j,
            rw
                (
                  missing,
                  self,
                  added,
                  set_entries-at d es g c1,
                  more_links-at m (set_entries d es g) c1,
                  stored m.1,
                )
                refl,
            put-Held fs c2 [] d (put-Held fs c1 (d ∷ []) m (swap-Held fs c1 [] d m h1)),
          )
    ]

-- `sys_link` behind the search for the old name.
link_to-at :
    (fs : Fs) (user : User) (c : Ino → ℕ) (m : Ino) (x : ℕ) (left : List ℕ)
    (dirs : List (List ℕ × ℕ)) (last : List ℕ)
    → IsSound fs
    → ((j : Ino) → fs.count j + 1 < 2 ^ 31)
    → IsGiven fs user x left dirs last
    → length last ≤ 13
    → same_name last (b'.' ∷ b'.' ∷ []) ≡ false
    → ((d : Ino) → walk fs user dirs (first_dir user x) ≡ some d → has_room fs d ≡ true)
    → Held fs c (m ∷ [])
    → let r =
        link_result fs (some m) (λ m. target fs user (same_dev m) dirs last (first_dir user x)) in
      (c' : Ino → ℕ) × (link_to user (some m) (x ∷ left) (at_counts fs c)
        ≡ some (r.0, at_counts r.1 c'))
      × Held fs c' []
unfolding link_to link_result link_entry new_name_result iput
link_to-at fs user c m x left dirs last v roomy given fits other room h =
    let start = first_dir user x in
    let (c1, run, h1) =
      search_in_parent-Held (at_counts fs c) user (same_dev m) x left dirs last
        (Held-IsSound fs c m v roomy h)
        (record {
          first = given.first;
          split = given.split;
          whole_dirs = given.whole_dirs;
          whole_last = given.whole_last;
        }) in
    let at = target-at_counts fs c user (same_dev m) dirs last start in
    let run' = rw at at run in
    let h2 =
      Held-trans fs c c1 m (held_dir (target fs user (same_dev m) dirs last start)) h
        (rw at at h1) in
    elim (Bool-cases (is_dir (fs.desc m).mode)) [
      | inl dir ↦
          (λ j. if same_ino m j then sub32 (c j) 1 else c j, rw dir refl, put-Held fs c [] m h)
      | inr file ↦ elim (target-cases fs user (same_dev m) dirs last start) [
        | inl lost ↦ (
          λ j. if same_ino m j then sub32 (c1 j) 1 else c1 j,
          rw (file, run', lost) refl,
          put-Held fs c1 [] m (rw lost at h2),
        )
        | inr (d, way, ok, there) ↦
            let (c2, two, h3) =
              link_entry-at fs c1 m d last v (walk-dir fs user dirs start d given.first way)
                given.whole_last fits other (room d way)
                (rw (up_self fs d last other) at (rw there at h2)) in
            (c2, rw (file, run', there) two, h3)
      ]
    ]

-- `sys_link` for two paths of directories and a last name: it succeeds just if the old one leads to
-- an inode that is no directory, and the directories of the new one to a directory of the same
-- device that the task may write and that does not have the name. Then the first free entry of that
-- directory, or one more, has the name and the number of the inode, which has one link more,
-- modulo 256. Otherwise the file system is as it was. Under the conditions that follow no assert
-- fails, and no reference to an inode is left over or lost in any case: the file system is sound,
-- with the blocks of its directories there; the first directories of the paths are directories; no
-- count is near its end; the new name is not `..` and has at most 13 characters; and the directory
-- of the new name needs no new block.
pub sys_link-link_result :
    (fs : Fs) (user : User) (y : ℕ) (old : List ℕ) (dirs' : List (List ℕ × ℕ)) (last' : List ℕ)
    (x : ℕ) (new : List ℕ) (dirs : List (List ℕ × ℕ)) (last : List ℕ)
    → IsSound fs
    → ((j : Ino) → fs.count j + 1 < 2 ^ 31)
    → IsGiven fs user y old dirs' last'
    → IsGiven fs user x new dirs last
    → length last ≤ 13
    → same_name last (b'.' ∷ b'.' ∷ []) ≡ false
    → ((d : Ino) → walk fs user dirs (first_dir user x) ≡ some d → has_room fs d ≡ true)
    → let r =
        link_result fs
          (walk fs user dirs' (first_dir user y) >>= final fs last')
          (λ m. target fs user (same_dev m) dirs last (first_dir user x)) in
      (c' : Ino → ℕ) × (sys_link user (y ∷ old) (x ∷ new) fs ≡ some (r.0, at_counts r.1 c'))
      × Held fs c' []
unfolding sys_link link_to link_result
sys_link-link_result fs user y old dirs' last' x new dirs last v roomy given' given fits other
      room =
    let from = walk fs user dirs' (first_dir user y) >>= final fs last' in
    let (c, found, h) =
      namei-walk fs user y old dirs' last' v given'.first given'.split given'.whole_dirs
        given'.whole_last in
    elim (Option-cases from) [
      | inl missing ↦ (c, rw (found, missing) refl, rw missing at h)
      | inr (m, there) ↦
          let (c1, run, h1) =
            link_to-at fs user c m x new dirs last v roomy given fits other room (rw there at h) in
          (c1, rw (found, there) run, h1)
    ]
