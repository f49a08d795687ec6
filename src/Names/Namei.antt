-- ===== src/Names/Namei.antt =====
-- The inode that `namei` of src/fs/namei.c gives for a path.
use mathlib.Core.Path.{subst}
use neonix.Prelude.{
  ℕ, ◌≡◌, refl, inl, inr, true, Option, some, List, [], ◌∷◌, append-nil, arith, if◌then◌else◌,
  Option-cases, ◌>>=◌,
}
use neonix.Prelude.Words.{sub32}
use neonix.Names.{Ino, same_ino, Fs, User, is_dir, iput, find_entry, get_entry, namei_in, namei}
use neonix.Names.Counts.{Plain, Held, IsSound, landed, at_counts, put-Held, swap-Held, iget-Held}
use neonix.Names.Match.{with_rest, path_of, IsPath}
use neonix.Names.Walk.{up, entry_of, child, walk, held_by, find_entry-Held, entry-le}
use neonix.Names.Paths.{walk-dir, first_dir, after_root, named-walk}

-- The inode for the last name; with no last name, the directory itself.
unfoldable pub final : Fs → (last : List ℕ) → Ino → Option Ino
final fs [] i = some i
final fs (c ∷ last) i = child fs i (c ∷ last)

namei_in-final :
    (fs : Fs) (c : Ino → ℕ) (i : Ino) (last : List ℕ)
    → IsSound fs
    → is_dir (fs.desc i).mode ≡ true
    → Plain last
    → Held fs c (i ∷ [])
    → (c' : Ino → ℕ) × (namei_in (some (i, last)) (at_counts fs c)
        ≡ some (final fs last i, at_counts fs c'))
      × Held fs c' (held_by (final fs last i))
unfolding namei_in final get_entry child iput
namei_in-final fs c i [] v dir pl h = (c, refl, h)
namei_in-final fs c i (x ∷ last) v dir pl h =
    let (c1, found, h1) = find_entry-Held fs c [] i (x ∷ last) [] v dir pl tt h in
    let found' =
      subst
        (λ q.
          find_entry i q (at_counts fs c)
          ≡ some (up fs i (x ∷ last), with_rest [] (entry_of fs i (x ∷ last)), at_counts fs c1))
        (append-nil (x ∷ last)) found in
    let k = up fs i (x ∷ last) in
    elim (Option-cases (entry_of fs i (x ∷ last))) [
      | inl missing ↦ (
        λ j. if same_ino k j then sub32 (c1 j) 1 else c1 j,
        rw (found', missing) refl,
        rw missing (put-Held fs c1 [] k h1),
      )
      | inr (e, there) ↦
          let (c2, got, h2) =
            iget-Held fs c1 (k ∷ []) k.0 e.nr v h1 (omega arith)
              (entry-le fs i (x ∷ last) e v there) in
          let m = landed fs (k.0, e.nr) in
          (
            λ j. if same_ino k j then sub32 (c2 j) 1 else c2 j,
            rw (found', there, got) refl,
            rw there (put-Held fs c2 (m ∷ []) k (swap-Held fs c2 [] m k h2)),
          )
    ]

-- `namei` gives the inode that a path leads to by whole names, or NULL if there is none, and keeps
-- a reference to that inode only. No assert fails where the file system is sound, which says that the
-- numbers of entries are at most the number of inodes of the device, that their names are whole, and
-- that the blocks of directories are there, that no count of references is near its end, and that
-- something is mounted only on inodes in use; and where the first directory of the path is one.
pub namei-walk :
    (fs : Fs) (user : User) (c : ℕ) (left : List ℕ) (dirs : List (List ℕ × ℕ)) (last : List ℕ)
    → IsSound fs
    → is_dir (fs.desc (first_dir user c)).mode ≡ true
    → after_root c left ≡ path_of dirs last
    → IsPath dirs
    → Plain last
    → (c' : Ino → ℕ) × (namei user (c ∷ left) fs
        ≡ some (walk fs user dirs (first_dir user c) >>= final fs last, at_counts fs c'))
      × Held fs c' (held_by (walk fs user dirs (first_dir user c) >>= final fs last))
unfolding namei namei_in
namei-walk fs user c left dirs last v dir e p pl =
    let start = first_dir user c in
    let (c1, run, h) = named-walk fs user c left dirs last v dir e p pl in
    elim (Option-cases (walk fs user dirs start)) [
      | inl lost ↦ (c1, rw (run, lost) refl, rw lost (rw lost at h))
      | inr (i, there) ↦
          let (c2, run', h') =
            namei_in-final fs c1 i last v (walk-dir fs user dirs start i dir there) pl
              (rw there at h) in
          (c2, rw (run, there) run', rw there h')
    ]
