-- ===== src/Names.antt =====
-- Paths in src/fs/namei.c, over the directories and inodes of src/fs/inode.c. A path is the list of its
-- characters up to the end, and a pointer into it the rest from there. An inode is its device and
-- number, a directory the list of its entries. `none` is a failed assert. Times, and the panic where
-- the table of inodes is full, are left out.
pub mod Counts
pub mod Changes
pub mod Entries
pub mod Parent
pub mod Links
pub mod Dropped
pub mod Unlink
pub mod Adding
pub mod Link
pub mod Restore
pub mod Creating
pub mod Open
pub mod Entered
pub mod Mkdir
pub mod Removing
pub mod Freed
pub mod Rmdir
pub mod Match
pub mod Walk
pub mod Paths
pub mod Namei
pub mod Tests
pub mod ChangeTests
pub mod RmdirTests
pub mod MkdirTests
use neonix.Prelude.{
  ℕ, zero, suc, ◌+◌, ◌/◌, ◌%◌, bit_and, Bool, true, false, ◌&&◌, ◌||◌, not, Option, none, some,
  List, [], ◌∷◌, ltb, leb, ◌==◌, if◌then◌else◌, length, get_or, ◌>>=◌, ◌>>◌, assert,
}
use neonix.Prelude.Words.{add32, sub32}
use neonix.Strings.{is_separator}
use neonix.Blocks.{Super}

-- `dentry_t`.
pub record Dentry : Type 0 where
  pub nr : ℕ
  pub name : List ℕ

-- What the functions read of `inode_desc_t`, and the entries of a directory, as many as `size` says.
pub record Desc : Type 0 where
  pub mode : ℕ
  pub uid : ℕ
  pub gid : ℕ
  pub nlinks : ℕ
  pub entries : List Dentry
  pub zone : List ℕ

-- An `inode_t`, by `dev` and `nr`.
abbrev pub Ino : Type 0
Ino = ℕ × ℕ

abbrev pub same_ino : Ino → Ino → Bool
same_ino i j = i.0 == j.0 && i.1 == j.1

-- The descriptors, `count` and `mount` of the inodes, 0 for an inode that is not in the table; the
-- bitmaps of the devices; and the number of inodes, `iroot` and `imount` of the super blocks.
pub record Fs : Type 0 where
  pub desc : Ino → Desc
  pub count : Ino → ℕ
  pub mount : Ino → Option ℕ
  pub super : ℕ → Super
  pub inodes : ℕ → ℕ
  pub iroot : ℕ → Ino
  pub imount : ℕ → Ino

-- What the functions use of the running task.
pub record User : Type 0 where
  pub uid : ℕ
  pub gid : ℕ
  pub umask : ℕ
  pub iroot : Ino
  pub ipwd : Ino

abbrev pub is_dir : ℕ → Bool
is_dir mode = bit_and mode 0xF000 == 0x4000

abbrev pub p_exec : ℕ
p_exec = 1

abbrev pub p_write : ℕ
p_write = 2

-- The bits of the class that the task belongs to.
unfoldable pub class_bits : User → Desc → ℕ
class_bits user d =
    if user.uid == d.uid then d.mode / 64 else if user.gid == d.gid then d.mode / 8 else d.mode

unfoldable pub permission : User → Desc → (mask : ℕ) → Bool
permission user d mask =
    if d.nlinks == 0
    then false
    else if user.uid == 0
    then true
    else bit_and (bit_and (class_bits user d) mask) 7 == mask

-- The rest behind the name and one separator, if the first part of the path is the entry's name.
unfoldable pub match_name : (name entry_name : List ℕ) → Option (List ℕ)
match_name [] [] = some []
match_name [] (r ∷ rhs) = none
match_name (l ∷ lhs) [] = if is_separator l then some lhs else none
match_name (l ∷ lhs) (r ∷ rhs) = let rest = match_name lhs rhs in if l == r then rest else none

unfoldable pub add_count : Ino → Fs → Fs
add_count i fs = record fs {
  count = λ j. if same_ino i j then add32 (fs.count j) 1 else fs.count j;
}

-- What `iput` does to the count.
unfoldable pub iput : Ino → Fs → Fs
iput i fs = record fs { count = λ j. if same_ino i j then sub32 (fs.count j) 1 else fs.count j }

unfoldable pub fit_inode : Ino → Fs → Ino × Fs
fit_inode i fs = elim (fs.mount i) [
  | none ↦ (i, fs)
  | some dev ↦ (fs.iroot dev, add_count (fs.iroot dev) (iput i fs))
]

-- An inode that is not in the table yet is read, and not replaced by what is mounted on it.
unfoldable pub iget : (dev nr : ℕ) → Fs → Option (Ino × Fs)
iget dev nr fs =
    if fs.count (dev, nr) == 0
    then (assert (leb nr (fs.inodes dev)) >> some ((dev, nr), add_count (dev, nr) fs))
    else some (fit_inode (dev, nr) (add_count (dev, nr) fs))

-- The loop of `find_entry`: the first entry in use whose name matches, and the rest of the path.
unfoldable pub find_in : (name : List ℕ) → List Dentry → Option (Dentry × List ℕ)
find_in name [] = none
find_in name (entry ∷ entries) =
    let rest = find_in name entries in
    elim (match_name name entry.name) [
      | none ↦ rest
      | some next ↦ if entry.nr == 0 then rest else some (entry, next)
    ]

abbrev pub is_some {ℓ} : {A : Type ℓ} → Option A → Bool
is_some none = false
is_some (some a) = true

-- At the root of a device, `..` is looked for in the directory that the device is mounted on.
unfoldable pub leave_root : Ino → (name : List ℕ) → Fs → Ino × Fs
leave_root dir name fs =
    if is_some (match_name name (b'.' ∷ b'.' ∷ [])) && dir.1 == 1
    then (fs.imount dir.0, iput dir (add_count (fs.imount dir.0) fs))
    else (dir, fs)

-- `bmap` of a block that is there. Blocks behind the direct ones are not in the model.
unfoldable pub has_block : (zone : List ℕ) → (block : ℕ) → Bool
has_block zone block = ltb block 7 && not (get_or zone block 0 == 0)

-- The asserts of the loop of `find_entry`, from the entry `i` on: the blocks that it reads are there,
-- each with 64 entries.
unfoldable pub reads : (zone name : List ℕ) → (i : ℕ) → List Dentry → Bool
reads zone name i [] = true
reads zone name i (entry ∷ entries) =
    let rest = reads zone name (i + 1) entries in
    (if i % 64 == 0 then has_block zone (i / 64) else true)
    && (if is_some (match_name name entry.name) && not (entry.nr == 0) then true else rest)

-- The directory, which may be another one then, the entry with the rest of the path, and the inodes.
unfoldable pub find_entry :
    Ino → (name : List ℕ) → Fs → Option (Ino × Option (Dentry × List ℕ) × Fs)
find_entry dir name fs = do
  assert (is_dir (fs.desc dir).mode)
  let (dir', fs') = leave_root dir name fs
  assert (reads (fs'.desc dir').zone name 0 (fs'.desc dir').entries)
  some (dir', find_in name (fs'.desc dir').entries, fs')

-- `strrsep(left) + 1`: the rest behind the last separator.
unfoldable pub behind_last : List ℕ → Option (List ℕ)
behind_last [] = none
behind_last (c ∷ left) =
    let rest = behind_last left in
    if is_some rest then rest else if is_separator c then some left else none

-- The rest of a round of `named`: the entry's inode, if it is a directory to search in.
unfoldable pub enter_entry :
    User → Ino → Option (Dentry × List ℕ) → Fs → Option (Option (Ino × List ℕ) × Fs)
enter_entry user dir none fs = some (none, iput dir fs)
enter_entry user dir (some (entry, next)) fs = do
  (inode, fs2) ← iget dir.0 entry.nr (iput dir fs)
  if not (is_dir (fs2.desc inode).mode) || not (permission user (fs2.desc inode) p_exec)
      then some (none, iput inode fs2)
      else some (some (inode, next), fs2)

-- `right == *next`, where both point into the path.
unfoldable pub arrived :
    (right : List ℕ)
    → (Ino → List ℕ → Fs → Option (Option (Ino × List ℕ) × Fs))
    → Option (Ino × List ℕ)
    → Fs
    → Option (Option (Ino × List ℕ) × Fs)
arrived right again none fs = some (none, fs)
arrived right again (some (inode, next)) fs =
    let rest = again inode next fs in
    if length right == length next then some (some (inode, next), fs) else rest

-- The loop of `named`, with fuel: the directory behind the last separator, and what follows.
unfoldable pub named_from :
    (fuel : ℕ)
    → User
    → (right : List ℕ) → Ino
    → (left : List ℕ) → Fs
    → Option (Option (Ino × List ℕ) × Fs)
named_from zero user right inode left fs = none
named_from (suc fuel) user right inode left fs = do
  (dir, found, fs1) ← find_entry inode left fs
  (entered, fs2) ← enter_entry user dir found fs1
  arrived right (named_from fuel user right) entered fs2

-- `named` behind the choice of the first directory.
unfoldable pub named_at : User → Ino → (left : List ℕ) → Fs → Option (Option (Ino × List ℕ) × Fs)
named_at user inode left fs = elim (behind_last left) [
  | none ↦ some (some (inode, left), add_count inode fs)
  | some right ↦ named_from (length left) user right inode left (add_count inode fs)
]

unfoldable pub named : User → (pathname : List ℕ) → Fs → Option (Option (Ino × List ℕ) × Fs)
named user [] fs = some (none, fs)
named user (c ∷ left) fs =
    if is_separator c
    then named_at user user.iroot left fs
    else named_at user user.ipwd (c ∷ left) fs

-- The end of `namei`.
unfoldable pub get_entry : Ino → Option (Dentry × List ℕ) → Fs → Option (Option Ino × Fs)
get_entry dir none fs = some (none, iput dir fs)
get_entry dir (some (entry, next)) fs = do
  (inode, fs2) ← iget dir.0 entry.nr fs
  some (some inode, iput dir fs2)

-- `namei` behind `named`.
unfoldable pub namei_in : Option (Ino × List ℕ) → Fs → Option (Option Ino × Fs)
namei_in none fs = some (none, fs)
namei_in (some (dir, [])) fs = some (some dir, fs)
namei_in (some (dir, c ∷ name)) fs = do
  (dir', found, fs1) ← find_entry dir (c ∷ name) fs
  get_entry dir' found fs1

unfoldable pub namei : User → (pathname : List ℕ) → Fs → Option (Option Ino × Fs)
namei user pathname fs = do (parent, fs1) ← named user pathname fs; namei_in parent fs1
