-- ===== src/Names/Changes.antt =====
-- The functions of src/fs/namei.c that change directories, with `bmap` of src/fs/bmap.c
-- for the direct blocks, over the allocator of Blocks, and `new_inode` and `inode_truncate` of
-- src/fs/inode.c. A system call
-- gives whether it has succeeded: true for 0, and false for EOF.
use neonix.Prelude.{
  ℕ, zero, suc, ◌+◌, ◌-◌, ◌/◌, ◌%◌, ◌^◌, bit_and, Bool, true, false, ◌&&◌, ◌||◌, not, Option, none,
  some, List, [], ◌∷◌, ltb, ◌==◌, if◌then◌else◌, get_or, set, take, replicate, ◌>>=◌, ◌>>◌, assert,
}
use neonix.Strings.{is_separator}
use neonix.Blocks.{Super, balloc, bfree, ialloc, ifree}
use neonix.Names.{
  has_block, Dentry, Desc, Ino, same_ino, Fs, User, is_dir, p_write, permission, match_name, iput,
  iget, find_entry, named, is_some,
}

unfoldable pub set_desc : Ino → Desc → Fs → Fs
set_desc i d fs = record fs { desc = λ j. if same_ino i j then d else fs.desc j }

abbrev pub is_file : (mode : ℕ) → Bool
is_file mode = bit_and mode 0xF000 == 0x8000

abbrev pub is_sticky : (mode : ℕ) → Bool
is_sticky mode = not (bit_and mode 0x200 == 0)

unfoldable pub set_entries : Ino → List Dentry → Fs → Fs
set_entries i entries fs = set_desc i (record (fs.desc i) { entries = entries }) fs

-- `nlinks` is a byte.
unfoldable pub more_links : Ino → Fs → Fs
more_links i fs = set_desc i (record (fs.desc i) { nlinks = ((fs.desc i).nlinks + 1) % 256 }) fs

unfoldable pub less_links : Ino → Fs → Fs
less_links i fs = set_desc i (record (fs.desc i) { nlinks = ((fs.desc i).nlinks + 255) % 256 }) fs

abbrev pub set_super : (dev : ℕ) → Super → Fs → Fs
set_super dev sb fs = record fs { super = λ k. if k == dev then sb else fs.super k }

abbrev pub ialloc_in : (dev : ℕ) → Fs → Option (ℕ × Fs)
ialloc_in dev fs = do (nr, sb) ← ialloc (fs.super dev); some (nr, set_super dev sb fs)

abbrev pub ifree_in : Ino → Fs → Option Fs
ifree_in i fs = do sb ← ifree (fs.super i.0) i.1; some (set_super i.0 sb fs)

-- `bmap` with `create`: the block, which is allocated where it is missing. Blocks behind the direct
-- ones are not in the model. A zone's number has 16 bits in an inode.
unfoldable pub bmap_create : Ino → (block : ℕ) → Fs → Option (ℕ × Fs)
bmap_create i block fs =
    let d = fs.desc i in
    if has_block d.zone block then some (get_or d.zone block 0, fs) else do
      assert (ltb block 7)
      (bit, sb) ← balloc (fs.super i.0)
      let number = bit % 2 ^ 16
      some (number, set_super i.0 sb (set_desc i (record d { zone = set d.zone block number }) fs))

-- `bfree` of all zones that are there.
unfoldable pub free_zones : List ℕ → Super → Option Super
free_zones [] sb = some sb
free_zones (zone ∷ zones) sb =
    if zone == 0 then free_zones zones sb else bfree sb zone >>= free_zones zones

-- A file with index blocks is not in the model.
unfoldable pub inode_truncate : Ino → Fs → Option Fs
inode_truncate i fs =
    let d = fs.desc i in
    if is_file d.mode || is_dir d.mode
    then (do
      assert (get_or d.zone 7 0 == 0 && get_or d.zone 8 0 == 0)
      sb ← free_zones (take 7 d.zone) (fs.super i.0)
      some (set_super i.0 sb (set_desc i (record d { zone = replicate 9 0; entries = [] }) fs)))
    else some fs

-- `mode & ~umask` of the nine bits of the permissions.
unfoldable pub masked : User → (mode : ℕ) → ℕ
masked user mode = bit_and (bit_and mode 511) (511 - bit_and user.umask 511)

unfoldable pub new_inode : User → (dev nr : ℕ) → Fs → Option (Ino × Fs)
new_inode user dev nr fs = do
  (inode, fs1) ← iget dev nr fs
  some (
    inode,
    set_desc inode
        (record (fs1.desc inode) {
          mode = masked user 511;
          uid = user.uid;
          gid = user.gid;
          nlinks = 1;
          entries = [];
        })
        fs1,
  )

-- Where `find_entry` has found the entry.
unfoldable pub entry_index : (name : List ℕ) → List Dentry → ℕ
entry_index name [] = 0
entry_index name (entry ∷ entries) =
    if is_some (match_name name entry.name) && not (entry.nr == 0)
    then 0
    else suc (entry_index name entries)

-- `entry->nr = nr`.
unfoldable pub set_nr : (k nr : ℕ) → List Dentry → List Dentry
set_nr k nr [] = []
set_nr zero nr (entry ∷ entries) = record entry { nr = nr } ∷ entries
set_nr (suc k) nr (entry ∷ entries) = entry ∷ set_nr k nr entries

-- What `strncpy` stores of a name.
unfoldable pub cut_name : List ℕ → List ℕ
cut_name name = take 13 name

-- The loop of `add_entry`: the first entry that is not in use, or one more; and where it is.
unfoldable pub put_name : (name : List ℕ) → List Dentry → ℕ × List Dentry
put_name name [] = (0, record { nr = 0; name = cut_name name } ∷ [])
put_name name (entry ∷ entries) =
    let (k, rest) = put_name name entries in
    if entry.nr == 0
    then (0, record entry { name = cut_name name } ∷ entries)
    else (suc k, entry ∷ rest)

unfoldable pub no_separators : List ℕ → Bool
no_separators [] = true
no_separators (c ∷ name) = not (is_separator c) && no_separators name

-- The directory, and the place of the entry in it. `find_entry` has read the blocks before the one of
-- the entry.
unfoldable pub add_entry : Ino → (name : List ℕ) → Fs → Option (Ino × ℕ × Fs)
add_entry dir name fs = do
  (dir', found, fs1) ← find_entry dir name fs
  if is_some found then some (dir', entry_index name (fs1.desc dir').entries, fs1) else do
    assert (no_separators (take 14 name))
    let (k, entries) = put_name name (fs1.desc dir').entries
    (block, fs2) ← bmap_create dir' (k / 64) fs1
    assert (not (block == 0))
    some (dir', k, set_entries dir' entries fs2)

abbrev pub is_nil {ℓ} : {A : Type ℓ} → List A → Bool
is_nil [] = true
is_nil (a ∷ l) = false

-- The checks of a parent directory, of which `may` is the caller's own, and the search for the name
-- in it; or the rollback, which releases the directory.
unfoldable pub search_parent :
    User
    → (may : Ino → Bool) → Option (Ino × List ℕ)
    → Fs
    → Option (Option (Ino × List ℕ × Option (Dentry × List ℕ)) × Fs)
search_parent user may none fs = some (none, fs)
search_parent user may (some (dir, next)) fs =
    if is_nil next || not (may dir) || not (permission user (fs.desc dir) p_write)
    then some (none, iput dir fs)
    else do (dir', found, fs1) ← find_entry dir next fs; some (some (dir', next, found), fs1)

unfoldable pub search_in_parent :
    User
    → (may : Ino → Bool) → (pathname : List ℕ) → Fs
    → Option (Option (Ino × List ℕ × Option (Dentry × List ℕ)) × Fs)
search_in_parent user may pathname fs = do
  (parent, fs1) ← named user pathname fs
  search_parent user may parent fs1

abbrev pub any_dir : Ino → Bool
any_dir dir = true
