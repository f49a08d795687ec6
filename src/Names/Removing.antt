-- ===== src/Names/Removing.antt =====
-- `sys_rmdir` of src/fs/namei.c.
use neonix.Prelude.{
  ℕ, ◌+◌, ◌/◌, ◌%◌, Bool, true, false, ◌&&◌, ◌||◌, not, Option, none, some, List, [], ◌∷◌, ltb,
  ◌==◌, if◌then◌else◌, length, get_or, ◌>>=◌, ◌>>◌, assert,
}
use neonix.Names.{has_block, Dentry, Ino, same_ino, Fs, User, is_dir, iput, iget}
use neonix.Names.Changes.{
  is_sticky, set_desc, set_entries, less_links, ifree_in, inode_truncate, entry_index, set_nr,
  search_in_parent, any_dir,
}

-- The loop of `is_empty`: how many entries are in use.
unfoldable pub used_entries : List Dentry → ℕ
used_entries [] = 0
used_entries (entry ∷ entries) = (if entry.nr == 0 then 0 else 1) + used_entries entries

-- The asserts of the loop of `is_empty`, from the entry `i` on.
unfoldable pub reads_all : (zone : List ℕ) → (i : ℕ) → List Dentry → Bool
reads_all zone i [] = true
reads_all zone i (entry ∷ entries) =
    (if i % 64 == 0 then has_block zone (i / 64) else true) && reads_all zone (i + 1) entries

unfoldable pub is_empty : Ino → Fs → Option Bool
is_empty i fs = do
  assert (is_dir (fs.desc i).mode)
  let d = fs.desc i
  if ltb (length d.entries) 2 || get_or d.zone 0 0 == 0
      then some false
      else do assert (reads_all d.zone 0 d.entries); some (used_entries d.entries == 2)

-- The end of `sys_rmdir` for an empty directory: its inode is freed, and its entry.
unfoldable pub drop_dir : (dir : Ino) (name : List ℕ) (inode : Ino) → Fs → Option Fs
drop_dir dir name inode fs = do
  assert ((fs.desc inode).nlinks == 2)
  fs1 ← inode_truncate inode fs >>= ifree_in inode
  let fs2 = less_links dir (set_desc inode (record (fs1.desc inode) { nlinks = 0 }) fs1)
  assert (ltb 0 (fs2.desc dir).nlinks)
  let entries = (fs2.desc dir).entries
  some (set_entries dir (set_nr (entry_index name entries) 0 entries) fs2)

-- Whether `sys_rmdir` refuses to remove an inode.
unfoldable pub refuses : User → (dir inode : Ino) → Fs → Bool
refuses user dir inode fs =
    same_ino inode dir
    || not (is_dir (fs.desc inode).mode)
    || (is_sticky (fs.desc dir).mode && not (user.uid == (fs.desc inode).uid))
    || not (dir.0 == inode.0)
    || ltb 1 (fs.count inode)

unfoldable pub remove_dir :
    User → Option (Ino × List ℕ × Option (Dentry × List ℕ)) → Fs → Option (Bool × Fs)
remove_dir user none fs = some (false, fs)
remove_dir user (some (dir, name, none)) fs = some (false, iput dir fs)
remove_dir user (some (dir, name, some (entry, next))) fs = do
  (inode, fs1) ← iget dir.0 entry.nr fs
  if refuses user dir inode fs1 then some (false, iput dir (iput inode fs1)) else do
    empty ← is_empty inode fs1
    if not empty
        then some (false, iput dir (iput inode fs1))
        else do fs2 ← drop_dir dir name inode fs1; some (true, iput dir (iput inode fs2))

unfoldable pub sys_rmdir : User → (pathname : List ℕ) → Fs → Option (Bool × Fs)
sys_rmdir user pathname fs = do
  (found, fs1) ← search_in_parent user any_dir pathname fs
  remove_dir user found fs1
