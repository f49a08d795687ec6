-- ===== src/Names/Links.antt =====
-- `sys_link` and `sys_unlink` of src/fs/namei.c.
use neonix.Prelude.{
  ℕ, Bool, true, false, ◌&&◌, ◌||◌, not, Option, none, some, List, ◌==◌, if◌then◌else◌, ◌>>=◌,
}
use neonix.Names.{Dentry, Ino, Fs, User, is_dir, iput, iget, namei}
use neonix.Names.Changes.{
  is_sticky, set_entries, more_links, less_links, ifree_in, inode_truncate, entry_index, set_nr,
  add_entry, search_in_parent, any_dir,
}

-- An inode without links is freed.
unfoldable pub drop_link : Ino → Fs → Option Fs
drop_link i fs = do
  let fs1 = less_links i fs
  if (fs1.desc i).nlinks == 0 then inode_truncate i fs1 >>= ifree_in i else some fs1

-- The end of `sys_unlink`: the entry of the directory is found or not.
unfoldable pub unlink_entry :
    User → Option (Ino × List ℕ × Option (Dentry × List ℕ)) → Fs → Option (Bool × Fs)
unlink_entry user none fs = some (false, fs)
unlink_entry user (some (dir, name, none)) fs = some (false, iput dir fs)
unlink_entry user (some (dir, name, some (entry, next))) fs = do
  (inode, fs1) ← iget dir.0 entry.nr fs
  let d = fs1.desc inode
  let entries = (fs1.desc dir).entries
  if is_dir d.mode || (is_sticky d.mode && not (user.uid == d.uid))
      then some (false, iput dir (iput inode fs1))
      else do
        fs2 ← drop_link inode (set_entries dir (set_nr (entry_index name entries) 0 entries) fs1)
        some (true, iput dir (iput inode fs2))

unfoldable pub sys_unlink : User → (filename : List ℕ) → Fs → Option (Bool × Fs)
sys_unlink user filename fs = do
  (found, fs1) ← search_in_parent user any_dir filename fs
  unlink_entry user found fs1

-- The end of `sys_link`: the new name is taken or not.
unfoldable pub link_entry :
    Ino → Option (Ino × List ℕ × Option (Dentry × List ℕ)) → Fs → Option (Bool × Fs)
link_entry inode none fs = some (false, iput inode fs)
link_entry inode (some (dir, name, some found)) fs = some (false, iput dir (iput inode fs))
link_entry inode (some (dir, name, none)) fs = do
  (at, k, fs1) ← add_entry dir name fs
  let fs2 = more_links inode (set_entries at (set_nr k inode.1 (fs1.desc at).entries) fs1)
  some (true, iput dir (iput inode fs2))

-- `sys_link` behind the search for the old name.
unfoldable pub link_to : User → Option Ino → (newname : List ℕ) → Fs → Option (Bool × Fs)
link_to user none newname fs = some (false, fs)
link_to user (some inode) newname fs =
    if is_dir (fs.desc inode).mode then some (false, iput inode fs) else do
      (found, fs1) ← search_in_parent user (λ dir. dir.0 == inode.0) newname fs
      link_entry inode found fs1

unfoldable pub sys_link : User → (oldname newname : List ℕ) → Fs → Option (Bool × Fs)
sys_link user oldname newname fs = do
  (inode, fs1) ← namei user oldname fs
  link_to user inode newname fs1
