-- ===== src/Names/Creating.antt =====
-- `sys_mkdir`, `sys_mknod` and `inode_open` of src/fs/namei.c: new entries with new inodes.
use neonix.Prelude.{
  ℕ, ◌%◌, ◌^◌, bit_and, bit_or, Bool, true, false, ◌&&◌, ◌||◌, not, Option, none, some, List, [],
  ◌∷◌, ◌==◌, if◌then◌else◌, set, ◌>>=◌,
}
use neonix.Names.{Dentry, Ino, Fs, User, is_dir, p_write, permission, iput, iget, find_entry, named}
use neonix.Names.Changes.{
  set_desc, set_entries, more_links, ialloc_in, bmap_create, inode_truncate, masked, new_inode,
  set_nr, add_entry, is_nil, search_in_parent, any_dir,
}

-- A new entry of the directory, and a new inode for it.
unfoldable pub new_entry : User → Ino → (name : List ℕ) → Fs → Option (Ino × Fs)
new_entry user dir name fs = do
  (at, k, fs1) ← add_entry dir name fs
  (nr, fs2) ← ialloc_in dir.0 fs1
  new_inode user dir.0 nr (set_entries at (set_nr k nr (fs2.desc at).entries) fs2)

-- The entries `.` and `..` of a new directory.
abbrev pub dots : (inode dir : Ino) → List Dentry
dots inode dir =
    record { nr = inode.1; name = b'.' ∷ [] } ∷ record { nr = dir.1; name = b'.' ∷ b'.' ∷ [] } ∷ []

-- The end of `sys_mkdir`: the name is taken or not.
unfoldable pub make_dir :
    User → (mode : ℕ) → Option (Ino × List ℕ × Option (Dentry × List ℕ)) → Fs → Option (Bool × Fs)
make_dir user mode none fs = some (false, fs)
make_dir user mode (some (dir, name, some found)) fs = some (false, iput dir fs)
make_dir user mode (some (dir, name, none)) fs = do
  (inode, fs1) ← new_entry user dir name fs
  let fs2 =
      set_desc inode
        (record (fs1.desc inode) { mode = bit_or (masked user mode) 0x4000; nlinks = 2 }) fs1
  (block, fs3) ← bmap_create inode 0 (more_links dir fs2)
  some (true, iput dir (iput inode (set_entries inode (dots inode dir) fs3)))

unfoldable pub sys_mkdir : User → (pathname : List ℕ) → (mode : ℕ) → Fs → Option (Bool × Fs)
sys_mkdir user pathname mode fs = do
  (found, fs1) ← search_in_parent user any_dir pathname fs
  make_dir user mode found fs1

abbrev pub is_device : (mode : ℕ) → Bool
is_device mode = bit_and mode 0xF000 == 0x6000 || bit_and mode 0xF000 == 0x2000

-- The end of `sys_mknod`. `mode` and the number of a block are 16 bits.
unfoldable pub make_node :
    User
    → (mode dev : ℕ) → Option (Ino × List ℕ × Option (Dentry × List ℕ))
    → Fs
    → Option (Bool × Fs)
make_node user mode dev none fs = some (false, fs)
make_node user mode dev (some (dir, name, some found)) fs = some (false, iput dir fs)
make_node user mode dev (some (dir, name, none)) fs = do
  (inode, fs1) ← new_entry user dir name fs
  let d = fs1.desc inode
  let fs2 =
      set_desc inode
        (record d {
          mode = mode % 2 ^ 16;
          zone = if is_device mode then set d.zone 0 (dev % 2 ^ 16) else d.zone;
        })
        fs1
  some (true, iput dir (iput inode fs2))

unfoldable pub sys_mknod : User → (filename : List ℕ) → (mode dev : ℕ) → Fs → Option (Bool × Fs)
sys_mknod user filename mode dev fs = do
  (found, fs1) ← search_in_parent user any_dir filename fs
  make_node user mode dev found fs1

abbrev pub o_rdwr : ℕ
o_rdwr = 2

abbrev pub o_creat : ℕ
o_creat = 64

abbrev pub o_trunc : ℕ
o_trunc = 512

-- `flag & O_ACCMODE`.
abbrev pub access : (flag : ℕ) → ℕ
access flag = bit_and flag 3

-- The last character of the table is -1, and the mask has 16 bits.
abbrev pub acc_mode : ℕ → ℕ
acc_mode n = if n == 0 then 4 else if n == 1 then 2 else if n == 2 then 6 else 0xFFFF

-- The end of `inode_open`, with the directory, and the inode for the name.
unfoldable pub open_inode : User → (flag : ℕ) → (dir inode : Ino) → Fs → Option (Option Ino × Fs)
open_inode user flag dir inode fs =
    let d = fs.desc inode in
    if not (permission user d (acc_mode (access flag))) || (is_dir d.mode && not (access flag == 0))
    then some (none, iput inode (iput dir fs))
    else do
      fs1 ← (if bit_and flag o_trunc == 0 then some fs else inode_truncate inode fs)
      some (some inode, iput dir fs1)

unfoldable pub open_entry :
    User
    → (flag mode : ℕ) → Ino
    → (name : List ℕ) → Option (Dentry × List ℕ)
    → Fs
    → Option (Option Ino × Fs)
open_entry user flag mode dir name (some (entry, next)) fs = do
  (inode, fs1) ← iget dir.0 entry.nr fs
  open_inode user flag dir inode fs1
open_entry user flag mode dir name none fs =
    if bit_and flag o_creat == 0 || not (permission user (fs.desc dir) p_write)
    then some (none, iput dir fs)
    else do
      (inode, fs1) ← new_entry user dir name fs
      open_inode user flag dir inode
          (set_desc inode (record (fs1.desc inode) { mode = bit_or (masked user mode) 0x8000 }) fs1)

-- Truncating asks for writing.
unfoldable pub open_flag : (flag : ℕ) → ℕ
open_flag flag =
    if not (bit_and flag o_trunc == 0) && access flag == 0 then bit_or flag o_rdwr else flag

unfoldable pub open_in :
    User → (flag mode : ℕ) → Option (Ino × List ℕ) → Fs → Option (Option Ino × Fs)
open_in user flag mode none fs = some (none, fs)
open_in user flag mode (some (dir, next)) fs = if is_nil next then some (some dir, fs) else do
  (dir', found, fs1) ← find_entry dir next fs
  open_entry user (open_flag flag) mode dir' next found fs1

unfoldable pub inode_open :
    User → (pathname : List ℕ) → (flag mode : ℕ) → Fs → Option (Option Ino × Fs)
inode_open user pathname flag mode fs = do
  (parent, fs1) ← named user pathname fs
  open_in user flag mode parent fs1
