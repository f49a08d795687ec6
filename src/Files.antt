-- ===== src/Files.antt =====
-- src/fs/file.c, with `task_get_fd` and `task_put_fd` of src/kernel/task.c: the system's table of
-- open files, and the descriptors of the running task. A file is its place in the table, an inode
-- a number, and an `int` its 32 bits. `none` is a panic, a failed assert, or an access by NULL or
-- outside of a table.
pub mod Refs
pub mod Keep
pub mod Search
pub mod Valid
pub mod Descriptors
pub mod Transfer
pub mod Offset
pub mod Tests
use neonix.Prelude.{
  ℕ, zero, suc, ◌+◌, ◌-◌, ◌/◌, ◌%◌, ◌^◌, Bool, true, false, not, Option, none, some, List, [], ◌∷◌,
  ◌++◌, ltb, leb, ◌==◌, if◌then◌else◌, get_elem?, set, take, replicate, ◌>>=◌, ◌>>◌, assert,
}
use neonix.Prelude.Int.{ℤ, pos, negsuc}
use neonix.Prelude.Words.{add32}

-- `file_t`.
pub record File : Type 0 where
  pub inode : Option ℕ
  pub count : ℕ
  pub offset : ℕ
  pub flags : ℕ
  pub mode : ℕ

-- `file_table`, the `files` of the running task, and the inodes given to `iput`.
pub record Table : Type 0 where
  pub files : List File
  pub fds : List (Option ℕ)
  pub iputs : List (Option ℕ)

-- What the files read of the inodes: `desc->size`, `desc->mode`, `pipe` and `desc->zone[0]`.
pub record Inodes : Type 0 where
  pub size : ℕ → ℕ
  pub mode : ℕ → ℕ
  pub pipe : ℕ → Bool
  pub zone0 : ℕ → ℕ

abbrev pub file_nr : ℕ
file_nr = 128

abbrev pub task_file_nr : ℕ
task_file_nr = 16

-- -1.
abbrev pub eof : ℕ
eof = 0xFFFFFFFF

-- The first file from the place `i` on, with the rounds left, that nobody has open.
unfoldable pub find_file : (rounds i : ℕ) → List File → Option ℕ
find_file zero i files = none
find_file (suc rounds) i files =
    let rest = find_file rounds (i + 1) files in
    get_elem? files i >>= λ f. if f.count == 0 then some i else rest

unfoldable pub get_file : Table → Option (ℕ × Table)
get_file t = do
  i ← find_file (file_nr - 3) 3 t.files
  f ← get_elem? t.files i
  some (i, record t { files = set t.files i (record f { count = f.count + 1 }) })

unfoldable pub put_file : ℕ → Table → Option Table
put_file i t = do
  f ← get_elem? t.files i
  assert (not (f.count == 0))
  let iputs = if f.count == 1 then t.iputs ++ f.inode ∷ [] else t.iputs
  some (record t { files = set t.files i (record f { count = f.count - 1 }); iputs = iputs })

-- `file_init`: the places of the standard files are left alone.
unfoldable pub file_init : List File → List File
file_init files =
    take 3 files
    ++ replicate (file_nr - 3) (record { inode = none; count = 0; offset = 0; flags = 0; mode = 0 })

-- The first free descriptor from `i` on, with the rounds left.
unfoldable pub find_fd : (rounds i : ℕ) → List (Option ℕ) → Option ℕ
find_fd zero i fds = none
find_fd (suc rounds) i fds =
    let rest = find_fd rounds (i + 1) fds in
    get_elem? fds i >>= λ slot. elim slot [ none ↦ some i | some f ↦ rest ]

unfoldable pub task_get_fd : Table → Option ℕ
task_get_fd t = find_fd (task_file_nr - 3) 3 t.fds

unfoldable pub task_put_fd : ℕ → Table → Option Table
task_put_fd fd t = do assert (ltb fd task_file_nr); some (record t { fds = set t.fds fd none })

abbrev pub is_append : ℕ → Bool
is_append flags = flags / 1024 % 2 == 1

-- The stores of `sys_open` to the file of `inode`.
unfoldable pub opened : Inodes → (inode flags : ℕ) → File
opened inodes inode flags = record {
  inode = some inode;
  count = 1;
  offset = if is_append flags then inodes.size inode else 0;
  flags = flags;
  mode = inodes.mode inode;
}

-- `found` is the result of `inode_open`.
unfoldable pub sys_open : Inodes → (found : Option ℕ) → (flags : ℕ) → Table → Option (ℕ × Table)
sys_open inodes none flags t = some (eof, t)
sys_open inodes (some inode) flags t = do
  fd ← task_get_fd t
  (i, t') ← get_file t
  slot ← get_elem? t'.fds fd
  assert (elim slot [ none ↦ true | some f ↦ false ])
  some (
    fd,
    record t' { fds = set t'.fds fd (some i); files = set t'.files i (opened inodes inode flags) },
  )

abbrev pub has_inode : File → Bool
has_inode f = elim f.inode [ none ↦ false | some i ↦ true ]

-- The place of a descriptor, which is signed, among the task's files.
unfoldable pub fd_place : ℤ → Option ℕ
fd_place (pos n) = if ltb n task_file_nr then some n else none
fd_place (negsuc n) = none

unfoldable pub close_at : (fd : ℕ) → Option ℕ → Table → Option Table
close_at fd none t = some t
close_at fd (some i) t = do
  f ← get_elem? t.files i
  assert (has_inode f)
  t' ← put_file i t
  task_put_fd fd t'

unfoldable pub sys_close : ℤ → Table → Option Table
sys_close fd t = do p ← fd_place fd; slot ← get_elem? t.fds p; close_at p slot t

unfoldable pub count_up : File → File
count_up f = record f { count = add32 f.count 1 }

-- The end of `dupfd`, with the open file `i` and the first free descriptor.
unfoldable pub dup_to : (i : ℕ) → Option ℕ → Table → Option (ℕ × Table)
dup_to i none t = some (eof, t)
dup_to i (some arg) t = do
  f ← get_elem? t.files i
  some (arg, record t { fds = set t.fds arg (some i); files = set t.files i (count_up f) })

unfoldable pub dup_slot : Option ℕ → (arg : ℕ) → Table → Option (ℕ × Table)
dup_slot none arg t = some (eof, t)
dup_slot (some i) arg t = dup_to i (find_fd (task_file_nr - arg) arg t.fds) t

-- A descriptor below 0 is an access outside of the task's files.
unfoldable pub dupfd : ℤ → ℤ → Table → Option (ℕ × Table)
dupfd (negsuc fd) arg t = none
dupfd (pos fd) (negsuc arg) t = none
dupfd (pos fd) (pos arg) t =
    if leb task_file_nr fd
    then some (eof, t)
    else get_elem? t.fds fd >>= λ slot. dup_slot slot arg t

unfoldable pub sys_dup : ℤ → Table → Option (ℕ × Table)
sys_dup oldfd t = dupfd oldfd (pos 0) t

-- `close` is the system call.
unfoldable pub sys_dup2 : ℤ → ℤ → Table → Option (ℕ × Table)
sys_dup2 oldfd newfd t = sys_close newfd t >>= λ t'. dupfd oldfd newfd t'

-- `file_t *file = task->files[fd]` with `assert(file)`.
unfoldable pub open_file : ℤ → Table → Option (ℕ × File)
open_file fd t = do
  p ← fd_place fd
  slot ← get_elem? t.fds p
  i ← slot
  f ← get_elem? t.files i
  some (i, f)

pub data Whence : Type 0 where
  seek_set : Whence
  seek_cur : Whence
  seek_end : Whence
  unknown : Whence

-- The new offset. The sum in the assert of `SEEK_END` is unsigned, so it never fails.
unfoldable pub seek : Inodes → File → (inode offset : ℕ) → Whence → Option ℕ
seek inodes f inode offset seek_set = assert (ltb offset (2 ^ 31)) >> some offset
seek inodes f inode offset seek_cur =
    assert (ltb (add32 f.offset offset) (2 ^ 31)) >> some (add32 f.offset offset)
seek inodes f inode offset seek_end = some (add32 (inodes.size inode) offset)
seek inodes f inode offset unknown = none

unfoldable pub sys_lseek : Inodes → ℤ → (offset : ℕ) → Whence → Table → Option (ℕ × Table)
sys_lseek inodes fd offset whence t = do
  (i, f) ← open_file fd t
  inode ← f.inode
  to ← seek inodes f inode offset whence
  some (to, record t { files = set t.files i (record f { offset = to }) })
