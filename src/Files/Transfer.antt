-- ===== src/Files/Transfer.antt =====
-- `sys_read` and `sys_write` of src/fs/file.c.
use neonix.Prelude.{
  ℕ, ◌-◌, ◌/◌, ◌%◌, ◌^◌, Bool, ◌&&◌, not, Option, some, ltb, ◌==◌, if◌then◌else◌, set, ◌>>=◌, ◌>>◌,
  assert,
}
use neonix.Prelude.Int.{ℤ}
use neonix.Prelude.Words.{add32, u32_mod}
use neonix.Files.{File, Table, Inodes, open_file, eof}

-- What the functions of a direction return: `pipe_read inode count`, `device_read dev count idx`,
-- `inode_read inode count offset`; or those that write. The buffers are theirs.
pub record Backend : Type 0 where
  pub pipe : ℕ → ℕ → ℕ
  pub device : ℕ → ℕ → ℕ → ℕ
  pub regular : ℕ → ℕ → ℕ → ℕ

-- `ISCHR` and `ISBLK`.
abbrev pub is_chr : ℕ → Bool
is_chr mode = mode / 4096 % 16 == 2

abbrev pub is_blk : ℕ → Bool
is_blk mode = mode / 4096 % 16 == 6

-- `offset / BLOCK_SIZE`, of an `int`.
unfoldable pub block_of : ℕ → ℕ
block_of offset = if ltb offset (2 ^ 31) then offset / 1024 else u32_mod - (u32_mod - offset) / 1024

-- What both functions do once the direction is allowed.
unfoldable pub transfer :
    Inodes → Backend → (i : ℕ) → File → (count : ℕ) → Table → Option (ℕ × Table)
transfer inodes b i f count t = f.inode >>= λ inode.
    let dev = inodes.zone0 inode in
    let len = b.regular inode count f.offset in
    let moved : Table = record t {
      files = set t.files i (record f { offset = add32 f.offset len });
    } in
    if inodes.pipe inode
    then some (b.pipe inode count, t)
    else if is_chr (inodes.mode inode)
    then assert (not (dev == 0)) >> some (b.device dev count 0, t)
    else if is_blk (inodes.mode inode)
    then assert (not (dev == 0) && f.offset % 1024 == 0 && count % 1024 == 0)
      >> some (b.device dev (count / 1024) (block_of f.offset), t)
    else some (len, if len == eof then t else moved)

abbrev pub positive : ℕ → Bool
positive count = ltb 0 count && ltb count (2 ^ 31)

-- A file opened by `O_WRONLY` is not read.
unfoldable pub sys_read : Inodes → Backend → ℤ → (count : ℕ) → Table → Option (ℕ × Table)
sys_read inodes b fd count t = do
  (i, f) ← open_file fd t
  assert (positive count)
  if f.flags % 4 == 1 then some (eof, t) else transfer inodes b i f count t

-- A file opened by `O_RDONLY` is not written.
unfoldable pub sys_write : Inodes → Backend → ℤ → (count : ℕ) → Table → Option (ℕ × Table)
sys_write inodes b fd count t = do
  (i, f) ← open_file fd t
  assert (positive count)
  if f.flags % 4 == 0 then some (eof, t) else transfer inodes b i f count t
