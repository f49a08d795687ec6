-- ===== src/Files/Offset.antt =====
-- The offsets of open files of src/fs/file.c.
use neonix.Prelude.{
  ℕ, ◌-◌, ◌^◌, ◌≤◌, ◌<◌, ◌≡◌, refl, ap, true, some, arith, ltb, get_elem?, set, get_or-set_self,
}
use neonix.Prelude.Int.{pos}
use neonix.Prelude.Words.{add32, u32_mod}
use neonix.Files.{File, Table, Inodes, fd_place, open_file, seek, seek_end, sys_lseek}
use neonix.Files.Refs.{no_file, file_at, IsValid}
use neonix.Files.Keep.{held-lt, file_at-eq}

pub open_file-held :
    (others : ℕ → ℕ) (t : Table) (p i : ℕ)
    → IsValid others t
    → p < 16
    → get_elem? t.fds p ≡ some (some i)
    → open_file (pos p) t ≡ some (i, file_at t i)
unfolding open_file fd_place
open_file-held others t p i v lp e =
    let lt : ltb p 16 ≡ true = ground arith in
    let f = file_at-eq others t v i (held-lt others t v p i e) in rw (lt, e, f) refl

-- `lseek` from the end by a negative number beyond the file's size succeeds: its assert compares
-- an unsigned sum with 0, and the file is left with a negative offset.
pub sys_lseek_negative :
    (others : ℕ → ℕ) (inodes : Inodes) (t : Table) (p i inode back : ℕ)
    → IsValid others t
    → p < 16
    → get_elem? t.fds p ≡ some (some i)
    → (file_at t i).inode ≡ some inode
    → inodes.size inode < back
    → back ≤ 2 ^ 31
    → (t' : Table) × (sys_lseek inodes (pos p) (u32_mod - back) seek_end t
        ≡ some (u32_mod - (back - inodes.size inode), t'))
      × ((file_at t' i).offset ≡ u32_mod - (back - inodes.size inode))
      × (2 ^ 31 ≤ (file_at t' i).offset)
unfolding sys_lseek seek
sys_lseek_negative others inodes t p i inode back v lp e hi lt le =
    let held = open_file-held others t p i v lp e in
    let to = u32_mod - (back - inodes.size inode) in
    let sum : add32 (inodes.size inode) (u32_mod - back) ≡ to = omega arith in
    let g : File = record (file_at t i) { offset = to } in
    let at =
      ap (λ (f : File). f.offset)
        (get_or-set_self t.files i g no_file (omega (arith, v.places, held-lt others t v p i e))) in
    (record t { files = set t.files i g }, rw (held, hi, sum) refl, at, rw at (omega arith))
