-- ===== src/Files/Descriptors.antt =====
-- What `dup`, `dup2` and `close` of src/fs/file.c do to the descriptors.
use neonix.Prelude.{
  ℕ, ◌+◌, ◌<◌, ◌≡◌, refl, ap, ◌≢◌, true, false, none, some, [], ◌∷◌, ◌++◌, arith, ltb, leb, ◌==◌,
  if◌then◌else◌, get_elem?, get_or-set_self, get_elem?-set_self, get_elem?-set_ne,
}
use neonix.Prelude.Int.{pos}
use neonix.Files.{Table, fd_place, sys_close, dup_slot, dupfd, sys_dup, sys_dup2, eof}
use neonix.Files.Refs.{refs, refs-set, holds_self, no_file, file_at, IsValid}
use neonix.Files.Keep.{held-lt, close_at-open, dup_to-free}
use neonix.Files.Search.{FirstFree, find_fd-FirstFree_eq}

-- The descriptor `a` is a copy of `p`: both refer to the file `i`, whose count has grown by one;
-- the other descriptors are as before, and no file is released.
pub record Duplicated (t : Table) (p a i : ℕ) (t' : Table) : Type 0 where
  pub copied : get_elem? t'.fds a ≡ some (some i)
  pub kept : (k : ℕ) → a ≢ k → get_elem? t'.fds k ≡ get_elem? t.fds k
  pub grown : (file_at t' i).count ≡ (file_at t i).count + 1
  pub same_offset : (file_at t' i).offset ≡ (file_at t i).offset

-- `dup` of an open descriptor, on valid tables with a free descriptor, succeeds: it returns the
-- first free one, which then refers to the same file.
pub sys_dup-Duplicated :
    (others : ℕ → ℕ) (t : Table) (p i a : ℕ)
    → IsValid others t
    → p < 16
    → get_elem? t.fds p ≡ some (some i)
    → a < 16
    → FirstFree t.fds 0 a
    → (t' : Table) × (sys_dup (pos p) t ≡ some (a, t')) × Duplicated t p a i t'
unfolding sys_dup dupfd dup_slot
sys_dup-Duplicated others t p i a v lp e la first =
    let (t', r, v', fds, files) = dup_to-free others t v p i a e first.0 in
    let found = find_fd-FirstFree_eq 16 0 t.fds a (omega arith) first in
    let under : leb 16 p ≡ false = ground arith in
    let li = held-lt others t v p i e in
    let at =
      get_or-set_self t.files i (record (file_at t i) { count = (file_at t i).count + 1 }) no_file
        (omega (arith, v.places)) in
    (
      t',
      rw (under, e, found) r,
      record {
        copied = rw fds (get_elem?-set_self t.fds a (some i) (omega (arith, v.slots)));
        kept = λ k ne. rw fds (get_elem?-set_ne t.fds a k (some i) ne);
        grown = rw (files, at) refl;
        same_offset = rw (files, at) refl;
      },
    )

-- `dup2` of an open descriptor to itself closes the descriptor and returns EOF.
pub sys_dup2_same :
    (others : ℕ → ℕ) (t : Table) (p i : ℕ)
    → IsValid others t
    → p < 16
    → get_elem? t.fds p ≡ some (some i)
    → (t' : Table) × (sys_dup2 (pos p) (pos p) t ≡ some (eof, t'))
      × (get_elem? t'.fds p ≡ some none)
unfolding sys_dup2 sys_close fd_place dupfd dup_slot
sys_dup2_same others t p i v lp e =
    let (t', r, v', fds, files, iputs) = close_at-open others t v p i lp e in
    let lt : ltb p 16 ≡ true = ground arith in
    let under : leb 16 p ≡ false = ground arith in
    let closed : get_elem? t'.fds p ≡ some none =
      rw fds (get_elem?-set_self t.fds p none (omega (arith, v.slots))) in
    (t', rw (lt, e, r, under, closed) refl, closed)

-- `close` of an open descriptor succeeds and frees it. The file's inode is released, by one call
-- of `iput`, exactly where no other descriptor, of this task or of another, refers to the file.
pub sys_close-releases :
    (others : ℕ → ℕ) (t : Table) (p i : ℕ)
    → IsValid others t
    → p < 16
    → get_elem? t.fds p ≡ some (some i)
    → (t' : Table) × (sys_close (pos p) t ≡ some t')
      × (get_elem? t'.fds p ≡ some none)
      × (t'.iputs ≡ (
          if refs i t'.fds + others i == 0 then t.iputs ++ (file_at t i).inode ∷ [] else t.iputs))
unfolding sys_close fd_place
sys_close-releases others t p i v lp e =
    let (t', r, v', fds, files, iputs) = close_at-open others t v p i lp e in
    let lt : ltb p 16 ≡ true = ground arith in
    let c = v.counted i (held-lt others t v p i e) in
    let n : refs i t'.fds + 1 ≡ refs i t.fds =
      rw fds (omega (arith, refs-set i t.fds p none (some i) e, holds_self i)) in
    let last : ((file_at t i).count == 1) ≡ (refs i t'.fds + others i == 0) = ground arith in
    (
      t',
      rw (lt, e) r,
      rw fds (get_elem?-set_self t.fds p none (omega (arith, v.slots))),
      rw iputs (ap (λ b. if b then t.iputs ++ (file_at t i).inode ∷ [] else t.iputs) last),
    )
