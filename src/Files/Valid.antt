-- ===== src/Files/Valid.antt =====
-- Whatever calls a task makes on src/fs/file.c, the tables stay valid.
use mathlib.Core.Path.{subst}
use neonix.Prelude.{
  ℕ, ◌+◌, ◌-◌, ◌<◌, ◌≡◌, refl, sym, ap, ◌∙◌, inl, inr, true, false, Option, none, some, arith, ltb,
  leb, Bool-cases, get_elem?, get_or, set, set-set, get_elem?-eq-get_or, ◌>>=◌, ◌>>◌, assert,
  >>=-eq-some, some_injective,
}
use neonix.Prelude.Int.{ℤ, pos, negsuc}
use neonix.Files.{
  File, Table, Inodes, find_file, get_file, find_fd, task_get_fd, opened, sys_open, fd_place,
  close_at, sys_close, dup_to, dup_slot, dupfd, sys_dup, sys_dup2, Whence, seek, open_file,
  sys_lseek,
}
use neonix.Files.Refs.{file_at, IsValid}
use neonix.Files.Keep.{held-lt, file_at-eq, close_at-open, dup_to-free, move-IsValid, open-IsValid}
use neonix.Files.Search.{find_fd-FirstFree, find_file-free}

-- A system call on files.
pub data Call : Type 0 where
  open_found : (found : Option ℕ) (flags : ℕ) → Call
  close : (fd : ℤ) → Call
  dup : (oldfd : ℤ) → Call
  dup2 : (oldfd newfd : ℤ) → Call
  lseek : (fd : ℤ) (offset : ℕ) → Whence → Call

-- Its result, which for `close` is none, and the tables.
unfoldable pub run : Inodes → Call → Table → Option (ℕ × Table)
run inodes (open_found found flags) t = sys_open inodes found flags t
run inodes (close fd) t = sys_close fd t >>= λ t'. some (0, t')
run inodes (dup oldfd) t = sys_dup oldfd t
run inodes (dup2 oldfd newfd) t = sys_dup2 oldfd newfd t
run inodes (lseek fd offset whence) t = sys_lseek inodes fd offset whence t

-- Where the call returns, the tables are valid.
abbrev pub Keeps : {A : Type 0} → (ℕ → ℕ) → Option (A × Table) → Type 0
Keeps others none = Unit
Keeps others (some (a, t)) = IsValid others t

open_file-eq :
    (t : Table) (fd : ℤ) (i : ℕ) (f : File)
    → open_file fd t ≡ some (i, f)
    → (p : ℕ) × (get_elem? t.fds p ≡ some (some i)) × (get_elem? t.files i ≡ some f)
unfolding open_file
open_file-eq t fd i f h =
    let (p, e1, r1) = >>=-eq-some (fd_place fd) _ h in
    let (slot, e2, r2) = >>=-eq-some (get_elem? t.fds p) _ r1 in
    let (j, e3, r3) = >>=-eq-some slot _ r2 in
    let (g, e4, r4) = >>=-eq-some (get_elem? t.files j) _ r3 in
    let same : j ≡ i = cc in
    let same' : g ≡ f = cc in
    (
      p,
      e2 ∙ ap some (e3 ∙ ap some same),
      subst (λ k. get_elem? t.files k ≡ some f) same (e4 ∙ ap some same'),
    )

get_file-eq :
    (others : ℕ → ℕ) (t t' : Table) (i : ℕ)
    → IsValid others t
    → get_file t ≡ some (i, t')
    → (g : File) × (i < 128)
      × ((file_at t i).count ≡ 0)
      × (record t { files = set t.files i g } ≡ t')
unfolding get_file
get_file-eq others t t' i v h =
    let (j, e1, r1) = >>=-eq-some (find_file 125 3 t.files) _ h in
    let (f, e2, r2) = >>=-eq-some (get_elem? t.files j) _ r1 in
    let (f', e3, z, lt) = find_file-free 125 3 t.files j e1 in
    let same : j ≡ i = cc in
    let at : f' ≡ file_at t j = some_injective (sym e3 ∙ file_at-eq others t v j (omega arith)) in
    (
      record f { count = f.count + 1 },
      omega arith,
      subst (λ k. (file_at t k).count ≡ 0) same (rw (sym at) z),
      subst (λ k. record t { files = set t.files k (record f { count = f.count + 1 }) } ≡ t') same
          (cc),
    )

module _ (others : ℕ → ℕ) where
  close_at-Keeps :
      (t : Table) (p : ℕ) (slot : Option ℕ)
      → IsValid others t
      → get_elem? t.fds p ≡ some slot
      → p < 16
      → (t' : Table) × (close_at p slot t ≡ some t') × IsValid others t'
  unfolding close_at
  close_at-Keeps t p none v e lt = (t, refl, v)
  close_at-Keeps t p (some i) v e lt =
      let (t', r, v', fds, files, iputs) = close_at-open others t v p i lt e in (t', r, v')

  pub sys_close-total :
      (t : Table) (p : ℕ)
      → IsValid others t
      → p < 16
      → (t' : Table) × (sys_close (pos p) t ≡ some t') × IsValid others t'
  unfolding sys_close fd_place
  sys_close-total t p v lt =
      let slot = get_elem?-eq-get_or t.fds p none (omega (arith, v.slots)) in
      let (t', r, v') = close_at-Keeps t p (get_or t.fds p none) v slot lt in
      let lt' : ltb p 16 ≡ true = ground arith in (t', rw (lt', slot) r, v')

  dup_to-Keeps :
      (t : Table) (p i start : ℕ) (arg : Option ℕ)
      → IsValid others t
      → get_elem? t.fds p ≡ some (some i)
      → find_fd (16 - start) start t.fds ≡ arg
      → Keeps others (dup_to i arg t)
  unfolding dup_to
  dup_to-Keeps t p i start none v e found = v
  dup_to-Keeps t p i start (some arg) v e found =
      let (free, le, used) = find_fd-FirstFree (16 - start) start t.fds arg found in
      let (t', r, v', fds, files) = dup_to-free others t v p i arg e free in
      subst (Keeps others) (sym r) v'

  dup_slot-Keeps :
      (t : Table) (p : ℕ) (slot : Option ℕ) (arg : ℕ)
      → IsValid others t
      → get_elem? t.fds p ≡ some slot
      → Keeps others (dup_slot slot arg t)
  unfolding dup_slot
  dup_slot-Keeps t p none arg v e = v
  dup_slot-Keeps t p (some i) arg v e = dup_to-Keeps t p i arg _ v e refl

  dupfd-Keeps : (t : Table) (fd arg : ℤ) → IsValid others t → Keeps others (dupfd fd arg t)
  unfolding dupfd
  dupfd-Keeps t (negsuc fd) arg v = tt
  dupfd-Keeps t (pos fd) (negsuc arg) v = tt
  dupfd-Keeps t (pos fd) (pos arg) v = elim (Bool-cases (leb 16 fd)) [
    | inl over ↦ rw over v
    | inr under ↦
        let slot = get_elem?-eq-get_or t.fds fd none (ground (arith, v.slots)) in
        rw (under, slot) (dup_slot-Keeps t fd (get_or t.fds fd none) arg v slot)
  ]

  sys_close-Keeps :
      (t : Table) (fd : ℤ)
      → IsValid others t
      → Keeps {A = ℕ} others (sys_close fd t >>= λ t'. some (0, t'))
  unfolding sys_close fd_place
  sys_close-Keeps t (negsuc fd) v = tt
  sys_close-Keeps t (pos fd) v = elim (Bool-cases (ltb fd 16)) [
    | inl lt ↦
        let (t', r, v') = sys_close-total t fd v (ground arith) in
        subst (λ (o : Option Table). Keeps {A = ℕ} others (o >>= λ u. some (0, u))) (sym r) v'
    | inr ge ↦ rw ge tt
  ]

  sys_dup2-Keeps :
      (t : Table) (oldfd newfd : ℤ) → IsValid others t → Keeps others (sys_dup2 oldfd newfd t)
  unfolding sys_dup2 sys_close fd_place
  sys_dup2-Keeps t oldfd (negsuc newfd) v = tt
  sys_dup2-Keeps t oldfd (pos newfd) v = elim (Bool-cases (ltb newfd 16)) [
    | inl lt ↦
        let (t', r, v') = sys_close-total t newfd v (ground arith) in
        subst (λ o. Keeps others (o >>= λ u. dupfd oldfd (pos newfd) u)) (sym r)
          (dupfd-Keeps t' oldfd (pos newfd) v')
    | inr ge ↦ rw ge tt
  ]

  Keeps-bind :
      {X A : Type 0} (o : Option X) (k : X → Option (A × Table))
      → ((x : X) → o ≡ some x → Keeps others (k x))
      → Keeps others (o >>= k)
  Keeps-bind none k h = tt
  Keeps-bind (some x) k h = h x refl

  sys_lseek-Keeps :
      (inodes : Inodes) (t : Table) (fd : ℤ) (offset : ℕ) (whence : Whence)
      → IsValid others t
      → Keeps others (sys_lseek inodes fd offset whence t)
  unfolding sys_lseek
  sys_lseek-Keeps inodes t fd offset whence v = Keeps-bind (open_file fd t) _ (λ (i, f) e.
      let (p, held, at) = open_file-eq t fd i f e in
      let li = held-lt others t v p i held in
      let same : file_at t i ≡ f = some_injective (sym (file_at-eq others t v i li) ∙ at) in
      Keeps-bind f.inode _ (λ inode e'.
        Keeps-bind (seek inodes f inode offset whence) _
          (λ to e''. rw (sym same) (move-IsValid others t v i to li))))

  sys_open-Keeps :
      (inodes : Inodes) (t : Table) (found : Option ℕ) (flags : ℕ)
      → IsValid others t
      → Keeps others (sys_open inodes found flags t)
  unfolding sys_open opened task_get_fd
  sys_open-Keeps inodes t none flags v = v
  sys_open-Keeps inodes t (some inode) flags v = Keeps-bind (task_get_fd t) _ (λ fd e.
      Keeps-bind (get_file t) _ (λ (i, t') e'.
        let (free, le, used) = find_fd-FirstFree 13 3 t.fds fd e in
        let (g, lt, zero_count, at) = get_file-eq others t t' i v e' in
        subst
          (λ u. Keeps others (
            get_elem? u.fds fd >>= λ slot.
            assert (elim slot [ none ↦ true | some f ↦ false ])
            >> some (
              fd,
              record u {
                fds = set u.fds fd (some i);
                files = set u.files i (opened inodes inode flags);
              },
            )))
          at
          (rw (free, set-set t.files i g (opened inodes inode flags))
            (open-IsValid others t v i fd (opened inodes inode flags) lt zero_count free refl
              refl))))

-- Any call on valid tables that returns leaves them valid: `open`, `close`, `dup`, `dup2` and
-- `lseek`, on any arguments, whatever references the other tasks hold.
pub run-IsValid :
    (others : ℕ → ℕ) (inodes : Inodes) (c : Call) (t t' : Table) (result : ℕ)
    → IsValid others t
    → run inodes c t ≡ some (result, t')
    → IsValid others t'
unfolding run sys_dup
run-IsValid others inodes c t t' result v e = subst (Keeps others) e (keeps c)
  where
    keeps : (c : Call) → Keeps others (run inodes c t)
    keeps (open_found found flags) = sys_open-Keeps others inodes t found flags v
    keeps (close fd) = sys_close-Keeps others t fd v
    keeps (dup oldfd) = dupfd-Keeps others t oldfd (pos 0) v
    keeps (dup2 oldfd newfd) = sys_dup2-Keeps others t oldfd newfd v
    keeps (lseek fd offset whence) = sys_lseek-Keeps others inodes t fd offset whence v
