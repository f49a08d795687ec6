-- ===== src/Files/Tests.antt =====
-- src/fs/file.c on tables with one open file, and its theorems there.
use neonix.Prelude.{
  ℕ, zero, suc, ◌+◌, ◌-◌, ◌^◌, ◌≤◌, min, ◌≡◌, refl, ap, ◌∙◌, false, none, some, [], ◌∷◌, arith,
  ◌==◌, if◌then◌else◌, get_elem?, get_or, set, replicate,
}
use neonix.Prelude.Int.{pos}
use neonix.Prelude.Words.{u32_mod}
use neonix.Files.{
  File, Table, Inodes, opened, sys_open, sys_close, sys_dup, sys_lseek, seek_end, find_file,
  find_fd, get_file, task_get_fd, dupfd, dup_slot, dup_to, count_up,
}
use neonix.Files.Refs.{refs, no_file, file_at, IsValid}
use neonix.Files.Keep.{open-IsValid}
use neonix.Files.Search.{FirstFree}
use neonix.Files.Valid.{dup, run, run-IsValid}
use neonix.Files.Descriptors.{sys_close-releases}
use neonix.Files.Transfer.{Backend}
use neonix.Files.Offset.{sys_lseek_negative}

get_or-replicate : (n f : ℕ) → get_or (replicate n no_file) f no_file ≡ no_file
get_or-replicate zero f = refl
get_or-replicate (suc n) zero = refl
get_or-replicate (suc n) (suc f) = get_or-replicate n f

refs-replicate : (n f : ℕ) → refs f (replicate n none) ≡ 0
unfolding refs
refs-replicate zero f = refl
refs-replicate (suc n) f = omega (arith, refs-replicate n f)

-- No file is open.
abbrev empty : Table
empty = record { files = replicate 128 no_file; fds = replicate 16 none; iputs = [] }

empty-IsValid : IsValid (λ f. 0) empty
empty-IsValid = record {
  slots = refl;
  places = refl;
  counted = λ f lt.
      ap (λ (g : File). g.count) (get_or-replicate 128 f) ∙ omega (arith, refs-replicate 16 f);
  known = λ f ge. refs-replicate 16 f;
  backed = λ f p. absurd (omega (arith, refs-replicate 16 f));
  small = λ f. omega arith;
}

-- A regular file of 100 bytes is inode 7.
abbrev inodes : Inodes
inodes = record { size = λ i. 100; mode = λ i. 0x8000; pipe = λ i. false; zone0 = λ i. 0 }

abbrev whole : Backend
whole = record { pipe = λ i n. n; device = λ d n k. n; regular = λ i n o. min n (100 - o) }

abbrev file : File
file = record { inode = some 7; count = 1; offset = 0; flags = 0; mode = 0x8000 }

-- The file 3 is open by the descriptor 3.
abbrev one_open : Table
one_open = record empty { files = set empty.files 3 file; fds = set empty.fds 3 (some 3) }

opened_so : sys_open inodes (some 7) 0 empty ≡ some (3, one_open)
unfolding sys_open task_get_fd find_fd get_file find_file opened
opened_so = refl

one_open-IsValid : IsValid (λ f. 0) one_open
one_open-IsValid =
    open-IsValid (λ f. 0) empty empty-IsValid 3 3 file (omega arith) refl refl refl refl

first_free : FirstFree one_open.fds 0 0
first_free = (refl, omega arith, λ k ge lt. absurd (omega arith))

abbrev two_fds : Table
two_fds = record one_open {
  files = set one_open.files 3 (record file { count = 2 });
  fds = set one_open.fds 0 (some 3);
}

run-IsValid_example : IsValid (λ f. 0) two_fds
unfolding run sys_dup dupfd dup_slot dup_to find_fd count_up
run-IsValid_example =
    run-IsValid (λ f. 0) inodes (dup (pos 3)) one_open two_fds 0 one_open-IsValid refl

sys_close-releases_example :
    (t : Table) × (sys_close (pos 3) one_open ≡ some t)
    × (get_elem? t.fds 3 ≡ some none)
    × (t.iputs ≡ (if refs 3 t.fds + 0 == 0 then some 7 ∷ [] else []))
sys_close-releases_example =
    sys_close-releases (λ f. 0) one_open 3 3 one_open-IsValid (omega arith) refl

sys_lseek_negative_example :
    (t : Table) × (sys_lseek inodes (pos 3) (u32_mod - 150) seek_end one_open
      ≡ some (u32_mod - 50, t))
    × ((file_at t 3).offset ≡ u32_mod - 50)
    × (2 ^ 31 ≤ (file_at t 3).offset)
sys_lseek_negative_example =
    sys_lseek_negative (λ f. 0) inodes one_open 3 3 7 150 one_open-IsValid (omega arith) refl refl
      (omega arith) (omega arith)
