-- ===== src/Pages.antt =====
-- The physical pages of src/kernel/memory.c: the zones that the loader reports, the counts of
-- references, and the operations on one page table entry. `none` is a failed assert, a panic, or an
-- access outside of the counts.
pub mod Counts
pub mod Entries
pub mod Uses
pub mod Marks
pub mod Boot
pub mod Kernel
pub mod Tests
use neonix.Prelude.{
  ℕ, zero, suc, ◌+◌, ◌-◌, ◌*◌, ◌/◌, ◌%◌, Bool, true, false, ◌&&◌, ◌||◌, not, Option, none, some,
  List, [], ◌∷◌, ltb, leb, ◌==◌, if◌then◌else◌, get_elem?, set, replicate, ◌>>=◌, ◌>>◌, assert,
}
use neonix.Prelude.Words.{u32_mod, add32, sub32}
use neonix.Bitmap.{Bitmap, bitmap_init, bitmap_test, bitmap_set, bitmap_scan}

-- `ards_t`.
pub record Ards : Type 0 where
  pub base : ℕ
  pub size : ℕ
  pub type_ : ℕ

-- `memory_map`, `start_page`, `total_pages`, and `free_pages`.
pub record Pages : Type 0 where
  pub memory_map : List ℕ
  pub start_page : ℕ
  pub total_pages : ℕ
  pub free_pages : ℕ

-- What the kernel itself uses of `page_entry_t`.
pub record Entry : Type 0 where
  pub present : Bool
  pub write : Bool
  pub user : Bool
  pub shared : Bool
  pub privat : Bool
  pub readonly : Bool
  pub index : ℕ

abbrev pub page_size : ℕ
page_size = 4096

abbrev pub memory_base : ℕ
memory_base = 0x100000

abbrev pub kernel_memory_size : ℕ
kernel_memory_size = 0x1000000

abbrev pub idx : (addr : ℕ) → ℕ
idx addr = addr / page_size

abbrev pub page : (idx : ℕ) → ℕ
page idx = idx * page_size % u32_mod

-- Every assert of alignment.
unfoldable pub assert_page : (addr : ℕ) → Option (Unit {0})
assert_page addr = assert (addr % page_size == 0)

unfoldable pub div_round_up : (num size : ℕ) → ℕ
div_round_up num size = sub32 (add32 num size) 1 / size

-- The loop of `memory_init` over the zones: the base and the size of the largest valid one.
unfoldable pub largest_zone : List Ards → (base size : ℕ) → ℕ × ℕ
largest_zone [] base size = (base, size)
largest_zone (a ∷ zones) base size =
    let skip = largest_zone zones base size in
    let take_ = largest_zone zones (a.base % u32_mod) (a.size % u32_mod) in
    if a.type_ == 1 && ltb size a.size then take_ else skip

-- `memory_init`, once the zones are read: `total_pages` and `free_pages`.
unfoldable pub memory_init : List Ards → Option (ℕ × ℕ)
memory_init zones = do
  let (base, size) = largest_zone zones 0 0
  assert (base == memory_base)
  assert (size % page_size == 0)
  assert (not (ltb size kernel_memory_size))
  some (idx size + idx memory_base, idx size)

-- `memory_map[i] = 1` for the `n` places from `i` on.
unfoldable pub mark_used : (n i : ℕ) → List ℕ → List ℕ
mark_used zero i counts = counts
mark_used (suc n) i counts = mark_used n (i + 1) (set counts i 1)

unfoldable pub memory_map_init : (total_pages free_pages : ℕ) → Option (Pages × Bitmap)
memory_map_init total_pages free_pages = do
  let map_pages = div_round_up total_pages page_size
  let start_page = idx memory_base + map_pages
  (found, kernel_map) ←
      bitmap_scan (bitmap_init ((idx kernel_memory_size - idx memory_base) / 8) (idx memory_base))
        map_pages
  some (
    record {
      memory_map = mark_used start_page 0 (replicate (map_pages * page_size) 0);
      start_page = start_page;
      total_pages = total_pages;
      free_pages = sub32 free_pages map_pages;
    },
    kernel_map,
  )

-- What `mapping_init` does to the counts: all pages of the kernel but page 0 are in use.
unfoldable pub mapping_init : Pages → Pages
mapping_init p = record p { memory_map = mark_used 4095 1 p.memory_map }

-- The loop of `get_page`, with the rounds left.
unfoldable pub find_page : (rounds i : ℕ) → List ℕ → Option ℕ
find_page zero i counts = none
find_page (suc rounds) i counts = do
  n ← get_elem? counts i
  let rest = find_page rounds (i + 1) counts
  if n == 0 then some i else rest

unfoldable pub get_page : Pages → Option (ℕ × Pages)
get_page p = do
  i ← find_page (p.total_pages - p.start_page) p.start_page p.memory_map
  some (page i, record p { memory_map = set p.memory_map i 1; free_pages = sub32 p.free_pages 1 })

unfoldable pub put_page : (addr : ℕ) → Pages → Option Pages
put_page addr p = do
  assert_page addr
  let i = idx addr
  assert (leb p.start_page i && ltb i p.total_pages)
  n ← get_elem? p.memory_map i
  assert (leb 1 n)
  let free = if n == 1 then add32 p.free_pages 1 else p.free_pages
  assert (ltb 0 free && ltb free p.total_pages)
  some (record p { memory_map = set p.memory_map i (n - 1); free_pages = free })

-- An entry for a page.
unfoldable pub entry_init : (index : ℕ) → Entry
entry_init index = record {
  present = true;
  write = true;
  user = true;
  shared = false;
  privat = false;
  readonly = false;
  index = index;
}

-- `get_pte` on the entry of the directory: whether the table is new, the entry, and the pages.
unfoldable pub get_pte : (create : Bool) → Entry → Pages → Option (Bool × Entry × Pages)
get_pte create dentry p = do
  assert (create || dentry.present)
  if dentry.present
      then some (false, dentry, p)
      else get_page p >>= λ (addr, p'). some (true, entry_init (idx addr), p')

-- An entry of a table that was cleared.
abbrev pub cleared : Entry
cleared = record {
  present = false;
  write = false;
  user = false;
  shared = false;
  privat = false;
  readonly = false;
  index = 0;
}

-- `link_page` on the entries of the directory and of the table for its address.
unfoldable pub link_page : (dentry entry : Entry) → Pages → Option (Entry × Entry × Pages)
link_page dentry entry p = do
  (new, dentry', p') ← get_pte true dentry p
  let entry' = if new then cleared else entry
  if entry'.present
      then some (dentry', entry', p')
      else get_page p' >>= λ (addr, p''). some (dentry', entry_init (idx addr), p'')

-- `unlink_page` on the two entries for its address.
unfoldable pub unlink_page : (dentry entry : Entry) → Pages → Option (Entry × Pages)
unlink_page dentry entry p =
    if not (dentry.present && entry.present)
    then some (entry, p)
    else put_page (page entry.index) p >>= λ p'. some (record entry { present = false }, p')

-- One round of `copy_pde`: the entry, which both directories then have, and the pages.
unfoldable pub copy_entry : Entry → Pages → Option (Entry × Pages)
copy_entry entry p = if not entry.present then some (entry, p) else do
  n ← get_elem? p.memory_map entry.index
  assert (ltb 0 n)
  assert (ltb ((n + 1) % 256) 255)
  some (
    record entry { write = if entry.shared then entry.write else false },
    record p { memory_map = set p.memory_map entry.index ((n + 1) % 256) },
  )

-- A page that several entries have: the one that is written to gets a copy.
unfoldable pub copy_on_write : Entry → Pages → Option (Entry × Pages)
copy_on_write entry p = do
  (addr, p') ← get_page p
  m ← get_elem? p'.memory_map entry.index
  some (
    entry_init (idx addr),
    record p' { memory_map = set p'.memory_map entry.index ((m + 255) % 256) },
  )

-- The branch of `page_fault` for a write to a page that is there. What is in the page is left out.
unfoldable pub write_fault : Entry → Pages → Option (Entry × Pages)
write_fault entry p = do
  assert entry.present
  assert (not entry.shared)
  assert (not entry.readonly)
  n ← get_elem? p.memory_map entry.index
  assert (ltb 0 n)
  if n == 1 then some (record entry { write = true }, p) else copy_on_write entry p
