-- ===== src/Pages/Tests.antt =====
-- The physical pages on a memory of four pages, and the start of the kernel on one of 32 MB.
use neonix.Prelude.{ℕ, ◌+◌, ◌-◌, ◌*◌, ◌<◌, ◌≡◌, refl, true, false, some, List, [], ◌∷◌, arith}
use neonix.Bitmap.{
  Bitmap, bitmap_scan, find_run, mark_run, bitmap_set, put_bit, bitmap_test, test_bit,
}
use neonix.Bitmap.Laws.{IsValid, bit}
use neonix.Bitmap.Scan
use neonix.Pages.Kernel.{scan_page, alloc_kpage, free_kpage, free_kpage-alloc_kpage}
use neonix.Pages.{
  Ards, Pages, Entry, memory_init, largest_zone, memory_map_init, mapping_init, entry_init,
  get_page, find_page, write_fault, copy_on_write,
}
use neonix.Pages.Counts.{Accounted}
use neonix.Pages.Uses.{fault, use_pages, use_pages-Accounted}
use neonix.Pages.Boot.{boot-Accounted}

-- Page 2 is free, and page 3 has two references.
abbrev pages : Pages
pages = record { memory_map = 1 ∷ 1 ∷ 0 ∷ 2 ∷ []; start_page = 1; total_pages = 4; free_pages = 1 }

pages-Accounted : Accounted 0 pages
pages-Accounted = record {
  account = refl;
  below = omega arith;
  small = omega arith;
  room = omega arith;
  counts = (omega arith, (omega arith, (omega arith, (omega arith, tt))));
}

-- A read-only entry for page 3, as `copy_pde` leaves it.
abbrev entry : Entry
entry = record {
  present = true;
  write = false;
  user = true;
  shared = false;
  privat = false;
  readonly = false;
  index = 3;
}

abbrev after_fault : Pages
after_fault = record {
  memory_map = 1 ∷ 1 ∷ 1 ∷ 1 ∷ [];
  start_page = 1;
  total_pages = 4;
  free_pages = 0;
}

-- The write gives the entry a page of its own.
fault_run : write_fault entry pages ≡ some (entry_init 2, after_fault)
unfolding write_fault copy_on_write get_page find_page entry_init
fault_run = refl

fault_use : use_pages (fault entry) pages ≡ some after_fault
unfolding use_pages
fault_use = rw fault_run refl

abbrev zones : List Ards
zones =
    record { base = 0; size = 0x9F000; type_ = 1 }
    ∷ record { base = 0x100000; size = 0x1F00000; type_ = 1 }
    ∷ record { base = 0x2000000; size = 0x2000000; type_ = 2 }
    ∷ []

zones_read : memory_init zones ≡ some (8192, 7936)
unfolding memory_init largest_zone
zones_read = refl

use_pages-Accounted_example : Accounted 0 after_fault
use_pages-Accounted_example =
    use_pages-Accounted 0 (fault entry) pages after_fault pages-Accounted fault_use

boot-Accounted_example :
    (p : Pages) × (kernel_map : Bitmap) × (memory_map_init 8192 7936 ≡ some (p, kernel_map))
    × Accounted (4096 - p.start_page) (mapping_init p)
    × (p.start_page < 4096)
boot-Accounted_example = boot-Accounted zones 8192 7936 zones_read (omega arith)

-- The first page of the map is taken.
abbrev kernel_pages : Bitmap
kernel_pages = record { bits = 1 ∷ []; length = 1; offset = 256 }

kernel_pages-IsValid : IsValid kernel_pages
kernel_pages-IsValid = record {
  bytes = (omega arith, tt);
  room = omega arith;
  no_wrap = omega arith;
}

abbrev kernel_pages' : Bitmap
kernel_pages' = record { bits = 7 ∷ []; length = 1; offset = 256 }

alloc_run : alloc_kpage 2 kernel_pages ≡ some (0x101000, kernel_pages')
unfolding alloc_kpage scan_page bitmap_scan find_run mark_run bitmap_set put_bit bitmap_test
    test_bit
alloc_run = refl

free_kpage-alloc_kpage_example :
    (start : ℕ) × (0x101000 ≡ (256 + start) * 4096)
    × Scan.IsFree kernel_pages start 2
    × (map'' : Bitmap) × (free_kpage 0x101000 2 kernel_pages' ≡ some map'')
    × ((i : ℕ) → bit map'' i ≡ bit kernel_pages i)
free_kpage-alloc_kpage_example =
    free_kpage-alloc_kpage kernel_pages kernel_pages' 2 0x101000 kernel_pages-IsValid (omega arith)
      alloc_run
