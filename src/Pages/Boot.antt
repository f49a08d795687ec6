-- ===== src/Pages/Boot.antt =====
-- The account of the pages when src/kernel/memory.c has set them up.
use neonix.Prelude.{
  ℕ, zero, suc, ◌+◌, ◌-◌, ◌*◌, ◌/◌, ◌%◌, ◌^◌, ◌≤◌, ◌<◌, ◌≡◌, refl, ap, ◌∙◌, inl, inr, false, not,
  some, List, arith, ltb, ◌==◌, length, get_elem?, replicate, length-replicate, All-replicate, ◌>>◌,
  assert, >>=-eq-some, some_injective,
}
use neonix.Prelude.Words.{add32, sub32}
use neonix.Bitmap.{Bitmap, bitmap_init, bitmap_make}
use neonix.Bitmap.Laws.{IsValid}
use neonix.Bitmap.Scan.{bitmap_scan-Scanned}
use neonix.Pages.{
  Ards, Pages, memory_base, kernel_memory_size, div_round_up, largest_zone, memory_init, mark_used,
  memory_map_init, mapping_init,
}
use neonix.Pages.Marks.{
  mark_used-outside, mark_used-inside, length-mark_used, mark_used-small, get_elem?-replicate,
  unused-by_places,
}
use neonix.Pages.Counts.{Accounted}

-- What `memory_init` checks.
memory_init-sizes :
    (zones : List Ards) (total free : ℕ)
    → memory_init zones ≡ some (total, free)
    → (total ≡ free + 256) × (4096 ≤ free)
unfolding memory_init
memory_init-sizes zones total free h = go (largest_zone zones 0 0) h
  where
    go :
        (zone : ℕ × ℕ)
        → (let sizes : ℕ × ℕ = (zone.1 / 4096 + memory_base / 4096, zone.1 / 4096) in
            (assert (zone.0 == memory_base)
              >> (assert (zone.1 % 4096 == 0)
                  >> (assert (not (ltb zone.1 kernel_memory_size)) >> some sizes)))
            ≡ some (total, free))
        → (total ≡ free + 256) × (4096 ≤ free)
    go (base, size) run =
        let (u, at, r1) = >>=-eq-some (assert (base == memory_base)) _ run in
        let (u', whole, r2) = >>=-eq-some (assert (size % 4096 == 0)) _ r1 in
        let (u'', large, r3) = >>=-eq-some (assert (not (ltb size kernel_memory_size))) _ r2 in
        let e = some_injective r3 in
        let e0 : size / 4096 + memory_base / 4096 ≡ total = ap (λ x. x.0) e in
        let e1 : size / 4096 ≡ free = ap (λ x. x.1) e in
        let enough : ltb size kernel_memory_size ≡ false = ground arith in
        let le : kernel_memory_size ≤ size = ground arith in (omega arith, omega arith)

kernel_map-IsValid : IsValid (bitmap_init 480 256)
unfolding bitmap_init bitmap_make
kernel_map-IsValid = record {
  bytes = All-replicate (λ b. b < 256) 480 0 (omega arith);
  room = omega (arith, length-replicate {A = ℕ} 480 0);
  no_wrap = omega arith;
}

-- How many pages the counts take.
map_pages_lem :
    (total : ℕ)
    → 4352 ≤ total
    → total ≤ 2 ^ 20
    → (2 ≤ div_round_up total 4096)
      × (div_round_up total 4096 ≤ 256)
      × (total ≤ div_round_up total 4096 * 4096)
unfolding div_round_up
map_pages_lem total ge le =
    let e : sub32 (add32 total 4096) 1 ≡ total + 4095 = omega arith in
    rw e (omega arith, omega arith, omega arith)

module _ (m : ℕ) (few : m ≤ 256) where
  booted : List ℕ
  booted = mark_used 4095 1 (mark_used (256 + m) 0 (replicate (m * 4096) 0))

  length-booted : length booted ≡ m * 4096
  unfolding booted
  length-booted =
      length-mark_used 4095 1 (mark_used (256 + m) 0 (replicate (m * 4096) 0))
      ∙ length-mark_used (256 + m) 0 (replicate (m * 4096) 0)
      ∙ length-replicate {A = ℕ} (m * 4096) 0

  booted-kernel : 1 ≤ m → (j : ℕ) → j < 4096 → get_elem? booted j ≡ some 1
  unfolding booted
  booted-kernel one zero lt =
      mark_used-outside 4095 1 0 (mark_used (256 + m) 0 (replicate (m * 4096) 0))
        (inl (omega arith))
      ∙ mark_used-inside (256 + m) 0 0 (replicate (m * 4096) 0) (omega arith) (omega arith)
          (omega (arith, length-replicate {A = ℕ} (m * 4096) 0))
  booted-kernel one (suc j) lt =
      mark_used-inside 4095 1 (suc j) (mark_used (256 + m) 0 (replicate (m * 4096) 0)) (omega arith)
        (omega arith)
        (omega (
          arith,
          length-mark_used (256 + m) 0 (replicate (m * 4096) 0),
          length-replicate {A = ℕ} (m * 4096) 0,
        ))

  booted-rest : (j : ℕ) → 4096 ≤ j → j < m * 4096 → get_elem? booted j ≡ some 0
  unfolding booted
  booted-rest j ge lt =
      mark_used-outside 4095 1 j (mark_used (256 + m) 0 (replicate (m * 4096) 0))
        (inr (omega arith))
      ∙ mark_used-outside (256 + m) 0 j (replicate (m * 4096) 0) (inr (omega arith))
      ∙ get_elem?-replicate (m * 4096) j 0 lt

  booted-Accounted :
      (total free : ℕ)
      → 2 ≤ m
      → total ≤ m * 4096
      → total ≤ 2 ^ 20
      → total ≡ free + 256
      → 4096 ≤ free
      → Accounted (4096 - (256 + m)) (record {
        memory_map = booted;
        start_page = 256 + m;
        total_pages = total;
        free_pages = sub32 free m;
      })
  unfolding booted
  booted-Accounted total free two room small sum enough =
      let rest =
        unused-by_places total 4096 booted (omega arith) (booted-kernel (omega arith))
          (λ j ge lt. booted-rest j ge (omega arith)) in
      let less : sub32 free m ≡ free - m = omega arith in
      record {
        account = omega (arith, less, rest);
        below = omega (arith, less);
        small = small;
        room = omega (arith, length-booted);
        counts = mark_used-small 4095 1 (mark_used (256 + m) 0 (replicate (m * 4096) 0)) (
            mark_used-small (256 + m) 0 (replicate (m * 4096) 0)
              (All-replicate (λ c. c < 255) (m * 4096) 0 (omega arith)));
      }

-- After the start of the kernel, the number of free pages is too large: for a memory that
-- `memory_init` accepts, with 2 ^ 20 pages at most, `memory_map_init` succeeds, and after
-- `mapping_init` the pages are accounted for with an excess of 4096 less the first page that can be
-- given out, since `mapping_init` takes the kernel's pages and does not count them.
pub boot-Accounted :
    (zones : List Ards) (total free : ℕ)
    → memory_init zones ≡ some (total, free)
    → total ≤ 2 ^ 20
    → (p : Pages) × (kernel_map : Bitmap) × (memory_map_init total free ≡ some (p, kernel_map))
      × Accounted (4096 - p.start_page) (mapping_init p)
      × (p.start_page < 4096)
unfolding memory_map_init mapping_init booted
boot-Accounted zones total free h small =
    let (sum, enough) = memory_init-sizes zones total free h in
    let (two, top, room) = map_pages_lem total (omega arith) small in
    let pages = div_round_up total 4096 in
    let ((found, kernel_map), run, scanned) =
      bitmap_scan-Scanned (bitmap_init 480 256) pages kernel_map-IsValid (omega arith) in
    (
      record {
        memory_map = mark_used (256 + pages) 0 (replicate (pages * 4096) 0);
        start_page = 256 + pages;
        total_pages = total;
        free_pages = sub32 free pages;
      },
      kernel_map,
      rw run refl,
      booted-Accounted pages top total free two room small sum enough,
      omega arith,
    )
