-- ===== src/Pages/Kernel.antt =====
-- The kernel's own pages of src/kernel/memory.c, which a bitmap keeps: `alloc_kpage` and `free_kpage`.
-- `none` is a failed assert or a panic.
use mathlib.Core.Path.{subst}
use neonix.Prelude.{
  ℕ, zero, suc, ◌+◌, ◌*◌, ◌%◌, ◌^◌, ◌≤◌, ◌<◌, ◌≡◌, refl, sym, ap, ◌∙◌, inl, inr, Bool, true, false,
  ◌&&◌, Option, some, map, arith, ltb, leb, ◌==◌, if◌then◌else◌, Bool-cases, ◌>>=◌, ◌>>◌, assert,
  some_injective,
}
use neonix.Prelude.Words.{add32}
use neonix.Bitmap.{Bitmap, bitmap_test, bitmap_set, bitmap_scan}
use neonix.Bitmap.Laws.{
  IsValid, bit, with_bit, bitmap_test_lem, bitmap_set_lem, with_bit-IsValid, bit-with_bit,
}
use neonix.Bitmap.Scan.{IsFree, Marked, Scanned, taken, full, bitmap_scan-Scanned}
use neonix.Pages.{page, idx, assert_page}

unfoldable pub scan_page : Bitmap → (count : ℕ) → Option (ℕ × Bitmap)
scan_page map count = do
  assert (ltb 0 count)
  (found, map') ← bitmap_scan map count
  index ← found
  some (page index, map')

-- The loop of `reset_page`, from the page `index` on.
unfoldable pub reset_from : (count index : ℕ) → Bitmap → Option Bitmap
reset_from zero index map = some map
reset_from (suc count) index map = do
  used ← bitmap_test map index
  assert used
  map' ← bitmap_set map index false
  reset_from count (add32 index 1) map'

unfoldable pub reset_page : Bitmap → (addr count : ℕ) → Option Bitmap
reset_page map addr count = do
  assert_page addr
  assert (ltb 0 count)
  reset_from count (idx addr) map

unfoldable pub alloc_kpage : (count : ℕ) → (kernel_map : Bitmap) → Option (ℕ × Bitmap)
alloc_kpage count kernel_map = do assert (ltb 0 count); scan_page kernel_map count

unfoldable pub free_kpage : (vaddr count : ℕ) → (kernel_map : Bitmap) → Option Bitmap
free_kpage vaddr count kernel_map = do
  assert_page vaddr
  assert (ltb 0 count)
  reset_page kernel_map vaddr count

-- The bits of a row are cleared.
abbrev pub Cleared : Bitmap → (start n : ℕ) → Bitmap → Type 0
Cleared map start n map' =
    IsValid map'
    × ((i : ℕ) → bit map' i ≡ (if leb start i && ltb i (start + n) then false else bit map i))

-- A row of set bits can be reset.
reset_from-Cleared :
    (n start : ℕ) (map : Bitmap)
    → IsValid map
    → start + n ≤ 8 * map.length
    → ((i : ℕ) → start ≤ i → i < start + n → bit map i ≡ true)
    → (map' : Bitmap) × (reset_from n (map.offset + start) map ≡ some map')
      × Cleared map start n map'
unfolding reset_from
reset_from-Cleared zero start map v fits used = (map, refl, (v, λ i. ground arith))
reset_from-Cleared (suc n) start map v fits used =
    let inside : start < 8 * map.length = omega arith in
    let v' = with_bit-IsValid map start false v inside in
    let kept : (i : ℕ)
        → start + 1 ≤ i
        → i < start + 1 + n
        → bit (with_bit map start false) i ≡ true =
      λ i ge lt.
        (let e = bit-with_bit map start i false v inside in
          let u = used i (omega arith) (omega arith) in ground arith) in
    let (map', run, (v'', bits)) =
      reset_from-Cleared n (start + 1) (with_bit map start false) v' (omega arith) kept in
    let here =
      bitmap_test_lem map start v inside ∙ ap some (used start (omega arith) (omega arith)) in
    let write = bitmap_set_lem map start false v inside in
    let next : add32 (map.offset + start) 1 ≡ map.offset + (start + 1) = omega (arith, v.no_wrap) in
    (
      map',
      rw (here, write, next) run,
      (v'', λ i. bits i ∙ (let e = bit-with_bit map start i false v inside in ground arith)),
    )

free_kpage-Marked :
    (map m : Bitmap) (start count : ℕ)
    → IsValid map
    → map.offset + 8 * map.length ≤ 2 ^ 20
    → 0 < count
    → start + count ≤ 8 * map.length
    → IsFree map start count
    → Marked map start count m
    → (map'' : Bitmap) × (free_kpage ((map.offset + start) * 4096) count m ≡ some map'')
      × ((i : ℕ) → bit map'' i ≡ bit map i)
unfolding free_kpage reset_page assert_page
free_kpage-Marked map m start count v small positive fits free (vm, len, off, bits) =
    let used : (i : ℕ) → start ≤ i → i < start + count → bit m i ≡ true =
      λ i ge lt. (let e = bits i in ground arith) in
    let (map'', run, (v'', cleared)) =
      reset_from-Cleared count start m vm (omega (arith, len)) used in
    let place : idx ((map.offset + start) * 4096) ≡ m.offset + start = omega (arith, off) in
    let aligned : (map.offset + start) * 4096 % 4096 == 0 ≡ true = ground arith in
    let some_ : ltb 0 count ≡ true = ground arith in
    (map'', rw (aligned, some_, place) run, λ i. restored i (cleared i) (bits i) (free i))
  where
    restored :
        (i : ℕ) {b b' b'' : Bool}
        → b'' ≡ (if leb start i && ltb i (start + count) then false else b')
        → b' ≡ (if leb start i && ltb i (start + count) then true else b)
        → (start ≤ i → i < start + count → b ≡ false)
        → b'' ≡ b
    restored i e e' f = elim (Bool-cases (leb start i && ltb i (start + count))) [
      | inl inside ↦ let z = f (ground arith) (ground arith) in rw inside at e ∙ sym z
      | inr outside ↦ rw outside at e ∙ rw outside at e'
    ]

-- Kernel pages that were taken can be given back: where `alloc_kpage` succeeds, it gives the address
-- of the first of `count` pages in a row that were free, and `free_kpage` of them succeeds and makes
-- every page as free or used as it was before. The pages of the map are below 2 ^ 20.
pub free_kpage-alloc_kpage :
    (map map' : Bitmap) (count addr : ℕ)
    → IsValid map
    → map.offset + 8 * map.length ≤ 2 ^ 20
    → alloc_kpage count map ≡ some (addr, map')
    → (start : ℕ) × (addr ≡ (map.offset + start) * 4096)
      × IsFree map start count
      × (map'' : Bitmap) × (free_kpage addr count map' ≡ some map'')
      × ((i : ℕ) → bit map'' i ≡ bit map i)
unfolding alloc_kpage scan_page free_kpage reset_page assert_page
free_kpage-alloc_kpage map map' count addr v small h = elim (Bool-cases (ltb 0 count)) [
  | inr zero_ ↦ let no_ = rw zero_ at h in absurd cc
  | inl positive ↦
      let (r, run, scanned) = bitmap_scan-Scanned map count v (ground arith) in
      go (ground arith) r scanned (rw (positive, run) at h)
]
  where
    go :
        0 < count
        → (r : Option ℕ × Bitmap) → Scanned map count r
        → (r.0 >>= λ index. (let out : ℕ × Bitmap = (page index, r.1) in some out))
          ≡ some (addr, map')
        → (start : ℕ) × (addr ≡ (map.offset + start) * 4096)
          × IsFree map start count
          × (map'' : Bitmap) × (free_kpage addr count map' ≡ some map'')
          × ((i : ℕ) → bit map'' i ≡ bit map i)
    go positive _ (full nowhere) e = absurd cc
    go positive _ (taken start m fits free first marked) e =
        let both = some_injective e in
        let whole : page (map.offset + start) ≡ (map.offset + start) * 4096 = omega arith in
        let at : (map.offset + start) * 4096 ≡ addr = sym whole ∙ ap (λ x. x.0) both in
        let same : m ≡ map' = ap (λ x. x.1) both in
        let (map'', run, bits) =
          free_kpage-Marked map m start count v small positive fits free marked in
        (
          start,
          sym at,
          free,
          map'',
          subst (λ a. free_kpage a count map' ≡ some map'') at
              (subst (λ k. free_kpage ((map.offset + start) * 4096) count k ≡ some map'') same run),
          bits,
        )
