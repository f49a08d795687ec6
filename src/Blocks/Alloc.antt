-- ===== src/Blocks/Alloc.antt =====
-- `balloc` of src/fs/bmap.c hands out a number that was free, and writes its bit to the disk.
use mathlib.Core.Path.{subst}
use neonix.Prelude.{
  ℕ, zero, suc, ◌+◌, ◌*◌, ◌%◌, ◌^◌, ◌≤◌, ◌<◌, ◌≡◌, refl, ◌∙◌, ◌≢◌, ◌⊎◌, inl, inr, true, false,
  Option, some, List, arith, ltb, ◌==◌, if◌then◌else◌, lt→ltb, Bool-cases, length, get_elem?, set,
}
use neonix.Bitmap.{Bitmap, bitmap_make, bitmap_scan}
use neonix.Bitmap.Bits.{AreBytes, bit_at}
use neonix.Bitmap.Laws.{IsValid}
use neonix.Bitmap.Scan.{IsFree, Scanned, taken, full, bitmap_scan-Scanned}
use neonix.Blocks.{Buffer, buffer_at, alloc_from}

-- A buffer of 1024 bytes.
abbrev pub IsBlock : Buffer → Type 0
IsBlock b = AreBytes b.bytes × (length b.bytes ≡ 1024)

-- The number `bit` of the map at the place `i` was free and is taken: its bit is set, the others
-- are as before, and so is every other buffer; each map before it has no free bit.
pub record Allocated (base : ℕ) (maps : List (Option Buffer)) (bit i : ℕ)
    (maps' : List (Option Buffer)) : Type 0 where
  pub old : Buffer
  pub new : Buffer
  pub place : ℕ
  pub at : get_elem? maps i ≡ some (some old)
  pub number : bit ≡ i * 8192 + base + place
  pub inside : place < 8192
  pub free : bit_at old.bytes place ≡ false
  pub bits : (j : ℕ) → bit_at new.bytes j ≡ (if j == place then true else bit_at old.bytes j)
  pub result : maps' ≡ set maps i (some new)
  pub dirty : new.dirty ≡ true

module _ (base limit : ℕ) (small : base < 2 ^ 20) (maps : List (Option Buffer)) where
  pub IsValid-map :
      (i : ℕ) (b : Buffer)
      → i < 8
      → IsBlock b
      → IsValid (bitmap_make b.bytes 1024 (i * 8192 + base))
  unfolding bitmap_make
  IsValid-map i b lt (bytes, n) = record {
    bytes = bytes;
    room = omega arith;
    no_wrap = omega arith;
  }

  module _ (k : ℕ) (place : ℕ) (last : Buffer) (lastly : get_elem? maps k ≡ some (some last))
      (clear : bit_at last.bytes place ≡ false) (inside : place < 8192)
      (below : k * 8192 + base + place < limit) where
    clear_at :
        (i : ℕ) (b : Buffer)
        → i ≡ k
        → get_elem? maps i ≡ some (some b)
        → IsFree (bitmap_make b.bytes 1024 (i * 8192 + base)) place 1
    unfolding bitmap_make
    clear_at i b e at q ge lt =
        let same : b ≡ last = cc in
        let here : place ≡ q = omega arith in
        subst (λ j. bit_at b.bytes j ≡ false) here (rw same clear)

    -- The first clear bit has a number below the limit.
    lowest :
        (i : ℕ) (b : Buffer) (start : ℕ)
        → i ≤ k
        → get_elem? maps i ≡ some (some b)
        → start < 8192
        → ((s : ℕ) → s < start → ¬ (IsFree (bitmap_make b.bytes 1024 (i * 8192 + base)) s 1))
        → i * 8192 + base + start < limit
    lowest i b start le at lt first = elim (Bool-cases (i == k)) [
      | inr before ↦ let l : i < k = ground arith in omega arith
      | inl same ↦ elim (Bool-cases (ltb place start)) [
        | inl passed ↦ absurd (first place (ground arith) (clear_at i b (ground arith) at))
        | inr ok ↦
            let e : i ≡ k = ground arith in let l : start ≤ place = ground arith in omega arith
      ]
    ]

    -- A scan that has found a clear bit ends the loop.
    scan_taken :
        (i rounds : ℕ) (b : Buffer) (s : Option ℕ × Bitmap)
        → i ≤ k
        → k < 8
        → get_elem? maps i ≡ some (some b)
        → bitmap_scan (bitmap_make b.bytes 1024 (i * 8192 + base)) 1 ≡ some s
        → Scanned (bitmap_make b.bytes 1024 (i * 8192 + base)) 1 s
        → ((i ≢ k)
            × (alloc_from 1024 base limit (suc rounds) i maps
                ≡ alloc_from 1024 base limit rounds (i + 1) maps))
          ⊎ ((bit : ℕ) × (maps' : List (Option Buffer)) × (alloc_from 1024 base limit
                  (suc rounds)
                  i
                  maps
                ≡ some (bit, i, maps'))
              × Allocated base maps bit i maps'
              × (bit < limit))
    unfolding bitmap_make alloc_from buffer_at
    scan_taken i rounds b s le l8 at run (full nowhere) =
        let small_base : (i * 8192 + base) % 2 ^ 32 ≡ i * 8192 + base = omega arith in
        inl (λ e. nowhere place (omega arith) (clear_at i b e at), rw (at, small_base, run) refl)
    scan_taken i rounds b s le l8 at run (taken start map' fits free first marked) =
        let small_base : (i * 8192 + base) % 2 ^ 32 ≡ i * 8192 + base = omega arith in
        let small_enough : i * 8192 + base + start < limit =
          lowest i b start le at (omega arith) first in
        inr (
          i * 8192 + base + start,
          set maps i (some (record b { bytes = map'.bits; dirty = true })),
          rw (at, small_base, run, lt→ltb _ _ small_enough) refl,
          record {
            old = b;
            new = record b { bytes = map'.bits; dirty = true };
            place = start;
            at = at;
            number = refl;
            inside = omega arith;
            free = free start (omega arith) (omega arith);
            bits = λ j. marked.3 j ∙ ground arith;
            result = refl;
            dirty = refl;
          },
          small_enough,
        )

    -- The loop takes a number where one is free, in a map that it comes to.
    pub alloc_from-Allocated :
        (rounds i : ℕ)
        → i ≤ k
        → k < i + rounds
        → k < 8
        → ((m : ℕ) → m ≤ k → (b : Buffer) × (get_elem? maps m ≡ some (some b)) × IsBlock b)
        → (bit : ℕ) × (j : ℕ) × (maps' : List (Option Buffer)) × (alloc_from 1024 base limit rounds
              i maps
            ≡ some (bit, j, maps'))
          × Allocated base maps bit j maps'
          × (bit < limit)
    alloc_from-Allocated zero i le lt l8 blocks = absurd (omega arith)
    alloc_from-Allocated (suc rounds) i le lt l8 blocks =
        let (b, at, block) = blocks i le in
        let (s, run, found) =
          bitmap_scan-Scanned (bitmap_make b.bytes 1024 (i * 8192 + base)) 1
            (IsValid-map i b (omega arith) block) (omega arith) in
        elim (scan_taken i rounds b s le l8 at run found) [
          | inl (ne, e) ↦
              let n : i < k = ground arith in
              let (bit, j, maps', r, a, l) =
                alloc_from-Allocated rounds (i + 1) (omega arith) (omega arith) l8 blocks in
              (bit, j, maps', e ∙ r, a, l)
          | inr (bit, maps', r, a, l) ↦ (bit, i, maps', r, a, l)
        ]
