-- ===== src/Bitmap/Tests.antt =====
-- src/lib/bitmap.c at a small map, and its theorems there.
use neonix.Prelude.{ℕ, ◌≡◌, refl, false, Option, none, some, [], ◌∷◌, arith}
use neonix.Bitmap.{
  Bitmap, bitmap_init, bitmap_test, bitmap_set, bitmap_scan, find_run, mark_run, test_bit, put_bit,
}
use neonix.Bitmap.Laws.{IsValid}
use neonix.Bitmap.Scan.{Scanned, bitmap_scan-Scanned}

-- Bits 0, 1 and 3 of the numbers from 100 on are taken.
abbrev sample : Bitmap
sample = record { bits = 11 ∷ 0 ∷ []; length = 2; offset = 100 }

sample-IsValid : IsValid sample
sample-IsValid = record { bytes = omega arith; room = omega arith; no_wrap = omega arith }

scan_two : bitmap_scan sample 2 ≡ some (some 104, record sample { bits = 59 ∷ 0 ∷ [] })
unfolding bitmap_scan find_run mark_run bitmap_test bitmap_set test_bit put_bit
scan_two = refl

scan_too_many : bitmap_scan sample 13 ≡ some (none, sample)
unfolding bitmap_scan find_run bitmap_test test_bit
scan_too_many = refl

test_outside : bitmap_test sample 116 ≡ none
unfolding bitmap_test
test_outside = refl

init_clear : bitmap_test (bitmap_init 2 100) 115 ≡ some false
unfolding bitmap_init bitmap_test test_bit
init_clear = refl

bitmap_scan-Scanned_example :
    (r : Option ℕ × Bitmap) × (bitmap_scan sample 2 ≡ some r) × Scanned sample 2 r
bitmap_scan-Scanned_example = bitmap_scan-Scanned sample 2 sample-IsValid (omega arith)
