-- ===== src/Blocks/Tests.antt =====
-- src/fs/bmap.c on a disk with one map of zones, and its theorems there.
use neonix.Prelude.{
  ℕ, zero, suc, ◌≤◌, ◌<◌, ◌≡◌, refl, true, false, none, some, [], ◌∷◌, arith, get_elem?, replicate,
  All-replicate,
}
use neonix.Bitmap.Bits.{bit_at}
use neonix.Bitmap.{test_bit, bitmap_make, bitmap_test}
use neonix.Blocks.{Buffer, Super, balloc, bfree}
use neonix.Blocks.Alloc.{IsBlock}
use neonix.Blocks.Free.{Written, balloc-Written, bfree-Written, bfree_refused}

-- Zones 5 and 6 are in use.
abbrev zmap : Buffer
zmap = record { bytes = 3 ∷ replicate 1023 0; dirty = false; disk = [] }

abbrev disk : Super
disk = record {
  imaps = [];
  zmaps = some zmap ∷ replicate 7 none;
  inodes = 32;
  zones = 100;
  firstdatazone = 6;
}

zmap-IsBlock : IsBlock zmap
zmap-IsBlock = ((omega arith, All-replicate (λ b. b < 256) 1023 0 (omega arith)), refl)

maps_present : (m : ℕ) → m ≤ 0 → (b : Buffer) × (get_elem? disk.zmaps m ≡ some (some b)) × IsBlock b
maps_present zero le = (zmap, refl, zmap-IsBlock)
maps_present (suc m) le = absurd (omega arith)

balloc-Written_example :
    (zone : ℕ) × (sb : Super) × (balloc disk ≡ some (zone, sb))
    × (zone < 100)
    × Written disk zone true sb
unfolding bit_at test_bit
balloc-Written_example =
    balloc-Written disk 0 2 zmap (omega arith) (omega arith) (omega arith) maps_present refl refl
      (omega arith) (omega arith)

bfree-Written_example : (sb : Super) × (bfree disk 6 ≡ some sb) × Written disk 6 false sb
unfolding bit_at test_bit
bfree-Written_example =
    bfree-Written disk 0 1 zmap (omega arith) (omega arith) (omega arith) refl zmap-IsBlock
      (omega arith) refl (omega arith) (omega arith) (omega arith)

-- A larger disk, with two maps; its zone 8193 is in use.
abbrev full_map : Buffer
full_map = record { bytes = replicate 1024 255; dirty = false; disk = [] }

abbrev large_disk : Super
large_disk = record disk { zmaps = some full_map ∷ some full_map ∷ replicate 6 none; zones = 9000 }

bfree_refused_example :
    (bitmap_test (bitmap_make full_map.bytes 1024 8197) 8193 ≡ none)
    × (bfree large_disk 8193 ≡ none)
bfree_refused_example =
    bfree_refused large_disk 0 8188 full_map (omega arith) (omega arith) (omega arith) (omega arith)
      (omega arith) (omega arith) refl
