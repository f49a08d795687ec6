-- ===== src/Blocks.antt =====
-- The allocator of src/fs/bmap.c: the zones and the inodes of a disk, over the bitmaps of
-- src/lib/bitmap.c. `none` is a failed assert, or an access outside of a buffer.
pub mod Alloc
pub mod Free
pub mod Tests
use neonix.Prelude.{
  ℕ, zero, suc, ◌+◌, ◌-◌, ◌*◌, ◌%◌, ◌^◌, Bool, true, false, Option, none, some, List, map, ltb,
  if◌then◌else◌, length, get_elem?, set, ◌>>=◌, ◌>>◌, assert,
}
use neonix.Prelude.Words.{sub32}
use neonix.Bitmap.{Bitmap, bitmap_make, bitmap_test, bitmap_set, bitmap_scan}

-- A `buffer_t`: its data, whether they are dirty, and the block as it is on the disk.
pub record Buffer : Type 0 where
  pub bytes : List ℕ
  pub dirty : Bool
  pub disk : List ℕ

-- What the allocator uses of a `super_block_t`: `imaps`, `zmaps`, and three numbers of `desc`.
pub record Super : Type 0 where
  pub imaps : List (Option Buffer)
  pub zmaps : List (Option Buffer)
  pub inodes : ℕ
  pub zones : ℕ
  pub firstdatazone : ℕ

abbrev pub block_size : ℕ
block_size = 1024

abbrev pub block_bits : ℕ
block_bits = 8192

abbrev pub map_nr : ℕ
map_nr = 8

abbrev pub eof : ℕ
eof = 0xFFFFFFFF

-- `bwrite` of src/kernel/buffer.c.
unfoldable pub bwrite : Buffer → Buffer
bwrite b = if b.dirty then record b { dirty = false; disk = b.bytes } else b

-- `bwrite(buf)` of the buffer at a place.
unfoldable pub sync : (i : ℕ) → List (Option Buffer) → Option (List (Option Buffer))
sync i maps = do slot ← get_elem? maps i; b ← slot; some (set maps i (some (bwrite b)))

-- The buffer at a place, which an assert wants to be there.
unfoldable pub buffer_at : (i : ℕ) → List (Option Buffer) → Option Buffer
buffer_at i maps = do slot ← get_elem? maps i; slot

-- The loop of `balloc` and `ialloc`, with the rounds left: the number that was found, or EOF, the
-- place of the last buffer that it looked at, and the buffers.
unfoldable pub alloc_from :
    (length base limit rounds i : ℕ) → List (Option Buffer) → Option (ℕ × ℕ × List (Option Buffer))
alloc_from length base limit zero i maps = some (eof, i - 1, maps)
alloc_from length base limit (suc rounds) i maps = do
  b ← buffer_at i maps
  (found, map) ← bitmap_scan (bitmap_make b.bytes length ((i * block_bits + base) % 2 ^ 32)) 1
  let rest = alloc_from length base limit rounds (i + 1) maps
  elim found [
    | none ↦ rest
    | some bit ↦
        assert (ltb bit limit)
        >> some (bit, i, set maps i (some (record b { bytes = map.bits; dirty = true })))
  ]

unfoldable pub balloc : Super → Option (ℕ × Super)
balloc sb = do
  (bit, i, maps) ← alloc_from block_size (sub32 sb.firstdatazone 1) sb.zones map_nr 0 sb.zmaps
  zmaps ← sync i maps
  some (bit, record sb { zmaps = zmaps })

-- The length is in bytes, and a buffer has `block_size`.
unfoldable pub ialloc : Super → Option (ℕ × Super)
ialloc sb = do
  (bit, i, maps) ← alloc_from block_bits 0 sb.inodes map_nr 0 sb.imaps
  imaps ← sync i maps
  some (bit, record sb { imaps = imaps })

-- The round of `bfree` and `ifree` that clears the bit.
unfoldable pub free_at :
    (length base idx i : ℕ) → List (Option Buffer) → Option (List (Option Buffer))
free_at length base idx i maps = do
  b ← buffer_at i maps
  let map = bitmap_make b.bytes length ((block_bits * i + base) % 2 ^ 32)
  used ← bitmap_test map idx
  assert used
  map' ← bitmap_set map idx false
  sync i (set maps i (some (record b { bytes = map'.bits; dirty = true })))

-- The loop of `bfree` and `ifree`, with the rounds left. Where no round is the one, `buf` is not
-- initialised.
unfoldable pub free_from :
    (length base idx rounds i : ℕ) → List (Option Buffer) → Option (List (Option Buffer))
free_from length base idx zero i maps = none
free_from length base idx (suc rounds) i maps =
    let rest = free_from length base idx rounds (i + 1) maps in
    if ltb (block_bits * (i + 1)) idx then rest else free_at length base idx i maps

unfoldable pub bfree : Super → (idx : ℕ) → Option Super
bfree sb idx = do
  assert (ltb idx sb.zones)
  zmaps ← free_from block_size (sub32 sb.firstdatazone 1) idx map_nr 0 sb.zmaps
  some (record sb { zmaps = zmaps })

unfoldable pub ifree : Super → (idx : ℕ) → Option Super
ifree sb idx = do
  assert (ltb idx sb.inodes)
  imaps ← free_from block_bits 0 idx map_nr 0 sb.imaps
  some (record sb { imaps = imaps })
