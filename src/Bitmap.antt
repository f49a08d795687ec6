-- ===== src/Bitmap.antt =====
-- src/lib/bitmap.c: a bitmap over a byte buffer, whose first bit stands for the number `offset`.
-- `none` is a failed assert or an access outside of the buffer.
pub mod Bits
pub mod Laws
pub mod Scan
pub mod Tests
use neonix.Prelude.{
  ℕ, zero, suc, ◌+◌, ◌-◌, ◌*◌, ◌/◌, ◌%◌, ◌^◌, bit_and, bit_or, Bool, true, false, not, Option, none,
  some, List, ltb, leb, ◌==◌, if◌then◌else◌, get_elem?, set, replicate, ◌>>=◌, ◌>>◌, assert,
}
use neonix.Prelude.Words.{u32_mod, add32}

-- `bitmap_t`, with the buffer that `bits` points to.
pub record Bitmap : Type 0 where
  pub bits : List ℕ
  pub length : ℕ
  pub offset : ℕ

unfoldable pub bitmap_make : List ℕ → ℕ → ℕ → Bitmap
bitmap_make bits length offset = record { bits = bits; length = length; offset = offset }

-- The buffer has the given length, since `memset` clears all of it.
unfoldable pub bitmap_init : ℕ → ℕ → Bitmap
unfolding bitmap_make
bitmap_init length start = bitmap_make (replicate length 0) length start

-- `byte & (1 << bit)`, as a truth value.
unfoldable pub test_bit : ℕ → ℕ → Bool
test_bit byte bit = not (bit_and byte (2 ^ bit) == 0)

unfoldable pub bitmap_test : Bitmap → ℕ → Option Bool
bitmap_test map index = do
  assert (leb map.offset index)
  let idx = index - map.offset
  assert (ltb (idx / 8) map.length)
  byte ← get_elem? map.bits (idx / 8)
  some (test_bit byte (idx % 8))

-- `byte |= 1 << bit` or `byte &= ~(1 << bit)`.
unfoldable pub put_bit : ℕ → ℕ → Bool → ℕ
put_bit byte bit value = if value then bit_or byte (2 ^ bit) else bit_and byte (255 - 2 ^ bit)

unfoldable pub bitmap_set : Bitmap → ℕ → Bool → Option Bitmap
bitmap_set map index value = do
  assert (leb map.offset index)
  let idx = index - map.offset
  byte ← get_elem? map.bits (idx / 8)
  some (record map { bits = set map.bits (idx / 8) (put_bit byte (idx % 8) value) })

-- The search of `bitmap_scan`: the first of `count` clear bits in a row, or `none` for EOF.
unfoldable pub find_run : Bitmap → (count bits_left next_bit counter : ℕ) → Option (Option ℕ)
find_run map count zero next_bit counter = some none
find_run map count (suc bits_left) next_bit counter = do
  used ← bitmap_test map (add32 map.offset next_bit)
  let counter' = if used then 0 else counter + 1
  let rest = find_run map count bits_left (next_bit + 1) counter'
  if counter' == count then some (some (next_bit + 1 - count)) else rest

-- The second loop of `bitmap_scan`.
unfoldable pub mark_run : (bits_left next_bit : ℕ) → Bitmap → Option Bitmap
mark_run zero next_bit map = some map
mark_run (suc bits_left) next_bit map = do
  map' ← bitmap_set map (add32 map.offset next_bit) true
  mark_run bits_left (next_bit + 1) map'

unfoldable pub bitmap_scan : Bitmap → ℕ → Option (Option ℕ × Bitmap)
bitmap_scan map count = do
  found ← find_run map count (map.length * 8 % u32_mod) 0 0
  elim found [
    | none ↦ some (none, map)
    | some start ↦ do map' ← mark_run count start map; some (some (add32 start map.offset), map')
  ]
