-- ===== src/Bitmap/Laws.antt =====
-- The operations of src/lib/bitmap.c on one bit, for a bitmap that fits its buffer and u32.
use neonix.Prelude.{
  ℕ, ◌+◌, ◌*◌, ◌/◌, ◌≤◌, ◌<◌, ◌≡◌, ap, ◌∙◌, Bool, some, map, arith, ◌==◌, if◌then◌else◌, length,
  get_elem?-eq-get_or,
}
use neonix.Prelude.Words.{u32_mod, add32}
use neonix.Bitmap.{Bitmap, bitmap_test, bitmap_set}
use neonix.Bitmap.Bits.{
  AreBytes, bit_at, write_bit, length-write_bit, write_bit-AreBytes, bit_at-write_bit,
}

-- The buffer holds `map.length` bytes, and no bit number wraps.
pub record IsValid (map : Bitmap) : Type 0 where
  pub bytes : AreBytes map.bits
  pub room : map.length ≤ length map.bits
  pub no_wrap : map.offset + 8 * map.length < u32_mod

-- The bits of a map, by their place from `offset` on.
abbrev pub bit : Bitmap → ℕ → Bool
bit map i = bit_at map.bits i

-- What `bitmap_set` leaves.
abbrev pub with_bit : Bitmap → ℕ → Bool → Bitmap
with_bit map i v = record map { bits = write_bit map.bits i v }

pub bitmap_test_lem :
    (map : Bitmap) (i : ℕ)
    → IsValid map
    → i < 8 * map.length
    → bitmap_test map (map.offset + i) ≡ some (bit map i)
unfolding bitmap_test bit_at
bitmap_test_lem map i v h = ground (arith, get_elem?-eq-get_or map.bits (i / 8) 0 (omega arith))

pub bitmap_set_lem :
    (map : Bitmap) (i : ℕ) (b : Bool)
    → IsValid map
    → i < 8 * map.length
    → bitmap_set map (map.offset + i) b ≡ some (with_bit map i b)
unfolding bitmap_set write_bit
bitmap_set_lem map i b v h = ground (arith, get_elem?-eq-get_or map.bits (i / 8) 0 (omega arith))

pub with_bit-IsValid :
    (map : Bitmap) (i : ℕ) (b : Bool)
    → IsValid map
    → i < 8 * map.length
    → IsValid (with_bit map i b)
with_bit-IsValid map i b v h = record {
  bytes = write_bit-AreBytes map.bits i b v.bytes (omega arith);
  room = omega (arith, length-write_bit map.bits i b);
  no_wrap = v.no_wrap;
}

pub bit-with_bit :
    (map : Bitmap) (i j : ℕ) (b : Bool)
    → IsValid map
    → i < 8 * map.length
    → bit (with_bit map i b) j ≡ (if i == j then b else bit map j)
bit-with_bit map i j b v h = bit_at-write_bit map.bits i j b v.bytes (omega arith)

-- `bitmap_set` of a bit inside of a valid map succeeds, keeps the map valid, and then `bitmap_test`
-- answers the written value at that bit and the old one at every other bit of the map.
pub bitmap_test-bitmap_set :
    (map : Bitmap) (i : ℕ) (b : Bool)
    → IsValid map
    → i < 8 * map.length
    → (map' : Bitmap) × (bitmap_set map (map.offset + i) b ≡ some map')
      × IsValid map'
      × ((j : ℕ)
          → j < 8 * map.length
          → bitmap_test map' (map.offset + j) ≡ some (if i == j then b else bit map j))
bitmap_test-bitmap_set map i b v h =
    let v' = with_bit-IsValid map i b v h in
    (
      with_bit map i b,
      bitmap_set_lem map i b v h,
      v',
      λ j hj. bitmap_test_lem (with_bit map i b) j v' hj ∙ ap some (bit-with_bit map i j b v h),
    )

-- The same at the index that a loop computes in u32.
pub bitmap_test-add32 :
    (map : Bitmap) (i : ℕ)
    → IsValid map
    → i < 8 * map.length
    → bitmap_test map (add32 map.offset i) ≡ some (bit map i)
bitmap_test-add32 map i v h =
    let e : add32 map.offset i ≡ map.offset + i = omega (arith, v.no_wrap) in
    rw e (bitmap_test_lem map i v h)

pub bitmap_set-add32 :
    (map : Bitmap) (i : ℕ) (b : Bool)
    → IsValid map
    → i < 8 * map.length
    → bitmap_set map (add32 map.offset i) b ≡ some (with_bit map i b)
bitmap_set-add32 map i b v h =
    let e : add32 map.offset i ≡ map.offset + i = omega (arith, v.no_wrap) in
    rw e (bitmap_set_lem map i b v h)
