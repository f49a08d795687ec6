-- ===== src/Blocks/Free.antt =====
-- `balloc` and `bfree` of src/fs/bmap.c, from the super block to the disk.
use neonix.Prelude.{
  ℕ, zero, suc, ◌+◌, ◌-◌, ◌*◌, ◌%◌, ◌^◌, ◌≤◌, ◌<◌, ◌≡◌, refl, sym, ap, ◌∙◌, inl, inr, Bool, true,
  false, not, Option, none, some, List, arith, ltb, leb, ◌==◌, if◌then◌else◌, lt→ltb, Bool-cases,
  length, get_elem?, set, set-set, get_elem?-set_self, get_elem?-eq-none, ◌>>=◌, ◌>>◌, assert,
}
use neonix.Prelude.Words.{sub32}
use neonix.Bitmap.{Bitmap, bitmap_make, bitmap_test, bitmap_set}
use neonix.Bitmap.Bits.{bit_at, write_bit}
use neonix.Bitmap.Laws.{bitmap_test_lem, bitmap_set_lem, bit-with_bit}
use neonix.Blocks.{
  alloc_from, Buffer, Super, buffer_at, bwrite, sync, balloc, free_at, free_from, bfree,
}
use neonix.Blocks.Alloc.{IsBlock, IsValid-map, alloc_from-Allocated}

-- The bit of a zone's number is written: the zone's number is the place of its bit in the map `i`,
-- counted from the map's first number; the bit was `not used` and is `used`, the other bits and
-- buffers are as before, and the map is on the disk.
pub record Written (sb : Super) (zone : ℕ) (used : Bool) (sb' : Super) : Type 0 where
  pub i : ℕ
  pub place : ℕ
  pub old : Buffer
  pub new : Buffer
  pub at : get_elem? sb.zmaps i ≡ some (some old)
  pub number : zone ≡ i * 8192 + (sb.firstdatazone - 1) + place
  pub before : bit_at old.bytes place ≡ not used
  pub after : (j : ℕ) → bit_at new.bytes j ≡ (if j == place then used else bit_at old.bytes j)
  pub result : sb' ≡ record sb { zmaps = set sb.zmaps i (some new) }
  pub on_disk : new.disk ≡ new.bytes

in_bounds : {A : Type 0} (xs : List A) (i : ℕ) (x : A) → get_elem? xs i ≡ some x → i < length xs
in_bounds xs i x e = elim (Bool-cases (ltb i (length xs))) [
  | inl lt ↦ ground arith
  | inr ge ↦
      let z = get_elem?-eq-none xs i (ground arith) in let c : some x ≡ none = sym e ∙ z in cc
]

bwrite-dirty : (b : Buffer) → b.dirty ≡ true → bwrite b ≡ record b { dirty = false; disk = b.bytes }
unfolding bwrite
bwrite-dirty b d = ap (λ (v : Bool). if v then record b { dirty = false; disk = b.bytes } else b) d

sync-set :
    (maps : List (Option Buffer)) (i : ℕ) (o b : Buffer)
    → get_elem? maps i ≡ some (some o)
    → b.dirty ≡ true
    → sync i (set maps i (some b))
      ≡ some (set maps i (some (record b { dirty = false; disk = b.bytes })))
unfolding sync
sync-set maps i o b at d =
    rw (get_elem?-set_self maps i (some b) (in_bounds maps i (some o) at), bwrite-dirty b d)
      (ap some (set-set maps i (some b) (some (record b { dirty = false; disk = b.bytes }))))

-- The base of the maps, which wraps around for no first data zone only.
zone_base : (n : ℕ) → 0 < n → n < 2 ^ 32 → sub32 n 1 ≡ n - 1
zone_base n lt small = omega arith

abbrev balloc_from : (base : ℕ) → Super → Option (ℕ × Super)
balloc_from base sb = do
  (bit, i, maps) ← alloc_from 1024 base sb.zones 8 0 sb.zmaps
  zmaps ← sync i maps
  some (bit, record sb { zmaps = zmaps })

balloc-balloc_from :
    (sb : Super) (base : ℕ) → sub32 sb.firstdatazone 1 ≡ base → balloc sb ≡ balloc_from base sb
unfolding balloc
balloc-balloc_from sb base e = ap (λ b. balloc_from b sb) e

abbrev bfree_from : (base : ℕ) → Super → (idx : ℕ) → Option Super
bfree_from base sb idx = do
  assert (ltb idx sb.zones)
  zmaps ← free_from 1024 base idx 8 0 sb.zmaps
  some (record sb { zmaps = zmaps })

bfree-bfree_from :
    (sb : Super) (idx base : ℕ)
    → sub32 sb.firstdatazone 1 ≡ base
    → bfree sb idx ≡ bfree_from base sb idx
unfolding bfree
bfree-bfree_from sb idx base e = ap (λ b. bfree_from b sb idx) e

abbrev free_with : (offset idx i : ℕ) → List (Option Buffer) → Option (List (Option Buffer))
free_with offset idx i maps = do
  b ← buffer_at i maps
  used ← bitmap_test (bitmap_make b.bytes 1024 offset) idx
  assert used
  map' ← bitmap_set (bitmap_make b.bytes 1024 offset) idx false
  sync i (set maps i (some (record b { bytes = map'.bits; dirty = true })))

free_at-free_with :
    (base idx i offset : ℕ) (maps : List (Option Buffer))
    → (8192 * i + base) % 2 ^ 32 ≡ offset
    → free_at 1024 base idx i maps ≡ free_with offset idx i maps
unfolding free_at
free_at-free_with base idx i offset maps e = ap (λ o. free_with o idx i maps) e

-- Where a map of zones has a clear bit whose number is below the number of zones, and it and the
-- maps before it are in memory, `balloc` succeeds if the first data zone is not 0: the zone that it returns was free and is
-- taken, no other bit changes, and the map is written to the disk.
pub balloc-Written :
    (sb : Super) (k place : ℕ) (last : Buffer)
    → 0 < sb.firstdatazone
    → sb.firstdatazone < 2 ^ 16
    → k < 8
    → ((m : ℕ) → m ≤ k → (b : Buffer) × (get_elem? sb.zmaps m ≡ some (some b)) × IsBlock b)
    → get_elem? sb.zmaps k ≡ some (some last)
    → bit_at last.bytes place ≡ false
    → place < 8192
    → k * 8192 + (sb.firstdatazone - 1) + place < sb.zones
    → (zone : ℕ) × (sb' : Super) × (balloc sb ≡ some (zone, sb'))
      × (zone < sb.zones)
      × Written sb zone true sb'
balloc-Written sb k place last first small lt maps lastly clear inside below =
    let base = zone_base sb.firstdatazone first (omega arith) in
    let (bit, j, maps', run, a, l) =
      alloc_from-Allocated (sb.firstdatazone - 1) sb.zones (omega arith) sb.zmaps k place last
        lastly clear inside below 8 0 (omega arith) (omega arith) lt maps in
    let s : sync j maps'
        ≡ some (set sb.zmaps j (some (record (a.new) { dirty = false; disk = a.new.bytes }))) =
      rw (a.result) (sync-set sb.zmaps j a.old a.new a.at a.dirty) in
    (
      bit,
      record sb {
        zmaps = set sb.zmaps j (some (record (a.new) { dirty = false; disk = a.new.bytes }));
      },
      balloc-balloc_from sb (sb.firstdatazone - 1) base ∙ rw (run, s) refl,
      l,
      record {
        i = j;
        place = a.place;
        old = a.old;
        new = record (a.new) { dirty = false; disk = a.new.bytes };
        at = a.at;
        number = a.number;
        before = a.free;
        after = a.bits;
        result = refl;
        on_disk = refl;
      },
    )

-- The loop of `bfree` stops at the map by the zone's number.
free_from-at :
    (base idx k rounds i : ℕ) (maps : List (Option Buffer))
    → i ≤ k
    → k < i + rounds
    → 8192 * k < idx
    → idx ≤ 8192 * (k + 1)
    → free_from 1024 base idx rounds i maps ≡ free_at 1024 base idx k maps
unfolding free_from
free_from-at base idx k zero i maps le lt lo hi = absurd (omega arith)
free_from-at base idx k (suc rounds) i maps le lt lo hi = elim (Bool-cases (i == k)) [
  | inl same ↦
      let e : i ≡ k = ground arith in
      let stop : ltb (8192 * (i + 1)) idx ≡ false = ground arith in
      rw stop (ap (λ j. free_at 1024 base idx j maps) e)
  | inr other ↦
      let more : ltb (8192 * (i + 1)) idx ≡ true =
        (let l : i < k = ground arith in lt→ltb _ _ (omega arith)) in
      rw more (free_from-at base idx k rounds (i + 1) maps (ground arith) (omega arith) lo hi)
]

-- `bfree` of a zone that is in use, whose map is in memory and is the one that the loop picks by
-- the zone's number, succeeds if the first data zone is not 0: the zone's bit is cleared, no other bit changes, and the map is
-- written to the disk.
pub bfree-Written :
    (sb : Super) (i place : ℕ) (old : Buffer)
    → 0 < sb.firstdatazone
    → sb.firstdatazone < 2 ^ 16
    → i < 8
    → get_elem? sb.zmaps i ≡ some (some old)
    → IsBlock old
    → place < 8192
    → bit_at old.bytes place ≡ true
    → 8192 * i < i * 8192 + (sb.firstdatazone - 1) + place
    → i * 8192 + (sb.firstdatazone - 1) + place ≤ 8192 * (i + 1)
    → i * 8192 + (sb.firstdatazone - 1) + place < sb.zones
    → (sb' : Super) × (bfree sb (i * 8192 + (sb.firstdatazone - 1) + place) ≡ some sb')
      × Written sb (i * 8192 + (sb.firstdatazone - 1) + place) false sb'
unfolding buffer_at bitmap_make
bfree-Written sb i place old first small lt at block inside used lo hi valid =
    let base = sb.firstdatazone - 1 in
    let base_eq = zone_base sb.firstdatazone first (omega arith) in
    let map : Bitmap = record { bits = old.bytes; length = 1024; offset = i * 8192 + base } in
    let v = IsValid-map base sb.zones (omega arith) sb.zmaps i old lt block in
    let new : Buffer = record {
      bytes = write_bit old.bytes place false;
      dirty = true;
      disk = old.disk;
    } in
    let stop =
      free_from-at base (i * 8192 + base + place) i 8 0 sb.zmaps (omega arith) (omega arith) lo
        hi in
    let e : (8192 * i + base) % 2 ^ 32 ≡ i * 8192 + base = omega arith in
    let t : bitmap_test map (i * 8192 + base + place) ≡ some true =
      bitmap_test_lem map place v (omega arith) ∙ ap some used in
    let w = bitmap_set_lem map place false v (omega arith) in
    let s = sync-set sb.zmaps i old new at refl in
    let limit = lt→ltb _ _ valid in
    (
      record sb { zmaps = set sb.zmaps i (some (record new { dirty = false; disk = new.bytes })) },
      bfree-bfree_from sb (i * 8192 + base + place) base base_eq
          ∙ rw
              (
                limit,
                stop,
                free_at-free_with base (i * 8192 + base + place) i (i * 8192 + base) sb.zmaps e,
                at,
                t,
                w,
                s,
              )
              refl,
      record {
        i = i;
        place = place;
        old = old;
        new = record new { dirty = false; disk = new.bytes };
        at = at;
        number = refl;
        before = used;
        after = λ j. bit-with_bit map place j false v (omega arith) ∙ ground arith;
        result = refl;
        on_disk = refl;
      },
    )

-- A zone whose bit lies in the map `i`, but whose number is above 8192 * (i + 1), cannot be freed,
-- though the number is a valid one and the next map is in memory: the loop of `bfree` takes the next
-- map, whose first number is above the zone's, so `bitmap_test` fails its assert there, and with it
-- `bfree`. The first data zone is from 1 to 8193 here.
pub bfree_refused :
    (sb : Super) (i place : ℕ) (next : Buffer)
    → 0 < sb.firstdatazone
    → i + 1 < 8
    → place < 8192
    → 8192 < (sb.firstdatazone - 1) + place
    → sb.firstdatazone - 1 ≤ 8192
    → i * 8192 + (sb.firstdatazone - 1) + place < sb.zones
    → get_elem? sb.zmaps (i + 1) ≡ some (some next)
    → (bitmap_test
          (bitmap_make next.bytes 1024 ((i + 1) * 8192 + (sb.firstdatazone - 1)))
          (i * 8192 + (sb.firstdatazone - 1) + place)
        ≡ none)
      × (bfree sb (i * 8192 + (sb.firstdatazone - 1) + place) ≡ none)
unfolding buffer_at bitmap_make bitmap_test
bfree_refused sb i place next first lt inside beyond low valid at =
    let base = sb.firstdatazone - 1 in
    let base_eq = zone_base sb.firstdatazone first (omega arith) in
    let limit = lt→ltb _ _ valid in
    let stop =
      free_from-at base (i * 8192 + base + place) (i + 1) 8 0 sb.zmaps (omega arith) (omega arith)
        (omega arith) (omega arith) in
    let e : (8192 * (i + 1) + base) % 2 ^ 32 ≡ (i + 1) * 8192 + base = omega arith in
    let early : leb ((i + 1) * 8192 + base) (i * 8192 + base + place) ≡ false = ground arith in
    (
      rw early refl,
      bfree-bfree_from sb (i * 8192 + base + place) base base_eq
          ∙ rw
              (
                limit,
                stop,
                free_at-free_with base (i * 8192 + base + place) (i + 1) ((i + 1) * 8192 + base)
                    sb.zmaps e,
                at,
                early,
              )
              refl,
    )
