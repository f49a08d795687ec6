-- ===== src/Bitmap/Scan.antt =====
-- `bitmap_scan` of src/lib/bitmap.c finds the first run of clear bits and marks it.
use neonix.Prelude.{
  ℕ, zero, suc, ◌+◌, ◌-◌, ◌*◌, ◌%◌, ◌≤◌, ◌<◌, ◌≡◌, refl, ◌≢◌, inl, inr, Bool, true, false, ◌&&◌,
  Option, none, some, map, arith, ltb, leb, ◌==◌, if◌then◌else◌, Bool-cases,
}
use neonix.Bitmap.{Bitmap, find_run, mark_run, bitmap_scan}
use neonix.Prelude.Words.{u32_mod, add32}
use neonix.Bitmap.Laws.{
  IsValid, bit, with_bit, bitmap_test-add32, bitmap_set-add32, with_bit-IsValid, bit-with_bit,
}

-- The `n` bits from `s` on are clear.
abbrev pub IsFree : Bitmap → ℕ → ℕ → Type 0
IsFree map s n = (i : ℕ) → s ≤ i → i < s + n → bit map i ≡ false

-- What a search for `count` clear bits may answer.
pub data FirstRun (map : Bitmap) (count : ℕ) : Option ℕ → Type 0 where
  found :
      (start : ℕ)
      → start + count ≤ 8 * map.length
      → IsFree map start count
      → ((s : ℕ) → s < start → ¬ (IsFree map s count))
      → FirstRun map count (some start)
  missing :
      ((s : ℕ) → s + count ≤ 8 * map.length → ¬ (IsFree map s count)) → FirstRun map count none

module _ (map : Bitmap) (count : ℕ) (v : IsValid map) (positive : 0 < count) where
  -- The state of the search: the run that ends before `next`, and nothing found so far.
  record Searching (next counter : ℕ) : Type 0 where
    fits : counter ≤ next
    short : counter < count
    run : IsFree map (next - counter) counter
    longest : (s : ℕ) → s ≤ next → IsFree map s (next - s) → next ≤ s + counter
    none_yet : (s : ℕ) → s + count ≤ next → ¬ (IsFree map s count)

  start-Searching : Searching 0 0
  start-Searching = record {
    fits = omega arith;
    short = positive;
    run = λ i p q. absurd (omega arith);
    longest = λ s p f. omega arith;
    none_yet = λ s p. absurd (omega arith);
  }

  -- A set bit ends the run.
  used-Searching :
      (next counter : ℕ) → bit map next ≡ true → Searching next counter → Searching (next + 1) 0
  used-Searching next counter u st = record {
    fits = omega arith;
    short = positive;
    run = λ i p q. absurd (omega arith);
    longest = λ s p f. ground (arith, f next);
    none_yet = λ s p f. ground (arith, st.none_yet s, f next);
  }

  -- A clear bit makes it longer.
  clear_run :
      (next counter : ℕ)
      → bit map next ≡ false
      → Searching next counter
      → IsFree map (next + 1 - (counter + 1)) (counter + 1)
  clear_run next counter c st i p q = elim (Bool-cases (i == next)) [
    | inl e ↦ ground arith
    | inr e ↦ ground (arith, st.run i)
  ]

  clear_longest :
      (next counter : ℕ)
      → bit map next ≡ false
      → Searching next counter
      → (s : ℕ) → s ≤ next + 1
      → IsFree map s (next + 1 - s)
      → next + 1 ≤ s + (counter + 1)
  clear_longest next counter c st s p f = elim (Bool-cases (s == next + 1)) [
    | inl e ↦ ground arith
    | inr e ↦ ground (arith, st.longest s (ground arith) (λ i a b. f i a (omega arith)))
  ]

  step_none :
      (next counter : ℕ)
      → bit map next ≡ false
      → Searching next counter
      → counter + 1 ≢ count
      → (s : ℕ) → s + count ≤ next + 1
      → ¬ (IsFree map s count)
  step_none next counter c st ne s p f = elim (Bool-cases (leb (s + count) next)) [
    | inl old ↦ st.none_yet s (ground arith) f
    | inr new ↦
        let last : s + count ≡ next + 1 = ground arith in
        ne (
          omega (
            arith,
            st.short,
            clear_longest next counter c st s (omega arith) (λ i a b. f i a (omega arith)),
          ))
  ]

  clear-Searching :
      (next counter : ℕ)
      → bit map next ≡ false
      → Searching next counter
      → counter + 1 ≢ count
      → Searching (next + 1) (counter + 1)
  clear-Searching next counter c st ne = record {
    fits = omega (arith, st.fits);
    short = omega (arith, st.short);
    run = clear_run next counter c st;
    longest = clear_longest next counter c st;
    none_yet = step_none next counter c st ne;
  }

  -- The search answers, and what it answers is right.
  abbrev Answers : Option (Option ℕ) → Type 0
  Answers r = (o : Option ℕ) × (r ≡ some o) × FirstRun map count o

  find_run-step :
      (bits_left next counter : ℕ)
      → next + suc bits_left ≡ 8 * map.length
      → (b : Bool) → bit map next ≡ b
      → Searching next counter
      → ((c : ℕ) → Searching (next + 1) c → Answers (find_run map count bits_left (next + 1) c))
      → Answers (find_run map count (suc bits_left) next counter)
  unfolding find_run
  find_run-step bits_left next counter e true u st more =
      let no_match : (0 == count) ≡ false = ground arith in
      rw (bitmap_test-add32 map next v (omega arith), u, no_match)
        (more 0 (used-Searching next counter u st))
  find_run-step bits_left next counter e false c st more =
      rw (bitmap_test-add32 map next v (omega arith), c)
        (elim (Bool-cases (counter + 1 == count)) [
          | inl match ↦
              let full : counter + 1 ≡ count = ground arith in
              rw match (
                some (next + 1 - count),
                refl,
                found (next + 1 - count) (omega (arith, st.fits))
                    (λ i p q. clear_run next counter c st i (omega arith) (omega arith))
                    (λ s p. st.none_yet s (omega (arith, st.fits))),
              )
          | inr miss ↦
              rw miss (more (counter + 1) (clear-Searching next counter c st (ground arith)))
        ])

  find_run-FirstRun :
      (bits_left next counter : ℕ)
      → next + bits_left ≡ 8 * map.length
      → Searching next counter
      → Answers (find_run map count bits_left next counter)
  unfolding find_run
  find_run-FirstRun zero next counter e st =
      (none, refl, missing (λ s p. st.none_yet s (omega arith)))
  find_run-FirstRun (suc bits_left) next counter e st =
      find_run-step bits_left next counter e (bit map next) refl st
        (λ c st'. find_run-FirstRun bits_left (next + 1) c (omega arith) st')

-- Marking a run sets its bits and no others.
abbrev pub Marked : Bitmap → ℕ → ℕ → Bitmap → Type 0
Marked map start n map' =
    IsValid map'
    × (map'.length ≡ map.length)
    × (map'.offset ≡ map.offset)
    × ((i : ℕ) → bit map' i ≡ (if leb start i && ltb i (start + n) then true else bit map i))

mark_run-Marked :
    (n start : ℕ) (map : Bitmap)
    → IsValid map
    → start + n ≤ 8 * map.length
    → (map' : Bitmap) × (mark_run n start map ≡ some map') × Marked map start n map'
unfolding mark_run
mark_run-Marked zero start map v h = (map, refl, (v, refl, refl, λ i. ground arith))
mark_run-Marked (suc n) start map v h =
    let v' = with_bit-IsValid map start true v (omega arith) in
    let (map', run, marked) =
      mark_run-Marked n (start + 1) (with_bit map start true) v' (omega arith) in
    (
      map',
      rw (bitmap_set-add32 map start true v (omega arith)) run,
      (
        marked.0,
        marked.1,
        marked.2,
        λ i. ground (arith, marked.3 i, bit-with_bit map start i true v (omega arith)),
      ),
    )

-- What `bitmap_scan` may do to a map.
pub data Scanned (map : Bitmap) (count : ℕ) : Option ℕ × Bitmap → Type 0 where
  taken :
      (start : ℕ) (map' : Bitmap)
      → start + count ≤ 8 * map.length
      → IsFree map start count
      → ((s : ℕ) → s < start → ¬ (IsFree map s count))
      → Marked map start count map'
      → Scanned map count (some (map.offset + start), map')
  full :
      ((s : ℕ) → s + count ≤ 8 * map.length → ¬ (IsFree map s count))
      → Scanned map count (none, map)

scan-Scanned :
    (map : Bitmap) (count : ℕ)
    → IsValid map
    → (o : Option ℕ) → find_run map count (map.length * 8 % u32_mod) 0 0 ≡ some o
    → FirstRun map count o
    → (r : Option ℕ × Bitmap) × (bitmap_scan map count ≡ some r) × Scanned map count r
unfolding bitmap_scan
scan-Scanned map count v none run (missing nowhere) = ((none, map), rw run, full nowhere)
scan-Scanned map count v (some start) run (found _ fits free first) =
    let (map', mark, marked) = mark_run-Marked count start map v fits in
    let e : add32 start map.offset ≡ map.offset + start = omega (arith, v.no_wrap) in
    ((some (map.offset + start), map'), rw (run, mark, e), taken start map' fits free first marked)

-- On a valid map, `bitmap_scan` for at least one bit never faults. Either it returns EOF, the map
-- is unchanged and no `count` clear bits stand in a row; or it returns the number of the first bit
-- of the lowest such run, and the new map, still valid, has exactly those bits set besides.
pub bitmap_scan-Scanned :
    (map : Bitmap) (count : ℕ)
    → IsValid map
    → 0 < count
    → (r : Option ℕ × Bitmap) × (bitmap_scan map count ≡ some r) × Scanned map count r
bitmap_scan-Scanned map count v positive =
    let e : map.length * 8 % u32_mod ≡ 8 * map.length = omega (arith, v.no_wrap) in
    let (o, run, first) =
      find_run-FirstRun map count v positive (map.length * 8 % u32_mod) 0 0 (omega arith)
        (start-Searching map count v positive) in
    scan-Scanned map count v o run first
