-- ===== src/Pages/Entries.antt =====
-- The account of the pages under the operations of src/kernel/memory.c on page table entries.
use mathlib.Core.Path.{subst}
use neonix.Prelude.{
  ℕ, ◌+◌, ◌-◌, ◌%◌, ◌≤◌, ◌<◌, ◌≡◌, refl, sym, ap, ◌∙◌, ◌≢◌, inl, inr, Bool, true, false, ◌&&◌, not,
  Option, some, arith, ltb, leb, ◌==◌, if◌then◌else◌, Bool-cases, get_elem?, set, length-set,
  get_elem?-set_ne, All-set, ◌>>=◌, ◌>>◌, assert, >>=-eq-some, some_injective, All-get_elem?,
}
use neonix.Prelude.Words.{add32}
use neonix.Pages.{
  Pages, Entry, idx, assert_page, get_page, put_page, copy_entry, copy_on_write, write_fault,
}
use neonix.Pages.Counts.{
  Accounted, Taken, one_if_zero, unused, unused-set, unused-set_beyond, get_page-Taken,
  Taken-Accounted,
}

pub assert-true :
    (b : Bool) {A : Type 0} (k : Option A) {a : A}
    → (assert b >> k) ≡ some a
    → (b ≡ true) × (k ≡ some a)
assert-true true k h = (refl, h)
assert-true false k h = cc

pub get_page-Accounted :
    (extra : ℕ) (p p' : Pages) (addr : ℕ)
    → Accounted extra p
    → get_page p ≡ some (addr, p')
    → Accounted extra p'
get_page-Accounted extra p p' addr v h =
    Taken-Accounted extra p p' addr v (get_page-Taken extra p p' addr v h)

-- A count that stays a reference, or becomes one, does not change the number of unused pages.
pub recount-Accounted :
    (extra : ℕ) (p : Pages) (i old new : ℕ)
    → Accounted extra p
    → get_elem? p.memory_map i ≡ some old
    → 0 < old
    → 0 < new
    → new < 255
    → Accounted extra (record p { memory_map = set p.memory_map i new })
recount-Accounted extra p i old new v at o n lt = record {
  account = omega (arith, v.account, same);
  below = v.below;
  small = v.small;
  room = omega (arith, v.room, length-set p.memory_map i new);
  counts = All-set (λ n. n < 255) p.memory_map i new v.counts lt;
}
  where
    same : unused p.total_pages (set p.memory_map i new) ≡ unused p.total_pages p.memory_map
    same = elim (Bool-cases (ltb i p.total_pages)) [
      | inl inside ↦
          let e = unused-set p.total_pages i p.memory_map old new (ground arith) at in
          let z : one_if_zero old ≡ 0 = ground arith in
          let z' : one_if_zero new ≡ 0 = ground arith in omega arith
      | inr outside ↦ unused-set_beyond p.total_pages i p.memory_map new (ground arith)
    ]

pub put_page-Accounted :
    (extra : ℕ) (p p' : Pages) (addr : ℕ)
    → Accounted extra p
    → put_page addr p ≡ some p'
    → Accounted extra p'
unfolding put_page
put_page-Accounted extra p p' addr v h =
    let i = idx addr in
    let (u, aligned, r0) = >>=-eq-some (assert_page addr) _ h in
    let (range, r1) = assert-true (leb p.start_page i && ltb i p.total_pages) _ r0 in
    let (n, at, r2) = >>=-eq-some (get_elem? p.memory_map i) _ r1 in
    let (used, r3) = assert-true (leb 1 n) _ r2 in
    go i n (ground arith) at (ground arith) (assert-true _ _ r3)
  where
    go :
        (i n : ℕ)
        → i < p.total_pages
        → get_elem? p.memory_map i ≡ some n
        → 1 ≤ n
        → (let free = if n == 1 then add32 p.free_pages 1 else p.free_pages in
            ((ltb 0 free && ltb free p.total_pages) ≡ true)
            × (some (record p { memory_map = set p.memory_map i (n - 1); free_pages = free })
                ≡ some p'))
        → Accounted extra p'
    go i n lt at one (range, e) =
        subst (Accounted extra) (some_injective e) (elim (Bool-cases (n == 1)) [
          | inl last ↦
              let below : add32 p.free_pages 1 < p.total_pages = ground arith in
              let more : add32 p.free_pages 1 ≡ p.free_pages + 1 =
                omega (arith, v.small, v.below) in
              let z : n ≡ 1 = ground arith in
              rw last (record {
                account = omega (
                  arith,
                  v.account,
                  more,
                  unused-set p.total_pages i p.memory_map 1 0 lt (at ∙ ap some z),
                  ap (λ k. unused p.total_pages (set p.memory_map i (k - 1))) z,
                );
                below = below;
                small = v.small;
                room = omega (arith, v.room, length-set p.memory_map i (n - 1));
                counts = All-set (λ n. n < 255) p.memory_map i (n - 1) v.counts (omega (arith, z));
              })
          | inr more ↦
              let small = All-get_elem? (λ n. n < 255) p.memory_map i v.counts at in
              rw more (
                recount-Accounted extra p i n (n - 1) v at (omega arith) (ground arith)
                  (omega arith))
        ])

-- The page that is taken is not one that has references.
other_count :
    (p p' : Pages) (addr j n : ℕ)
    → Taken p addr p'
    → get_elem? p.memory_map j ≡ some n
    → 0 < n
    → get_elem? p'.memory_map j ≡ some n
other_count p p' addr j n (i, (le, lt, at), e, free, same) at' positive =
    let ne : i ≢ j = λ eq.
      (let z : 0 ≡ n =
          some_injective (sym (subst (λ k. get_elem? p.memory_map k ≡ some 0) eq at) ∙ at') in
        absurd (omega arith)) in
    subst (λ q. get_elem? q.memory_map j ≡ some n) (sym same)
      (get_elem?-set_ne p.memory_map i j 1 ne ∙ at')

pub copy_entry-Accounted :
    (extra : ℕ) (p : Pages) (entry : Entry) (r : Entry × Pages)
    → Accounted extra p
    → copy_entry entry p ≡ some r
    → Accounted extra r.1
unfolding copy_entry
copy_entry-Accounted extra p entry r v h = elim (Bool-cases entry.present) [
  | inr absent ↦
      let same : some (entry, p) ≡ some r = sym (rw absent refl) ∙ h in
      subst (Accounted extra) (ap (λ x. x.1) (some_injective same)) v
  | inl there ↦ go (sym (rw there refl) ∙ h)
]
  where
    go :
        (do
          n ← get_elem? p.memory_map entry.index
          assert (ltb 0 n)
          assert (ltb ((n + 1) % 256) 255)
          some (
            record entry { write = if entry.shared then entry.write else false },
            record p { memory_map = set p.memory_map entry.index ((n + 1) % 256) },
          ))
          ≡ some r
        → Accounted extra r.1
    go run =
        let (n, at, r1) = >>=-eq-some (get_elem? p.memory_map entry.index) _ run in
        let (used, r2) = assert-true (ltb 0 n) _ r1 in
        let (fits, r3) = assert-true (ltb ((n + 1) % 256) 255) _ r2 in
        let lt = All-get_elem? (λ n. n < 255) p.memory_map entry.index v.counts at in
        let whole : (n + 1) % 256 ≡ n + 1 = omega (arith, lt) in
        subst (Accounted extra) (ap (λ x. x.1) (some_injective r3)) (
          recount-Accounted extra p entry.index n ((n + 1) % 256) v at (ground arith)
            (omega (arith, whole)) (ground arith))

copy_on_write-Accounted :
    (extra : ℕ) (p : Pages) (entry : Entry) (n : ℕ) (r : Entry × Pages)
    → Accounted extra p
    → get_elem? p.memory_map entry.index ≡ some n
    → 2 ≤ n
    → copy_on_write entry p ≡ some r
    → Accounted extra r.1
unfolding copy_on_write
copy_on_write-Accounted extra p entry n r v at two h =
    let ((addr, p'), got, r1) = >>=-eq-some (get_page p) _ h in
    let (m, at', r2) = >>=-eq-some (get_elem? p'.memory_map entry.index) _ r1 in
    let taken = get_page-Taken extra p p' addr v got in
    let v' = Taken-Accounted extra p p' addr v taken in
    let same : m ≡ n =
      some_injective (sym at' ∙ other_count p p' addr entry.index n taken at (omega arith)) in
    let lt = All-get_elem? (λ n. n < 255) p.memory_map entry.index v.counts at in
    let whole : (m + 255) % 256 ≡ n - 1 = omega (arith, same, lt) in
    subst (Accounted extra) (ap (λ x. x.1) (some_injective r2)) (
      recount-Accounted extra p' entry.index m ((m + 255) % 256) v' at' (omega (arith, same))
        (omega (arith, whole)) (omega (arith, whole, lt)))

pub write_fault-Accounted :
    (extra : ℕ) (p : Pages) (entry : Entry) (r : Entry × Pages)
    → Accounted extra p
    → write_fault entry p ≡ some r
    → Accounted extra r.1
unfolding write_fault
write_fault-Accounted extra p entry r v h =
    let (there, r1) = assert-true entry.present _ h in
    let (private_, r2) = assert-true (not entry.shared) _ r1 in
    let (writable, r3) = assert-true (not entry.readonly) _ r2 in
    let (n, at, r4) = >>=-eq-some (get_elem? p.memory_map entry.index) _ r3 in
    let (used, r5) = assert-true (ltb 0 n) _ r4 in
    elim (Bool-cases (n == 1)) [
      | inl only ↦
          let same : some (record entry { write = true }, p) ≡ some r = sym (rw only refl) ∙ r5 in
          subst (Accounted extra) (ap (λ x. x.1) (some_injective same)) v
      | inr more ↦
          copy_on_write-Accounted extra p entry n r v at (ground arith) (sym (rw more refl) ∙ r5)
    ]
