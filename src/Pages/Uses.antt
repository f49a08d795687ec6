-- ===== src/Pages/Uses.antt =====
-- What src/kernel/memory.c promises of the physical pages.
use mathlib.Core.Path.{subst}
use neonix.Prelude.{
  ℕ, ◌-◌, ◌%◌, ◌≡◌, refl, sym, ap, ◌∙◌, inl, inr, Bool, true, false, ◌&&◌, ◌||◌, not, Option, some,
  arith, ltb, leb, ◌==◌, if◌then◌else◌, Bool-cases, set, set-set, get_elem?-set_self, ◌>>=◌, assert,
  >>=-eq-some, some_injective, set-get_elem?,
}
use neonix.Prelude.Words.{add32, sub32}
use neonix.Pages.{
  Pages, Entry, page, idx, assert_page, get_page, put_page, cleared, get_pte, link_page,
  unlink_page, copy_entry, write_fault,
}
use neonix.Pages.Counts.{Accounted, IsFree, Taken, find_page-finds, get_page-Taken}
use neonix.Pages.Entries.{
  get_page-Accounted, put_page-Accounted, copy_entry-Accounted, write_fault-Accounted,
}

-- An operation on the entry of a directory, or of one of its tables.
pub data Use : Type 0 where
  link : (dentry entry : Entry) → Use
  unlink : (dentry entry : Entry) → Use
  copy : (entry : Entry) → Use
  fault : (entry : Entry) → Use
  put : (addr : ℕ) → Use

unfoldable pub use_pages : Use → Pages → Option Pages
use_pages (link dentry entry) p = link_page dentry entry p >>= λ (d, e, p'). some p'
use_pages (unlink dentry entry) p = unlink_page dentry entry p >>= λ (e, p'). some p'
use_pages (copy entry) p = copy_entry entry p >>= λ (e, p'). some p'
use_pages (fault entry) p = write_fault entry p >>= λ (e, p'). some p'
use_pages (put addr) p = put_page addr p

get_pte-Accounted :
    (extra : ℕ) (p : Pages) (create : Bool) (dentry : Entry) (r : Bool × Entry × Pages)
    → Accounted extra p
    → get_pte create dentry p ≡ some r
    → Accounted extra r.2
unfolding get_pte
get_pte-Accounted extra p create dentry r v h =
    let (u, legal, r1) = >>=-eq-some (assert (create || dentry.present)) _ h in
    elim (Bool-cases dentry.present) [
      | inl there ↦
          let same : some (false, dentry, p) ≡ some r = sym (rw there refl) ∙ r1 in
          subst (Accounted extra) (ap (λ x. x.2) (some_injective same)) v
      | inr absent ↦
          let ((addr, p'), got, r2) = >>=-eq-some (get_page p) _ (rw absent at r1) in
          subst (Accounted extra) (ap (λ x. x.2) (some_injective r2))
            (get_page-Accounted extra p p' addr v got)
    ]

link_page-Accounted :
    (extra : ℕ) (p : Pages) (dentry entry : Entry) (r : Entry × Entry × Pages)
    → Accounted extra p
    → link_page dentry entry p ≡ some r
    → Accounted extra r.2
unfolding link_page
link_page-Accounted extra p dentry entry r v h =
    let ((new, dentry', p'), got, r1) = >>=-eq-some (get_pte true dentry p) _ h in
    let v' = get_pte-Accounted extra p true dentry (new, dentry', p') v got in
    let entry' = if new then cleared else entry in
    elim (Bool-cases entry'.present) [
      | inl there ↦
          let same : some (dentry', entry', p') ≡ some r = rw there at r1 in
          subst (Accounted extra) (ap (λ x. x.2) (some_injective same)) v'
      | inr absent ↦
          let ((addr, p''), got', r2) = >>=-eq-some (get_page p') _ (rw absent at r1) in
          subst (Accounted extra) (ap (λ x. x.2) (some_injective r2))
            (get_page-Accounted extra p' p'' addr v' got')
    ]

unlink_page-Accounted :
    (extra : ℕ) (p : Pages) (dentry entry : Entry) (r : Entry × Pages)
    → Accounted extra p
    → unlink_page dentry entry p ≡ some r
    → Accounted extra r.1
unfolding unlink_page
unlink_page-Accounted extra p dentry entry r v h =
    elim (Bool-cases (not (dentry.present && entry.present))) [
      | inl absent ↦
          let same : some (entry, p) ≡ some r = rw absent at h in
          subst (Accounted extra) (ap (λ x. x.1) (some_injective same)) v
      | inr there ↦
          let (p', put_, r1) = >>=-eq-some (put_page (page entry.index) p) _ (rw there at h) in
          subst (Accounted extra) (ap (λ x. x.1) (some_injective r1))
            (put_page-Accounted extra p p' (page entry.index) v put_)
    ]

-- Whatever is done with a page table entry, it does not upset the account of the pages: where the
-- code does not panic, the number of free pages still differs by the same amount from the number of
-- pages without a reference, and no count of references has wrapped around.
pub use_pages-Accounted :
    (extra : ℕ) (use_ : Use) (p p' : Pages)
    → Accounted extra p
    → use_pages use_ p ≡ some p'
    → Accounted extra p'
unfolding use_pages
use_pages-Accounted extra (link dentry entry) p p' v h =
    let (r, run, e) = >>=-eq-some (link_page dentry entry p) _ h in
    subst (Accounted extra) (some_injective e) (link_page-Accounted extra p dentry entry r v run)
use_pages-Accounted extra (unlink dentry entry) p p' v h =
    let (r, run, e) = >>=-eq-some (unlink_page dentry entry p) _ h in
    subst (Accounted extra) (some_injective e) (unlink_page-Accounted extra p dentry entry r v run)
use_pages-Accounted extra (copy entry) p p' v h =
    let (r, run, e) = >>=-eq-some (copy_entry entry p) _ h in
    subst (Accounted extra) (some_injective e) (copy_entry-Accounted extra p entry r v run)
use_pages-Accounted extra (fault entry) p p' v h =
    let (r, run, e) = >>=-eq-some (write_fault entry p) _ h in
    subst (Accounted extra) (some_injective e) (write_fault-Accounted extra p entry r v run)
use_pages-Accounted extra (put addr) p p' v h = put_page-Accounted extra p p' addr v h

get_page-total :
    (p : Pages) (i : ℕ) → IsFree p i → (addr : ℕ) × (p' : Pages) × (get_page p ≡ some (addr, p'))
unfolding get_page
get_page-total p i (le, lt, at) =
    let (found, run) =
      find_page-finds (p.total_pages - p.start_page) p.start_page p.memory_map i le (omega arith)
        at in
    (
      page found,
      record p { memory_map = set p.memory_map found 1; free_pages = sub32 p.free_pages 1 },
      rw run refl,
    )

-- A page that was just taken can be put back, and all is as before.
put-Taken :
    (extra : ℕ) (p p' : Pages) (addr : ℕ)
    → Accounted extra p
    → Taken p addr p'
    → put_page addr p' ≡ some p
unfolding put_page assert_page
put-Taken extra p p' addr v (i, (le, lt, at), e, free, same) =
    let aligned : addr % 4096 == 0 ≡ true = ground arith in
    let place : idx addr ≡ i = omega (arith, e) in
    let range : (leb p.start_page i && ltb i p.total_pages) ≡ true = ground arith in
    let one = get_elem?-set_self p.memory_map i 1 (omega (arith, lt, v.room)) in
    let more : add32 (p.free_pages - 1) 1 ≡ p.free_pages = omega (arith, free, v.small, v.below) in
    let some_free : (ltb 0 p.free_pages && ltb p.free_pages p.total_pages) ≡ true =
      let b = v.below in ground arith in
    let back : set (set p.memory_map i 1) i 0 ≡ p.memory_map =
      set-set p.memory_map i 1 0 ∙ set-get_elem? p.memory_map i at in
    rw (same, aligned, place, range, one, more, some_free, back) refl

-- As long as a page has no reference, `get_page` does not panic: it gives out the address of such
-- a page, with one reference then, and `put_page` of it succeeds and restores everything.
pub put_page-get_page :
    (extra : ℕ) (p : Pages) (i : ℕ)
    → Accounted extra p
    → IsFree p i
    → (addr : ℕ) × (p' : Pages) × (get_page p ≡ some (addr, p'))
      × Taken p addr p'
      × (put_page addr p' ≡ some p)
put_page-get_page extra p i v (le, lt, at) =
    let (addr, p', got) = get_page-total p i (le, lt, at) in
    let taken = get_page-Taken extra p p' addr v got in
    (addr, p', got, taken, put-Taken extra p p' addr v taken)
