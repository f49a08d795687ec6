-- ===== src/Files/Refs.antt =====
-- How often the descriptors of a task refer to a file of src/fs/file.c, and when a table is valid.
use neonix.Prelude.{
  ℕ, zero, suc, ◌+◌, ◌^◌, ◌≤◌, ◌<◌, ◌≡◌, ◌∙◌, ◌≢◌, inl, inr, true, Option, none, some, List, [],
  ◌∷◌, arith, ◌==◌, if◌then◌else◌, Bool-cases, length, get_elem?, get_or, set, length-set,
  get_or-set_self, get_or-set_ne,
}
use mathlib.Core.Path.{subst}
use neonix.Files.{File, Table, has_inode}

abbrev pub holds : ℕ → Option ℕ → ℕ
holds f none = 0
holds f (some g) = if g == f then 1 else 0

-- The descriptors that refer to the file `f`.
unfoldable pub refs : ℕ → List (Option ℕ) → ℕ
refs f [] = 0
refs f (o ∷ os) = holds f o + refs f os

pub refs-set :
    (f : ℕ) (fds : List (Option ℕ)) (i : ℕ) (v w : Option ℕ)
    → get_elem? fds i ≡ some w
    → refs f (set fds i v) + holds f w ≡ refs f fds + holds f v
unfolding refs
refs-set f [] i v w e = cc
refs-set f (o ∷ os) zero v w e = let e' : o ≡ w = cc in rw e' (omega arith)
refs-set f (o ∷ os) (suc i) v w e = omega (arith, refs-set f os i v w e)

pub holds-le-refs :
    (f : ℕ) (fds : List (Option ℕ)) (i : ℕ) (w : Option ℕ)
    → get_elem? fds i ≡ some w
    → holds f w ≤ refs f fds
unfolding refs
holds-le-refs f [] i w e = cc
holds-le-refs f (o ∷ os) zero w e = let e' : o ≡ w = cc in rw e' (omega arith)
holds-le-refs f (o ∷ os) (suc i) w e = omega (arith, holds-le-refs f os i w e)

holds-le : (f : ℕ) (o : Option ℕ) → holds f o ≤ 1
holds-le f none = omega arith
holds-le f (some g) = ground arith

pub refs-le-length : (f : ℕ) (fds : List (Option ℕ)) → refs f fds ≤ length fds
unfolding refs
refs-le-length f [] = omega arith
refs-le-length f (o ∷ os) = omega (arith, holds-le f o, refs-le-length f os)

pub holds_self : (f : ℕ) → holds f (some f) ≡ 1
holds_self f = ground arith

pub holds_ne : (f g : ℕ) → g ≢ f → holds f (some g) ≡ 0
holds_ne f g ne = ground arith

abbrev pub no_file : File
no_file = record { inode = none; count = 0; offset = 0; flags = 0; mode = 0 }

abbrev pub file_at : Table → ℕ → File
file_at t f = get_or t.files f no_file

-- A table of the system and of the running task, where the other tasks hold `others f` references
-- to the file `f`: a file's count is the number of its references, so that it is free exactly
-- when there are none, and a file with references has an inode.
pub record IsValid (others : ℕ → ℕ) (t : Table) : Type 0 where
  pub slots : length t.fds ≡ 16
  pub places : length t.files ≡ 128
  pub counted : (f : ℕ) → f < 128 → (file_at t f).count ≡ refs f t.fds + others f
  pub known : (f : ℕ) → 128 ≤ f → refs f t.fds ≡ 0
  pub backed : (f : ℕ) → 0 < refs f t.fds + others f → has_inode (file_at t f) ≡ true
  pub small : (f : ℕ) → others f < 2 ^ 31

-- A file and the descriptors that refer to it change.
pub update-IsValid :
    (others : ℕ → ℕ) (t : Table) (i : ℕ) (g : File) (fds : List (Option ℕ))
    (iputs : List (Option ℕ))
    → IsValid others t
    → i < 128
    → length fds ≡ 16
    → ((f : ℕ) → i ≢ f → refs f fds ≡ refs f t.fds)
    → g.count ≡ refs i fds + others i
    → (0 < refs i fds + others i → has_inode g ≡ true)
    → IsValid others (record t { files = set t.files i g; fds = fds; iputs = iputs })
update-IsValid others t i g fds iputs v lt l same n inode = record {
  slots = l;
  places = length-set t.files i g ∙ v.places;
  counted = counted;
  known = λ f ge. same f (λ e. ground arith) ∙ v.known f ge;
  backed = backed;
  small = v.small;
}
  where
    self : get_or (set t.files i g) i no_file ≡ g
    self = get_or-set_self t.files i g no_file (omega (arith, v.places))

    other : (f : ℕ) → i ≢ f → get_or (set t.files i g) f no_file ≡ file_at t f
    other f ne = get_or-set_ne t.files i f g no_file ne

    counted : (f : ℕ) → f < 128 → (get_or (set t.files i g) f no_file).count ≡ refs f fds + others f
    counted f lf = elim (Bool-cases (i == f)) [
      | inl e ↦
          let e' : i ≡ f = ground arith in
          subst (λ k. (get_or (set t.files i g) k no_file).count ≡ refs k fds + others k) e'
            (rw self n)
      | inr e ↦ let ne : i ≢ f = ground arith in rw (other f ne, same f ne) (v.counted f lf)
    ]

    backed :
        (f : ℕ) → 0 < refs f fds + others f → has_inode (get_or (set t.files i g) f no_file) ≡ true
    backed f p = elim (Bool-cases (i == f)) [
      | inl e ↦
          let e' : i ≡ f = ground arith in
          subst
            (λ k. 0 < refs k fds + others k → has_inode (get_or (set t.files i g) k no_file) ≡ true)
            e' (λ q. rw self (inode q)) p
      | inr e ↦
          let ne : i ≢ f = ground arith in
          let q = v.backed f in rw (other f ne) (q (omega (arith, same f ne)))
    ]
