-- ===== src/Devices/Places.antt =====
-- Insertion at a place of the list of requests, and removal from one.
use neonix.Prelude.{
  ℕ, zero, suc, ◌≤◌, ◌<◌, ◌≡◌, refl, ap, inl, inr, false, some, List, [], ◌∷◌, arith, Bool-cases,
  length, get_elem?, All, All-mono,
}
use neonix.Tasks.{signed_less}
use neonix.Devices.{Request, place_of, insert_at, remove_at}

pub place_of-le : (sector : ℕ) (l : List Request) → place_of sector l ≤ length l
unfolding place_of
place_of-le sector [] = omega arith
place_of-le sector (q ∷ l) = let rest = place_of-le sector l in ground arith

pub length-insert_at :
    (i : ℕ) (r : Request) (l : List Request) → length (insert_at i r l) ≡ suc (length l)
unfolding insert_at
length-insert_at zero r l = refl
length-insert_at (suc i) r [] = refl
length-insert_at (suc i) r (q ∷ l) = ap suc (length-insert_at i r l)

pub length-remove_at :
    (i : ℕ) (l : List Request) → i < length l → suc (length (remove_at i l)) ≡ length l
unfolding remove_at
length-remove_at i [] lt = absurd (omega arith)
length-remove_at zero (q ∷ l) lt = refl
length-remove_at (suc i) (q ∷ l) lt = ap suc (length-remove_at i l (omega arith))

pub get-insert_self :
    (i : ℕ) (r : Request) (l : List Request) → i ≤ length l → get_elem? (insert_at i r l) i ≡ some r
unfolding insert_at
get-insert_self zero r l le = refl
get-insert_self (suc i) r [] le = absurd (omega arith)
get-insert_self (suc i) r (q ∷ l) le = get-insert_self i r l (omega arith)

pub get-insert_before :
    (i j : ℕ) (r : Request) (l : List Request)
    → j < i
    → i ≤ length l
    → get_elem? (insert_at i r l) j ≡ get_elem? l j
unfolding insert_at
get-insert_before zero j r l lt le = absurd (omega arith)
get-insert_before (suc i) j r [] lt le = absurd (omega arith)
get-insert_before (suc i) zero r (q ∷ l) lt le = refl
get-insert_before (suc i) (suc j) r (q ∷ l) lt le =
    get-insert_before i j r l (omega arith) (omega arith)

pub get-insert_after :
    (i j : ℕ) (r : Request) (l : List Request)
    → i ≤ j
    → i ≤ length l
    → get_elem? (insert_at i r l) (suc j) ≡ get_elem? l j
unfolding insert_at
get-insert_after zero j r l le in_ = refl
get-insert_after (suc i) j r [] le in_ = absurd (omega arith)
get-insert_after (suc i) zero r (q ∷ l) le in_ = absurd (omega arith)
get-insert_after (suc i) (suc j) r (q ∷ l) le in_ =
    get-insert_after i j r l (omega arith) (omega arith)

pub get-remove_before :
    (i j : ℕ) (l : List Request) → j < i → get_elem? (remove_at i l) j ≡ get_elem? l j
unfolding remove_at
get-remove_before i j [] lt = refl
get-remove_before zero j (q ∷ l) lt = absurd (omega arith)
get-remove_before (suc i) zero (q ∷ l) lt = refl
get-remove_before (suc i) (suc j) (q ∷ l) lt = get-remove_before i j l (omega arith)

pub get-remove_after :
    (i j : ℕ) (l : List Request) → i ≤ j → get_elem? (remove_at i l) j ≡ get_elem? l (suc j)
unfolding remove_at
get-remove_after i j [] le = refl
get-remove_after zero j (q ∷ l) le = refl
get-remove_after (suc i) zero (q ∷ l) le = absurd (omega arith)
get-remove_after (suc i) (suc j) (q ∷ l) le = get-remove_after i j l (omega arith)

All-insert_at :
    (P : Request → Type 0) (i : ℕ) (r : Request) (l : List Request)
    → P r
    → All P l
    → All P (insert_at i r l)
unfolding insert_at
All-insert_at P zero r l p a = (p, a)
All-insert_at P (suc i) r [] p a = (p, tt)
All-insert_at P (suc i) r (q ∷ l) p (x, a) = (x, All-insert_at P i r l p a)

All-remove_at : (P : Request → Type 0) (i : ℕ) (l : List Request) → All P l → All P (remove_at i l)
unfolding remove_at
All-remove_at P i [] a = tt
All-remove_at P zero (q ∷ l) (x, a) = a
All-remove_at P (suc i) (q ∷ l) (x, a) = (x, All-remove_at P i l a)

-- The sectors do not fall.
abbrev pub Sorted : List Request → Type 0
Sorted [] = Unit
Sorted (q ∷ l) = All (λ r. signed_less r.sector q.sector ≡ false) l × Sorted l

pub remove_at-Sorted : (i : ℕ) (l : List Request) → Sorted l → Sorted (remove_at i l)
unfolding remove_at
remove_at-Sorted i [] s = tt
remove_at-Sorted zero (q ∷ l) (a, s) = s
remove_at-Sorted (suc i) (q ∷ l) (a, s) =
    (All-remove_at (λ r. signed_less r.sector q.sector ≡ false) i l a, remove_at-Sorted i l s)

pub insert_at-Sorted :
    (r : Request) (l : List Request) → Sorted l → Sorted (insert_at (place_of r.sector l) r l)
unfolding place_of insert_at
insert_at-Sorted r [] s = (tt, tt)
insert_at-Sorted r (q ∷ l) (a, s) = elim (Bool-cases (signed_less r.sector q.sector)) [
  | inl less ↦ rw less (
    (
      ground arith,
      All-mono (λ x h. (let g : signed_less x.sector r.sector ≡ false = ground arith in g)) l a,
    ),
    (a, s),
  )
  | inr more ↦ rw more (
    All-insert_at (λ x. signed_less x.sector q.sector ≡ false) (place_of r.sector l) r l more a,
    insert_at-Sorted r l s,
  )
]
