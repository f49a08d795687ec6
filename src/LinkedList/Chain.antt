-- ===== src/LinkedList/Chain.antt =====
-- What the links of src/lib/list.c stand for: a list of distinct nodes between two end nodes.
use neonix.Prelude.{
  ℕ, ◌≡◌, refl, ap, ◌≢◌, Bool, true, false, ◌||◌, List, [], ◌∷◌, ◌++◌, arith, ◌==◌,
}
use neonix.LinkedList.{Links, KList}

abbrev pub has : ℕ → List ℕ → Bool
has a [] = false
has a (x ∷ xs) = (a == x) || has a xs

abbrev pub Distinct : List ℕ → Type 0
Distinct [] = Unit
Distinct (x ∷ xs) = (has x xs ≡ false) × Distinct xs

-- From `p`, the links lead through `xs` to `q`, and back.
abbrev pub Chain : Links → ℕ → List ℕ → ℕ → Type 0
Chain h p [] q = (h.next p ≡ q) × (h.prev q ≡ p)
Chain h p (x ∷ xs) q = (h.next p ≡ x) × (h.prev x ≡ p) × Chain h x xs q

-- The list `l` holds the nodes `xs`, in order.
pub record IsList (h : Links) (l : KList) (xs : List ℕ) : Type 0 where
  pub chain : Chain h l.head xs l.tail
  pub apart : Distinct (l.head ∷ l.tail ∷ xs)
  pub not_null : has 0 (l.head ∷ l.tail ∷ xs) ≡ false
  pub first : h.prev l.head ≡ 0
  pub last : h.next l.tail ≡ 0

abbrev pub Apart : List ℕ → List ℕ → Type 0
Apart xs ys = (a : ℕ) → has a xs ≡ true → has a ys ≡ false

pub has-append : (a : ℕ) (xs ys : List ℕ) → has a (xs ++ ys) ≡ (has a xs || has a ys)
has-append a [] ys = refl
has-append a (x ∷ xs) ys = ground (arith, has-append a xs ys)

pub Distinct-append :
    (xs ys : List ℕ) → Distinct (xs ++ ys) → Distinct xs × Distinct ys × Apart xs ys
Distinct-append [] ys d = (tt, d, λ a i. cc)
Distinct-append (x ∷ xs) ys d =
    let (dx, dy, ap) = Distinct-append xs ys d.1 in
    (
      (ground (arith, has-append x xs ys, d.0), dx),
      dy,
      λ a i. ground (arith, ap a, has-append x xs ys, d.0),
    )

pub append-Distinct :
    (xs ys : List ℕ) → Distinct xs → Distinct ys → Apart xs ys → Distinct (xs ++ ys)
append-Distinct [] ys dx dy ap = dy
append-Distinct (x ∷ xs) ys dx dy ap = (
  ground (arith, has-append x xs ys, ap x, dx.0),
  append-Distinct xs ys dx.1 dy (λ a i. ap a (ground arith)),
)

pub has-insert :
    (a : ℕ) (xs : List ℕ) (node : ℕ) (ys : List ℕ)
    → has a (xs ++ node ∷ ys) ≡ ((a == node) || has a (xs ++ ys))
has-insert a [] node ys = refl
has-insert a (x ∷ xs) node ys = ground (arith, has-insert a xs node ys)

pub Distinct-insert :
    (xs : List ℕ) (node : ℕ) (ys : List ℕ)
    → Distinct (xs ++ ys)
    → has node (xs ++ ys) ≡ false
    → Distinct (xs ++ node ∷ ys)
Distinct-insert [] node ys d f = (f, d)
Distinct-insert (x ∷ xs) node ys d f =
    (ground (arith, has-insert x xs node ys, d.0), Distinct-insert xs node ys d.1 (ground arith))

-- A member differs from what is no member.
pub ne_of_has : (a b : ℕ) (xs : List ℕ) → has a xs ≡ true → has b xs ≡ false → b ≢ a
ne_of_has a b xs i o e = let both : has b xs ≡ has a xs = ap (λ c. has c xs) e in cc

module _ (h : Links) where
  pub Chain-append :
      (p : ℕ) (xs : List ℕ) (x : ℕ) (ys : List ℕ) (q : ℕ)
      → Chain h p xs x
      → Chain h x ys q
      → Chain h p (xs ++ x ∷ ys) q
  Chain-append p [] x ys q c d = (c.0, c.1, d)
  Chain-append p (y ∷ xs) x ys q c d = (c.0, c.1, Chain-append y xs x ys q c.2 d)

  pub Chain-split :
      (p : ℕ) (xs : List ℕ) (x : ℕ) (ys : List ℕ) (q : ℕ)
      → Chain h p (xs ++ x ∷ ys) q
      → Chain h p xs x × Chain h x ys q
  Chain-split p [] x ys q c = ((c.0, c.1), c.2)
  Chain-split p (y ∷ xs) x ys q c = let (d, e) = Chain-split y xs x ys q c.2 in ((c.0, c.1, d), e)

  -- The node before the end is one of the chain.
  pub has-prev : (p : ℕ) (xs : List ℕ) (q : ℕ) → Chain h p xs q → has (h.prev q) (p ∷ xs) ≡ true
  has-prev p [] q c = ground arith
  has-prev p (x ∷ xs) q c = ground (arith, has-prev x xs q c.2)

  -- A chain survives changes elsewhere.
  pub Chain-frame :
      (g : Links) (p : ℕ) (xs : List ℕ) (q : ℕ)
      → Chain h p xs q
      → ((a : ℕ) → has a (p ∷ xs) ≡ true → g.next a ≡ h.next a)
      → ((a : ℕ) → has a xs ≡ true → g.prev a ≡ h.prev a)
      → g.prev q ≡ h.prev q
      → Chain g p xs q
  Chain-frame g p [] q c n v e = (ground (arith, n p), ground arith)
  Chain-frame g p (x ∷ xs) q c n v e = (
    ground (arith, n p),
    ground (arith, v x),
    Chain-frame g x xs q c.2 (λ a i. n a (ground arith)) (λ a i. v a (ground arith)) e,
  )

  -- The last node of a chain is led to another end `r`.
  pub Chain-retarget :
      (g : Links) (p : ℕ) (xs : List ℕ) (q r : ℕ)
      → Chain h p xs q
      → Distinct (p ∷ xs)
      → g.next (h.prev q) ≡ r
      → g.prev r ≡ h.prev q
      → ((a : ℕ) → has a (p ∷ xs) ≡ true → a ≢ h.prev q → g.next a ≡ h.next a)
      → ((a : ℕ) → has a xs ≡ true → g.prev a ≡ h.prev a)
      → Chain g p xs r
  Chain-retarget g p [] q r c d en ep n v = (ground arith, ground arith)
  Chain-retarget g p (x ∷ xs) q r c d en ep n v = (
    ground (arith, n p, has-prev x xs q c.2, d.0),
    ground (arith, v x),
    Chain-retarget g x xs q r c.2 d.1 en ep (λ a i ne. n a (ground arith) ne)
        (λ a i. v a (ground arith)),
  )
