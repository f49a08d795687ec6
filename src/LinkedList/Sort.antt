-- ===== src/LinkedList/Sort.antt =====
-- `list_insert_sort` of src/lib/list.c keeps a list in the order of its keys.
use neonix.Prelude.{
  ℕ, zero, suc, ◌<◌, ◌≡◌, refl, true, false, some, List, [], ◌∷◌, ◌++◌, arith, if◌then◌else◌,
  length,
}
use neonix.Prelude.Int.{ℤ, lt_ℤ}
use neonix.LinkedList.{Links, KList, anchor_from, list_insert_sort}
use neonix.LinkedList.Chain.{has, Chain, IsList}
use neonix.LinkedList.Insert.{first_of_list, Inserted, insert_before-Inserted}

-- No node has a smaller key than the one before it.
abbrev pub IsSorted : (ℕ → ℤ) → List ℕ → Type 0
IsSorted key [] = Unit
IsSorted key (x ∷ []) = Unit
IsSorted key (x ∷ y ∷ ys) = (lt_ℤ (key y) (key x) ≡ false) × IsSorted key (y ∷ ys)

-- The nodes before the first key above `k`, and those from it on.
unfoldable pub before : (ℕ → ℤ) → ℤ → List ℕ → List ℕ
before key k [] = []
before key k (x ∷ xs) = if lt_ℤ k (key x) then [] else x ∷ before key k xs

unfoldable pub behind : (ℕ → ℤ) → ℤ → List ℕ → List ℕ
behind key k [] = []
behind key k (x ∷ xs) = if lt_ℤ k (key x) then x ∷ xs else behind key k xs

module _ (key : ℕ → ℤ) where
  before-append-behind : (k : ℤ) (xs : List ℕ) → before key k xs ++ behind key k xs ≡ xs
  unfolding before behind
  before-append-behind k [] = refl
  before-append-behind k (x ∷ xs) = ground (arith, before-append-behind k xs)

  anchor_from-behind :
      (h : Links) (t fuel p : ℕ) (k : ℤ) (xs : List ℕ)
      → Chain h p xs t
      → has t xs ≡ false
      → has 0 xs ≡ false
      → length xs < fuel
      → anchor_from key fuel (h.next p) t k h ≡ some (first_of_list (behind key k xs) t)
  unfolding anchor_from behind
  anchor_from-behind h t zero p k xs c ot o0 f = absurd (omega arith)
  anchor_from-behind h t (suc fuel) p k [] c ot o0 f = ground arith
  anchor_from-behind h t (suc fuel) p k (x ∷ xs) c ot o0 f =
      let ih = anchor_from-behind h t fuel x k xs c.2 (ground arith) (ground arith) (omega arith) in
      ground arith

  lt_ℤ-asymm : (a b : ℤ) → lt_ℤ a b ≡ true → lt_ℤ b a ≡ false
  lt_ℤ-asymm a b h = ground arith

  -- Where the new node goes, the order is kept on both sides.
  insert-IsSorted :
      (node : ℕ) (xs : List ℕ)
      → IsSorted key xs
      → IsSorted key (before key (key node) xs ++ node ∷ behind key (key node) xs)
  unfolding before behind
  insert-IsSorted node [] s = tt
  insert-IsSorted node (x ∷ []) s = ground (arith, lt_ℤ-asymm (key node) (key x))
  insert-IsSorted node (x ∷ y ∷ ys) s =
      ground (arith, lt_ℤ-asymm (key node) (key x), insert-IsSorted node (y ∷ ys) s.1)

-- `list_insert_sort` of a node that is in no list, into a list in the order of the keys, puts the
-- node between the two parts of the list: the list keeps its nodes, is still in order, and nothing
-- else is written. The node goes before the first greater key, hence behind all equal ones.
pub list_insert_sort-IsSorted :
    (key : ℕ → ℤ) (h : Links) (l : KList) (xs : List ℕ) (node fuel : ℕ)
    → IsList h l xs
    → length xs < fuel
    → has node (0 ∷ l.head ∷ l.tail ∷ xs) ≡ false
    → h.next node ≡ 0
    → h.prev node ≡ 0
    → IsSorted key xs
    → let front = before key (key node) xs in
      let back = behind key (key node) xs in
      (g : Links) × (list_insert_sort key fuel l node h ≡ some g)
      × Inserted h l front back node g
      × IsSorted key (front ++ node ∷ back)
      × (front ++ back ≡ xs)
unfolding list_insert_sort
list_insert_sort-IsSorted key h l xs node fuel is f fresh n0 p0 sorted =
    let e = before-append-behind key (key node) xs in
    let (g, run, ins) =
      insert_before-Inserted h l (before key (key node) xs) (behind key (key node) xs) node
        (rw e is) (rw e fresh) in
    let walk =
      anchor_from-behind key h l.tail fuel l.head (key node) xs is.chain is.apart.1.0
        (ground (arith, is.not_null)) f in
    (g, ground (arith, is.not_null), ins, insert-IsSorted key node xs sorted, e)
