-- ===== src/LinkedList/Walk.antt =====
-- The walks of src/lib/list.c (`list_search`, `list_size`) and the operations that use them.
use neonix.Prelude.{
  ℕ, zero, suc, ◌+◌, ◌%◌, ◌^◌, ◌<◌, ◌≡◌, true, false, none, some, List, [], ◌∷◌, ◌++◌, append-nil,
  arith, length,
}
use neonix.LinkedList.{
  Links, KList, search_from, list_search, list_push, list_pushback, size_from, list_size,
  list_empty, list_pop, list_popback,
}
use neonix.LinkedList.Chain.{has, Chain, Chain-split, ne_of_has, IsList}
use neonix.LinkedList.Insert.{Inserted, insert_after-Inserted, insert_before-Inserted}
use neonix.LinkedList.Remove.{Removed, list_remove-Removed}

search_from-has :
    (h : Links) (node t fuel p : ℕ) (xs : List ℕ)
    → Chain h p xs t
    → has t xs ≡ false
    → has 0 xs ≡ false
    → length xs < fuel
    → search_from fuel (h.next p) node t h ≡ some (has node xs)
unfolding search_from
search_from-has h node t zero p xs c ot o0 f = absurd (omega arith)
search_from-has h node t (suc fuel) p [] c ot o0 f = ground arith
search_from-has h node t (suc fuel) p (x ∷ xs) c ot o0 f =
    let ih = search_from-has h node t fuel x xs c.2 (ground arith) (ground arith) (omega arith) in
    ground arith

-- `list_search` on a list of fewer nodes than the fuel answers whether the node is in it.
pub list_search-has :
    (h : Links) (l : KList) (xs : List ℕ) (node fuel : ℕ)
    → IsList h l xs
    → length xs < fuel
    → list_search fuel l node h ≡ some (has node xs)
unfolding list_search
list_search-has h l xs node fuel is f =
    let walk =
      search_from-has h node l.tail fuel l.head xs is.chain is.apart.1.0
        (ground (arith, is.not_null)) f in
    ground (arith, is.not_null)

size_from-length :
    (h : Links) (t fuel size p : ℕ) (xs : List ℕ)
    → Chain h p xs t
    → has t xs ≡ false
    → has 0 xs ≡ false
    → length xs < fuel
    → size + length xs < 2 ^ 32
    → size_from fuel (h.next p) t size h ≡ some (size + length xs)
unfolding size_from
size_from-length h t zero size p xs c ot o0 f b = absurd (omega arith)
size_from-length h t (suc fuel) size p [] c ot o0 f b = ground arith
size_from-length h t (suc fuel) size p (x ∷ xs) c ot o0 f b =
    let e : (size + 1) % 2 ^ 32 ≡ size + 1 = omega arith in
    let ih =
      size_from-length h t fuel (size + 1) x xs c.2 (ground arith) (ground arith) (omega arith)
        (omega arith) in
    ground arith

-- `list_size` counts the nodes, if they are fewer than the fuel and than 2 ^ 32.
pub list_size-length :
    (h : Links) (l : KList) (xs : List ℕ) (fuel : ℕ)
    → IsList h l xs
    → length xs < fuel
    → length xs < 2 ^ 32
    → list_size fuel l h ≡ some (length xs)
unfolding list_size
list_size-length h l xs fuel is f b =
    let walk =
      size_from-length h l.tail fuel 0 l.head xs is.chain is.apart.1.0 (ground (arith, is.not_null))
        f (omega arith) in
    ground (arith, is.not_null)

-- `list_push` of a node that is neither NULL nor in the list nor an end of it succeeds, with more
-- fuel than the list has nodes: it puts the node first, and writes nowhere else.
pub list_push-cons :
    (h : Links) (l : KList) (xs : List ℕ) (node fuel : ℕ)
    → IsList h l xs
    → length xs < fuel
    → has node (0 ∷ l.head ∷ l.tail ∷ xs) ≡ false
    → (g : Links) × (list_push fuel l node h ≡ some g) × Inserted h l [] xs node g
unfolding list_push
list_push-cons h l xs node fuel is f fresh =
    let (g, run, ins) = insert_after-Inserted h l [] xs node is fresh in
    let out : has node xs ≡ false = ground arith in
    (g, rw (list_search-has h l xs node fuel is f, out) run, ins)

-- `list_pushback` of a node that is neither NULL nor in the list nor an end of it succeeds, with
-- more fuel than the list has nodes: it puts the node last, and writes nowhere else.
pub list_pushback-append :
    (h : Links) (l : KList) (xs : List ℕ) (node fuel : ℕ)
    → IsList h l xs
    → length xs < fuel
    → has node (0 ∷ l.head ∷ l.tail ∷ xs) ≡ false
    → (g : Links) × (list_pushback fuel l node h ≡ some g) × Inserted h l xs [] node g
unfolding list_pushback
list_pushback-append h l xs node fuel is f fresh =
    let e = append-nil xs in
    let (g, run, ins) = insert_before-Inserted h l xs [] node (rw e is) (rw e fresh) in
    let out : has node xs ≡ false = ground arith in
    (g, rw (list_search-has h l xs node fuel is f, out) run, ins)

-- A node that is in the list is refused by the assert of both.
pub push_refused :
    (h : Links) (l : KList) (xs : List ℕ) (node fuel : ℕ)
    → IsList h l xs
    → length xs < fuel
    → has node xs ≡ true
    → (list_push fuel l node h ≡ none) × (list_pushback fuel l node h ≡ none)
unfolding list_push list_pushback
push_refused h l xs node fuel is f i =
    let s = list_search-has h l xs node fuel is f in (rw (s, i), rw (s, i))

-- `list_pop` of a list with a node succeeds: it returns the first node and removes it.
pub list_pop-cons :
    (h : Links) (l : KList) (x : ℕ) (xs : List ℕ)
    → IsList h l (x ∷ xs)
    → (g : Links) × (list_pop l h ≡ some (x, g)) × Removed h l [] x xs g
unfolding list_pop list_empty
list_pop-cons h l x xs is =
    let (g, run, rem) = list_remove-Removed h l [] x xs is in
    let first = is.chain.0 in (g, ground (arith, is.not_null, is.apart), rem)

has-next :
    (h : Links) (p : ℕ) (xs : List ℕ) (x : ℕ) (ys : List ℕ) (t : ℕ)
    → Chain h p (xs ++ x ∷ ys) t
    → has (h.next p) (xs ++ x ∷ ys) ≡ true
has-next h p [] x ys t c = ground arith
has-next h p (y ∷ xs) x ys t c = ground arith

-- `list_popback` of a list with a node succeeds: it returns the last node and removes it.
pub list_popback-append :
    (h : Links) (l : KList) (xs : List ℕ) (x : ℕ)
    → IsList h l (xs ++ x ∷ [])
    → (g : Links) × (list_popback l h ≡ some (x, g)) × Removed h l xs x [] g
unfolding list_popback list_empty
list_popback-append h l xs x is =
    let (g, run, rem) = list_remove-Removed h l xs x [] is in
    let (front, back) = Chain-split h l.head xs x [] l.tail is.chain in
    (
      g,
      ground (
        arith,
        is.not_null,
        back.1,
        has-next h l.head xs x [] l.tail is.chain,
        ne_of_has (h.next l.head) l.tail (xs ++ x ∷ []),
        is.apart.1.0,
      ),
      rem,
    )

-- On an empty list `list_pop` and `list_popback` stop at their assert.
pub pop_empty :
    (h : Links) (l : KList) → IsList h l [] → (list_pop l h ≡ none) × (list_popback l h ≡ none)
unfolding list_pop list_popback list_empty
pop_empty h l is = (ground (arith, is.chain, is.not_null), ground (arith, is.chain, is.not_null))
