-- ===== src/LinkedList.antt =====
-- src/lib/list.c: the intrusive doubly linked list of the kernel. A node is an address; the `next` and
-- `prev` fields of all nodes are two functions, and 0 is NULL. `none` is a failed assert, a NULL
-- access, or a walk that has used up its fuel.
pub mod Chain
pub mod Insert
pub mod Remove
pub mod Walk
pub mod Sort
pub mod Tests
use neonix.Prelude.{
  ℕ, zero, suc, ◌+◌, ◌%◌, ◌^◌, Bool, true, false, not, Option, none, some, ◌==◌, if◌then◌else◌,
  ◌>>=◌, ◌>>◌, assert,
}
use neonix.Prelude.Int.{ℤ, lt_ℤ}

-- The `list_node_t` fields of every node in memory.
pub record Links : Type 0 where
  pub next : ℕ → ℕ
  pub prev : ℕ → ℕ

-- `list_t`: the addresses of its two end nodes.
pub record KList : Type 0 where
  pub head : ℕ
  pub tail : ℕ

abbrev pub update : (ℕ → ℕ) → ℕ → ℕ → ℕ → ℕ
update f a v x = if x == a then v else f x

abbrev pub get_next : ℕ → Links → Option ℕ
get_next p h = if p == 0 then none else some (h.next p)

abbrev pub get_prev : ℕ → Links → Option ℕ
get_prev p h = if p == 0 then none else some (h.prev p)

abbrev pub set_next : ℕ → ℕ → Links → Option Links
set_next p v h = if p == 0 then none else some (record h { next = update h.next p v })

abbrev pub set_prev : ℕ → ℕ → Links → Option Links
set_prev p v h = if p == 0 then none else some (record h { prev = update h.prev p v })

unfoldable pub list_init : KList → Links → Option Links
list_init l h = do
  h ← set_prev l.head 0 h
  h ← set_next l.tail 0 h
  h ← set_next l.head l.tail h
  set_prev l.tail l.head h

unfoldable pub list_insert_before : ℕ → ℕ → Links → Option Links
list_insert_before anchor node h = do
  p ← get_prev anchor h
  h ← set_prev node p h
  h ← set_next node anchor h
  p ← get_prev anchor h
  h ← set_next p node h
  set_prev anchor node h

unfoldable pub list_insert_after : ℕ → ℕ → Links → Option Links
list_insert_after anchor node h = do
  h ← set_prev node anchor h
  n ← get_next anchor h
  h ← set_next node n h
  n ← get_next anchor h
  h ← set_prev n node h
  set_next anchor node h

-- The loop of `list_search`, from the node `p`.
unfoldable pub search_from : (fuel p node tail : ℕ) → Links → Option Bool
search_from zero p node tail h = none
search_from (suc fuel) p node tail h =
    let rest = (get_next p h >>= λ n. search_from fuel n node tail h) in
    if p == tail then some false else if p == node then some true else rest

unfoldable pub list_search : (fuel : ℕ) → KList → ℕ → Links → Option Bool
list_search fuel l node h = get_next l.head h >>= λ p. search_from fuel p node l.tail h

unfoldable pub list_push : (fuel : ℕ) → KList → ℕ → Links → Option Links
list_push fuel l node h = do
  present ← list_search fuel l node h
  assert (not present)
  list_insert_after l.head node h

unfoldable pub list_pushback : (fuel : ℕ) → KList → ℕ → Links → Option Links
list_pushback fuel l node h = do
  present ← list_search fuel l node h
  assert (not present)
  list_insert_before l.tail node h

unfoldable pub list_remove : ℕ → Links → Option Links
list_remove node h = do
  p ← get_prev node h
  assert (not (p == 0))
  n ← get_next node h
  assert (not (n == 0))
  h ← set_next p n h
  n ← get_next node h
  p ← get_prev node h
  h ← set_prev n p h
  h ← set_next node 0 h
  set_prev node 0 h

unfoldable pub list_empty : KList → Links → Option Bool
list_empty l h = get_next l.head h >>= λ n. some (n == l.tail)

unfoldable pub list_pop : KList → Links → Option (ℕ × Links)
list_pop l h = do
  empty ← list_empty l h
  assert (not empty)
  node ← get_next l.head h
  h ← list_remove node h
  some (node, h)

unfoldable pub list_popback : KList → Links → Option (ℕ × Links)
list_popback l h = do
  empty ← list_empty l h
  assert (not empty)
  node ← get_prev l.tail h
  h ← list_remove node h
  some (node, h)

-- The loop of `list_size`.
unfoldable pub size_from : (fuel p tail size : ℕ) → Links → Option ℕ
size_from zero p tail size h = none
size_from (suc fuel) p tail size h =
    let rest = (get_next p h >>= λ n. size_from fuel n tail ((size + 1) % 2 ^ 32) h) in
    if p == tail then some size else rest

unfoldable pub list_size : (fuel : ℕ) → KList → Links → Option ℕ
list_size fuel l h = get_next l.head h >>= λ p. size_from fuel p l.tail 0 h

-- The loop of `list_insert_sort`: the first node from `p` on whose key is above `k`, or the tail.
-- `key` reads the `int` at the given offset of a node.
unfoldable pub anchor_from : (key : ℕ → ℤ) → (fuel p tail : ℕ) → ℤ → Links → Option ℕ
anchor_from key zero p tail k h = none
anchor_from key (suc fuel) p tail k h =
    let rest = (get_next p h >>= λ n. anchor_from key fuel n tail k h) in
    if p == tail then some tail else if lt_ℤ k (key p) then some p else rest

unfoldable pub list_insert_sort : (key : ℕ → ℤ) → (fuel : ℕ) → KList → ℕ → Links → Option Links
list_insert_sort key fuel l node h = do
  p ← get_next l.head h
  anchor ← anchor_from key fuel p l.tail (key node) h
  n ← get_next node h
  assert (n == 0)
  p ← get_prev node h
  assert (p == 0)
  list_insert_before anchor node h
