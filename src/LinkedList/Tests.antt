-- ===== src/LinkedList/Tests.antt =====
-- src/lib/list.c at a list of the nodes 30 and 40 between the ends 10 and 20, and its theorems there.
use neonix.Prelude.{ℕ, ◌/◌, ◌≡◌, refl, true, Option, none, some, List, [], ◌∷◌, ◌++◌, arith, ◌>>=◌}
use neonix.Prelude.Int.{ℤ, pos}
use neonix.LinkedList.{
  Links, KList, update, list_init, search_from, list_search, list_push, list_pushback, size_from,
  list_size, list_empty, list_popback, list_remove, list_insert_after, list_insert_before,
  list_insert_sort,
}
use neonix.LinkedList.Chain.{IsList}
use neonix.LinkedList.Insert.{Inserted, SameOutside, list_init-IsList}
use neonix.LinkedList.Remove.{Removed, list_remove-Removed}
use neonix.LinkedList.Walk.{list_search-has, push_refused}
use neonix.LinkedList.Sort.{IsSorted, before, behind, list_insert_sort-IsSorted}

abbrev ends : KList
ends = record { head = 10; tail = 20 }

abbrev blank : Links
blank = record { next = λ a. 0; prev = λ a. 0 }

abbrev two : Links
two = record {
  next = update (update (update blank.next 10 30) 30 40) 40 20;
  prev = update (update (update blank.prev 30 10) 40 30) 20 40;
}

abbrev nodes : List ℕ
nodes = 30 ∷ 40 ∷ []

abbrev key : ℕ → ℤ
key a = pos (a / 10)

two-IsList : IsList two ends nodes
two-IsList = record {
  chain = (refl, refl, (refl, refl, (refl, refl)));
  apart = (refl, (refl, (refl, (refl, tt))));
  not_null = refl;
  first = refl;
  last = refl;
}

empty-IsList :
    IsList (record blank { next = update blank.next 10 20; prev = update blank.prev 20 10 }) ends []
empty-IsList = record {
  chain = (refl, refl);
  apart = (refl, (refl, tt));
  not_null = refl;
  first = refl;
  last = refl;
}

-- Three operations in a row.
run_three : Option (ℕ × ℕ)
unfolding list_init list_push list_pushback list_popback list_search search_from list_insert_after
    list_insert_before list_remove list_empty list_size size_from
run_three = do
  h ← list_init ends blank
  h ← list_push 9 ends 30 h
  h ← list_pushback 9 ends 40 h
  h ← list_push 9 ends 50 h
  (x, h) ← list_popback ends h
  n ← list_size 9 ends h
  some (x, n)

run_three_result : run_three ≡ some (40, 2)
unfolding run_three
run_three_result = refl

list_init-IsList_example :
    (g : Links) × (list_init ends blank ≡ some g)
    × IsList g ends []
    × SameOutside (10 ∷ 20 ∷ []) blank g
list_init-IsList_example = list_init-IsList ends blank (omega arith) (omega arith) (omega arith)

list_remove-Removed_example :
    (g : Links) × (list_remove 40 two ≡ some g) × Removed two ends (30 ∷ []) 40 [] g
list_remove-Removed_example = list_remove-Removed two ends (30 ∷ []) 40 [] two-IsList

list_search-has_example : list_search 5 ends 40 two ≡ some true
list_search-has_example = list_search-has two ends nodes 40 5 two-IsList (omega arith)

push_refused_example : (list_push 5 ends 40 two ≡ none) × (list_pushback 5 ends 40 two ≡ none)
push_refused_example = push_refused two ends nodes 40 5 two-IsList (omega arith) refl

list_insert_sort-IsSorted_example :
    let front = before key (pos 3) nodes in
    let back = behind key (pos 3) nodes in
    (g : Links) × (list_insert_sort key 5 ends 35 two ≡ some g)
    × Inserted two ends front back 35 g
    × IsSorted key (front ++ 35 ∷ back)
    × (front ++ back ≡ nodes)
list_insert_sort-IsSorted_example =
    list_insert_sort-IsSorted key two ends nodes 35 5 two-IsList (omega arith) refl refl refl
      (refl, tt)
