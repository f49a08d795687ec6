-- ===== src/Tasks/Search.antt =====
-- What `task_search` of src/kernel/task.c finds.
use mathlib.Core.Path.{subst}
use neonix.Prelude.{
  ℕ, zero, suc, ◌+◌, ◌<◌, ◌≡◌, refl, sym, ap, ◌∙◌, ◌≢◌, ◌⊎◌, inl, inr, true, false, Option, none,
  some, List, [], ◌∷◌, arith, ◌==◌, if◌then◌else◌, Bool-cases, get_elem?, >>=-eq-some,
  some_injective,
}
use neonix.Tasks.{
  State, init, running, ready, blocked, sleeping, waiting, died, state_code, is_state, Task, Tasks,
  task_at, signed_less, better, consider, search_table, or_idle, task_search,
}

-- The state with the code, for the codes of states.
abbrev state_of : ℕ → State
state_of n =
    if n == 0
    then init
    else if n == 1
    then running
    else if n == 2
    then ready
    else if n == 3
    then blocked
    else if n == 4
    then sleeping
    else if n == 5
    then waiting
    else died

state_of-state_code : (s : State) → state_of (state_code s) ≡ s
state_of-state_code init = refl
state_of-state_code running = refl
state_of-state_code ready = refl
state_of-state_code blocked = refl
state_of-state_code sleeping = refl
state_of-state_code waiting = refl
state_of-state_code died = refl

pub is_state-eq : (s s' : State) → is_state s s' ≡ true → s ≡ s'
is_state-eq s s' h =
    let e : state_code s ≡ state_code s' = ground arith in
    sym (state_of-state_code s) ∙ ap state_of e ∙ state_of-state_code s'

pub is_state_self : (s : State) → is_state s s ≡ true
is_state_self s = ground arith

pair_injective : {A B : Type 0} {p q : A × B} → p ≡ q → (p.0 ≡ q.0) × (p.1 ≡ q.1)
pair_injective e = (ap (λ p. p.0) e, ap (λ p. p.1) e)

-- A round keeps the best task, or takes the one of its place, which then is a candidate.
consider-cases :
    (state : State) (current i : ℕ) (slot : Option Task) (best : Option (ℕ × Task))
    → (consider state current i slot best ≡ best)
      ⊎ ((ptr : Task) × (slot ≡ some ptr)
          × (ptr.state ≡ state)
          × (current ≢ i)
          × (consider state current i slot best ≡ some (i, ptr)))
unfolding consider
consider-cases state current i none best = inl refl
consider-cases state current i (some ptr) best = elim (Bool-cases (is_state ptr.state state)) [
  | inr other ↦ inl (rw other refl)
  | inl same ↦ elim (Bool-cases (current == i)) [
    | inl self ↦ inl (rw (same, self) refl)
    | inr apart ↦ elim (Bool-cases (better best ptr)) [
      | inr worse ↦ inl (rw (same, apart, worse) refl)
      | inl more ↦
          inr
            (ptr, refl, is_state-eq ptr.state state same, ground arith, rw (same, apart, more) refl)
    ]
  ]
]

-- A round that finds nothing had nothing, and its task is no candidate.
consider-none :
    (state : State) (current i : ℕ) (slot : Option Task) (best : Option (ℕ × Task))
    → consider state current i slot best ≡ none
    → (best ≡ none) × ((ptr : Task) → slot ≡ some ptr → ptr.state ≡ state → current ≡ i)
unfolding consider better
consider-none state current i none best h = (h, λ ptr e at. cc)
consider-none state current i (some ptr) (some b) h = absurd (ground arith)
consider-none state current i (some ptr) none h = (
  refl,
  λ ptr' e at. elim (Bool-cases (is_state ptr.state state)) [
    | inr other ↦
        let same : ptr ≡ ptr' = some_injective e in
        let self = is_state_self state in
        let at' : is_state ptr.state state ≡ true = rw (same, at) self in absurd cc
    | inl same ↦ ground arith
  ],
)

-- The place that a search gives is the one it began with, or the one of a candidate.
search_table-some :
    (state : State) (current i : ℕ) (slots : List (Option Task)) (best : Option (ℕ × Task)) (k : ℕ)
    (task : Task)
    → search_table state current i slots best ≡ some (k, task)
    → (best ≡ some (k, task))
      ⊎ ((m : ℕ) × (k ≡ i + m)
          × (get_elem? slots m ≡ some (some task))
          × (task.state ≡ state)
          × (current ≢ k))
unfolding search_table
search_table-some state current i [] best k task h = inl h
search_table-some state current i (slot ∷ slots) best k task h =
    elim (search_table-some state current (i + 1) slots (consider state current i slot best) k task
      h) [
        | inr (m, e, at, is, ne) ↦ inr (suc m, omega arith, at, is, ne)
        | inl now ↦ elim (consider-cases state current i slot best) [
          | inl kept ↦ inl (sym kept ∙ now)
          | inr (ptr, e, is, ne, taken) ↦
              let same = pair_injective (some_injective (sym taken ∙ now)) in
              inr (
                0,
                omega (arith, same.0),
                rw (sym same.1) (ap some e),
                rw (sym same.1) is,
                subst (λ j. current ≢ j) same.0 ne,
              )
        ]
      ]

-- A search finds nothing only where there is no candidate.
search_table-none :
    (state : State) (current i : ℕ) (slots : List (Option Task)) (best : Option (ℕ × Task))
    → search_table state current i slots best ≡ none
    → (best ≡ none)
      × ((m : ℕ) (task : Task)
          → get_elem? slots m ≡ some (some task)
          → task.state ≡ state
          → current ≡ i + m)
unfolding search_table
search_table-none state current i [] best h = (h, λ m task at. cc)
search_table-none state current i (slot ∷ slots) best h =
    let (first, later) =
      search_table-none state current (i + 1) slots (consider state current i slot best) h in
    let (start, here) = consider-none state current i slot best first in (start, go here later)
  where
    go :
        ((ptr : Task) → slot ≡ some ptr → ptr.state ≡ state → current ≡ i)
        → ((m : ℕ) (task : Task)
            → get_elem? slots m ≡ some (some task)
            → task.state ≡ state
            → current ≡ i + 1 + m)
        → (m : ℕ) (task : Task) → get_elem? (slot ∷ slots) m ≡ some (some task)
        → task.state ≡ state
        → current ≡ i + m
    go here later zero task at is = omega (arith, here task (some_injective at) is)
    go here later (suc m) task at is = omega (arith, later m task at is)

-- A candidate behind the one that is found is not better than it.
search_table-last :
    (state : State) (current i : ℕ) (slots : List (Option Task)) (best : Option (ℕ × Task)) (k : ℕ)
    (task : Task) (m : ℕ) (other : Task)
    → search_table state current i slots best ≡ some (k, task)
    → get_elem? slots m ≡ some (some other)
    → other.state ≡ state
    → current ≢ i + m
    → k < i + m
    → better (some (k, task)) other ≡ false
unfolding search_table consider
search_table-last state current i [] best k task m other h at is ne lt = cc
search_table-last state current i (slot ∷ slots) best k task (suc m) other h at is ne lt =
    search_table-last state current (i + 1) slots (consider state current i slot best) k task m
      other h at is (λ e. ne (omega arith)) (omega arith)
search_table-last state current i (slot ∷ slots) best k task zero other h at is ne lt =
    elim (search_table-some state current (i + 1) slots (consider state current i slot best) k task
      h) [
        | inr (m, e, slot_, is_, ne_) ↦ absurd (omega arith)
        | inl now ↦
            not_better state current i slot best k task other now (some_injective at) is
              (λ e. ne (omega arith)) (λ e. absurd (omega arith))
      ]
  where
    not_better :
        (state : State) (current i : ℕ) (slot : Option Task) (best : Option (ℕ × Task)) (k : ℕ)
        (task other : Task)
        → consider state current i slot best ≡ some (k, task)
        → slot ≡ some other
        → other.state ≡ state
        → current ≢ i
        → k ≢ i
        → better (some (k, task)) other ≡ false
    not_better state current i slot best k task other now at is ne apart =
        let now' = subst (λ q. consider state current i q best ≡ some (k, task)) at now in
        let same : is_state other.state state ≡ true = rw is (is_state_self state) in
        let this : current == i ≡ false = ground arith in
        elim (Bool-cases (better best other)) [
          | inl more ↦
              absurd
                (apart (sym (pair_injective (some_injective (rw (same, this, more) at now'))).0))
          | inr worse ↦
              let kept : best ≡ some (k, task) = rw (same, this, worse) at now' in
              subst (λ b. better b other ≡ false) kept worse
        ]

-- A task is a candidate of the search: it is ready and not the running one.
abbrev pub Candidate : Tasks → (i : ℕ) → Type 0
Candidate t i = (task : Task) × (task_at i t ≡ some task) × (task.state ≡ ready) × (t.current ≢ i)

task_at-slot :
    (t : Tasks) (i : ℕ) (task : Task)
    → get_elem? t.table i ≡ some (some task)
    → task_at i t ≡ some task
unfolding task_at
task_at-slot t i task h = rw h refl

pub slot-task_at :
    (t : Tasks) (i : ℕ) (task : Task)
    → task_at i t ≡ some task
    → get_elem? t.table i ≡ some (some task)
unfolding task_at
slot-task_at t i task h =
    let (slot, e, at) = >>=-eq-some (get_elem? t.table i) _ h in e ∙ ap some at

-- No candidate behind a place in the table has more ticks left than the task there, as an `int`, or
-- ran longer ago.
abbrev pub IsLastBest : Tasks → (k : ℕ) → Task → Type 0
IsLastBest t k task =
    (i : ℕ) (other : Task)
    → task_at i t ≡ some other
    → other.state ≡ ready
    → t.current ≢ i
    → k < i
    → (signed_less task.ticks other.ticks ≡ false) × (¬ (other.jiffies < task.jiffies))

-- A ready task other than the running one, or the idle task where there is none.
abbrev pub IsChosen : Tasks → (next : ℕ) → Type 0
IsChosen t next =
    ((task : Task) × (task_at next t ≡ some task)
      × (task.state ≡ ready)
      × (t.current ≢ next)
      × IsLastBest t next task)
    ⊎ ((next ≡ t.idle) × ((i : ℕ) → ¬ Candidate t i))

-- The scheduler never lacks a task: `task_search` for a ready task always finds one. It is a ready
-- task other than the running one, such that no ready task behind it in the table has more ticks
-- left or ran longer ago; where there is no ready task but the running one, it is the idle task.
pub task_search-ready :
    (t : Tasks)
    → (next : ℕ) × (task_search ready t ≡ some next)
      × (((task : Task) × (task_at next t ≡ some task)
            × (task.state ≡ ready)
            × (t.current ≢ next)
            × IsLastBest t next task)
          ⊎ ((next ≡ t.idle) × ((i : ℕ) → ¬ Candidate t i)))
unfolding task_search better
task_search-ready t = go (search_table ready t.current 0 t.table none) refl
  where
    go :
        (found : Option (ℕ × Task))
        → search_table ready t.current 0 t.table none ≡ found
        → (next : ℕ) × (or_idle t.idle ready found ≡ some next) × IsChosen t next
    go none e = (
      t.idle,
      refl,
      inr (
        refl,
        λ i (task, at, is, ne).
            let (start, rest) = search_table-none ready t.current 0 t.table none e in
            ne (omega (arith, rest i task (slot-task_at t i task at) is)),
      ),
    )
    go (some (k, task)) e = elim (search_table-some ready t.current 0 t.table none k task e) [
      | inl start ↦ absurd cc
      | inr (m, plus, at, is, ne) ↦
          let same : k ≡ m = omega arith in
          (
            k,
            refl,
            inl (
              task,
              task_at-slot t k task
                  (subst (λ j. get_elem? t.table j ≡ some (some task)) (sym same) at),
              is,
              ne,
              λ i other at' is' ne' lt.
                  let worse =
                    search_table-last ready t.current 0 t.table none k task i other e
                      (slot-task_at t i other at') is' (λ q. ne' (omega arith)) (omega arith) in
                  (ground arith, λ less. absurd (ground arith)),
            ),
          )
    ]

pub IsChosen-Candidate :
    (t : Tasks) (next : ℕ)
    → IsChosen t next
    → Candidate t next ⊎ ((next ≡ t.idle) × ((i : ℕ) → ¬ Candidate t i))
IsChosen-Candidate t next (inl (task, at, is, ne, best)) = inl (task, at, is, ne)
IsChosen-Candidate t next (inr idle) = inr idle

pub is_state_other : (s s' : State) → s ≢ s' → is_state s s' ≡ false
is_state_other s s' ne = elim (Bool-cases (is_state s s')) [
  | inl same ↦ absurd (ne (is_state-eq s s' same))
  | inr other ↦ other
]
