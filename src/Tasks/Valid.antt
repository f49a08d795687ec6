-- ===== src/Tasks/Valid.antt =====
-- The invariant of the scheduler: one running task at most, and time slices in bounds.
use mathlib.Core.Path.{subst}
use neonix.Prelude.{
  ℕ, ◌^◌, ◌≤◌, ◌<◌, ◌≡◌, refl, sym, ap, ◌∙◌, ◌≢◌, inl, inr, some, arith, ◌==◌, Bool-cases, set-set,
  get_elem?-set_self, get_elem?-set_ne, some_injective, get_elem?-lt,
}
use neonix.Tasks.{running, ready, is_state, Task, Tasks, task_at, put_task, stop_running}
use neonix.Tasks.Search.{slot-task_at}

-- The slice of a task is not used up, and at most its priority, which is a positive `int`.
abbrev pub Fits : Task → Type 0
Fits task = (1 ≤ task.ticks) × (task.ticks ≤ task.priority) × (task.priority < 2 ^ 31)

-- The same, but for the end of the slice.
abbrev pub Due : Task → Type 0
Due task = (1 ≤ task.priority) × (task.ticks ≤ task.priority) × (task.priority < 2 ^ 31)

-- The place holds a task.
abbrev pub IsTask : Tasks → ℕ → Type 0
IsTask t i = (task : Task) × (task_at i t ≡ some task)

-- The running task and the idle one are in the table, no other task is in the state of running,
-- and the slice of every task is in bounds.
pub record IsValid (t : Tasks) : Type 0 where
  pub runner : IsTask t t.current
  pub spare : IsTask t t.idle
  pub only : (i : ℕ) (task : Task) → task_at i t ≡ some task → task.state ≡ running → t.current ≡ i
  pub fits : (i : ℕ) (task : Task) → task_at i t ≡ some task → Fits task

pub task_at-put_self :
    (t : Tasks) (i : ℕ) (task task' : Task)
    → task_at i t ≡ some task
    → task_at i (put_task i task' t) ≡ some task'
unfolding task_at put_task
task_at-put_self t i task task' h =
    let e = slot-task_at t i task h in
    let lt = get_elem?-lt t.table i e in rw (get_elem?-set_self t.table i (some task') lt) refl

pub task_at-put_ne :
    (t : Tasks) (i j : ℕ) (task : Task) → i ≢ j → task_at j (put_task i task t) ≡ task_at j t
unfolding task_at put_task
task_at-put_ne t i j task ne = rw (get_elem?-set_ne t.table i j (some task) ne) refl

pub put_put :
    (t : Tasks) (i : ℕ) (task task' : Task)
    → put_task i task' (put_task i task t) ≡ put_task i task' t
unfolding put_task
put_put t i task task' =
    ap (λ l. record t { table = l }) (set-set t.table i (some task) (some task'))

-- What holds of the new task and of the tasks of the old table holds of the tasks of the new one.
pub put_all :
    (P : ℕ → Task → Type 0) (t : Tasks) (i : ℕ) (old new : Task)
    → task_at i t ≡ some old
    → ((j : ℕ) (task : Task) → i ≢ j → task_at j t ≡ some task → P j task)
    → P i new
    → (j : ℕ) (task : Task) → task_at j (put_task i new t) ≡ some task
    → P j task
put_all P t i old new at others p j task h = elim (Bool-cases (i == j)) [
  | inl same ↦
      let e : i ≡ j = ground arith in
      let at' =
        subst (λ k. task_at k (put_task i new t) ≡ some new) e (task_at-put_self t i old new at) in
      subst (P j) (some_injective (sym at' ∙ h)) (subst (λ k. P k new) e p)
  | inr other ↦
      let ne : i ≢ j = ground arith in others j task ne (sym (task_at-put_ne t i j new ne) ∙ h)
]

pub put-IsTask :
    (t : Tasks) (i j : ℕ) (new : Task) → IsTask t i → IsTask t j → IsTask (put_task i new t) j
put-IsTask t i j new (old, at) (task, h) = elim (Bool-cases (i == j)) [
  | inl same ↦
      let e : i ≡ j = ground arith in
      (
        new,
        subst (λ k. task_at k (put_task i new t) ≡ some new) e (task_at-put_self t i old new at),
      )
  | inr other ↦ (task, task_at-put_ne t i j new (ground arith) ∙ h)
]

-- A task that is put in the place of another one keeps the invariant, where it fits.
pub put-IsValid :
    (t : Tasks) (i : ℕ) (new : Task)
    → IsValid t
    → IsTask t i
    → Fits new
    → (new.state ≡ running → t.current ≡ i)
    → IsValid (put_task i new t)
unfolding put_task
put-IsValid t i new v (old, at) fit run = record {
  runner = put-IsTask t i t.current new (old, at) v.runner;
  spare = put-IsTask t i t.idle new (old, at) v.spare;
  only =
      put_all (λ j task. task.state ≡ running → t.current ≡ j) t i old new at
        (λ j task ne. v.only j task) run;
  fits = put_all (λ j task. Fits task) t i old new at (λ j task ne. v.fits j task) fit;
}

pub stop_running-Fits : (task : Task) → Due task → Fits (stop_running task)
unfolding stop_running
stop_running-Fits task (p, le, lt) = elim (Bool-cases (task.ticks == 0)) [
  | inl zero_ ↦ rw zero_ (p, omega arith, lt)
  | inr left ↦ rw left (ground arith, le, lt)
]

pub stop_running-stopped : (task : Task) → (stop_running task).state ≢ running
unfolding stop_running
stop_running-stopped task h = elim (Bool-cases (is_state task.state running)) [
  | inl run ↦ let e : ready ≡ running = sym (rw run refl) ∙ h in absurd cc
  | inr other ↦ let e : task.state ≡ running = sym (rw other refl) ∙ h in absurd cc
]
