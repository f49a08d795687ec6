-- ===== src/Tasks/Clock.antt =====
-- What the interrupt of the clock does to a valid table.
use mathlib.Core.Path.{subst}
use neonix.Prelude.{
  ℕ, ◌+◌, ◌≤◌, ◌≡◌, refl, sym, ap, ◌∙◌, ◌≢◌, ◌⊎◌, inl, inr, some, List, arith, ◌==◌, if◌then◌else◌,
  Bool-cases, All,
}
use neonix.Prelude.Words.{add32, sub32}
use neonix.Tasks.{Task, Tasks, task_at, put_task, stop_running, schedule, clock_handler}
use neonix.Tasks.Search.{Candidate}
use neonix.Tasks.Valid.{
  Due, IsTask, IsValid, task_at-put_self, task_at-put_ne, put_put, put-IsValid, put-IsTask,
  stop_running-Fits,
}
use neonix.Tasks.Turns.{Turn, schedule-IsValid}
use neonix.Tasks.Waking.{Woken, Woken-IsTask, Woken-Candidate, wake_all-IsValid}

-- The end of an interrupt: the slice of the running task goes on, or it is over and there is a
-- change of task.
abbrev Counted : Tasks → Task → Task → Tasks → Type 0
Counted t task new t' =
    ((task.ticks ≡ new.ticks + 1) × (1 ≤ new.ticks) × (t' ≡ put_task t.current new t))
    ⊎ ((task.ticks ≡ 1) × Turn (put_task t.current new t) t')

-- The clock counts the slice of the running task down, and changes tasks at its end.
count_down :
    (t : Tasks) (task : Task)
    → IsValid t
    → task_at t.current t ≡ some task
    → (new : Task) → new ≡ record task { jiffies = t.jiffies; ticks = sub32 task.ticks 1 }
    → (t' : Tasks) × ((if new.ticks == 0
          then schedule (put_task t.current new t)
          else some (put_task t.current new t))
        ≡ some t')
      × IsValid t'
      × Counted t task new t'
unfolding put_task
count_down t task v at new e =
    let (p, le, lt) = v.fits t.current task at in
    let less : new.ticks + 1 ≡ task.ticks = omega (arith, ap (λ x. x.ticks) e) in
    let same : new.priority ≡ task.priority = ap (λ x. x.priority) e in
    let at' = task_at-put_self t t.current task new at in
    elim (Bool-cases (new.ticks == 0)) [
      | inl over ↦
          let due : Due new = (omega arith, omega arith, omega arith) in
          let left =
            put-IsValid t t.current (stop_running new) v (task, at) (stop_running-Fits new due)
              (λ run. refl) in
          let (t', run, v', turn) =
            schedule-IsValid (put_task t.current new t) new at'
              (subst IsValid (sym (put_put t t.current new (stop_running new))) left) in
          (t', rw over run, v', inr (ground arith, turn))
      | inr left ↦ (
        put_task t.current new t,
        rw left refl,
        put-IsValid t t.current new v (task, at) (ground arith, omega arith, omega arith)
            (λ run. refl),
        inl (omega arith, ground arith, refl),
      )
    ]

-- The rest of the slice after an interrupt that does not change tasks: the same task runs, with
-- one tick less, no task is lost, and ready tasks stay ready.
abbrev pub GoesOn : Tasks → Task → Tasks → Type 0
GoesOn t task t' =
    (t'.current ≡ t.current)
    × ((task' : Task) × (task_at t'.current t' ≡ some task') × (task.ticks ≡ task'.ticks + 1))
    × ((i : ℕ) → IsTask t i → IsTask t' i)
    × ((i : ℕ) → Candidate t i → Candidate t' i)

put_current-Candidate :
    (t : Tasks) (new : Task) (i : ℕ) → Candidate t i → Candidate (put_task t.current new t) i
unfolding put_task
put_current-Candidate t new i (task, at, is, ne) =
    (task, task_at-put_ne t t.current i new ne ∙ at, is, ne)

put_current-GoesOn :
    (t : Tasks) (task new : Task)
    → task_at t.current t ≡ some task
    → task.ticks ≡ new.ticks + 1
    → GoesOn t task (put_task t.current new t)
unfolding put_task
put_current-GoesOn t task new at e = (
  refl,
  (new, task_at-put_self t t.current task new at, e),
  λ i. put-IsTask t t.current i new (task, at),
  put_current-Candidate t new,
)

-- A task that could run is not passed over at the end of a slice.
Turn-moves :
    (t : Tasks) (new : Task) (t' : Tasks)
    → Turn (put_task t.current new t) t'
    → (i : ℕ) → Candidate t i
    → t'.current ≢ t.current
unfolding put_task
Turn-moves t new t' (inl (task, at, is, ne)) i c h = ne (sym h)
Turn-moves t new t' (inr (e, all)) i c h = all i (put_current-Candidate t new i c)

later-IsValid : (t : Tasks) → IsValid t → IsValid (record t { jiffies = add32 t.jiffies 1 })
unfolding task_at
later-IsValid t v = record { runner = v.runner; spare = v.spare; only = v.only; fits = v.fits }

-- What the count does is seen from the table before the timers ran out, too.
after_wake :
    (t m : Tasks) (task mid new : Task) (t' : Tasks)
    → Woken t m
    → task_at m.current m ≡ some mid
    → mid.ticks ≡ task.ticks
    → Counted m mid new t'
    → (GoesOn t task t' × (2 ≤ task.ticks))
      ⊎ ((task.ticks ≡ 1) × ((i : ℕ) → Candidate t i → t'.current ≢ t.current))
after_wake t m task mid new t' woken at same (inl (less, left, e)) =
    let (now, rest, tasks, ready_) = put_current-GoesOn m mid new at less in
    inl (
      subst (GoesOn t task) (sym e) (
        now ∙ woken.0,
        (rest.0, rest.1, omega (arith, same, rest.2)),
        λ i c. tasks i (Woken-IsTask t m woken i c),
        λ i c. ready_ i (Woken-Candidate t m woken i c),
      ),
      omega (arith, same, less, left),
    )
after_wake t m task mid new t' woken at same (inr (one, turn)) = inr (
  sym same ∙ one,
  λ i c h. Turn-moves m new t' turn i (Woken-Candidate t m woken i c) (h ∙ sym woken.0),
)

-- An interrupt of the clock succeeds on a valid table and keeps it valid. The slice of the running
-- task goes on, or it is over, and then another task runs if one is ready.
pub clock-IsValid :
    (t : Tasks) (task : Task) (expired : List ℕ)
    → IsValid t
    → task_at t.current t ≡ some task
    → All (IsTask t) expired
    → (t' : Tasks) × (clock_handler expired t ≡ some t')
      × IsValid t'
      × ((GoesOn t task t' × (2 ≤ task.ticks))
          ⊎ ((task.ticks ≡ 1) × ((i : ℕ) → Candidate t i → t'.current ≢ t.current)))
unfolding clock_handler task_at
clock-IsValid t task expired v at all =
    let now = record t { jiffies = add32 t.jiffies 1 } in
    let (m, run, vm, woken) = wake_all-IsValid expired now (later-IsValid t v) all in
    let (mid, at_mid, same, is) = woken.1 t.current task at in
    let at' : task_at m.current m ≡ some mid =
      subst (λ j. task_at j m ≡ some mid) (sym woken.0) at_mid in
    let (t', run', v', end) = count_down m mid vm at' _ refl in
    (t', rw (run, at') run', v', after_wake t m task mid _ t' woken at' same end)
