-- ===== src/Tasks/Events.antt =====
-- Everything that can happen to the tasks of src/kernel/task.c, and the order of interrupts.
use neonix.Prelude.{
  ℕ, ◌≡◌, refl, sym, ◌∙◌, ◌≢◌, inl, inr, true, false, Option, some, List, [], ◌∷◌, arith, ◌==◌,
  Bool-cases, length, All, ◌>>=◌, All-mono, length-zero,
}
use neonix.Tasks.{
  State, running, ready, sleeping, Task, Tasks, task_at, put_task, stop_running, schedule,
  task_yield, task_block, task_unblock, task_sleep, clock_handler,
}
use neonix.Tasks.Search.{Candidate, is_state_other}
use neonix.Tasks.Valid.{IsTask, IsValid, put-IsValid, stop_running-Fits}
use neonix.Tasks.Turns.{schedule-IsValid}
use neonix.Tasks.Waking.{unblock-IsValid}
use neonix.Tasks.Clock.{clock-IsValid}

-- What happens to the tasks: an interrupt of the clock, at which some timers run out, or a call.
pub data Event : Type 0 where
  tick : (expired : List ℕ) → Event
  yield : Event
  block_task : (i : ℕ) → State → Event
  unblock_task : (i reason : ℕ) → Event
  sleep : Event

unfoldable pub happen : Event → Tasks → Option Tasks
happen (tick expired) t = clock_handler expired t
happen yield t = task_yield t
happen (block_task i state) t = task_block i state t
happen (unblock_task i reason) t = task_unblock i reason t
happen sleep t = task_sleep t

-- The place holds a task that is in no list.
abbrev pub IsFree : Tasks → ℕ → Type 0
IsFree t i = (task : Task) × (task_at i t ≡ some task) × (task.linked ≡ false)

-- What the callers see to: the tasks exist, a task that is blocked is in no list, and is not
-- blocked in the state of a task that can run.
abbrev pub Legal : Tasks → Event → Type 0
Legal t (tick expired) = All (IsTask t) expired
Legal t yield = Unit
Legal t (block_task i state) = IsFree t i × (state ≢ ready) × (state ≢ running)
Legal t (unblock_task i reason) = IsTask t i
Legal t sleep = IsFree t t.current

-- A valid table stays valid by a change of tasks at any time.
yield-IsValid : (t : Tasks) → IsValid t → (t' : Tasks) × (schedule t ≡ some t') × IsValid t'
yield-IsValid t v =
    let (task, at) = v.runner in
    let (p, le, lt) = v.fits t.current task at in
    let (t', run, v', turn) = schedule-IsValid t task at (
      put-IsValid t t.current (stop_running task) v (task, at)
        (stop_running-Fits task (omega arith, le, lt)) (λ r. refl)) in
    (t', run, v')

block-IsValid :
    (t : Tasks) (i : ℕ) (state : State)
    → IsValid t
    → IsFree t i
    → state ≢ ready
    → state ≢ running
    → (t' : Tasks) × (task_block i state t ≡ some t') × IsValid t'
unfolding task_block
block-IsValid t i state v (task, at, free) nr nx =
    let new = record task { linked = true; state = state } in
    let v' = put-IsValid t i new v (task, at) (v.fits i task at) (λ run. absurd (nx run)) in
    let no_ready = is_state_other state ready nr in
    let no_running = is_state_other state running nx in
    elim (Bool-cases (t.current == i)) [
      | inl self ↦
          let (t', run, v'') = yield-IsValid (put_task i new t) v' in
          (t', rw (at, free, no_ready, no_running, self) run, v'')
      | inr other ↦ (put_task i new t, rw (at, free, no_ready, no_running, other) refl, v')
    ]

-- Whatever happens, the scheduler goes on: on a valid table none of the asserts that are modelled
-- fails, the code meets no empty place, and leaves a valid table: one task at most is in the state
-- of running, it is the running one, and the slice of every task is from 1 to its priority. The
-- callers see to it that the tasks that they name exist, that a task that is blocked or put to sleep is
-- in no list, and that it is not blocked in the state of a task that is ready or running. The asserts
-- on disabled interrupts and on the magic number of a task are not modelled.
pub happen-IsValid :
    (t : Tasks) (e : Event)
    → IsValid t
    → Legal t e
    → (t' : Tasks) × (happen e t ≡ some t') × IsValid t'
unfolding happen task_yield task_sleep
happen-IsValid t (tick expired) v l =
    let (task, at) = v.runner in
    let (t', run, v', rest) = clock-IsValid t task expired v at l in (t', run, v')
happen-IsValid t yield v l = yield-IsValid t v
happen-IsValid t (block_task i state) v (free, nr, nx) = block-IsValid t i state v free nr nx
happen-IsValid t (unblock_task i reason) v l =
    let (t', run, v', woken) = unblock-IsValid t i reason v l in (t', run, v')
happen-IsValid t sleep v l = block-IsValid t t.current sleeping v l (λ e. cc) (λ e. cc)

-- Several interrupts of the clock, each with the tasks whose timers run out at it.
unfoldable pub interrupts : List (List ℕ) → Tasks → Option Tasks
interrupts [] t = some t
interrupts (expired ∷ later) t = clock_handler expired t >>= interrupts later

-- No task keeps the processor: on a valid table with a ready task, as many interrupts of the clock
-- as the running task has ticks left all succeed, and another task runs then.
pub interrupts-preempt :
    (later : List (List ℕ)) (t : Tasks) (task : Task) (i : ℕ)
    → IsValid t
    → task_at t.current t ≡ some task
    → Candidate t i
    → All (All (IsTask t)) later
    → length later ≡ task.ticks
    → (t' : Tasks) × (interrupts later t ≡ some t') × IsValid t' × (t'.current ≢ t.current)
unfolding interrupts
interrupts-preempt [] t task i v at c all len =
    let (p, le, lt) = v.fits t.current task at in absurd (omega arith)
interrupts-preempt (expired ∷ later) t task i v at c (now, all) len =
    let (t', run, v', end) = clock-IsValid t task expired v at now in
    elim end [
      | inl ((same, (task', at', less), tasks, ready_), two) ↦
          let (t'', run', v'', moved) =
            interrupts-preempt later t' task' i v' at' (ready_ i c)
              (All-mono (All-mono tasks) later all) (omega (arith, less, len)) in
          (t'', rw run run', v'', λ h. moved (h ∙ sym same))
      | inr (one, moved) ↦
          let none_ : later ≡ [] = length-zero later (omega arith) in
          (t', rw (run, none_) refl, v', moved i c)
    ]
