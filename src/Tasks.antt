-- ===== src/Tasks.antt =====
-- The scheduler of src/kernel/task.c and the clock of src/kernel/clock.c. A task is its place in
-- the table. The lists of blocked tasks appear by whether a task's node is linked, and an `int`
-- by its 32 bits. `none` is a failed assert, a panic, or an access by NULL.
-- The asserts on disabled interrupts and on the magic number of a task are not in the model.
use neonix.Prelude.{
  ℕ, ◌+◌, ◌^◌, Bool, true, false, ◌&&◌, ◌||◌, not, Option, none, some, List, [], ◌∷◌, ltb, ◌==◌,
  if◌then◌else◌, get_elem?, set, ◌>>=◌, ◌>>◌, assert,
}
pub mod Search
pub mod Valid
pub mod Turns
pub mod Waking
pub mod Clock
pub mod Events
pub mod Tests
use neonix.Prelude.Words.{add32, sub32}

-- `task_state_t`.
pub data State : Type 0 where
  init : State
  running : State
  ready : State
  blocked : State
  sleeping : State
  waiting : State
  died : State

abbrev pub state_code : State → ℕ
state_code init = 0
state_code running = 1
state_code ready = 2
state_code blocked = 3
state_code sleeping = 4
state_code waiting = 5
state_code died = 6

abbrev pub is_state : State → State → Bool
is_state s s' = state_code s == state_code s'

-- What the scheduler uses of `task_t`.
pub record Task : Type 0 where
  pub state : State
  pub priority : ℕ
  pub ticks : ℕ
  pub jiffies : ℕ
  pub pid : ℕ
  pub status : ℕ
  pub linked : Bool

-- `task_table`, the running task, `idle_task`, and `jiffies`.
pub record Tasks : Type 0 where
  pub table : List (Option Task)
  pub current : ℕ
  pub idle : ℕ
  pub jiffies : ℕ

-- `a < b` of two `int`s.
abbrev pub signed_less : ℕ → ℕ → Bool
signed_less a b = ltb (add32 a (2 ^ 31)) (add32 b (2 ^ 31))

unfoldable pub task_at : ℕ → Tasks → Option Task
task_at i t = do slot ← get_elem? t.table i; slot

unfoldable pub put_task : ℕ → Task → Tasks → Tasks
put_task i task t = record t { table = set t.table i (some task) }

-- The place of the first free slot from `i` on.
unfoldable pub free_slot : (i : ℕ) → List (Option Task) → Option ℕ
free_slot i [] = none
free_slot i (none ∷ slots) = some i
free_slot i (some task ∷ slots) = free_slot (i + 1) slots

-- A new task is zeroed, and its number is its place.
unfoldable pub get_free_task : Tasks → Option (ℕ × Tasks)
get_free_task t = do
  i ← free_slot 0 t.table
  some (
    i,
    put_task i
        (record {
          state = init;
          priority = 0;
          ticks = 0;
          jiffies = 0;
          pid = i;
          status = 0;
          linked = false;
        })
        t,
  )

-- `get_task`, from the place `i` on.
unfoldable pub find_pid : (pid i : ℕ) → List (Option Task) → Option ℕ
find_pid pid i [] = none
find_pid pid i (none ∷ slots) = find_pid pid (i + 1) slots
find_pid pid i (some task ∷ slots) =
    let rest = find_pid pid (i + 1) slots in if task.pid == pid then some i else rest

unfoldable pub get_task : (pid : ℕ) → Tasks → Option ℕ
get_task pid t = find_pid pid 0 t.table

-- `task == NULL || task->ticks < ptr->ticks || ptr->jiffies < task->jiffies`.
unfoldable pub better : Option (ℕ × Task) → Task → Bool
better none ptr = true
better (some (i, task)) ptr = signed_less task.ticks ptr.ticks || ltb ptr.jiffies task.jiffies

-- One round of `task_search`: the best task so far.
unfoldable pub consider :
    State → (current i : ℕ) → Option Task → Option (ℕ × Task) → Option (ℕ × Task)
consider state current i none best = best
consider state current i (some ptr) best =
    if not (is_state ptr.state state)
    then best
    else if current == i
    then best
    else if better best ptr
    then some (i, ptr)
    else best

unfoldable pub search_table :
    State → (current i : ℕ) → List (Option Task) → Option (ℕ × Task) → Option (ℕ × Task)
search_table state current i [] best = best
search_table state current i (slot ∷ slots) best =
    search_table state current (i + 1) slots (consider state current i slot best)

abbrev pub or_idle : (idle : ℕ) → State → Option (ℕ × Task) → Option ℕ
or_idle idle state (some (i, task)) = some i
or_idle idle state none = if is_state state ready then some idle else none

unfoldable pub task_search : State → Tasks → Option ℕ
task_search state t = or_idle t.idle state (search_table state t.current 0 t.table none)

-- The changes of `schedule` to the task that is left.
unfoldable pub stop_running : Task → Task
stop_running task = record task {
  state = if is_state task.state running then ready else task.state;
  ticks = if task.ticks == 0 then task.priority else task.ticks;
}

unfoldable pub schedule : Tasks → Option Tasks
schedule t = do
  next ← task_search ready t
  task ← task_at t.current t
  let t' = put_task t.current (stop_running task) t
  chosen ← task_at next t'
  some (record (put_task next (record chosen { state = running }) t') { current = next })

unfoldable pub task_yield : Tasks → Option Tasks
task_yield t = schedule t

unfoldable pub task_block : (i : ℕ) → State → Tasks → Option Tasks
task_block i state t = do
  task ← task_at i t
  assert (not task.linked)
  assert (not (is_state state ready) && not (is_state state running))
  let t' = put_task i (record task { linked = true; state = state }) t
  if t.current == i then schedule t' else some t'

unfoldable pub task_unblock : (i reason : ℕ) → Tasks → Option Tasks
task_unblock i reason t = do
  task ← task_at i t
  some (put_task i (record task { linked = false; status = reason; state = ready }) t)

unfoldable pub task_sleep : Tasks → Option Tasks
task_sleep t = task_block t.current sleeping t

-- -ETIME, the reason that `default_timeout` of src/kernel/timer.c gives.
abbrev pub timed_out : ℕ
timed_out = 0xFFFFFFC2

-- The effect of `timer_wakeup` on the tasks whose timers have run out.
unfoldable pub wake_all : List ℕ → Tasks → Option Tasks
wake_all [] t = some t
wake_all (i ∷ expired) t = task_unblock i timed_out t >>= wake_all expired

-- The clock's interrupt, at which the timers of the tasks in `expired` run out.
unfoldable pub clock_handler : (expired : List ℕ) → Tasks → Option Tasks
clock_handler expired t = do
  t ← wake_all expired (record t { jiffies = add32 t.jiffies 1 })
  task ← task_at t.current t
  let task' = record task { jiffies = t.jiffies; ticks = sub32 task.ticks 1 }
  let t' = put_task t.current task' t
  if task'.ticks == 0 then schedule t' else some t'
