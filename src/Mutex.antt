-- ===== src/Mutex.antt =====
-- src/kernel/mutex.c: a mutex and the tasks that use it. `mutex_lock` and `mutex_unlock` run with
-- interrupts disabled, so the tasks interleave where `task_block` is called and where a function
-- has returned; a step is one round of the loop of `mutex_lock`, or a call of `mutex_unlock`.
-- `none` is a failed assert. `task_block` and `task_unblock` of src/kernel/task.c appear by what
-- they do to the task and to the list of waiters.
pub mod Sound
pub mod Exclusion
pub mod Tests
use neonix.Prelude.{
  ℕ, ◌≡◌, Bool, true, false, not, Option, some, List, [], ◌∷◌, ◌++◌, ◌==◌, if◌then◌else◌, ◌>>=◌,
  ◌>>◌, assert,
}

-- Where a task stands: it neither holds nor wants the mutex; it is ready, at the test of the loop
-- behind `task_block`; it is blocked; it has returned from `mutex_lock`.
pub data Place : Type 0 where
  outside : Place
  ready : Place
  waiting : Place
  holding : Place

-- `mutex_t`, with the waiters from the tail of their list to its head, and the tasks.
pub record System : Type 0 where
  pub value : Bool
  pub waiters : List ℕ
  pub place : ℕ → Place

-- `list_search`.
unfoldable pub has : ℕ → List ℕ → Bool
has t [] = false
has t (w ∷ ws) = if t == w then true else has t ws

abbrev pub set_place : ℕ → Place → (ℕ → Place) → ℕ → Place
set_place t p place u = if u == t then p else place u

unfoldable pub mutex_init : System
mutex_init = record { value = false; waiters = []; place = λ t. outside }

-- `task_block(current, &mutex->waiters, ...)`, whose `list_push` asserts that the task is not on
-- the list.
unfoldable pub block : ℕ → System → Option System
block t s = do
  assert (not (has t s.waiters))
  some (record s { waiters = s.waiters ++ t ∷ []; place = set_place t waiting s.place })

-- One round of `mutex_lock`, by the task `t`.
unfoldable pub lock_step : ℕ → System → Option System
lock_step t s =
    if s.value
    then block t s
    else some (record s { value = true; place = set_place t holding s.place })

-- `task_unblock` of the waiter at the list's tail, where there is one.
unfoldable pub wake : List ℕ → System → System
wake [] s = s
wake (w ∷ ws) s = record s { waiters = ws; place = set_place w ready s.place }

unfoldable pub mutex_unlock : ℕ → System → Option System
mutex_unlock t s = do
  assert s.value
  some (wake s.waiters (record s { value = false; place = set_place t outside s.place }))

-- A task that is not blocked may take the next step: it enters `mutex_lock` or goes on in it, or
-- it unlocks a mutex that it holds.
pub data Step : System → System → Type 0 where
  enter : {s s' : System} (t : ℕ) → s.place t ≡ outside → lock_step t s ≡ some s' → Step s s'
  retry : {s s' : System} (t : ℕ) → s.place t ≡ ready → lock_step t s ≡ some s' → Step s s'
  leave : {s s' : System} (t : ℕ) → s.place t ≡ holding → mutex_unlock t s ≡ some s' → Step s s'

pub data Reach : System → Type 0 where
  start : Reach mutex_init
  next : {s s' : System} → Reach s → Step s s' → Reach s'
