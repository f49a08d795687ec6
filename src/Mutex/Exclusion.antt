-- ===== src/Mutex/Exclusion.antt =====
-- The theorems about every run of src/kernel/mutex.c.
use neonix.Prelude.{ℕ, ◌≡◌, ◌⊎◌, inl, inr, true, false, Option, some, [], Bool-cases}
use mathlib.Core.Path.{subst}
use neonix.Mutex.{
  has, System, outside, ready, waiting, holding, lock_step, mutex_unlock, Step, enter, retry, leave,
  Reach, start, next,
}
use neonix.Mutex.Sound.{IsSound, mutex_init-IsSound, lock_step-IsSound, mutex_unlock-IsSound}

-- A step has one result.
step_once : {o : Option System} {s t : System} → o ≡ some s → o ≡ some t → s ≡ t
step_once p q = cc

Step-IsSound : {s s' : System} → IsSound s → Step s s' → IsSound s'
Step-IsSound {s} h (enter t at run) =
    let (s'', run', h') = lock_step-IsSound s t h (inl at) in subst IsSound (step_once run' run) h'
Step-IsSound {s} h (retry t at run) =
    let (s'', run', h') = lock_step-IsSound s t h (inr at) in subst IsSound (step_once run' run) h'
Step-IsSound {s} h (leave t at run) =
    let (s'', run', free, h') = mutex_unlock-IsSound s t h at in
    subst IsSound (step_once run' run) h'

Reach-IsSound : {s : System} → Reach s → IsSound s
Reach-IsSound start = mutex_init-IsSound
Reach-IsSound (next r step) = Step-IsSound (Reach-IsSound r) step

-- Mutual exclusion: whatever tasks lock and unlock, in whatever order they run, two tasks that
-- both hold the mutex are the same one, and the mutex is then marked as taken.
pub mutex_exclusion :
    (s : System) (t u : ℕ)
    → Reach s
    → s.place t ≡ holding
    → s.place u ≡ holding
    → (t ≡ u) × (s.value ≡ true)
mutex_exclusion s t u r ht hu = let h = Reach-IsSound r in (h.one t u ht hu, h.taken t ht)

-- No assert of `mutex_lock` fails: in a reachable state, a task that is outside of the mutex or
-- was woken takes its step of `mutex_lock`.
pub mutex_lock_runs :
    (s : System) (t : ℕ)
    → Reach s
    → (s.place t ≡ outside) ⊎ (s.place t ≡ ready)
    → (s' : System) × (lock_step t s ≡ some s')
mutex_lock_runs s t r at =
    let (s', run, h) = lock_step-IsSound s t (Reach-IsSound r) at in (s', run)

-- No assert of `mutex_unlock` fails: in a reachable state, a task that holds the mutex leaves it,
-- and the mutex is free afterwards.
pub mutex_unlock_runs :
    (s : System) (t : ℕ)
    → Reach s
    → s.place t ≡ holding
    → (s' : System) × (mutex_unlock t s ≡ some s') × (s'.value ≡ false)
mutex_unlock_runs s t r at =
    let (s', run, free, h) = mutex_unlock-IsSound s t (Reach-IsSound r) at in (s', run, free)

-- No wake-up is lost: where a task is blocked in a reachable state, another one holds the mutex
-- or was woken, so that a task can run that will hand the mutex on.
pub mutex_no_lost_wakeup :
    (s : System) (t : ℕ)
    → Reach s
    → s.place t ≡ waiting
    → (u : ℕ) × ((s.place u ≡ holding) ⊎ (s.place u ≡ ready))
unfolding has
mutex_no_lost_wakeup s t r at =
    let h = Reach-IsSound r in
    elim (Bool-cases s.value) [
      | inl full ↦ let (u, hu) = h.holder full in (u, inl hu)
      | inr free ↦ elim (h.woken free) [
        | inl empty ↦
            let l : has t [] ≡ true = subst (λ l. has t l ≡ true) empty (h.listed t at) in absurd cc
        | inr (u, hu) ↦ (u, inr hu)
      ]
    ]
