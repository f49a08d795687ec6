-- ===== src/Mutex/Tests.antt =====
-- src/kernel/mutex.c: two tasks at one mutex, and its theorems there.
use neonix.Prelude.{ℕ, ◌≡◌, refl, ◌⊎◌, true, none, [], ◌∷◌, ◌==◌, if◌then◌else◌, ◌>>=◌}
use neonix.Mutex.{
  System, outside, ready, waiting, holding, has, mutex_init, lock_step, block, mutex_unlock, Reach,
  start, next, enter,
}
use neonix.Mutex.Exclusion.{mutex_exclusion, mutex_no_lost_wakeup}

-- The task 1 holds the mutex, and the task 2 waits for it.
abbrev contended : System
contended = record {
  value = true;
  waiters = 2 ∷ [];
  place = λ u. if u == 2 then waiting else if u == 1 then holding else outside;
}

contended_reached : Reach contended
unfolding lock_step block has mutex_init
contended_reached = next (next start (enter 1 refl refl)) (enter 2 refl refl)

no_second_entry : (lock_step 2 contended >>= λ s. mutex_unlock 1 s) ≡ none
unfolding lock_step block has
no_second_entry = refl

mutex_exclusion_example : (◌≡◌ {A = ℕ} 1 1) × (true ≡ true)
mutex_exclusion_example = mutex_exclusion contended 1 1 contended_reached refl refl

mutex_no_lost_wakeup_example :
    (u : ℕ) × ((contended.place u ≡ holding) ⊎ (contended.place u ≡ ready))
mutex_no_lost_wakeup_example = mutex_no_lost_wakeup contended 2 contended_reached refl
