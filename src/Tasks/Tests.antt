-- ===== src/Tasks/Tests.antt =====
-- The scheduler on a table of three tasks.
use mathlib.Core.Path.{subst}
use neonix.Prelude.{
  ℕ, zero, suc, ◌^◌, ◌≤◌, ◌<◌, ◌≡◌, refl, sym, ◌∙◌, ◌≢◌, false, none, some, [], ◌∷◌, arith, ◌>>=◌,
  some_injective,
}
use neonix.Tasks.{
  State, running, ready, Task, Tasks, task_at, put_task, task_search, get_free_task, get_task,
  schedule, search_table, consider, better, clock_handler, wake_all, stop_running, free_slot,
  find_pid,
}
use neonix.Tasks.Search.{IsChosen, task_search-ready}
use neonix.Tasks.Valid.{IsValid}
use neonix.Tasks.Events.{tick, happen, happen-IsValid, interrupts, interrupts-preempt}

abbrev new_task : State → (priority ticks pid : ℕ) → Task
new_task s priority ticks pid = record {
  state = s;
  priority = priority;
  ticks = ticks;
  jiffies = 7;
  pid = pid;
  status = 0;
  linked = false;
}

-- The idle task, the running one with two ticks left, a ready one, and a free place.
abbrev tasks : Tasks
tasks = record {
  table =
      some (new_task ready 1 1 0)
      ∷ some (new_task running 5 2 1)
      ∷ some (new_task ready 5 5 2)
      ∷ none
      ∷ [];
  current = 1;
  idle = 0;
  jiffies = 7;
}

at_0 : task_at 0 tasks ≡ some (new_task ready 1 1 0)
unfolding task_at
at_0 = refl

at_1 : task_at 1 tasks ≡ some (new_task running 5 2 1)
unfolding task_at
at_1 = refl

at_2 : task_at 2 tasks ≡ some (new_task ready 5 5 2)
unfolding task_at
at_2 = refl

at_3 : (i : ℕ) → task_at (suc (suc (suc i))) tasks ≡ none
unfolding task_at
at_3 zero = refl
at_3 (suc i) = refl

tasks-all :
    (P : ℕ → Task → Type 0)
    → P 0 (new_task ready 1 1 0)
    → P 1 (new_task running 5 2 1)
    → P 2 (new_task ready 5 5 2)
    → (i : ℕ) (task : Task) → task_at i tasks ≡ some task
    → P i task
tasks-all P p q r zero task h = subst (P 0) (some_injective (sym at_0 ∙ h)) p
tasks-all P p q r (suc zero) task h = subst (P 1) (some_injective (sym at_1 ∙ h)) q
tasks-all P p q r (suc (suc zero)) task h = subst (P 2) (some_injective (sym at_2 ∙ h)) r
tasks-all P p q r (suc (suc (suc i))) task h = let e = sym (at_3 i) ∙ h in absurd cc

tasks-IsValid : IsValid tasks
tasks-IsValid = record {
  runner = (_, at_1);
  spare = (_, at_0);
  only =
      tasks-all (λ i task. task.state ≡ running → 1 ≡ i) (λ e. absurd cc) (λ e. refl)
        (λ e. absurd cc);
  fits =
      tasks-all
        (λ i task. (1 ≤ task.ticks) × (task.ticks ≤ task.priority) × (task.priority < 2 ^ 31))
        (omega arith, omega arith, omega arith) (omega arith, omega arith, omega arith)
        (omega arith, omega arith, omega arith);
}

-- The ready task with more ticks left is chosen.
chosen : task_search ready tasks ≡ some 2
unfolding task_search search_table consider better
chosen = refl

-- The second interrupt of the clock ends the slice of the running task.
second : (do t ← interrupts ([] ∷ [] ∷ []) tasks; some t.current) ≡ some 2
unfolding interrupts clock_handler wake_all schedule stop_running put_task task_at task_search
    search_table consider better
second = refl

first_free : (do (i, t) ← get_free_task tasks; get_task i t) ≡ some 3
unfolding get_free_task free_slot get_task find_pid put_task
first_free = refl

task_search-ready_example : (next : ℕ) × (task_search ready tasks ≡ some next) × IsChosen tasks next
task_search-ready_example = task_search-ready tasks

happen-IsValid_example : (t' : Tasks) × (happen (tick (2 ∷ [])) tasks ≡ some t') × IsValid t'
happen-IsValid_example = happen-IsValid tasks (tick (2 ∷ [])) tasks-IsValid ((_, at_2), tt)

interrupts-preempt_example :
    (t' : Tasks) × (interrupts ([] ∷ (2 ∷ []) ∷ []) tasks ≡ some t') × IsValid t' × (t'.current ≢ 1)
interrupts-preempt_example =
    interrupts-preempt ([] ∷ (2 ∷ []) ∷ []) tasks (new_task running 5 2 1) 2 tasks-IsValid at_1
      (new_task ready 5 5 2, at_2, refl, λ e. absurd (omega arith)) (tt, (((_, at_2), tt), tt)) refl
