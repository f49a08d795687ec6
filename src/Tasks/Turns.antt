-- ===== src/Tasks/Turns.antt =====
-- What `schedule` and the events that lead to it do to a valid table.
use mathlib.Core.Path.{subst}
use neonix.Prelude.{ℕ, ◌≡◌, refl, sym, ap, ◌∙◌, ◌≢◌, ◌⊎◌, inl, inr, some, some_injective}
use neonix.Tasks.{running, Task, Tasks, task_at, put_task, stop_running, schedule}
use neonix.Tasks.Search.{Candidate, IsChosen-Candidate, task_search-ready}
use neonix.Tasks.Valid.{
  Fits, IsTask, IsValid, task_at-put_self, task_at-put_ne, put_all, put-IsTask,
  stop_running-stopped,
}

-- After a change of task, from `t` to `t'`: the running task was ready, or is the idle one
-- because no other task is ready.
abbrev pub Turn : Tasks → Tasks → Type 0
Turn t t' = Candidate t t'.current ⊎ ((t'.current ≡ t.idle) × ((i : ℕ) → ¬ Candidate t i))

-- The task that runs next, of a table in which the old one has been left.
start-IsValid :
    (m : Tasks) (next : ℕ) (stopped chosen : Task)
    → IsValid m
    → task_at m.current m ≡ some stopped
    → stopped.state ≢ running
    → task_at next m ≡ some chosen
    → IsValid (record (put_task next (record chosen { state = running }) m) { current = next })
unfolding task_at put_task
start-IsValid m next stopped chosen v at still h =
    let new = record chosen { state = running } in
    record {
      runner = (new, task_at-put_self m next chosen new h);
      spare = put-IsTask m next m.idle new (chosen, h) v.spare;
      only =
          put_all (λ j task. task.state ≡ running → next ≡ j) m next chosen new h
            (λ j task ne at' run.
              let same = subst (λ k. task_at k m ≡ some stopped) (v.only j task at' run) at in
              absurd (still (ap (λ x. x.state) (some_injective (sym same ∙ at')) ∙ run)))
            (λ _. refl);
      fits =
          put_all (λ j task. Fits task) m next chosen new h (λ j task ne. v.fits j task)
            (v.fits next chosen h);
    }

found-IsTask :
    (t : Tasks) (next : ℕ) (task : Task)
    → IsTask (put_task t.current task t) t.idle
    → Candidate t next ⊎ ((next ≡ t.idle) × ((i : ℕ) → ¬ Candidate t i))
    → IsTask (put_task t.current task t) next
found-IsTask t next task spare (inl (x, at, is, ne)) =
    (x, task_at-put_ne t t.current next task ne ∙ at)
found-IsTask t next task spare (inr (e, all)) =
    subst (IsTask (put_task t.current task t)) (sym e) spare

-- `schedule` succeeds where leaving the running task gives a valid table, and keeps it valid.
pub schedule-IsValid :
    (t : Tasks) (task : Task)
    → task_at t.current t ≡ some task
    → IsValid (put_task t.current (stop_running task) t)
    → (t' : Tasks) × (schedule t ≡ some t') × IsValid t' × Turn t t'
unfolding schedule put_task
schedule-IsValid t task at v =
    let (next, e, chosen_) = task_search-ready t in
    let turn = IsChosen-Candidate t next chosen_ in
    let (chosen, h) = found-IsTask t next (stop_running task) v.spare turn in
    (
      _,
      rw (e, at, h) refl,
      start-IsValid (put_task t.current (stop_running task) t) next (stop_running task) chosen v
          (task_at-put_self t t.current task (stop_running task) at) (stop_running-stopped task) h,
      turn,
    )
