-- ===== src/Tasks/Waking.antt =====
-- What the waking of tasks does to a valid table.
use mathlib.Core.Path.{subst}
use neonix.Prelude.{
  ℕ, ◌≡◌, refl, sym, ap, ◌∙◌, inl, inr, false, some, List, [], ◌∷◌, arith, ◌==◌, Bool-cases, All,
  some_injective, All-mono,
}
use neonix.Tasks.{ready, Task, Tasks, task_at, put_task, task_unblock, wake_all, timed_out}
use neonix.Tasks.Search.{Candidate}
use neonix.Tasks.Valid.{IsTask, IsValid, task_at-put_self, task_at-put_ne, put-IsValid}

-- The same task runs, no task is lost, ready tasks stay ready, and no slice changes.
abbrev pub Woken : Tasks → Tasks → Type 0
Woken t t' =
    (t'.current ≡ t.current)
    × ((j : ℕ) (task : Task)
        → task_at j t ≡ some task
        → (task' : Task) × (task_at j t' ≡ some task')
          × (task'.ticks ≡ task.ticks)
          × (task.state ≡ ready → task'.state ≡ ready))

pub Woken-IsTask : (t t' : Tasks) → Woken t t' → (j : ℕ) → IsTask t j → IsTask t' j
Woken-IsTask t t' (e, kept) j (task, at) =
    let (task', at', same, is) = kept j task at in (task', at')

pub Woken-Candidate : (t t' : Tasks) → Woken t t' → (j : ℕ) → Candidate t j → Candidate t' j
Woken-Candidate t t' (e, kept) j (task, at, is, ne) =
    let (task', at', same, is') = kept j task at in (task', at', is' is, λ h. ne (sym e ∙ h))

Woken-trans : (t t' t'' : Tasks) → Woken t t' → Woken t' t'' → Woken t t''
Woken-trans t t' t'' (e, kept) (e', kept') = (
  e' ∙ e,
  λ j task at.
      let (a, at', same, is) = kept j task at in
      let (b, at'', same', is') = kept' j a at' in (b, at'', same' ∙ same, λ h. is' (is h)),
)

unblock-Woken :
    (t : Tasks) (i reason : ℕ) (old : Task)
    → task_at i t ≡ some old
    → Woken t (put_task i (record old { linked = false; status = reason; state = ready }) t)
unfolding put_task
unblock-Woken t i reason old at = (
  refl,
  λ j task h. elim (Bool-cases (i == j)) [
    | inl same ↦
        let e : i ≡ j = ground arith in
        let new = record old { linked = false; status = reason; state = ready } in
        let same_task = some_injective (sym (subst (λ k. task_at k t ≡ some old) e at) ∙ h) in
        (
          new,
          subst (λ k. task_at k (put_task i new t) ≡ some new) e (task_at-put_self t i old new at),
          ap (λ x. x.ticks) same_task,
          λ r. refl,
        )
    | inr other ↦ (
      task,
      task_at-put_ne t i j (record old { linked = false; status = reason; state = ready })
            (ground arith)
          ∙ h,
      refl,
      λ r. r,
    )
  ],
)

-- The waking of a task that exists succeeds.
pub unblock-IsValid :
    (t : Tasks) (i reason : ℕ)
    → IsValid t
    → IsTask t i
    → (t' : Tasks) × (task_unblock i reason t ≡ some t') × IsValid t' × Woken t t'
unfolding task_unblock
unblock-IsValid t i reason v (task, at) =
    let new = record task { linked = false; status = reason; state = ready } in
    (
      put_task i new t,
      rw at refl,
      put-IsValid t i new v (task, at) (v.fits i task at) (λ run. cc),
      unblock-Woken t i reason task at,
    )

pub wake_all-IsValid :
    (expired : List ℕ) (t : Tasks)
    → IsValid t
    → All (IsTask t) expired
    → (t' : Tasks) × (wake_all expired t ≡ some t') × IsValid t' × Woken t t'
unfolding wake_all
wake_all-IsValid [] t v all = (t, refl, v, (refl, λ j task at. (task, at, refl, λ r. r)))
wake_all-IsValid (i ∷ expired) t v (this, all) =
    let (t', run, v', woken) = unblock-IsValid t i timed_out v this in
    let (t'', run', v'', woken') =
      wake_all-IsValid expired t' v' (All-mono (Woken-IsTask t t' woken) expired all) in
    (t'', rw run run', v'', Woken-trans t t' t'' woken woken')
