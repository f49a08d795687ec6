-- ===== src/Mutex/Sound.antt =====
-- What holds of a mutex of src/kernel/mutex.c between two steps, and that each step keeps it.
use neonix.Prelude.{
  ℕ, ◌≡◌, refl, sym, ◌≢◌, ◌⊎◌, inl, inr, true, false, some, List, [], ◌∷◌, ◌++◌, arith, ◌==◌,
  Bool-cases,
}
use mathlib.Core.Path.{subst}
use neonix.Mutex.{
  System, Place, outside, ready, waiting, holding, has, set_place, mutex_init, block, lock_step,
  wake, mutex_unlock,
}

-- No task waits twice.
abbrev pub Distinct : List ℕ → Type 0
Distinct [] = Unit
Distinct (w ∷ ws) = (has w ws ≡ false) × Distinct ws

-- A mutex is taken just when a task holds it, one task holds it at most, the blocked tasks are
-- those on the list, and a free mutex with blocked tasks has a task on its way to it.
pub record IsSound (s : System) : Type 0 where
  pub one : (t u : ℕ) → s.place t ≡ holding → s.place u ≡ holding → t ≡ u
  pub taken : (t : ℕ) → s.place t ≡ holding → s.value ≡ true
  pub holder : s.value ≡ true → (t : ℕ) × (s.place t ≡ holding)
  pub listed : (t : ℕ) → s.place t ≡ waiting → has t s.waiters ≡ true
  pub blocked : (t : ℕ) → has t s.waiters ≡ true → s.place t ≡ waiting
  pub distinct : Distinct s.waiters
  pub woken : s.value ≡ false → (s.waiters ≡ []) ⊎ ((t : ℕ) × (s.place t ≡ ready))

place_self : (t : ℕ) (p : Place) (place : ℕ → Place) → set_place t p place t ≡ p
place_self t p place = ground arith

place_ne : (t u : ℕ) (p : Place) (place : ℕ → Place) → u ≢ t → set_place t p place u ≡ place u
place_ne t u p place ne = ground arith

has-snoc : (t u : ℕ) (ws : List ℕ) → has t (ws ++ u ∷ []) ≡ true → (t ≡ u) ⊎ (has t ws ≡ true)
unfolding has
has-snoc t u [] h = ground arith
has-snoc t u (w ∷ ws) h = let ih = has-snoc t u ws in ground (arith, ih)

has-append : (t u : ℕ) (ws : List ℕ) → has t ws ≡ true → has t (ws ++ u ∷ []) ≡ true
unfolding has
has-append t u [] h = cc
has-append t u (w ∷ ws) h = let ih = has-append t u ws in ground (arith, ih)

has-last : (t : ℕ) (ws : List ℕ) → has t (ws ++ t ∷ []) ≡ true
unfolding has
has-last t [] = ground arith
has-last t (w ∷ ws) = let ih = has-last t ws in ground (arith, ih)

Distinct-snoc : (u : ℕ) (ws : List ℕ) → has u ws ≡ false → Distinct ws → Distinct (ws ++ u ∷ [])
unfolding has
Distinct-snoc u [] h d = (refl, tt)
Distinct-snoc u (w ∷ ws) h (new, d) = (
  elim (Bool-cases (has w (ws ++ u ∷ []))) [
    | inl found ↦ elim (has-snoc w u ws found) [
      | inl e ↦ absurd (ground arith)
      | inr old ↦ absurd (ground arith)
    ]
    | inr new_too ↦ new_too
  ],
  Distinct-snoc u ws (ground arith) d,
)

pub mutex_init-IsSound : IsSound mutex_init
unfolding mutex_init has
mutex_init-IsSound = record {
  one = λ t u h. cc;
  taken = λ t h. cc;
  holder = λ h. cc;
  listed = λ t h. cc;
  blocked = λ t h. cc;
  distinct = tt;
  woken = λ h. inl refl;
}

-- A task that may enter the loop of `mutex_lock` is not on the list.
pub not_listed :
    (s : System) (t : ℕ)
    → IsSound s
    → (s.place t ≡ outside) ⊎ (s.place t ≡ ready)
    → has t s.waiters ≡ false
not_listed s t h at = elim (Bool-cases (has t s.waiters)) [
  | inl found ↦ let w = h.blocked t found in absurd (ground arith)
  | inr new ↦ new
]

-- A free mutex is taken.
take-IsSound :
    (s : System) (t : ℕ)
    → IsSound s
    → s.value ≡ false
    → (s.place t ≡ outside) ⊎ (s.place t ≡ ready)
    → IsSound (record s { value = true; place = set_place t holding s.place })
take-IsSound s t h free at = record {
  one = λ u v hu hv. ground (arith, h.taken u, h.taken v);
  taken = λ u hu. refl;
  holder = λ e. (t, place_self t holding s.place);
  listed = λ u hu. h.listed u (ground arith);
  blocked = λ u hu. let w = h.blocked u hu in ground arith;
  distinct = h.distinct;
  woken = λ e. cc;
}

-- A task blocks.
block-IsSound :
    (s : System) (t : ℕ)
    → IsSound s
    → s.value ≡ true
    → (s.place t ≡ outside) ⊎ (s.place t ≡ ready)
    → IsSound (record s { waiters = s.waiters ++ t ∷ []; place = set_place t waiting s.place })
block-IsSound s t h full at = record {
  one = λ u v hu hv. h.one u v (ground arith) (ground arith);
  taken = λ u hu. full;
  holder = λ e. let (u, hu) = h.holder full in (u, ground arith);
  listed = λ u hu. elim (Bool-cases (u == t)) [
    | inl same ↦ let e : u ≡ t = ground arith in rw e (has-last t s.waiters)
    | inr other ↦ has-append u t s.waiters (h.listed u (ground arith))
  ];
  blocked = λ u hu. elim (has-snoc u t s.waiters hu) [
    | inl e ↦ rw e (place_self t waiting s.place)
    | inr old ↦ let w = h.blocked u old in ground arith
  ];
  distinct = Distinct-snoc t s.waiters (not_listed s t h at) h.distinct;
  woken = λ e. cc;
}

-- A step of `mutex_lock`, from outside or from a task that was woken, fails no assert.
pub lock_step-IsSound :
    (s : System) (t : ℕ)
    → IsSound s
    → (s.place t ≡ outside) ⊎ (s.place t ≡ ready)
    → (s' : System) × (lock_step t s ≡ some s') × IsSound s'
unfolding lock_step block
lock_step-IsSound s t h at = elim (Bool-cases s.value) [
  | inl full ↦ (_, rw (full, not_listed s t h at) refl, block-IsSound s t h full at)
  | inr free ↦ (_, rw free refl, take-IsSound s t h free at)
]

-- The mutex is left, and no task waits.
free-IsSound :
    (s : System) (t : ℕ)
    → IsSound s
    → s.place t ≡ holding
    → s.waiters ≡ []
    → IsSound (record s { value = false; place = set_place t outside s.place })
free-IsSound s t h at none_wait = record {
  one = λ u v hu hv. h.one u v (ground arith) (ground arith);
  taken = λ u hu. let same = h.one u t in absurd (ground arith);
  holder = λ e. cc;
  listed = λ u hu. h.listed u (ground arith);
  blocked = λ u hu. let w = h.blocked u hu in ground arith;
  distinct = h.distinct;
  woken = λ e. inl none_wait;
}

-- The mutex is left, and the task that waits the longest is woken.
wake-IsSound :
    (s : System) (t w : ℕ) (ws : List ℕ)
    → IsSound s
    → s.place t ≡ holding
    → s.waiters ≡ w ∷ ws
    → IsSound (record s {
      value = false;
      waiters = ws;
      place = set_place w ready (set_place t outside s.place);
    })
unfolding has
wake-IsSound s t w ws h at queue =
    let first : has w s.waiters ≡ true = rw queue (ground arith) in
    let waits = h.blocked w first in
    let d : Distinct (w ∷ ws) = subst Distinct queue h.distinct in
    record {
      one = λ u v hu hv. h.one u v (ground arith) (ground arith);
      taken = λ u hu. let same = h.one u t in absurd (ground arith);
      holder = λ e. cc;
      listed = λ u hu.
          let before : s.place u ≡ waiting = ground arith in
          let l : has u (w ∷ ws) ≡ true = subst (λ l. has u l ≡ true) queue (h.listed u before) in
          ground arith;
      blocked = λ u hu.
          let l : has u s.waiters ≡ true = rw queue (ground arith) in
          let before = h.blocked u l in
          let later = d.0 in
          elim (Bool-cases (u == w)) [
            | inl same ↦
                let e : u ≡ w = ground arith in
                let hw : has w ws ≡ true = rw (sym e) hu in absurd cc
            | inr other ↦ ground arith
          ];
      distinct = d.1;
      woken = λ e. inr (w, place_self w ready (set_place t outside s.place));
    }

-- `mutex_unlock` by the task that holds the mutex fails no assert.
pub mutex_unlock-IsSound :
    (s : System) (t : ℕ)
    → IsSound s
    → s.place t ≡ holding
    → (s' : System) × (mutex_unlock t s ≡ some s') × (s'.value ≡ false) × IsSound s'
unfolding mutex_unlock wake
mutex_unlock-IsSound s t h at = go s.waiters refl
  where
    go :
        (ws : List ℕ)
        → s.waiters ≡ ws
        → (s' : System) × (mutex_unlock t s ≡ some s') × (s'.value ≡ false) × IsSound s'
    go [] queue = (_, rw (h.taken t at, queue) refl, refl, free-IsSound s t h at queue)
    go (w ∷ ws) queue = (_, rw (h.taken t at, queue) refl, refl, wake-IsSound s t w ws h at queue)
