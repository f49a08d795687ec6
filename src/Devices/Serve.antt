-- ===== src/Devices/Serve.antt =====
-- What src/kernel/device.c promises of the requests of a block device.
use mathlib.Core.Path.{subst}
use neonix.Prelude.{
  ℕ, zero, suc, ◌+◌, ◌-◌, ◌≤◌, ◌<◌, ◌≡◌, refl, sym, ap, ◌∙◌, ◌⊎◌, inl, inr, true, false, Option,
  none, some, List, [], ◌∷◌, arith, ltb, leb, ◌==◌, if◌then◌else◌, Bool-cases, length, get_elem?,
  some_injective, length-zero,
}
use neonix.Devices.{
  Request, Direct, direct_up, direct_down, Queue, device_queue, remove_at, request_begin, turn,
  neighbour, request_nextreq, request_end,
}
use neonix.Devices.Places.{
  length-remove_at, get-remove_before, get-remove_after, Sorted, remove_at-Sorted,
}
use neonix.Devices.Begin.{IsValid, device_queue-IsValid, request_begin-IsValid}

-- The direction is turned at an end, so that the next request is the one on a side, if any.
neighbour-turn :
    (n a : ℕ) (d : Direct)
    → a < n
    → ((neighbour n a (turn n a d) ≡ none) × (n ≡ 1))
      ⊎ ((j : ℕ) × (neighbour n a (turn n a d) ≡ some j) × (j < n) × ((j ≡ a + 1) ⊎ (a ≡ suc j)))
unfolding neighbour turn
neighbour-turn n a direct_up lt = elim (Bool-cases (a + 1 == n)) [
  | inr inside ↦ inr (a + 1, rw (inside, inside) refl, ground arith, inl refl)
  | inl last ↦ elim (Bool-cases (a == 0)) [
    | inl first ↦ inl (rw (last, first) refl, ground arith)
    | inr more ↦ inr (a - 1, rw (last, more) refl, omega arith, inr (ground arith))
  ]
]
neighbour-turn n a direct_down lt = elim (Bool-cases (a == 0)) [
  | inr more ↦ inr (a - 1, rw (more, more) refl, omega arith, inr (ground arith))
  | inl first ↦ elim (Bool-cases (a + 1 == n)) [
    | inl last ↦ inl (rw (first, last) refl, ground arith)
    | inr inside ↦ inr (a + 1, rw (first, inside) refl, ground arith, inl refl)
  ]
]

-- Who is woken: nobody, if no request is left, or else the task of the request that is then
-- carried out.
abbrev pub Woken : Option ℕ → Queue → Type 0
Woken woken q =
    ((woken ≡ none) × (q.requests ≡ []))
    ⊎ ((t : ℕ) × (r : Request) × (woken ≡ some t)
        × (get_elem? q.requests q.active ≡ some r)
        × (r.task ≡ some t))

-- A request that is left keeps its neighbours, with its new place.
removed :
    (a k : ℕ) (l : List Request) (r : Request)
    → get_elem? (remove_at a l) k ≡ some r
    → (j : ℕ) × (get_elem? l j ≡ some r) × (((k < a) × (j ≡ k)) ⊎ ((a ≤ k) × (j ≡ suc k)))
removed a k l r h = elim (Bool-cases (ltb k a)) [
  | inl before ↦ (k, sym (get-remove_before a k l (ground arith)) ∙ h, inl (ground arith, refl))
  | inr behind ↦ (suc k, sym (get-remove_after a k l (ground arith)) ∙ h, inr (ground arith, refl))
]

module _ (q : Queue) (v : IsValid q) (some_ : 0 < length q.requests) where
  active-lt : q.active < length q.requests
  active-lt = v.busy some_

  rest-IsValid :
      (d : Direct) (j : ℕ) (r : Request)
      → j < length q.requests
      → (j ≡ q.active + 1) ⊎ (q.active ≡ suc j)
      → get_elem? q.requests j ≡ some r
      → let q' : Queue = record {
        requests = remove_at q.active q.requests;
        direct = d;
        active = if leb q.active j then j - 1 else j;
      } in
        IsValid q' × (get_elem? q'.requests q'.active ≡ some r)
  rest-IsValid d j r lt (inl e) at =
      let le : leb q.active j ≡ true = ground arith in
      let n = length-remove_at q.active q.requests active-lt in
      let place : j - 1 ≡ q.active = omega arith in
      rw (le, place)
        (
          record {
            busy = λ pos_. omega (arith, n);
            others = λ k x h ne.
                (let (i, at', how) = removed q.active k q.requests x h in
                  v.others i x at' (λ is. ne (elim how [
                    | inl (lt', same) ↦ absurd (omega arith)
                    | inr (ge, same) ↦ absurd (omega arith)
                  ])));
            sorted = remove_at-Sorted q.active q.requests v.sorted;
          },
          get-remove_after q.active q.active q.requests (omega arith)
              ∙ subst (λ i. get_elem? q.requests i ≡ some r)
                  (let s : j ≡ suc q.active = omega arith in s) at,
        )
  rest-IsValid d j r lt (inr e) at =
      let gt : leb q.active j ≡ false = ground arith in
      let n = length-remove_at q.active q.requests active-lt in
      rw gt (
        record {
          busy = λ pos_. omega (arith, n, active-lt);
          others = λ k x h ne.
              (let (i, at', how) = removed q.active k q.requests x h in
                v.others i x at' (λ is. elim how [
                  | inl (lt', same) ↦ omega arith
                  | inr (ge, same) ↦ omega arith
                ]));
          sorted = remove_at-Sorted q.active q.requests v.sorted;
        },
        get-remove_before q.active j q.requests (omega arith) ∙ at,
      )

request_end-IsValid :
    (q : Queue)
    → IsValid q
    → 0 < length q.requests
    → (woken : Option ℕ) × (q' : Queue) × (request_end q ≡ some (woken, q'))
      × IsValid q'
      × Woken woken q'
unfolding request_end request_nextreq
request_end-IsValid q v some_ =
    let n = length q.requests in
    let d = turn n q.active q.direct in
    let lt = active-lt q v some_ in
    elim (neighbour-turn n q.active q.direct lt) [
      | inl (last, one) ↦
          let rest = length-remove_at q.active q.requests lt in
          let empty = length-zero (remove_at q.active q.requests) (omega (arith, one, rest)) in
          (
            none,
            record q { requests = remove_at q.active q.requests; direct = d },
            rw (request_end, last) refl,
            record {
              busy = λ pos_. absurd (omega (arith, one, rest));
              others = λ j r h ne. (let z : get_elem? [] j ≡ some r = rw empty at h in absurd cc);
              sorted = remove_at-Sorted q.active q.requests v.sorted;
            },
            inl (refl, empty),
          )
      | inr (j, next, inside, side) ↦
          let (r, at) = element j q.requests inside in
          let (t, task) =
            v.others j r at (λ e. elim side [ inl up ↦ omega arith | inr down ↦ omega arith ]) in
          let (v', here) = rest-IsValid q v some_ d j r inside side at in
          (
            some t,
            record {
              requests = remove_at q.active q.requests;
              direct = d;
              active = if leb q.active j then j - 1 else j;
            },
            rw (request_end, next, at, task) refl,
            v',
            inr (t, r, refl, here, task),
          )
    ]
  where
    element : (j : ℕ) (l : List Request) → j < length l → (r : Request) × (get_elem? l j ≡ some r)
    element j [] lt = absurd (omega arith)
    element zero (r ∷ l) lt = (r, refl)
    element (suc j) (r ∷ l) lt = element j l (omega arith)

-- The queues that a device can have: new requests come at any time, and one is done if there is any.
pub data Reach : Queue → Type 0 where
  start : Reach device_queue
  begun : {q : Queue} (current sector : ℕ) → Reach q → Reach (request_begin current sector q)
  ended :
      {q q' : Queue} (woken : Option ℕ)
      → Reach q
      → 0 < length q.requests
      → request_end q ≡ some (woken, q')
      → Reach q'

Reach-IsValid : {q : Queue} → Reach q → IsValid q
Reach-IsValid start = device_queue-IsValid
Reach-IsValid (begun {q} current sector reach) =
    request_begin-IsValid current sector q (Reach-IsValid reach)
Reach-IsValid (ended {q} woken reach some_ run) =
    let (w, m, run', v', woken') = request_end-IsValid q (Reach-IsValid reach) some_ in
    subst IsValid (ap (λ x. x.1) (some_injective (sym run' ∙ run))) v'

-- No request is left behind: whatever requests came and were done, the list is sorted by the
-- sectors, and when a request is done, no access by NULL happens, and either no request is left, or
-- the next one's task, which waits, is woken.
pub request_served :
    (q : Queue)
    → Reach q
    → 0 < length q.requests
    → Sorted q.requests
      × ((woken : Option ℕ) × (q' : Queue) × (request_end q ≡ some (woken, q')) × Woken woken q')
request_served q reach some_ =
    let v = Reach-IsValid reach in
    let (w, q', run, v', woken) = request_end-IsValid q v some_ in (v.sorted, (w, q', run, woken))
