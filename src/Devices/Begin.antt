-- ===== src/Devices/Begin.antt =====
-- A new request in the queue of src/kernel/device.c.
use mathlib.Core.Path.{subst}
use neonix.Prelude.{
  ℕ, zero, suc, ◌≤◌, ◌<◌, ◌≡◌, refl, sym, ap, ◌∙◌, ◌≢◌, ◌⊎◌, inl, inr, none, some, List, arith, ltb,
  ◌==◌, Bool-cases, length, get_elem?, some_injective, get_elem?-lt,
}
use neonix.Devices.{Request, Queue, device_queue, place_of, insert_at, request_begin}
use neonix.Devices.Places.{
  place_of-le, length-insert_at, get-insert_self, get-insert_before, get-insert_after, Sorted,
  insert_at-Sorted,
}

-- The request waits for its turn: its task is known.
abbrev pub Waits : Request → Type 0
Waits r = (t : ℕ) × (r.task ≡ some t)

-- The requests are sorted; if there are any, one of them is carried out, and the others wait.
pub record IsValid (q : Queue) : Type 0 where
  pub busy : 0 < length q.requests → q.active < length q.requests
  pub others : (j : ℕ) (r : Request) → get_elem? q.requests j ≡ some r → j ≢ q.active → Waits r
  pub sorted : Sorted q.requests

pub device_queue-IsValid : IsValid device_queue
unfolding device_queue
device_queue-IsValid = record {
  busy = λ lt. absurd (omega arith);
  others = λ j r h. cc;
  sorted = tt;
}

-- A place of the list after an insertion holds the new element, or one of the old list.
inserted :
    (i j : ℕ) (new r : Request) (l : List Request)
    → i ≤ length l
    → get_elem? (insert_at i new l) j ≡ some r
    → ((j ≡ i) × (r ≡ new))
      ⊎ ((k : ℕ) × (get_elem? l k ≡ some r) × (((j < i) × (k ≡ j)) ⊎ ((i ≤ k) × (j ≡ suc k))))
inserted i j new r l le h = elim (Bool-cases (ltb j i)) [
  | inl before ↦
      let lt : j < i = ground arith in
      inr (j, sym (get-insert_before i j new l lt le) ∙ h, inl (lt, refl))
  | inr behind ↦ elim (Bool-cases (i == j)) [
    | inl same ↦
        let e : i ≡ j = ground arith in
        let at =
          subst (λ k. get_elem? (insert_at i new l) k ≡ some new) e (get-insert_self i new l le) in
        inl (sym e, some_injective (sym h ∙ at))
    | inr after ↦ later j (ground arith) h
  ]
]
  where
    later :
        (j : ℕ)
        → i < j
        → get_elem? (insert_at i new l) j ≡ some r
        → ((j ≡ i) × (r ≡ new))
          ⊎ ((k : ℕ) × (get_elem? l k ≡ some r) × (((j < i) × (k ≡ j)) ⊎ ((i ≤ k) × (j ≡ suc k))))
    later zero lt h = absurd (omega arith)
    later (suc k) lt h =
        inr (k, sym (get-insert_after i k new l (omega arith) le) ∙ h, inr (omega arith, refl))

pub request_begin-IsValid :
    (current sector : ℕ) (q : Queue) → IsValid q → IsValid (request_begin current sector q)
unfolding request_begin
request_begin-IsValid current sector q v = elim (Bool-cases (length q.requests == 0)) [
  | inl empty ↦
      let new : Request = record { sector = sector; task = none } in
      rw empty (record {
        busy = λ lt.
            (let n = length-insert_at (place_of sector q.requests) new q.requests in
              let le = place_of-le sector q.requests in omega arith);
        others = λ j r h ne.
            elim (inserted (place_of sector q.requests) j new r q.requests
              (place_of-le sector q.requests) h) [
                | inl (same, e) ↦ absurd (ne same)
                | inr (k, at, where_) ↦
                    absurd (let lt = get_elem?-lt q.requests k at in ground arith)
              ];
        sorted = insert_at-Sorted new q.requests v.sorted;
      })
  | inr some_ ↦
      let new : Request = record { sector = sector; task = some current } in
      let old = v.busy (ground arith) in
      let n = length-insert_at (place_of sector q.requests) new q.requests in
      rw some_ (record {
        busy = λ lt. ground arith;
        others = λ j r h ne.
            elim (inserted (place_of sector q.requests) j new r q.requests
              (place_of-le sector q.requests) h) [
                | inl (same, e) ↦ (current, ap (λ x. x.task) e)
                | inr (k, at, inl (lt, e)) ↦ v.others k r at (λ is. ne (ground arith))
                | inr (k, at, inr (le, e)) ↦ v.others k r at (λ is. ne (ground arith))
              ];
        sorted = insert_at-Sorted new q.requests v.sorted;
      })
]
