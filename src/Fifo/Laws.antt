-- ===== src/Fifo/Laws.antt =====
-- src/lib/fifo.c behaves as a bounded queue that drops its oldest byte when it is full.
use neonix.Prelude.{
  ℕ, suc, ◌+◌, ◌%◌, ◌^◌, ◌≤◌, ◌<◌, ◌≡◌, refl, sym, ap, ◌∙◌, inl, inr, false, some, ◌∷◌, arith, ◌==◌,
  if◌then◌else◌, Bool-cases, length, get_or, get_elem?-eq-get_or,
}
use native.Mathlib.Nat.{mod-eq_of_lt, mod_self}
use neonix.Fifo.{Fifo, fifo_next, fifo_full, fifo_empty, fifo_get}
use neonix.Fifo.Window.{window, stored, contents, window-cons}

-- At least one byte fits, and no index is out of range.
pub record IsValid (f : Fifo) : Type 0 where
  pub two : 2 ≤ f.length
  pub small : f.length < 2 ^ 32
  pub room : f.length ≤ length f.buf
  pub head_in : f.head < f.length
  pub tail_in : f.tail < f.length

pub fifo_next_lem :
    (f : Fifo) (pos : ℕ)
    → IsValid f
    → pos < f.length
    → fifo_next f pos ≡ (if pos + 1 == f.length then 0 else pos + 1)
unfolding fifo_next
fifo_next_lem f pos v h =
    let e : (pos + 1) % 2 ^ 32 ≡ pos + 1 = omega (arith, v.small) in
    elim (Bool-cases (pos + 1 == f.length)) [
      | inl last ↦
          rw (e, last) (let full : pos + 1 ≡ f.length = ground arith in rw full (mod_self f.length))
      | inr inside ↦ rw (e, inside) (mod-eq_of_lt (ground arith))
    ]

pub stored-lt : (f : Fifo) → IsValid f → stored f < f.length
stored-lt f v = ground (arith, v.head_in, v.tail_in)

-- The flags say what is stored.
pub fifo_empty-eq : (f : Fifo) → IsValid f → fifo_empty f ≡ (stored f == 0)
unfolding fifo_empty
fifo_empty-eq f v = ground (arith, v.head_in, v.tail_in)

pub fifo_full-eq : (f : Fifo) → IsValid f → fifo_full f ≡ (stored f + 1 == f.length)
unfolding fifo_full
fifo_full-eq f v =
    rw (fifo_next_lem f f.head v v.head_in) (ground (arith, v.head_in, v.tail_in, v.two))

-- One byte less is stored from the next place on.
stored-next :
    (f : Fifo)
    → IsValid f
    → fifo_empty f ≡ false
    → stored f ≡ suc (stored (record f { tail = fifo_next f f.tail }))
unfolding fifo_empty
stored-next f v e =
    rw (fifo_next_lem f f.tail v v.tail_in) (ground (arith, v.head_in, v.tail_in, v.two))

contents-next :
    (f : Fifo)
    → IsValid f
    → fifo_empty f ≡ false
    → contents f ≡ get_or f.buf f.tail 0 ∷ contents (record f { tail = fifo_next f f.tail })
contents-next f v e =
    let less = stored-next f v e in
    let front =
      window-cons f.buf f.length f.tail (stored (record f { tail = fifo_next f f.tail })) v.tail_in
        (omega (arith, less, stored-lt f v)) in
    ap (window f.buf f.length f.tail 0) less
    ∙ front
    ∙ ap
        (λ t.
          get_or f.buf f.tail 0
          ∷ window f.buf f.length t 0 (stored (record f { tail = fifo_next f f.tail })))
        (sym (fifo_next_lem f f.tail v v.tail_in))

tail_next_in : (f : Fifo) → IsValid f → fifo_next f f.tail < f.length
tail_next_in f v = rw (fifo_next_lem f f.tail v v.tail_in) (ground (arith, v.two, v.tail_in))

pub head_next_in : (f : Fifo) → IsValid f → fifo_next f f.head < f.length
head_next_in f v = rw (fifo_next_lem f f.head v v.head_in) (ground (arith, v.two, v.head_in))

-- `fifo_get` of a valid queue that is not empty succeeds: it takes the oldest byte, and keeps the
-- others, the capacity and the validity.
pub fifo_get-contents :
    (f : Fifo)
    → IsValid f
    → fifo_empty f ≡ false
    → (x : ℕ) × (f' : Fifo) × (fifo_get f ≡ some (x, f'))
      × IsValid f'
      × (contents f ≡ x ∷ contents f')
      × (f'.length ≡ f.length)
unfolding fifo_get
fifo_get-contents f v e =
    let read = get_elem?-eq-get_or f.buf f.tail 0 (omega (arith, v.tail_in, v.room)) in
    (
      get_or f.buf f.tail 0,
      record f { tail = fifo_next f f.tail },
      rw (e, read) (ground (arith, v.two)),
      record {
        two = v.two;
        small = v.small;
        room = v.room;
        head_in = v.head_in;
        tail_in = tail_next_in f v;
      },
      contents-next f v e,
      refl,
    )
