-- ===== src/Fifo/Put.antt =====
-- `fifo_put` of src/lib/fifo.c.
use neonix.Prelude.{
  ℕ, suc, ◌+◌, ◌-◌, ◌≡◌, refl, sym, ap, ◌∙◌, inl, inr, true, false, some, List, [], ◌∷◌, ◌++◌,
  arith, ◌==◌, if◌then◌else◌, Bool-cases, length, set, drop, length-set,
}
use neonix.Fifo.{Fifo, fifo_next, fifo_full, fifo_empty, make_room, fifo_put}
use neonix.Fifo.Window.{place, window, stored, contents, length-window, window-write}
use neonix.Fifo.Laws.{
  IsValid, stored-lt, fifo_empty-eq, fifo_full-eq, fifo_get-contents, fifo_next_lem, head_next_in,
}

-- The specification: a queue of fewer than `cap` bytes, oldest first, that drops its oldest byte
-- when there is no room.
unfoldable pub put_bounded : ℕ → List ℕ → ℕ → List ℕ
put_bounded cap q x = (if length q + 1 == cap then drop 1 q else q) ++ x ∷ []

pub length-contents : (f : Fifo) → length (contents f) ≡ stored f
length-contents f = length-window f.buf f.length f.tail 0 (stored f)

-- What `fifo_put` writes when there is room.
write_head : Fifo → ℕ → Fifo
write_head f byte = record f { buf = set f.buf f.head byte; head = fifo_next f f.head }

head-place : (f : Fifo) → IsValid f → f.head ≡ place f.length f.tail (stored f)
head-place f v = ground (arith, v.head_in, v.tail_in)

stored-write_head :
    (f : Fifo) (byte : ℕ)
    → IsValid f
    → fifo_full f ≡ false
    → stored (write_head f byte) ≡ suc (stored f)
unfolding fifo_full write_head
stored-write_head f byte v e =
    rw (fifo_next_lem f f.head v v.head_in)
      (ground (arith, v.head_in, v.tail_in, v.two, fifo_next_lem f f.head v v.head_in))

write_head-IsValid : (f : Fifo) (byte : ℕ) → IsValid f → IsValid (write_head f byte)
unfolding write_head
write_head-IsValid f byte v = record {
  two = v.two;
  small = v.small;
  room = rw (length-set f.buf f.head byte) v.room;
  head_in = head_next_in f v;
  tail_in = v.tail_in;
}

contents-write_head :
    (f : Fifo) (byte : ℕ)
    → IsValid f
    → fifo_full f ≡ false
    → contents (write_head f byte) ≡ contents f ++ byte ∷ []
unfolding write_head
contents-write_head f byte v e =
    ap (window (set f.buf f.head byte) f.length f.tail 0) (stored-write_head f byte v e)
    ∙ window-write f.buf f.length f.tail (stored f) f.head byte (head-place f v) v.tail_in
        (stored-lt f v) (omega (arith, v.head_in, v.room))

-- Room is made by at most one round.
Roomy : Fifo → Fifo → Type 0
Roomy f f' =
    IsValid f'
    × (fifo_full f' ≡ false)
    × (f'.length ≡ f.length)
    × (contents f'
        ≡ (if length (contents f) + 1 == f.length then drop 1 (contents f) else contents f))

make_room-once :
    (k : ℕ) (f : Fifo)
    → IsValid f
    → (f' : Fifo) × (make_room (suc (suc k)) f ≡ some f') × Roomy f f'
unfolding make_room Roomy
make_room-once k f v = elim (Bool-cases (fifo_full f)) [
  | inl full ↦
      let full' : (stored f + 1 == f.length) ≡ true = sym (fifo_full-eq f v) ∙ full in
      let busy : fifo_empty f ≡ false = fifo_empty-eq f v ∙ ground (arith, v.two) in
      let (x, f', run, v', c, len) = fifo_get-contents f v busy in
      let less : suc (stored f') ≡ stored f =
        omega (arith, ap length c, length-contents f, length-contents f') in
      let free : fifo_full f' ≡ false = fifo_full-eq f' v' ∙ ground (arith, v.two) in
      (f', rw (full, run, free), (v', free, len, rw (length-contents f, full') (rw c)))
  | inr free ↦
      let free' : (stored f + 1 == f.length) ≡ false = sym (fifo_full-eq f v) ∙ free in
      (f, rw free, (v, free, refl, rw (length-contents f, free')))
]

-- `fifo_put` on a valid queue always succeeds, also with the fuel given to its loop: the new byte
-- comes last, the oldest byte is dropped exactly if the queue was full, and the queue stays valid.
pub fifo_put-contents :
    (f : Fifo) (byte : ℕ)
    → IsValid f
    → (f' : Fifo) × (fifo_put f byte ≡ some f')
      × IsValid f'
      × (f'.length ≡ f.length)
      × (contents f' ≡ put_bounded f.length (contents f) byte)
unfolding fifo_put put_bounded Roomy write_head
fifo_put-contents f byte v =
    let fuel : f.length ≡ suc (suc (f.length - 2)) = omega (arith, v.two) in
    let (f1, run, roomy) = make_room-once (f.length - 2) f v in
    let (v1, free, len, c) = roomy in
    let made : make_room f.length f ≡ some f1 = ap (λ n. make_room n f) fuel ∙ run in
    (
      write_head f1 byte,
      rw made (ground (arith, v1.head_in, v1.room)),
      write_head-IsValid f1 byte v1,
      len,
      contents-write_head f1 byte v1 free ∙ ap (λ q. q ++ byte ∷ []) c,
    )
