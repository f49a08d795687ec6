-- ===== src/Fifo.antt =====
-- src/lib/fifo.c: a byte queue in a circular buffer. `none` is the failed assert of `fifo_get`, an
-- access outside of the buffer, or a division by zero.
pub mod Window
pub mod Laws
pub mod Put
pub mod Tests
use neonix.Prelude.{
  ℕ, zero, suc, ◌+◌, ◌%◌, ◌^◌, Bool, not, Option, none, some, List, ltb, ◌==◌, if◌then◌else◌,
  length, get_elem?, set, ◌>>=◌, ◌>>◌, assert,
}

-- `fifo_t`, with the buffer that `buf` points to.
pub record Fifo : Type 0 where
  pub buf : List ℕ
  pub length : ℕ
  pub head : ℕ
  pub tail : ℕ

-- `(pos + 1) % fifo->length` in u32; a length of 0 is stopped by `fifo_full` below.
unfoldable pub fifo_next : Fifo → ℕ → ℕ
fifo_next f pos = (pos + 1) % 2 ^ 32 % f.length

unfoldable pub fifo_init : List ℕ → ℕ → Fifo
fifo_init buf length = record { buf = buf; length = length; head = 0; tail = 0 }

unfoldable pub fifo_full : Fifo → Bool
fifo_full f = fifo_next f f.head == f.tail

unfoldable pub fifo_empty : Fifo → Bool
fifo_empty f = f.head == f.tail

unfoldable pub fifo_get : Fifo → Option (ℕ × Fifo)
fifo_get f = do
  assert (not (fifo_empty f))
  byte ← get_elem? f.buf f.tail
  assert (not (f.length == 0))
  some (byte, record f { tail = fifo_next f f.tail })

-- The loop of `fifo_put`: it drops the oldest bytes while the queue is full. Each round takes one
-- byte, so `length` rounds are enough.
unfoldable pub make_room : ℕ → Fifo → Option Fifo
make_room zero f = none
make_room (suc fuel) f =
    let rest = (fifo_get f >>= λ (byte, f'). make_room fuel f') in
    if fifo_full f then rest else some f

unfoldable pub fifo_put : Fifo → ℕ → Option Fifo
fifo_put f byte = do
  f ← make_room f.length f
  assert (ltb f.head (length f.buf))
  some (record f { buf = set f.buf f.head byte; head = fifo_next f f.head })
