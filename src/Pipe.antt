-- ===== src/Pipe.antt =====
-- src/fs/pipe.c: `pipe_read` and `pipe_write` on one pipe, by one reading and one writing task. System
-- calls run with interrupts disabled, so the tasks interleave where `task_block` is called; a step
-- is one round of a loop, or what follows the return of `task_block` in it. `none` is a failed
-- assert.
pub mod Sound
pub mod Flow
pub mod Tests
use neonix.Prelude.{
  ℕ, ◌-◌, ◌≡◌, Bool, true, false, not, Option, some, List, [], ◌∷◌, ◌++◌, ◌==◌, if◌then◌else◌,
  ◌>>=◌, ◌>>◌, assert,
}
use neonix.Fifo.{Fifo, fifo_full, fifo_empty, fifo_get, fifo_put}

-- Where a task stands in its loop: at the test, or behind the call of `task_block`.
pub data Point : Type 0 where
  top : Point
  woken : Point

-- A call of `pipe_read`: the bytes in `buf[0 .. nr)`, and `count - nr`.
pub record Reader : Type 0 where
  pub at : Point
  pub blocked : Bool
  pub got : List ℕ
  pub left : ℕ

-- A call of `pipe_write`: the bytes in `buf[nr .. count)`.
pub record Writer : Type 0 where
  pub at : Point
  pub blocked : Bool
  pub todo : List ℕ

-- The pipe's inode, with `rxwaiter != NULL` and `txwaiter != NULL`, and the two tasks.
pub record System : Type 0 where
  pub fifo : Fifo
  pub rxwaiter : Bool
  pub txwaiter : Bool
  pub reader : Reader
  pub writer : Writer

-- `buf[nr++] = fifo_get(fifo)`, and the wake-up of the writer.
unfoldable pub read_byte : System → Option System
read_byte s = do
  (byte, fifo) ← fifo_get s.fifo
  some (record s {
    fifo = fifo;
    txwaiter = false;
    reader = record (s.reader) {
      at = top;
      got = s.reader.got ++ byte ∷ [];
      left = s.reader.left - 1;
    };
    writer = record (s.writer) { blocked = if s.txwaiter then false else s.writer.blocked };
  })

unfoldable pub read_block : System → Option System
read_block s = do
  assert (not s.rxwaiter)
  some (record s { rxwaiter = true; reader = record (s.reader) { at = woken; blocked = true } })

-- One step of `pipe_read`; at `nr == count` it has returned.
unfoldable pub read_step : System → Option System
read_step s = if s.reader.left == 0 then some s else elim s.reader.at [
  | top ↦ if fifo_empty s.fifo then read_block s else read_byte s
  | woken ↦ read_byte s
]

-- `fifo_put(fifo, buf[nr++])`, and the wake-up of the reader.
unfoldable pub write_byte : System → ℕ → List ℕ → Option System
write_byte s byte rest = do
  fifo ← fifo_put s.fifo byte
  some (record s {
    fifo = fifo;
    rxwaiter = false;
    reader = record (s.reader) { blocked = if s.rxwaiter then false else s.reader.blocked };
    writer = record (s.writer) { at = top; todo = rest };
  })

unfoldable pub write_block : System → Option System
write_block s = do
  assert (not s.txwaiter)
  some (record s { txwaiter = true; writer = record (s.writer) { at = woken; blocked = true } })

-- One step of `pipe_write`.
unfoldable pub write_step : System → Option System
write_step s = elim s.writer.todo [
  | [] ↦ some s
  | byte ∷ rest ↦ elim s.writer.at [
    | top ↦ if fifo_full s.fifo then write_block s else write_byte s byte rest
    | woken ↦ write_byte s byte rest
  ]
]

-- The scheduler lets any task run that is not blocked.
pub data Step : System → System → Type 0 where
  read : {s s' : System} → s.reader.blocked ≡ false → read_step s ≡ some s' → Step s s'
  write : {s s' : System} → s.writer.blocked ≡ false → write_step s ≡ some s' → Step s s'

pub data Reach (s : System) : System → Type 0 where
  here : Reach s s
  next : {t u : System} → Reach s t → Step t u → Reach s u
