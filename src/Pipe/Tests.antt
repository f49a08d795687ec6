-- ===== src/Pipe/Tests.antt =====
-- src/fs/pipe.c on a queue of three places, and its theorem there.
use neonix.Prelude.{
  ℕ, ◌≡◌, refl, true, false, ◌&&◌, Option, some, List, [], ◌∷◌, ◌++◌, arith, ◌>>=◌,
}
use neonix.Fifo.{Fifo, fifo_full, fifo_empty, fifo_next, fifo_get, fifo_put, make_room}
use neonix.Fifo.Window.{contents}
use mathlib.Core.Option
use neonix.Pipe.{
  System, woken, read_step, write_step, read_byte, read_block, write_byte, write_block, Reach, here,
  next, read,
}
use neonix.Pipe.Flow.{start, pipe_flow}

abbrev queue : Fifo
queue = record { buf = 0 ∷ 0 ∷ 0 ∷ []; length = 3; head = 0; tail = 0 }

-- The reader sleeps, the writer fills the queue and sleeps, and the reader goes on.
script : Option System
unfolding read_step write_step read_byte read_block write_byte write_block fifo_full fifo_empty
    fifo_next fifo_get fifo_put make_room
script = do
  s ← read_step (start queue 4 (5 ∷ 6 ∷ 7 ∷ []))
  s ← write_step s
  s ← write_step s
  s ← write_step s
  s ← read_step s
  write_step s

script_result :
    Option.map {B = List ℕ × List ℕ × List ℕ}
      (λ (s : System). (s.reader.got, contents s.fifo, s.writer.todo))
      script
    ≡ some (5 ∷ [], 6 ∷ 7 ∷ [], [])
unfolding script
script_result = refl

abbrev asleep : System
asleep = record (start queue 4 (5 ∷ [])) {
  rxwaiter = true;
  reader = record { at = woken; blocked = true; got = []; left = 4 };
}

asleep_reached : Reach (start queue 4 (5 ∷ [])) asleep
unfolding read_step read_block fifo_empty
asleep_reached = next here (read refl refl)

pipe_flow_example : ([] ++ (contents queue ++ 5 ∷ []) ≡ 5 ∷ []) × ((true && false) ≡ false)
unfolding fifo_empty
pipe_flow_example = pipe_flow queue 4 (5 ∷ []) asleep (omega arith) refl asleep_reached
