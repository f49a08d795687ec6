-- ===== src/Console/Chars.antt =====
-- The commands of src/kernel/console.c on single characters keep the console valid.
use neonix.Prelude.{ℕ, zero, suc, ◌+◌, ◌-◌, ◌*◌, ◌%◌, ◌≤◌, ◌<◌, arith}
use neonix.Console.{Console, mem_base, mem_end, width}
use neonix.Console.Csi.{shift_left, delete_char, shift_right, insert_char}
use neonix.Console.Memory.{OnlyMem, IsValid, Keeps, poke-OnlyMem, peek-some, poke16-OnlyMem}
use neonix.Console.Lines.{OnlyMem-Keeps}

shift_left-OnlyMem :
    (rounds ptr : ℕ) (c : Console)
    → mem_base ≤ ptr
    → ptr + 2 * rounds + 2 ≤ mem_end
    → OnlyMem c (shift_left rounds ptr c)
unfolding shift_left
shift_left-OnlyMem zero ptr c a b = poke16-OnlyMem ptr c.erase c a (omega arith)
shift_left-OnlyMem (suc rounds) ptr c a b =
    let (m, run) = poke-OnlyMem ptr (c.mem (ptr + 2)) c a (omega arith) in
    let (m', run') =
      poke-OnlyMem (ptr + 1) (c.mem (ptr + 3)) (record c { mem = m }) (omega arith) (omega arith) in
    let (m'', run'') =
      shift_left-OnlyMem rounds (ptr + 2) (record c { mem = m' }) (omega arith) (omega arith) in
    (
      m'',
      rw
          (
            peek-some c (ptr + 2) (omega arith) (omega arith),
            peek-some c (ptr + 3) (omega arith) (omega arith),
            run,
            run',
          )
          run'',
    )

pub delete_char-IsValid : (c : Console) → IsValid c → Keeps (delete_char c)
unfolding delete_char
delete_char-IsValid c v = OnlyMem-Keeps c _ v (
    shift_left-OnlyMem (width - 1 - c.x) c.pos c (omega (arith, v.low, v.high))
      (omega (arith, v.low, v.high)))

shift_right-OnlyMem :
    (rounds ptr : ℕ) (c : Console)
    → mem_base ≤ c.pos
    → c.pos < mem_end
    → c.pos + 2 * rounds ≤ ptr
    → ptr + 2 ≤ mem_end
    → OnlyMem c (shift_right rounds ptr c)
unfolding shift_right
shift_right-OnlyMem zero ptr c l h a b = poke-OnlyMem c.pos (c.erase % 256) c l h
shift_right-OnlyMem (suc rounds) ptr c l h a b =
    let (m, run) = poke-OnlyMem ptr (c.mem (ptr - 2)) c (omega arith) (omega arith) in
    let (m', run') =
      poke-OnlyMem (ptr + 1) (c.mem (ptr - 1)) (record c { mem = m }) (omega arith) (omega arith) in
    let (m'', run'') =
      shift_right-OnlyMem rounds (ptr - 2) (record c { mem = m' }) l h (omega arith)
        (omega arith) in
    (
      m'',
      rw
          (
            peek-some c (ptr - 2) (omega arith) (omega arith),
            peek-some c (ptr - 1) (omega arith) (omega arith),
            run,
            run',
          )
          run'',
    )

pub insert_char-IsValid : (c : Console) → IsValid c → Keeps (insert_char c)
unfolding insert_char
insert_char-IsValid c v = OnlyMem-Keeps c _ v (
    shift_right-OnlyMem (width - 1 - c.x) (c.pos + 2 * (width - 1 - c.x)) c
      (omega (arith, v.low, v.high)) (omega (arith, v.low, v.high)) (omega arith)
      (omega (arith, v.low, v.high)))
