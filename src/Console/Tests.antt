-- ===== src/Console/Tests.antt =====
-- src/kernel/console.c at a small console, and its theorems there.
use neonix.Prelude.{
  ℕ, ◌+◌, ◌*◌, ◌≡◌, refl, false, Option, some, List, [], ◌∷◌, ◌++◌, arith, replicate, ◌>>=◌,
}
use neonix.Console.{Console, nor, mem_base, poke, set_cursor}
use neonix.Console.Screen.{set_xy, lf, cr, wrap_line, chr, state_normal, state_esc}
use neonix.Console.Csi.{csi_m, restyle, restyle_all}
use neonix.Console.Input.{
  state_arg, less_one, at_least_one, csi_move, csi_edit, state_csi, arg_then_csi, write_char,
  write_all, console_write,
}
use neonix.Console.Memory.{IsValid}
use neonix.Console.Text.{Printed, write_all-Printed}
use neonix.Console.Safety.{console_write-IsValid}
use neonix.Console.Stuck.{in_sequence, console_write_stuck}

abbrev blank : Console
blank = record {
  screen = mem_base;
  pos = mem_base;
  x = 0;
  y = 0;
  saved_x = 0;
  saved_y = 0;
  state = nor;
  args = replicate 16 0;
  argc = 0;
  ques = false;
  erase = 0x0720;
  style = 7;
  mem = λ a. 0;
  crt_start = (0, 0);
  crt_cursor = (0, 0);
  beeps = 0;
}

blank-IsValid : IsValid blank
blank-IsValid = omega arith

-- What a write leaves of the cursor, the style and one byte.
seen : List ℕ → ℕ → Option (ℕ × ℕ × ℕ × ℕ)
unfolding console_write write_all write_char state_normal state_esc arg_then_csi state_arg state_csi
    csi_move csi_edit csi_m restyle restyle_all less_one at_least_one set_xy lf cr chr wrap_line
    poke set_cursor
seen buf a = console_write buf blank >>= λ (n, c). some (n, c.x, c.y, c.mem a)

-- "hi", ESC [ 3 ; 5 H, "A"
move_and_print :
    seen (104 ∷ 105 ∷ 27 ∷ 91 ∷ 51 ∷ 59 ∷ 53 ∷ 72 ∷ 65 ∷ []) (mem_base + 2 * 160 + 8)
    ≡ some (10, 5, 2, 65)
unfolding seen
move_and_print = refl

-- ESC [ 4 1 m, "x": white on red becomes a red background
restyled : seen (27 ∷ 91 ∷ 52 ∷ 49 ∷ 109 ∷ 120 ∷ []) (mem_base + 1) ≡ some (7, 1, 0, 16)
unfolding seen
restyled = refl

console_write-IsValid_example :
    (c' : Console) × (console_write (104 ∷ 10 ∷ []) blank ≡ some (3, c')) × IsValid c'
console_write-IsValid_example = console_write-IsValid (104 ∷ 10 ∷ []) blank blank-IsValid

write_all-Printed_example :
    (c' : Console) × (write_all (104 ∷ 105 ∷ []) blank ≡ some c')
    × Printed (104 ∷ 105 ∷ []) blank c'
write_all-Printed_example =
    write_all-Printed (104 ∷ 105 ∷ []) blank blank-IsValid refl (omega arith) (omega arith)

console_write_stuck_example :
    (console_write (27 ∷ 91 ∷ (replicate 16 59 ++ 104 ∷ [])) blank
      ≡ some (20, set_cursor (in_sequence blank)))
    × (console_write (10 ∷ []) (set_cursor (in_sequence blank))
        ≡ some (2, set_cursor (set_cursor (in_sequence blank))))
console_write_stuck_example = console_write_stuck (104 ∷ []) (10 ∷ []) blank refl
