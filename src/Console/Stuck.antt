-- ===== src/Console/Stuck.antt =====
-- A control sequence of too many arguments silences src/kernel/console.c for good.
use neonix.Prelude.{
  ℕ, ◌+◌, ◌≤◌, ◌≡◌, refl, ap, true, false, some, List, [], ◌∷◌, ◌++◌, arith, leb, length, replicate,
}
use neonix.Console.{Console, nor, arg, set_cursor}
use neonix.Console.Screen.{state_normal, state_esc}
use neonix.Console.Input.{state_arg, arg_then_csi, write_char, write_all, console_write}

swallowed : (ch : ℕ) (c : Console) → c.state ≡ arg → 16 ≤ c.argc → write_char ch c ≡ some c
unfolding write_char arg_then_csi state_arg
swallowed ch c s full = let over : leb 16 c.argc ≡ true = ground arith in ground arith

all_swallowed :
    (buf : List ℕ) (c : Console) → c.state ≡ arg → 16 ≤ c.argc → write_all buf c ≡ some c
unfolding write_all
all_swallowed [] c s full = refl
all_swallowed (ch ∷ rest) c s full = rw (swallowed ch c s full) (all_swallowed rest c s full)

-- The console behind the beginning of a control sequence with sixteen separators.
abbrev pub in_sequence : Console → Console
in_sequence c = record c { state = arg; args = replicate 16 0; argc = 16; ques = false }

-- A console that shows text and gets `ESC [` with sixteen separators is stuck: of what is written
-- behind them, whatever it is, no byte is shown or acted on, the screen, the style and the position
-- are as before, and all later output is lost in the same way.
pub console_write_stuck :
    (buf later : List ℕ) (c : Console)
    → c.state ≡ nor
    → (console_write (27 ∷ 91 ∷ (replicate 16 59 ++ buf)) c
        ≡ some (length buf + 19, set_cursor (in_sequence c)))
      × (console_write later (set_cursor (in_sequence c))
          ≡ some (length later + 1, set_cursor (set_cursor (in_sequence c))))
unfolding console_write write_all write_char state_normal state_esc arg_then_csi state_arg
    set_cursor
console_write_stuck buf later c s = (
  rw (s, all_swallowed buf (in_sequence c) refl (omega arith))
      (ap (λ (n : ℕ). some (n, set_cursor (in_sequence c))) (omega arith)),
  rw (all_swallowed later (set_cursor (in_sequence c)) refl (omega arith)) refl,
)
