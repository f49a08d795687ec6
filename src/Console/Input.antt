-- ===== src/Console/Input.antt =====
-- The state machine of src/kernel/console.c that reads what is written to the console.
use neonix.Prelude.{
  ℕ, ◌+◌, ◌-◌, ◌*◌, ◌%◌, ◌^◌, Bool, true, false, ◌&&◌, ◌||◌, Option, none, some, List, [], ◌∷◌, leb,
  ◌==◌, if◌then◌else◌, length, set, replicate, ◌>>=◌,
}
use neonix.Prelude.Words.{add32, sub32}
use neonix.Console.{Console, nor, esc, que, arg, csi, set_cursor}
use neonix.Console.Screen.{set_xy, save_cursor, state_normal, state_esc, console_clear}
use neonix.Console.Csi.{arg_at, csi_J, csi_K, csi_L, csi_M, csi_P, csi_at, csi_m}

-- `ARG_NR`.
abbrev pub arg_nr : ℕ
arg_nr = 16

abbrev pub is_digit : ℕ → Bool
is_digit ch = leb b'0' ch && leb ch b'9'

-- Whether the sequence is complete, and the console.
unfoldable pub state_arg : ℕ → Console → Bool × Console
state_arg ch c =
    if leb arg_nr c.argc
    then (false, c)
    else if ch == b';'
    then (false, record c { argc = c.argc + 1 })
    else if is_digit ch
    then (
      false,
      record c { args = set c.args c.argc ((arg_at c c.argc * 10 + (ch - b'0')) % 2 ^ 32) },
    )
    else (true, record c { argc = c.argc + 1; state = csi })

-- `if (con->args[i]) con->args[i]--`.
unfoldable pub less_one : ℕ → Console → Console
less_one i c = record c { args = set c.args i (arg_at c i - 1) }

-- `if (!con->args[0]) con->args[0]++`.
unfoldable pub at_least_one : Console → Console
at_least_one c = if arg_at c 0 == 0 then record c { args = set c.args 0 1 } else c

-- The moves of `state_csi`, by the command's letter; `none` where it is no move.
unfoldable pub csi_move : ℕ → Console → Option Console
csi_move ch c =
    let c1 = at_least_one c in
    let c0 = less_one 0 c in
    let n = arg_at c1 0 in
    if ch == b'G' || ch == 0x60
    then some (set_xy (arg_at c0 0) c0.y c0)
    else if ch == b'A'
    then some (set_xy c1.x (sub32 c1.y n) c1)
    else if ch == b'B' || ch == b'e'
    then some (set_xy c1.x (add32 c1.y n) c1)
    else if ch == b'C' || ch == b'a'
    then some (set_xy (add32 c1.x n) c1.y c1)
    else if ch == b'D'
    then some (set_xy (sub32 c1.x n) c1.y c1)
    else if ch == b'E'
    then some (set_xy 0 (add32 c1.y n) c1)
    else if ch == b'F'
    then some (set_xy 0 (sub32 c1.y n) c1)
    else if ch == b'd'
    then some (set_xy c0.x (arg_at c0 0) c0)
    else if ch == b'H' || ch == b'f'
    then (let c2 = less_one 1 c0 in some (set_xy (arg_at c2 1) (arg_at c2 0) c2))
    else none

-- The other commands.
unfoldable pub csi_edit : ℕ → Console → Option Console
csi_edit ch c =
    if ch == b'J'
    then csi_J c
    else if ch == b'K'
    then csi_K c
    else if ch == b'L'
    then csi_L c
    else if ch == b'M'
    then csi_M c
    else if ch == b'P'
    then csi_P c
    else if ch == b'@'
    then csi_at c
    else if ch == b'm'
    then some (csi_m c)
    else if ch == b's'
    then (let c' = save_cursor c in some (set_xy c'.saved_x c'.saved_y c'))
    else if ch == b'u'
    then some (set_xy c.saved_x c.saved_y c)
    else some c

unfoldable pub state_csi : ℕ → Console → Option Console
state_csi ch c =
    let c' : Console = record c { state = nor } in
    elim (csi_move ch c') [ some moved ↦ some moved | none ↦ csi_edit ch c' ]

-- The cases STATE_ARG and STATE_CSI, which follow one another.
unfoldable pub arg_then_csi : ℕ → Console → Option Console
arg_then_csi ch c =
    let (complete, c') = state_arg ch c in if complete then state_csi ch c' else some c'

-- The body of the loop of `console_write`.
unfoldable pub write_char : ℕ → Console → Option Console
write_char ch c = elim c.state [
  | nor ↦ state_normal ch c
  | esc ↦ state_esc ch c
  | que ↦
      let c' : Console = record c {
        args = replicate arg_nr 0;
        argc = 0;
        state = arg;
        ques = ch == b'?';
      } in
      if ch == b'?' then some c' else arg_then_csi ch c'
  | arg ↦ arg_then_csi ch c
  | csi ↦ state_csi ch c
]

unfoldable pub write_all : List ℕ → Console → Option Console
write_all [] c = some c
write_all (ch ∷ rest) c = write_char ch c >>= write_all rest

-- The counter has passed `count` when the loop ends.
unfoldable pub console_write : List ℕ → Console → Option (ℕ × Console)
console_write buf c = write_all buf c >>= λ c'. some (length buf + 1, set_cursor c')

-- `console_init`, on a memory and a controller in any state.
unfoldable pub console_init : Console → Option Console
console_init c = console_clear (record c { erase = 0x0720; style = 7; state = nor })
