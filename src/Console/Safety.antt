-- ===== src/Console/Safety.antt =====
-- Whatever is written to the console, it stays valid and writes only to the video memory.
use neonix.Prelude.{
  ℕ, ◌+◌, ◌-◌, ◌*◌, ◌%◌, ◌^◌, ◌≤◌, ◌≡◌, refl, ◌∙◌, inl, inr, Bool, true, false, ◌||◌, Option, none,
  some, List, [], ◌∷◌, arith, ◌==◌, if◌then◌else◌, Bool-cases, length, set, replicate, length-set,
  ◌>>=◌,
}
use neonix.Prelude.Words.{add32, sub32}
use neonix.Console.{Console, Mode, nor, esc, que, arg, csi, set_cursor}
use neonix.Console.Screen.{save_cursor, state_normal, state_esc, lf, cr}
use neonix.Console.Csi.{
  arg_at, repeat_count, csi_L, csi_M, csi_P, csi_at, csi_m, insert_line, delete_line, delete_char,
  insert_char,
}
use neonix.Console.Input.{
  state_arg, less_one, at_least_one, csi_move, csi_edit, state_csi, arg_then_csi, write_char,
  write_all, console_write, console_init,
}
use neonix.Console.Memory.{IsValid, Keeps}
use neonix.Console.Cursor.{
  set_xy-IsValid, cr-IsValid, lf-IsValid, tab-IsValid, bs-IsValid, del-IsValid, chr-IsValid,
  console_clear-IsValid,
}
use neonix.Console.Lines.{
  csi_J-IsValid, csi_K-IsValid, times-IsValid, insert_line-IsValid, delete_line-IsValid,
}
use neonix.Console.Chars.{delete_char-IsValid, insert_char-IsValid}

Keeps-if : (b : Bool) {o o' : Option Console} → Keeps o → Keeps o' → Keeps (if b then o else o')
Keeps-if true k k' = k
Keeps-if false k k' = k'

Keeps-some : (c : Console) → IsValid c → Keeps (some c)
Keeps-some c v = (c, refl, v)

lf-Keeps : (c : Console) → IsValid c → Keeps (lf c)
lf-Keeps c v = let (c', run, v', e) = lf-IsValid c v in (c', run, v')

lf-cr-Keeps : (c : Console) → IsValid c → Keeps (lf c >>= λ c'. some (cr c'))
lf-cr-Keeps c v = let (c', run, v', e) = lf-IsValid c v in (cr c', rw run, cr-IsValid c' v')

state_normal-IsValid : (ch : ℕ) (c : Console) → IsValid c → Keeps (state_normal ch c)
unfolding state_normal
state_normal-IsValid ch c v = Keeps-if _ (Keeps-some c v) (
    Keeps-if _ (Keeps-some (record c { beeps = c.beeps + 1 }) v) (
      Keeps-if _ (bs-IsValid c v) (
        Keeps-if _ (tab-IsValid c v) (
          Keeps-if _ (lf-cr-Keeps c v) (
            Keeps-if _ (lf-Keeps c v) (
              Keeps-if _ (Keeps-some (cr c) (cr-IsValid c v)) (
                Keeps-if _ (del-IsValid c v)
                  (Keeps-if _ (Keeps-some (record c { state = esc }) v) (chr-IsValid ch c v)))))))))

state_esc-IsValid : (ch : ℕ) (c : Console) → IsValid c → Keeps (state_esc ch c)
unfolding state_esc save_cursor
state_esc-IsValid ch c v = Keeps-if _ (Keeps-some (record c { state = que }) v) (
    Keeps-if _ (lf-cr-Keeps c v) (
      Keeps-if _ (lf-Keeps c v) (
        Keeps-if _ (Keeps-some (record c { saved_x = c.x; saved_y = c.y }) v)
          (Keeps-if _ (Keeps-some _ (set_xy-IsValid c.saved_x c.saved_y c v)) (Keeps-some c v)))))

state_arg-IsValid : (ch : ℕ) (c : Console) → IsValid c → IsValid (state_arg ch c).1
unfolding state_arg
state_arg-IsValid ch c v =
    ground (arith, v.low, length-set c.args c.argc ((arg_at c c.argc * 10 + (ch - b'0')) % 2 ^ 32))

set_arg-IsValid : (i a : ℕ) (c : Console) → IsValid c → IsValid (record c { args = set c.args i a })
set_arg-IsValid i a c v = record {
  low = v.low;
  high = v.high;
  aligned = v.aligned;
  column = v.column;
  line = v.line;
  cursor = v.cursor;
  slots = length-set c.args i a ∙ v.slots;
  used = v.used;
}

at_least_one-IsValid : (c : Console) → IsValid c → IsValid (at_least_one c)
unfolding at_least_one
at_least_one-IsValid c v = elim (Bool-cases (arg_at c 0 == 0)) [
  | inl e ↦ rw e (set_arg-IsValid 0 1 c v)
  | inr e ↦ rw e v
]

less_one-IsValid : (i : ℕ) (c : Console) → IsValid c → IsValid (less_one i c)
unfolding less_one
less_one-IsValid i c v = set_arg-IsValid i (arg_at c i - 1) c v

csi_edit-IsValid : (ch : ℕ) (c : Console) → IsValid c → Keeps (csi_edit ch c)
unfolding csi_edit csi_L csi_M csi_P csi_at csi_m save_cursor
csi_edit-IsValid ch c v = Keeps-if _ (csi_J-IsValid c v) (
    Keeps-if _ (csi_K-IsValid c v) (
      Keeps-if _ (times-IsValid (repeat_count c) insert_line insert_line-IsValid c v) (
        Keeps-if _ (times-IsValid (repeat_count c) delete_line delete_line-IsValid c v) (
          Keeps-if _ (times-IsValid (repeat_count c) delete_char delete_char-IsValid c v) (
            Keeps-if _ (times-IsValid (repeat_count c) insert_char insert_char-IsValid c v) (
              Keeps-if _ (Keeps-some (csi_m c) v) (
                Keeps-if _
                  (Keeps-some _
                    (set_xy-IsValid c.x c.y (record c { saved_x = c.x; saved_y = c.y }) v))
                  (Keeps-if _ (Keeps-some _ (set_xy-IsValid c.saved_x c.saved_y c v))
                    (Keeps-some c v)))))))))

-- If the command was a move, what it leaves is valid.
data IfMoved : Option Console → Type 0 where
  stays : IfMoved none
  moves : (c : Console) → IsValid c → IfMoved (some c)

IfMoved-if :
    (b : Bool) {o o' : Option Console} → IfMoved o → IfMoved o' → IfMoved (if b then o else o')
IfMoved-if true k k' = k
IfMoved-if false k k' = k'

csi_move-IsValid : (ch : ℕ) (c : Console) → IsValid c → IfMoved (csi_move ch c)
unfolding csi_move
csi_move-IsValid ch c v =
    let c1 = at_least_one c in
    let c0 = less_one 0 c in
    let c2 = less_one 1 c0 in
    let n = arg_at c1 0 in
    let v1 = at_least_one-IsValid c v in
    let v0 = less_one-IsValid 0 c v in
    let v2 = less_one-IsValid 1 c0 v0 in
    IfMoved-if (ch == b'G' || ch == 0x60) (moves _ (set_xy-IsValid (arg_at c0 0) c0.y c0 v0)) (
      IfMoved-if (ch == b'A') (moves _ (set_xy-IsValid c1.x (sub32 c1.y n) c1 v1)) (
        IfMoved-if (ch == b'B' || ch == b'e') (moves _ (set_xy-IsValid c1.x (add32 c1.y n) c1 v1)) (
          IfMoved-if (ch == b'C' || ch == b'a') (moves _ (set_xy-IsValid (add32 c1.x n) c1.y c1 v1))
            (IfMoved-if (ch == b'D') (moves _ (set_xy-IsValid (sub32 c1.x n) c1.y c1 v1)) (
              IfMoved-if (ch == b'E') (moves _ (set_xy-IsValid 0 (add32 c1.y n) c1 v1)) (
                IfMoved-if (ch == b'F') (moves _ (set_xy-IsValid 0 (sub32 c1.y n) c1 v1)) (
                  IfMoved-if (ch == b'd') (moves _ (set_xy-IsValid c0.x (arg_at c0 0) c0 v0)) (
                    IfMoved-if (ch == b'H' || ch == b'f')
                      (moves _ (set_xy-IsValid (arg_at c2 1) (arg_at c2 0) c2 v2)) stays))))))))

state_csi-IsValid : (ch : ℕ) (c : Console) → IsValid c → Keeps (state_csi ch c)
unfolding state_csi
state_csi-IsValid ch c v =
    go (csi_move ch (record c { state = nor })) (csi_move-IsValid ch (record c { state = nor }) v)
  where
    go :
        (o : Option Console)
        → IfMoved o
        → Keeps (elim o [ some moved ↦ some moved | none ↦ csi_edit ch (record c { state = nor }) ])
    go none stays = csi_edit-IsValid ch (record c { state = nor }) v
    go (some moved) (moves _ w) = (moved, refl, w)

arg_then_csi-IsValid : (ch : ℕ) (c : Console) → IsValid c → Keeps (arg_then_csi ch c)
unfolding arg_then_csi
arg_then_csi-IsValid ch c v =
    let v' = state_arg-IsValid ch c v in
    Keeps-if (state_arg ch c).0 (state_csi-IsValid ch (state_arg ch c).1 v')
      (Keeps-some (state_arg ch c).1 v')

write_char-IsValid : (ch : ℕ) (c : Console) → IsValid c → Keeps (write_char ch c)
unfolding write_char
write_char-IsValid ch c v = go c.state
  where
    fresh : IsValid (record c { args = replicate 16 0; argc = 0 })
    fresh = ground (arith, v.low)

    go :
        (s : Mode)
        → Keeps (elim s [
          | nor ↦ state_normal ch c
          | esc ↦ state_esc ch c
          | que ↦
              let c' : Console = record c {
                args = replicate 16 0;
                argc = 0;
                state = arg;
                ques = ch == b'?';
              } in
              if ch == b'?' then some c' else arg_then_csi ch c'
          | arg ↦ arg_then_csi ch c
          | csi ↦ state_csi ch c
        ])
    go nor = state_normal-IsValid ch c v
    go esc = state_esc-IsValid ch c v
    go que = Keeps-if _ (Keeps-some _ fresh) (arg_then_csi-IsValid ch _ fresh)
    go arg = arg_then_csi-IsValid ch c v
    go csi = state_csi-IsValid ch c v

write_all-IsValid : (buf : List ℕ) (c : Console) → IsValid c → Keeps (write_all buf c)
unfolding write_all
write_all-IsValid [] c v = (c, refl, v)
write_all-IsValid (ch ∷ rest) c v =
    let (c1, run, v1) = write_char-IsValid ch c v in
    let (c2, run', v2) = write_all-IsValid rest c1 v1 in (c2, rw run run', v2)

-- Any bytes may be written to a valid console: `console_write` succeeds, so it touches no memory
-- but the video memory, it leaves the console valid (the screen inside of the memory, the cursor on
-- the screen, the arguments inside of their array), and it returns one more than it was given.
pub console_write-IsValid :
    (buf : List ℕ) (c : Console)
    → IsValid c
    → (c' : Console) × (console_write buf c ≡ some (length buf + 1, c')) × IsValid c'
unfolding console_write set_cursor
console_write-IsValid buf c v =
    let (c', run, v') = write_all-IsValid buf c v in (set_cursor c', rw run, v')

-- `console_init` makes the console valid, over any memory, if the argument array is in its initial
-- state.
pub console_init-IsValid : (c : Console) → length c.args ≡ 16 → c.argc ≤ 16 → Keeps (console_init c)
unfolding console_init
console_init-IsValid c slots used =
    console_clear-IsValid (record c { erase = 0x0720; style = 7; state = nor }) slots used
