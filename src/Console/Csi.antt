-- ===== src/Console/Csi.antt =====
-- The control sequences of src/kernel/console.c.
use neonix.Prelude.{
  ℕ, zero, suc, ◌+◌, ◌-◌, ◌*◌, ◌/◌, ◌%◌, bit_and, bit_or, ◌&&◌, Option, none, some, List, [], ◌∷◌,
  ltb, leb, ◌==◌, if◌then◌else◌, get_or, take, ◌>>=◌,
}
use neonix.Prelude.Words.{add32, sub32}
use neonix.Console.{
  Console, mem_end, width, height, row_size, scr_size, peek, poke, poke16, memcpy, erase_screen,
}

abbrev pub arg_at : Console → ℕ → ℕ
arg_at c i = get_or c.args i 0

unfoldable pub csi_J : Console → Option Console
csi_J c =
    if arg_at c 0 == 0
    then erase_screen c.pos (sub32 (add32 c.screen scr_size) c.pos / 2) c
    else if arg_at c 0 == 1
    then erase_screen c.screen (sub32 c.pos c.screen / 2) c
    else if arg_at c 0 == 2
    then erase_screen c.screen (scr_size / 2) c
    else some c

unfoldable pub csi_K : Console → Option Console
csi_K c =
    if arg_at c 0 == 0
    then erase_screen c.pos (sub32 width c.x) c
    else if arg_at c 0 == 1
    then erase_screen (sub32 c.pos (2 * c.x)) c.x c
    else if arg_at c 0 == 2
    then erase_screen (sub32 c.pos (2 * c.x)) width c
    else some c

-- `nr` of `csi_L`, `csi_M`, `csi_P` and `csi_at`; the test `nr > con->height` is unsigned.
unfoldable pub repeat_count : Console → ℕ
repeat_count c =
    if ltb height (arg_at c 0) then height else if arg_at c 0 == 0 then 1 else arg_at c 0

-- `while (nr--) op(con)`.
unfoldable pub times : ℕ → (Console → Option Console) → Console → Option Console
times zero op c = some c
times (suc nr) op c = op c >>= λ c'. times nr op c'

-- The loop of `insert_line`: rows move down, the last one first. The fuel is the number of rows of
-- the memory.
unfoldable pub move_down : (fuel i start : ℕ) → Console → Option Console
move_down zero i start c = none
move_down (suc fuel) i start c =
    let src = sub32 mem_end (i * row_size) in
    let rest =
      (memcpy (add32 src row_size) src row_size c >>= λ c'. move_down fuel (i + 1) start c') in
    if ltb src start then some c else rest

unfoldable pub insert_line : Console → Option Console
insert_line c =
    let start = add32 c.screen (c.y * row_size) in
    move_down 102 2 start c >>= λ c'. erase_screen (add32 c'.screen (c'.y * row_size)) width c'

unfoldable pub csi_L : Console → Option Console
csi_L c = times (repeat_count c) insert_line c

-- The loop of `delete_line`. `start` is a `u16 *`, so the source advances by two rows a round.
unfoldable pub move_up : (fuel i start : ℕ) → Console → Option Console
move_up zero i start c = none
move_up (suc fuel) i start c =
    let src = add32 start (2 * (i * row_size)) in
    let rest =
      (memcpy (sub32 src row_size) src row_size c >>= λ c'. move_up fuel (i + 1) start c') in
    if leb mem_end src then some c else rest

unfoldable pub delete_line : Console → Option Console
delete_line c = move_up 102 1 (add32 c.screen (c.y * row_size)) c >>= λ c'.
    erase_screen (sub32 mem_end row_size) width c'

unfoldable pub csi_M : Console → Option Console
csi_M c = times (repeat_count c) delete_line c

-- The loop of `delete_char`, with the rounds left; it ends at the blank in the last column.
unfoldable pub shift_left : (rounds ptr : ℕ) → Console → Option Console
shift_left zero ptr c = poke16 ptr c.erase c
shift_left (suc rounds) ptr c = do
  lo ← peek c (ptr + 2)
  hi ← peek c (ptr + 3)
  c ← poke ptr lo c
  c ← poke (ptr + 1) hi c
  shift_left rounds (ptr + 2) c

-- `while (++i < con->width)` from `i = x` runs `width - 1 - x` rounds.
unfoldable pub delete_char : Console → Option Console
delete_char c = shift_left (width - 1 - c.x) c.pos c

unfoldable pub csi_P : Console → Option Console
csi_P c = times (repeat_count c) delete_char c

-- The loop of `insert_char`, with the rounds left, and the store of one byte that follows it.
unfoldable pub shift_right : (rounds ptr : ℕ) → Console → Option Console
shift_right zero ptr c = poke c.pos (c.erase % 256) c
shift_right (suc rounds) ptr c = do
  lo ← peek c (ptr - 2)
  hi ← peek c (ptr - 1)
  c ← poke ptr lo c
  c ← poke (ptr + 1) hi c
  shift_right rounds (ptr - 2) c

-- `ptr` starts `width - x - 1` cells behind the cursor and falls to it.
unfoldable pub insert_char : Console → Option Console
insert_char c = shift_right (width - 1 - c.x) (c.pos + 2 * (width - 1 - c.x)) c

unfoldable pub csi_at : Console → Option Console
csi_at c = times (repeat_count c) insert_char c

-- One round of `csi_m`. `BLINK` is 0x80, also where it is compared with the argument.
unfoldable pub restyle : ℕ → ℕ → ℕ
restyle a style =
    if a == 0
    then 7
    else if a == 1
    then 0x0F
    else if a == 0x80
    then bit_or style 0x80
    else if a == 7
    then bit_or (style / 16) (style * 16 % 256)
    else if leb 30 a && leb a 37
    then bit_or (bit_and style 0xF8) (a - 30)
    else if leb 40 a && leb a 47
    then bit_or (bit_and style 0x8F) ((a - 40) * 16)
    else style

unfoldable pub restyle_all : List ℕ → ℕ → ℕ
restyle_all [] style = style
restyle_all (a ∷ as') style = restyle_all as' (restyle a style)

unfoldable pub csi_m : Console → Console
csi_m c =
    let style = restyle_all (take c.argc c.args) 0 in
    record c { style = style; erase = bit_or (style * 256) 0x20 }
