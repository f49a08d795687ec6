-- ===== src/Console/Screen.antt =====
-- The cursor and the single characters of src/kernel/console.c.
use neonix.Prelude.{
  ℕ, ◌+◌, ◌-◌, ◌*◌, ◌/◌, ◌%◌, ◌||◌, Option, some, ltb, leb, ◌==◌, if◌then◌else◌, ◌>>=◌,
}
use neonix.Prelude.Words.{add32, sub32}
use neonix.Console.{
  Console, esc, que, mem_base, mem_size, mem_end, width, height, row_size, scr_size, poke, poke16,
  memcpy, erase_screen, set_screen, set_cursor,
}

unfoldable pub set_xy : (x y : ℕ) → Console → Console
set_xy x y c =
    if ltb width x || leb height y
    then c
    else record c { x = x; y = y; pos = add32 (add32 c.screen (y * row_size)) (2 * x) }

unfoldable pub save_cursor : Console → Console
save_cursor c = record c { saved_x = c.x; saved_y = c.y }

unfoldable pub console_clear : Console → Option Console
console_clear c =
    let c' : Console = record c { screen = mem_base; pos = mem_base; x = 0; y = 0 } in
    erase_screen mem_base (mem_size / 2) (set_screen (set_cursor c'))

-- The part of `scroll_up` under its `if`: the screen goes back to the start of the memory.
unfoldable pub rewind : Console → Option Console
rewind c =
    if leb mem_end (add32 (add32 c.screen scr_size) row_size)
    then (do
      c' ← memcpy mem_base c.screen scr_size c
      some (record c' { pos = sub32 c'.pos (sub32 c'.screen mem_base); screen = mem_base }))
    else some c

unfoldable pub scroll_up : Console → Option Console
scroll_up c = do
  c ← rewind c
  c ← erase_screen (add32 c.screen scr_size) width c
  some (set_screen (record c { screen = add32 c.screen row_size; pos = add32 c.pos row_size }))

unfoldable pub lf : Console → Option Console
lf c =
    if ltb (c.y + 1) height
    then some (record c { y = c.y + 1; pos = add32 c.pos row_size })
    else scroll_up c

unfoldable pub cr : Console → Console
cr c = record c { pos = sub32 c.pos (2 * c.x); x = 0 }

-- The line break of `tab` and `chr` behind the last column.
unfoldable pub wrap_line : Console → Option Console
wrap_line c =
    if leb width c.x then lf (record c { x = c.x - width; pos = sub32 c.pos row_size }) else some c

unfoldable pub tab : Console → Option Console
tab c =
    let offset = 8 - c.x % 8 in
    wrap_line (record c { x = c.x + offset; pos = add32 c.pos (2 * offset) })

unfoldable pub bs : Console → Option Console
bs c =
    if c.x == 0
    then some c
    else poke16 (sub32 c.pos 2) c.erase (record c { x = c.x - 1; pos = sub32 c.pos 2 })

unfoldable pub del : Console → Option Console
del c = poke16 c.pos c.erase c

unfoldable pub chr : ℕ → Console → Option Console
chr ch c = do
  c ← wrap_line c
  c ← poke c.pos ch c
  c ← poke (c.pos + 1) c.style c
  some (record c { pos = add32 c.pos 2; x = c.x + 1 })

unfoldable pub state_normal : ℕ → Console → Option Console
state_normal ch c =
    if ch == 0x00
    then some c
    else if ch == 0x07
    then some (record c { beeps = c.beeps + 1 })
    else if ch == 0x08
    then bs c
    else if ch == 0x09
    then tab c
    else if ch == 0x0A
    then (lf c >>= λ c'. some (cr c'))
    else if ch == 0x0B || ch == 0x0C
    then lf c
    else if ch == 0x0D
    then some (cr c)
    else if ch == 0x7F
    then del c
    else if ch == 0x1B
    then some (record c { state = esc })
    else chr ch c

unfoldable pub state_esc : ℕ → Console → Option Console
state_esc ch c =
    if ch == b'['
    then some (record c { state = que })
    else if ch == b'E'
    then (lf c >>= λ c'. some (cr c'))
    else if ch == b'D'
    then lf c
    else if ch == b'7'
    then some (save_cursor c)
    else if ch == b'8'
    then some (set_xy c.saved_x c.saved_y c)
    else some c
