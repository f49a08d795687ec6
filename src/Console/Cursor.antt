-- ===== src/Console/Cursor.antt =====
-- The cursor movements of src/kernel/console.c keep the console valid.
use neonix.Prelude.{
  ℕ, ◌+◌, ◌-◌, ◌*◌, ◌/◌, ◌%◌, ◌≤◌, ◌<◌, ◌≡◌, refl, inl, inr, Option, some, arith, ltb, leb, ◌==◌,
  Bool-cases, length,
}
use neonix.Prelude.Words.{add32, sub32}
use neonix.Console.{
  mem_size, Console, mem_base, mem_end, width, height, row_size, scr_size, set_screen, set_cursor,
}
use neonix.Console.Screen.{
  set_xy, rewind, scroll_up, lf, cr, wrap_line, tab, bs, del, chr, console_clear,
}
use neonix.Console.Memory.{
  IsValid, Keeps, poke-OnlyMem, poke16-OnlyMem, memcpy-OnlyMem, erase-OnlyMem,
}

pub set_xy-IsValid : (x y : ℕ) (c : Console) → IsValid c → IsValid (set_xy x y c)
unfolding set_xy
set_xy-IsValid x y c v = ground (arith, v.low, v.high)

pub cr-IsValid : (c : Console) → IsValid c → IsValid (cr c)
unfolding cr
cr-IsValid c v = ground (arith, v.low, v.high, v.column)

-- After `rewind` there is room for one more row behind the screen.
rewind-roomy :
    (c : Console)
    → IsValid c
    → (c' : Console) × (rewind c ≡ some c')
      × IsValid c'
      × (c'.screen + scr_size + row_size < mem_end)
      × (c'.x ≡ c.x)
      × (c'.y ≡ c.y)
unfolding rewind
rewind-roomy c v = elim (Bool-cases (leb mem_end (add32 (add32 c.screen scr_size) row_size))) [
  | inl last ↦
      let (m, run) =
        memcpy-OnlyMem mem_base c.screen scr_size c (omega arith) (omega arith) v.low
          (omega (arith, v.high)) in
      let back : Console = record c {
        mem = m;
        pos = sub32 c.pos (sub32 c.screen mem_base);
        screen = mem_base;
      } in
      (back, rw (last, run), ground (arith, v.low, v.high), omega arith, refl, refl)
  | inr room ↦ (c, rw room, v, ground (arith, v.low, v.high), refl, refl)
]

-- The run succeeds at a valid console, in the column `x`.
abbrev pub KeepsColumn : ℕ → Option Console → Type 0
KeepsColumn x o = (c : Console) × (o ≡ some c) × IsValid c × (c.x ≡ x)

scroll_up-IsValid : (c : Console) → IsValid c → KeepsColumn c.x (scroll_up c)
unfolding scroll_up set_screen
scroll_up-IsValid c v =
    let (c1, run, v1, room, ex, ey) = rewind-roomy c v in
    let (m, run') =
      erase-OnlyMem (add32 c1.screen scr_size) width c1 (omega (arith, v1.low, v1.high))
        (omega (arith, v1.low, v1.high)) in
    (
      set_screen
          (record c1 { mem = m; screen = add32 c1.screen row_size; pos = add32 c1.pos row_size }),
      rw (run, run'),
      ground (arith, v1.low, v1.high, v1.aligned, v1.cursor, v1.column, v1.line),
      ex,
    )

pub lf-IsValid : (c : Console) → IsValid c → KeepsColumn c.x (lf c)
unfolding lf
lf-IsValid c v = elim (Bool-cases (ltb (c.y + 1) height)) [
  | inl inside ↦ (
    record c { y = c.y + 1; pos = add32 c.pos row_size },
    rw inside,
    ground (arith, v.low, v.high),
    refl,
  )
  | inr bottom ↦ rw bottom (scroll_up-IsValid c v)
]

-- From any column of two lines' width, the cursor comes to lie on the screen.
wrap_line-IsValid :
    (c : Console)
    → IsValid (record c { x = 0; pos = c.screen + c.y * row_size })
    → c.x < 160
    → c.pos ≡ c.screen + c.y * row_size + 2 * c.x
    → (c' : Console) × (wrap_line c ≡ some c') × IsValid c' × (c'.x < width)
unfolding wrap_line
wrap_line-IsValid c v wide at = elim (Bool-cases (leb width c.x)) [
  | inl over ↦
      let c0 : Console = record c { x = c.x - width; pos = sub32 c.pos row_size } in
      let (c', run, v', ex) = lf-IsValid c0 (ground (arith, v.low, v.high)) in
      (c', rw over run, v', omega arith)
  | inr inside ↦ (c, rw inside, ground (arith, v.low), ground arith)
]

pub tab-IsValid : (c : Console) → IsValid c → Keeps (tab c)
unfolding tab
tab-IsValid c v =
    let c0 : Console = record c {
      x = c.x + (8 - c.x % 8);
      pos = add32 c.pos (2 * (8 - c.x % 8));
    } in
    let (c', run, v', x') =
      wrap_line-IsValid c0 (ground (arith, v.low)) (omega (arith, v.column))
        (ground (arith, v.low, v.high)) in
    (c', run, v')

pub bs-IsValid : (c : Console) → IsValid c → Keeps (bs c)
unfolding bs
bs-IsValid c v = elim (Bool-cases (c.x == 0)) [
  | inl start ↦ (c, rw start, v)
  | inr later ↦
      let (m, run) =
        poke16-OnlyMem (sub32 c.pos 2) c.erase (record c { x = c.x - 1; pos = sub32 c.pos 2 })
          (ground (arith, v.low, v.high)) (ground (arith, v.low, v.high)) in
      (
        record c { x = c.x - 1; pos = sub32 c.pos 2; mem = m },
        rw (later, run),
        ground (arith, v.low, v.high),
      )
]

pub del-IsValid : (c : Console) → IsValid c → Keeps (del c)
unfolding del
del-IsValid c v =
    let (m, run) =
      poke16-OnlyMem c.pos c.erase c (omega (arith, v.low, v.high))
        (omega (arith, v.low, v.high)) in
    (record c { mem = m }, run, v)

pub chr-IsValid : (ch : ℕ) (c : Console) → IsValid c → Keeps (chr ch c)
unfolding chr
chr-IsValid ch c v =
    let (c1, run, v1, x1) =
      wrap_line-IsValid c (ground (arith, v.low)) (omega (arith, v.column)) v.cursor in
    let (m, run1) =
      poke-OnlyMem c1.pos ch c1 (omega (arith, v1.low, v1.high)) (omega (arith, v1.low, v1.high)) in
    let (m', run2) =
      poke-OnlyMem (c1.pos + 1) c1.style (record c1 { mem = m }) (omega (arith, v1.low, v1.high))
        (omega (arith, v1.low, v1.high)) in
    (
      record c1 { mem = m'; pos = add32 c1.pos 2; x = c1.x + 1 },
      rw (run, run1, run2),
      ground (arith, v1.low, v1.high),
    )

-- `console_clear` makes the geometry right, whatever it was before.
pub console_clear-IsValid :
    (c : Console) → length c.args ≡ 16 → c.argc ≤ 16 → Keeps (console_clear c)
unfolding console_clear set_screen set_cursor
console_clear-IsValid c slots used =
    let c0 : Console =
      set_screen (set_cursor (record c { screen = mem_base; pos = mem_base; x = 0; y = 0 })) in
    let (m, run) = erase-OnlyMem mem_base (mem_size / 2) c0 (omega arith) (omega arith) in
    (record c0 { mem = m }, run, ground arith)
