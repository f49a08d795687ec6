-- ===== src/Console/Memory.antt =====
-- The writes of src/kernel/console.c that stay inside of the video memory change nothing else.
use neonix.Prelude.{
  ℕ, zero, suc, ◌+◌, ◌-◌, ◌*◌, ◌/◌, ◌%◌, ◌≤◌, ◌<◌, ◌≡◌, refl, Option, some, List, arith, ◌==◌,
  if◌then◌else◌, length,
}
use neonix.Console.{
  Console, mem_base, mem_end, width, height, row_size, scr_size, peek, poke, poke16, memcpy,
  erase_screen,
}

-- The run succeeds, and only the memory is another.
abbrev pub OnlyMem : Console → Option Console → Type 0
OnlyMem c o = (m : ℕ → ℕ) × (o ≡ some (record c { mem = m }))

-- The screen lies in the memory at a row, the cursor is where `pos` says, at most just behind the
-- last column, and the arguments fit their array.
pub record Fits (screen pos x y : ℕ) (args : List ℕ) (argc : ℕ) : Type 0 where
  pub low : mem_base ≤ screen
  pub high : screen + scr_size + row_size ≤ mem_end
  pub aligned : (screen - mem_base) % row_size ≡ 0
  pub column : x ≤ width
  pub line : y < height
  pub cursor : pos ≡ screen + y * row_size + 2 * x
  pub slots : length args ≡ 16
  pub used : argc ≤ 16

abbrev pub IsValid : Console → Type 0
IsValid c = Fits c.screen c.pos c.x c.y c.args c.argc

-- The run succeeds, and what it leaves is valid.
abbrev pub Keeps : Option Console → Type 0
Keeps o = (c : Console) × (o ≡ some c) × IsValid c

pub poke-OnlyMem : (a v : ℕ) (c : Console) → mem_base ≤ a → a < mem_end → OnlyMem c (poke a v c)
unfolding poke
poke-OnlyMem a v c l h = ((λ b. if b == a then v else c.mem b), ground arith)

pub peek-some : (c : Console) (a : ℕ) → mem_base ≤ a → a < mem_end → peek c a ≡ some (c.mem a)
unfolding peek
peek-some c a l h = ground arith

pub poke16-OnlyMem :
    (a v : ℕ) (c : Console) → mem_base ≤ a → a + 2 ≤ mem_end → OnlyMem c (poke16 a v c)
unfolding poke16
poke16-OnlyMem a v c l h =
    let (m, run) = poke-OnlyMem a (v % 256) c l (omega arith) in
    let (m', run') =
      poke-OnlyMem (a + 1) (v / 256) (record c { mem = m }) (omega arith) (omega arith) in
    (m', rw run run')

pub memcpy-OnlyMem :
    (dest src count : ℕ) (c : Console)
    → mem_base ≤ dest
    → dest + count ≤ mem_end
    → mem_base ≤ src
    → src + count ≤ mem_end
    → OnlyMem c (memcpy dest src count c)
unfolding memcpy
memcpy-OnlyMem dest src zero c a b d e = (c.mem, refl)
memcpy-OnlyMem dest src (suc count) c a b d e =
    let (m, run) = poke-OnlyMem dest (c.mem src) c a (omega arith) in
    let (m', run') =
      memcpy-OnlyMem (dest + 1) (src + 1) count (record c { mem = m }) (omega arith) (omega arith)
        (omega arith) (omega arith) in
    (m', rw (peek-some c src d (omega arith), run) run')

pub erase-OnlyMem :
    (start count : ℕ) (c : Console)
    → mem_base ≤ start
    → start + 2 * count ≤ mem_end
    → OnlyMem c (erase_screen start count c)
unfolding erase_screen
erase-OnlyMem start zero c a b = (c.mem, refl)
erase-OnlyMem start (suc count) c a b =
    let (m, run) = poke16-OnlyMem start c.erase c a (omega arith) in
    let (m', run') =
      erase-OnlyMem (start + 2) count (record c { mem = m }) (omega arith) (omega arith) in
    (m', rw run run')
