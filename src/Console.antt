-- ===== src/Console.antt =====
-- src/kernel/console.c: the text console. The fields that `console_init` sets once (the video memory's
-- place and size, the screen's size) are constants here. `none` is an access outside of the video
-- memory.
pub mod Screen
pub mod Csi
pub mod Input
pub mod Memory
pub mod Cursor
pub mod Lines
pub mod Chars
pub mod Safety
pub mod Stuck
pub mod Text
pub mod Tests
use neonix.Prelude.{
  ℕ, zero, suc, ◌+◌, ◌/◌, ◌%◌, ◌^◌, Bool, ◌&&◌, Option, none, some, List, ltb, leb, ◌==◌,
  if◌then◌else◌, ◌>>=◌, ◌>>◌,
}
use neonix.Prelude.Words.{add32, sub32}

abbrev pub mem_base : ℕ
mem_base = 0xB8000

-- 102 whole rows of the 0x4000 bytes.
abbrev pub mem_size : ℕ
mem_size = 16320

abbrev pub mem_end : ℕ
mem_end = 0xBBFC0

abbrev pub width : ℕ
width = 80

abbrev pub height : ℕ
height = 25

abbrev pub row_size : ℕ
row_size = 160

abbrev pub scr_size : ℕ
scr_size = 4000

-- `enum state`.
pub data Mode : Type 0 where
  nor : Mode
  esc : Mode
  que : Mode
  arg : Mode
  csi : Mode

-- `console_t`, with the video memory, the two words last sent to the display controller, and how
-- often `start_beep` was called.
pub record Console : Type 0 where
  pub screen : ℕ
  pub pos : ℕ
  pub x : ℕ
  pub y : ℕ
  pub saved_x : ℕ
  pub saved_y : ℕ
  pub state : Mode
  pub args : List ℕ
  pub argc : ℕ
  pub ques : Bool
  pub erase : ℕ
  pub style : ℕ
  pub mem : ℕ → ℕ
  pub crt_start : ℕ × ℕ
  pub crt_cursor : ℕ × ℕ
  pub beeps : ℕ

abbrev pub in_video : ℕ → Bool
in_video a = leb mem_base a && ltb a mem_end

-- A byte of the video memory.
unfoldable pub peek : Console → ℕ → Option ℕ
peek c a = if in_video a then some (c.mem a) else none

unfoldable pub poke : ℕ → ℕ → Console → Option Console
poke a v c =
    if in_video a then some (record c { mem = λ b. if b == a then v else c.mem b }) else none

-- `*(u16 *) a = v`.
unfoldable pub poke16 : ℕ → ℕ → Console → Option Console
poke16 a v c = poke a (v % 256) c >>= poke (a + 1) (v / 256)

-- `memcpy` of src/lib/string.c within the video memory.
unfoldable pub memcpy : (dest src count : ℕ) → Console → Option Console
memcpy dest src zero c = some c
memcpy dest src (suc count) c = do
  b ← peek c src
  c ← poke dest b c
  memcpy (dest + 1) (src + 1) count c

unfoldable pub erase_screen : (start count : ℕ) → Console → Option Console
erase_screen start zero c = some c
erase_screen start (suc count) c =
    poke16 start c.erase c >>= λ c'. erase_screen (start + 2) count c'

-- The two bytes that `set_screen` and `set_cursor` send.
abbrev pub crt_bytes : ℕ → ℕ × ℕ
crt_bytes a = (sub32 a mem_base / 2 ^ 9 % 256, sub32 a mem_base / 2 % 256)

unfoldable pub set_screen : Console → Console
set_screen c = record c { crt_start = crt_bytes c.screen }

unfoldable pub set_cursor : Console → Console
set_cursor c = record c { crt_cursor = crt_bytes c.pos }
