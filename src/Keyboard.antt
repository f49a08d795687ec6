-- ===== src/Keyboard.antt =====
-- src/kernel/keyboard.c: the interrupt of the keyboard, from scan codes to characters, with
-- `tty_rx_notify` of src/kernel/tty.c. What the handler asks of other parts is recorded. `none` is an
-- access outside of `keymap`, or a fault of the queue.
pub mod Keys
pub mod Track
pub mod Run
pub mod Letters
pub mod Tests
use neonix.Prelude.{
  ℕ, ◌+◌, ◌*◌, ◌%◌, Bool, true, false, ◌&&◌, ◌||◌, not, Option, none, some, List, [], ◌∷◌, ◌++◌,
  ltb, leb, ◌==◌, if◌then◌else◌, get_elem?, get_or, set, replicate, ◌>>=◌, ◌>>◌,
}
use neonix.Fifo.{Fifo, fifo_init, fifo_put}

-- What the terminal does at a control key: it interrupts the tasks of its group, or clears the
-- screen.
pub data Notice : Type 0 where
  interrupt : Notice
  clear : Notice

-- `keymap[][2]` and `keymap[][3]`, the locks, `extcode_state`, the queue and `waiter`; and what was
-- sent to the LEDs, given to the terminal, and woken.
pub record Keyboard : Type 0 where
  pub down : List Bool
  pub ext_down : List Bool
  pub capslock_state : Bool
  pub scrlock_state : Bool
  pub numlock_state : Bool
  pub extcode_state : Bool
  pub fifo : Fifo
  pub waiter : Option ℕ
  pub leds : List ℕ
  pub notices : List Notice
  pub woken : List ℕ

-- `keymap[][0]` and `keymap[][1]`.
abbrev pub keymap : List (ℕ × ℕ)
keymap =
    (0, 0)
    ∷ (27, 27)
    ∷ (49, 33)
    ∷ (50, 64)
    ∷ (51, 35)
    ∷ (52, 36)
    ∷ (53, 37)
    ∷ (54, 94)
    ∷ (55, 38)
    ∷ (56, 42)
    ∷ (57, 40)
    ∷ (48, 41)
    ∷ (45, 95)
    ∷ (61, 43)
    ∷ (8, 8)
    ∷ (9, 9)
    ∷ (113, 81)
    ∷ (119, 87)
    ∷ (101, 69)
    ∷ (114, 82)
    ∷ (116, 84)
    ∷ (121, 89)
    ∷ (117, 85)
    ∷ (105, 73)
    ∷ (111, 79)
    ∷ (112, 80)
    ∷ (91, 123)
    ∷ (93, 125)
    ∷ (10, 10)
    ∷ (0, 0)
    ∷ (97, 65)
    ∷ (115, 83)
    ∷ (100, 68)
    ∷ (102, 70)
    ∷ (103, 71)
    ∷ (104, 72)
    ∷ (106, 74)
    ∷ (107, 75)
    ∷ (108, 76)
    ∷ (59, 58)
    ∷ (39, 34)
    ∷ (96, 126)
    ∷ (0, 0)
    ∷ (92, 124)
    ∷ (122, 90)
    ∷ (120, 88)
    ∷ (99, 67)
    ∷ (118, 86)
    ∷ (98, 66)
    ∷ (110, 78)
    ∷ (109, 77)
    ∷ (44, 60)
    ∷ (46, 62)
    ∷ (47, 63)
    ∷ (0, 0)
    ∷ (42, 42)
    ∷ (0, 0)
    ∷ (32, 32)
    ∷ (0, 0)
    ∷ (0, 0)
    ∷ (0, 0)
    ∷ (0, 0)
    ∷ (0, 0)
    ∷ (0, 0)
    ∷ (0, 0)
    ∷ (0, 0)
    ∷ (0, 0)
    ∷ (0, 0)
    ∷ (0, 0)
    ∷ (0, 0)
    ∷ (0, 0)
    ∷ (55, 0)
    ∷ (56, 0)
    ∷ (57, 0)
    ∷ (45, 45)
    ∷ (52, 0)
    ∷ (53, 0)
    ∷ (54, 0)
    ∷ (43, 43)
    ∷ (49, 0)
    ∷ (50, 0)
    ∷ (51, 0)
    ∷ (48, 0)
    ∷ (46, 127)
    ∷ (0, 0)
    ∷ (0, 0)
    ∷ (0, 0)
    ∷ (0, 0)
    ∷ (0, 0)
    ∷ (0, 0)
    ∷ (0, 0)
    ∷ (0, 0)
    ∷ (0, 0)
    ∷ (0, 0)
    ∷ (0, 0)
    ∷ (0, 0)
    ∷ []

abbrev pub key_ctrl_l : ℕ
key_ctrl_l = 0x1D

abbrev pub key_shift_l : ℕ
key_shift_l = 0x2A

abbrev pub key_slash : ℕ
key_slash = 0x35

abbrev pub key_shift_r : ℕ
key_shift_r = 0x36

abbrev pub key_alt_l : ℕ
key_alt_l = 0x38

abbrev pub key_capslock : ℕ
key_capslock = 0x3A

abbrev pub key_numlock : ℕ
key_numlock = 0x45

abbrev pub key_scrlock : ℕ
key_scrlock = 0x46

abbrev pub key_print_screen : ℕ
key_print_screen = 0x5F

abbrev pub code_print_screen_down : ℕ
code_print_screen_down = 0xB7

-- `keymap[key][2]` and `keymap[key][3]`.
unfoldable pub is_down : (ext : Bool) → (key : ℕ) → Keyboard → Bool
is_down ext key kb = get_or (if ext then kb.ext_down else kb.down) key false

unfoldable pub set_down : (ext : Bool) → (key : ℕ) → Bool → Keyboard → Keyboard
set_down ext key b kb =
    if ext
    then record kb { ext_down = set kb.ext_down key b }
    else record kb { down = set kb.down key b }

unfoldable pub ctrl_state : Keyboard → Bool
ctrl_state kb = is_down false key_ctrl_l kb || is_down true key_ctrl_l kb

unfoldable pub shift_state : Keyboard → Bool
shift_state kb = is_down false key_shift_l kb || is_down false key_shift_r kb

abbrev bit_of : Bool → ℕ
bit_of b = if b then 1 else 0

unfoldable pub set_leds : Keyboard → Keyboard
set_leds kb = record kb {
  leds =
      kb.leds
      ++ ((bit_of kb.capslock_state * 4 + bit_of kb.numlock_state * 2 + bit_of kb.scrlock_state)
          ∷ []);
}

unfoldable pub toggle_lock : (key : ℕ) → Keyboard → Keyboard
toggle_lock key kb =
    if key == key_numlock
    then set_leds (record kb { numlock_state = not kb.numlock_state })
    else if key == key_capslock
    then set_leds (record kb { capslock_state = not kb.capslock_state })
    else if key == key_scrlock
    then set_leds (record kb { scrlock_state = not kb.scrlock_state })
    else kb

-- The `shift` of the handler: of a key with the character `low` alone.
unfoldable pub shifted : (low : ℕ) → Keyboard → Bool
shifted low kb =
    let letter = kb.capslock_state && (leb b'a' low && leb low b'z') in
    if shift_state kb then not letter else letter

-- The character of a key, from its two characters.
unfoldable pub key_char : (ext : Bool) → (key : ℕ) → (ℕ × ℕ) → Keyboard → ℕ
key_char ext key (low, high) kb =
    if ext && not (key == key_slash) then high else if shifted low kb then high else low

-- The character for the reader, whether the terminal has taken it, and what the terminal does.
unfoldable pub tty_rx_notify : (ch : ℕ) → (ctrl : Bool) → ℕ × Bool × List Notice
tty_rx_notify ch ctrl =
    let ch' = if ch == b'\r' then b'\n' else ch in
    if not ctrl
    then (ch', false, [])
    else if ch' == b'c' || ch' == b'C'
    then (b'\n', false, interrupt ∷ [])
    else if ch' == b'l' || ch' == b'L'
    then (b'\r', false, clear ∷ [])
    else (ch', true, [])

abbrev pub waiting_list : Option ℕ → List ℕ
waiting_list none = []
waiting_list (some task) = task ∷ []

-- The end of the handler: the character is stored, and a task that waits is woken.
unfoldable pub deliver : (ch : ℕ) → Keyboard → Option Keyboard
deliver ch kb = do
  fifo ← fifo_put kb.fifo ch
  some (record kb { fifo = fifo; waiter = none; woken = kb.woken ++ waiting_list kb.waiter })

unfoldable pub pass_on : (ch : ℕ) → Keyboard → Option Keyboard
pass_on ch kb =
    let (ch', taken, notices) = tty_rx_notify ch (ctrl_state kb) in
    let kb' = record kb { notices = kb.notices ++ notices } in
    if taken then some kb' else deliver ch' kb'

-- A key is pressed.
unfoldable pub press : (ext : Bool) → (key : ℕ) → Keyboard → Option Keyboard
press ext key kb = do
  let kb' = toggle_lock key (set_down ext key true kb)
  chars ← get_elem? keymap key
  let ch = key_char ext key chars kb'
  if ch == 0 then some kb' else pass_on ch kb'

-- A scan code behind the prefix, or without one.
unfoldable pub key_code : (ext : Bool) → (scancode : ℕ) → Keyboard → Option Keyboard
key_code ext scancode kb =
    let code = scancode % 128 in
    let makecode = if code == code_print_screen_down then key_print_screen else code in
    if ltb key_print_screen makecode
    then some kb
    else if leb 128 scancode
    then some (set_down ext makecode false kb)
    else press ext makecode kb

-- A scan code is a byte.
unfoldable pub keyboard_handler : (scancode : ℕ) → Keyboard → Option Keyboard
keyboard_handler scancode kb =
    if scancode == 0xE0
    then some (record kb { extcode_state = true })
    else key_code kb.extcode_state scancode (record kb { extcode_state = false })

-- All LEDs are set once.
unfoldable pub keyboard_init : Keyboard
keyboard_init = set_leds (record {
  down = replicate 96 false;
  ext_down = replicate 96 false;
  capslock_state = false;
  scrlock_state = false;
  numlock_state = false;
  extcode_state = false;
  fifo = fifo_init (replicate 64 0) 64;
  waiter = none;
  leds = [];
  notices = [];
  woken = [];
})

-- The interrupts one after the other.
unfoldable pub keyboard_run : List ℕ → Keyboard → Option Keyboard
keyboard_run [] kb = some kb
keyboard_run (code ∷ codes) kb = keyboard_handler code kb >>= keyboard_run codes
