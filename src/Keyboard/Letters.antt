-- ===== src/Keyboard/Letters.antt =====
-- The characters of the letter keys in src/kernel/keyboard.c.
use mathlib.Core.Path.{subst}
use neonix.Prelude.{
  ℕ, ◌-◌, ◌%◌, ◌≤◌, ◌<◌, ◌≡◌, refl, sym, ◌∙◌, ◌≢◌, inl, inr, Bool, true, false, ◌&&◌, ◌||◌, not,
  none, some, [], ◌++◌, arith, ltb, leb, ◌==◌, if◌then◌else◌, Bool-cases, get_elem?, get_or,
  get_elem?-eq-get_or, some_injective,
}
use neonix.Prelude.Words.{check_all, check_all_sound}
use neonix.Fifo.Window.{contents}
use neonix.Fifo.Put.{put_bounded, fifo_put-contents}
use neonix.Keyboard.{
  Keyboard, keymap, waiting_list, key_capslock, key_numlock, key_scrlock, key_ctrl_l, key_shift_l,
  key_shift_r, is_down, set_down, toggle_lock, shift_state, ctrl_state, shifted, key_char,
  tty_rx_notify, deliver, pass_on, press, key_code, keyboard_handler,
}
use neonix.Keyboard.Keys.{IsValid, set_down-is_down}

-- A letter key has the letter and its capital, and is no key of another kind.
row_test : (key : ℕ) → ℕ × ℕ → Bool
row_test key (low, high) =
    not (leb b'a' low && leb low b'z')
    || (high == low - 32)
      && (not (key == key_capslock) && not (key == key_numlock) && not (key == key_scrlock))
      && (not (key == key_ctrl_l) && not (key == key_shift_l) && not (key == key_shift_r))

letter_row : (key : ℕ) → Bool
letter_row key = row_test key (get_or keymap key (0, 0))

letter_rows : check_all letter_row 96 ≡ true
unfolding check_all letter_row row_test
letter_rows = refl

-- The keys that change the characters of other keys.
abbrev IsLetter : ℕ → Type 0
IsLetter low = (b'a' ≤ low) × (low ≤ b'z')

row_test_sound :
    (key low high : ℕ)
    → row_test key (low, high) ≡ true
    → IsLetter low
    → (high ≡ low - 32)
      × (key ≢ key_capslock)
      × (key ≢ key_numlock)
      × (key ≢ key_scrlock)
      × (key ≢ key_ctrl_l)
      × (key ≢ key_shift_l)
      × (key ≢ key_shift_r)
unfolding row_test
row_test_sound key low high row (a, z) =
    let letter : (leb b'a' low && leb low b'z') ≡ true = ground arith in
    let row' = rw letter at row in
    (
      ground arith,
      λ e. ground arith,
      λ e. ground arith,
      λ e. ground arith,
      λ e. ground arith,
      λ e. ground arith,
      λ e. ground arith,
    )

letter-row :
    (key low high : ℕ)
    → key < 96
    → get_elem? keymap key ≡ some (low, high)
    → IsLetter low
    → (high ≡ low - 32)
      × (key ≢ key_capslock)
      × (key ≢ key_numlock)
      × (key ≢ key_scrlock)
      × (key ≢ key_ctrl_l)
      × (key ≢ key_shift_l)
      × (key ≢ key_shift_r)
unfolding letter_row
letter-row key low high lt at letter =
    let same : get_or keymap key (0, 0) ≡ (low, high) =
      some_injective (sym (get_elem?-eq-get_or keymap key (0, 0) lt) ∙ at) in
    let row : row_test key (low, high) ≡ true =
      subst (λ r. row_test key r ≡ true) same (check_all_sound letter_row 96 key lt letter_rows) in
    row_test_sound key low high row letter

-- Pressing a letter key leaves the other keys and the locks alone.
is_down_other :
    (key k : ℕ) (e : Bool) (kb : Keyboard)
    → IsValid kb
    → key < 96
    → key ≢ k
    → is_down e k (set_down false key true kb) ≡ is_down e k kb
is_down_other key k true kb v lt ne = set_down-is_down false true key k true kb v.keys v.ext_keys lt
is_down_other key k false kb v lt ne =
    let other : key == k ≡ false = ground arith in
    set_down-is_down false false key k true kb v.keys v.ext_keys lt ∙ rw other refl

toggle_lock_other :
    (key : ℕ) (kb : Keyboard)
    → key ≢ key_capslock
    → key ≢ key_numlock
    → key ≢ key_scrlock
    → toggle_lock key kb ≡ kb
unfolding toggle_lock
toggle_lock_other key kb c n s =
    let c' : key == key_capslock ≡ false = ground arith in
    let n' : key == key_numlock ≡ false = ground arith in
    let s' : key == key_scrlock ≡ false = ground arith in rw (n', c', s') refl

-- The character that a letter key types: the capital just if one of shift and caps lock is on.
abbrev pub typed : (low : ℕ) → Keyboard → ℕ
typed low kb =
    if (if shift_state kb then not kb.capslock_state else kb.capslock_state) then low - 32 else low

typed-bounds : (low : ℕ) (kb : Keyboard) → IsLetter low → (65 ≤ typed low kb) × (typed low kb ≤ 122)
typed-bounds low kb (a, z) = ground arith

key_char-typed :
    (key low : ℕ) (d kb : Keyboard)
    → IsLetter low
    → shift_state d ≡ shift_state kb
    → d.capslock_state ≡ kb.capslock_state
    → key_char false key (low, low - 32) d ≡ typed low kb
unfolding key_char shifted
key_char-typed key low d kb (a, z) sh cp =
    let letter : (leb b'a' low && leb low b'z') ≡ true = ground arith in
    rw (letter, sh, cp)
      (elim (Bool-cases kb.capslock_state) [ inl on ↦ rw on refl | inr off ↦ rw off refl ])

tty_rx_notify_plain : (ch : ℕ) → ch ≢ b'\r' → tty_rx_notify ch false ≡ (ch, false, [])
unfolding tty_rx_notify
tty_rx_notify_plain ch ne = let other : ch == b'\r' ≡ false = ground arith in rw other refl

letter-shift :
    (key : ℕ) (kb : Keyboard)
    → IsValid kb
    → key < 96
    → key ≢ key_shift_l
    → key ≢ key_shift_r
    → shift_state (set_down false key true kb) ≡ shift_state kb
unfolding shift_state
letter-shift key kb v lt l r =
    rw
      (is_down_other key key_shift_l false kb v lt l, is_down_other key key_shift_r false kb v lt r)
      refl

letter-ctrl :
    (key : ℕ) (kb : Keyboard)
    → IsValid kb
    → key < 96
    → key ≢ key_ctrl_l
    → ctrl_state (set_down false key true kb) ≡ ctrl_state kb
unfolding ctrl_state
letter-ctrl key kb v lt l =
    rw (is_down_other key key_ctrl_l false kb v lt l, is_down_other key key_ctrl_l true kb v lt l)
      refl

-- A scan code without the highest bit that is no prefix.
plain_key :
    (key : ℕ)
    → key < 96
    → (key == 0xE0 ≡ false)
      × (key % 128 ≡ key)
      × (key == 0xB7 ≡ false)
      × (ltb 0x5F key ≡ false)
      × (leb 128 key ≡ false)
plain_key key lt = (ground arith, omega arith, ground arith, ground arith, ground arith)

positive : (n : ℕ) → 1 ≤ n → (n == 0) ≡ false
positive n le = ground arith

-- The press of a letter key, once its row of the table is known.
press-typed :
    (key low : ℕ) (kb : Keyboard)
    → IsValid kb
    → ctrl_state kb ≡ false
    → IsLetter low
    → toggle_lock key (set_down false key true kb) ≡ set_down false key true kb
    → key_char false key (low, low - 32) (set_down false key true kb) ≡ typed low kb
    → ctrl_state (set_down false key true kb) ≡ ctrl_state kb
    → get_elem? keymap key ≡ some (low, low - 32)
    → (kb' : Keyboard) × (press false key kb ≡ some kb')
      × (contents kb'.fifo ≡ put_bounded kb.fifo.length (contents kb.fifo) (typed low kb))
      × (kb'.woken ≡ kb.woken ++ waiting_list kb.waiter)
      × (kb'.waiter ≡ none)
unfolding press pass_on deliver set_down
press-typed key low kb v ctrl letter plain ch free at =
    let (big, little) = typed-bounds low kb letter in
    let loud = positive (typed low kb) (omega arith) in
    let note = tty_rx_notify_plain (typed low kb) (λ e. absurd (omega arith)) in
    let (f, put_, vf, len, c) = fifo_put-contents kb.fifo (typed low kb) v.queue in
    let d = set_down false key true kb in
    (
      record d {
        notices = d.notices ++ [];
        fifo = f;
        waiter = none;
        woken = d.woken ++ waiting_list d.waiter;
      },
      rw (plain, at, ch, loud, free, ctrl, note, put_) refl,
      c,
      refl,
      refl,
    )

-- A letter is typed: the press of a letter key, without the prefix and with no control key held,
-- is handled without a fault, puts the small letter or, just if one of shift and caps lock is on, the
-- capital at the end of the queue, and wakes the task that waits.
pub letter-typed :
    (key low high : ℕ) (kb : Keyboard)
    → IsValid kb
    → kb.extcode_state ≡ false
    → ctrl_state kb ≡ false
    → key < 96
    → get_elem? keymap key ≡ some (low, high)
    → b'a' ≤ low
    → low ≤ b'z'
    → (kb' : Keyboard) × (keyboard_handler key kb ≡ some kb')
      × (contents kb'.fifo ≡ put_bounded kb.fifo.length (contents kb.fifo) (typed low kb))
      × (kb'.woken ≡ kb.woken ++ waiting_list kb.waiter)
      × (kb'.waiter ≡ none)
unfolding keyboard_handler key_code set_down shift_state ctrl_state is_down
letter-typed key low high kb v x ctrl lt at a z =
    let (cap, nc, nn, ns, nl, nsl, nsr) = letter-row key low high lt at (a, z) in
    let kb0 = record kb { extcode_state = false } in
    let v0 : IsValid kb0 = record { keys = v.keys; ext_keys = v.ext_keys; queue = v.queue } in
    let d = set_down false key true kb0 in
    let (no_prefix, whole, no_print, legal, make) = plain_key key lt in
    let plain = toggle_lock_other key d nc nn ns in
    let ch = key_char-typed key low d kb0 (a, z) (letter-shift key kb0 v0 lt nsl nsr) refl in
    let (kb', run, c, w, n) =
      press-typed key low kb0 v0 ctrl (a, z) plain ch (letter-ctrl key kb0 v0 lt nl)
        (rw cap at at) in
    (kb', rw (no_prefix, x, whole, no_print, legal, make) run, c, w, n)
