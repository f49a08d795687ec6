-- ===== src/Keyboard/Tests.antt =====
-- The keyboard after its start: a capital letter, and the keys that are held.
use neonix.Prelude.{ℕ, ◌≡◌, refl, false, none, some, List, [], ◌∷◌, ◌++◌, arith, get_elem?, ◌>>=◌}
use neonix.Fifo.{fifo_init, fifo_put, make_room, fifo_full, fifo_next}
use neonix.Fifo.Window.{contents}
use neonix.Fifo.Put.{put_bounded}
use neonix.Keyboard.{
  Keyboard, waiting_list, keyboard_init, set_leds, set_down, toggle_lock, is_down, ctrl_state,
  shift_state, shifted, key_char, tty_rx_notify, deliver, pass_on, press, key_code,
  keyboard_handler, keyboard_run,
}
use neonix.Keyboard.Keys.{IsValid}
use neonix.Keyboard.Run.{Tracked, keyboard_run-Tracked}
use neonix.Keyboard.Letters.{typed, letter-typed}

keyboard_init-IsValid : IsValid keyboard_init
unfolding keyboard_init set_leds fifo_init
keyboard_init-IsValid = record {
  keys = refl;
  ext_keys = refl;
  queue = record {
    two = omega arith;
    small = omega arith;
    room = omega arith;
    head_in = omega arith;
    tail_in = omega arith;
  };
}

-- Shift and the key of the letter a.
abbrev codes : List ℕ
codes = 0x2A ∷ 0x1E ∷ []

capital : (do kb ← keyboard_run codes keyboard_init; get_elem? (contents kb.fifo) 0) ≡ some b'A'
unfolding keyboard_run keyboard_handler key_code press set_down toggle_lock key_char shifted
    shift_state is_down ctrl_state pass_on tty_rx_notify deliver fifo_put make_room fifo_full
    fifo_next keyboard_init set_leds fifo_init
capital = refl

keyboard_run-Tracked_example :
    (kb : Keyboard) × (keyboard_run codes keyboard_init ≡ some kb)
    × Tracked keyboard_init kb codes
    × IsValid kb
keyboard_run-Tracked_example =
    keyboard_run-Tracked codes keyboard_init (omega arith, (omega arith, tt)) keyboard_init-IsValid

no_ctrl : ctrl_state keyboard_init ≡ false
unfolding ctrl_state is_down keyboard_init set_leds
no_ctrl = refl

no_prefix : keyboard_init.extcode_state ≡ false
unfolding keyboard_init set_leds
no_prefix = refl

letter-typed_example :
    (kb : Keyboard) × (keyboard_handler 0x1E keyboard_init ≡ some kb)
    × (contents kb.fifo
        ≡ put_bounded keyboard_init.fifo.length
            (contents keyboard_init.fifo)
            (typed 97 keyboard_init))
    × (kb.woken ≡ keyboard_init.woken ++ waiting_list keyboard_init.waiter)
    × (kb.waiter ≡ none)
letter-typed_example =
    letter-typed 0x1E 97 65 keyboard_init keyboard_init-IsValid no_prefix no_ctrl (omega arith) refl
      (omega arith) (omega arith)
