-- ===== src/Keyboard/Track.antt =====
-- The keys and locks of src/kernel/keyboard.c after one scan code.
use mathlib.Core.Path.{subst}
use neonix.Prelude.{
  ℕ, ◌%◌, ◌<◌, ◌≡◌, refl, sym, ap, ◌∙◌, inl, inr, Bool, true, false, ◌&&◌, not, some, arith, ltb,
  leb, ◌==◌, if◌then◌else◌, Bool-cases, length, length-set,
}
use neonix.Fifo.Laws as FifoLaws
use neonix.Keyboard.{
  Keyboard, key_capslock, key_numlock, key_scrlock, key_print_screen, code_print_screen_down,
  is_down, set_down, set_leds, toggle_lock, key_code, keyboard_handler,
}
use neonix.Keyboard.Keys.{IsValid, Step, agree, toggle_lock-fifo, set_down-is_down, press-Same}

pub set_down-IsValid :
    (ext : Bool) (key : ℕ) (b : Bool) (kb : Keyboard) → IsValid kb → IsValid (set_down ext key b kb)
unfolding set_down
set_down-IsValid true key b kb v = record {
  keys = v.keys;
  ext_keys = length-set kb.ext_down key b ∙ v.ext_keys;
  queue = v.queue;
}
set_down-IsValid false key b kb v = record {
  keys = length-set kb.down key b ∙ v.keys;
  ext_keys = v.ext_keys;
  queue = v.queue;
}

-- A lock key changes its lock, and no keys.
record Turned (key : ℕ) (kb kb' : Keyboard) : Type 0 where
  down : kb'.down ≡ kb.down
  ext_down : kb'.ext_down ≡ kb.ext_down
  extcode : kb'.extcode_state ≡ kb.extcode_state
  capslock :
      kb'.capslock_state
      ≡ (if key == key_capslock then not kb.capslock_state else kb.capslock_state)
  numlock :
      kb'.numlock_state ≡ (if key == key_numlock then not kb.numlock_state else kb.numlock_state)
  scrlock :
      kb'.scrlock_state ≡ (if key == key_scrlock then not kb.scrlock_state else kb.scrlock_state)

toggle_lock-Turned : (key : ℕ) (kb : Keyboard) → Turned key kb (toggle_lock key kb)
unfolding toggle_lock set_leds
toggle_lock-Turned key kb = record {
  down = ground arith;
  ext_down = ground arith;
  extcode = ground arith;
  capslock = ground arith;
  numlock = ground arith;
  scrlock = ground arith;
}

set_down-kept :
    (ext : Bool) (key : ℕ) (b : Bool) (kb : Keyboard)
    → ((set_down ext key b kb).extcode_state ≡ kb.extcode_state)
      × ((set_down ext key b kb).capslock_state ≡ kb.capslock_state)
      × ((set_down ext key b kb).numlock_state ≡ kb.numlock_state)
      × ((set_down ext key b kb).scrlock_state ≡ kb.scrlock_state)
unfolding set_down
set_down-kept true key b kb = (refl, refl, refl, refl)
set_down-kept false key b kb = (refl, refl, refl, refl)

-- The columns decide whether a key is down.
is_down-same :
    (e : Bool) (key : ℕ) (kb kb' : Keyboard)
    → kb'.down ≡ kb.down
    → kb'.ext_down ≡ kb.ext_down
    → is_down e key kb' ≡ is_down e key kb
unfolding is_down
is_down-same true key kb kb' d x = rw x refl
is_down-same false key kb kb' d x = rw d refl

and_false : (b : Bool) → (b && false) ≡ false
and_false true = refl
and_false false = refl

-- The keys after a change of one of them.
keys_set :
    (ext e b : Bool) (code key : ℕ) (kb kb' : Keyboard)
    → (code == 0xE0) ≡ false
    → ltb code 128 ≡ b
    → is_down e key kb' ≡ (if agree ext e && code % 128 == key then b else is_down e key kb)
    → is_down e key kb' ≡ (
        if code == 0xE0
        then is_down e key kb
        else if agree ext e && code % 128 == key
        then ltb code 128
        else is_down e key kb)
keys_set ext e b code key kb kb' no_prefix now h = rw (no_prefix, now) h

turn_at :
    (k code lock : ℕ) {b b' : Bool}
    → k ≡ code
    → b ≡ b'
    → (if k == lock then not b else b) ≡ (if code == lock then not b' else b')
turn_at k code lock e h = rw (e, h) refl

-- The result of `key_code` for a scan code, and its effect.
Answer : (ext : Bool) → (code : ℕ) → Keyboard → Type 0
Answer ext code kb =
    (kb' : Keyboard) × (key_code ext code (record kb { extcode_state = false }) ≡ some kb')
    × Step code (record kb { extcode_state = ext }) kb'
    × IsValid kb'

module _ (ext : Bool) (code : ℕ) (kb : Keyboard) (v : IsValid (record kb { extcode_state = false }))
    (no_prefix : (code == 0xE0) ≡ false) (legal : ltb key_print_screen (code % 128) ≡ false)
    (no_print : code % 128 == code_print_screen_down ≡ false) where
  break-Step : code < 256 → leb 128 code ≡ true → Answer ext code kb
  unfolding Answer key_code
  break-Step small break_ =
      let kb0 = record kb { extcode_state = false } in
      let kb' = set_down ext (code % 128) false kb0 in
      let (x, c, n, s) = set_down-kept ext (code % 128) false kb0 in
      (
        kb',
        rw (no_print, legal, break_) refl,
        record {
          extcode = x ∙ sym no_prefix;
          keys = λ e key lt.
              keys_set ext e false code key (record kb { extcode_state = ext }) kb' no_prefix
                (ground arith)
                (set_down-is_down ext e (code % 128) key false kb0 v.keys v.ext_keys (ground arith)
                  ∙ rw
                      (
                        is_down-same e key kb kb0 refl refl,
                        is_down-same e key kb (record kb { extcode_state = ext }) refl refl,
                      )
                      refl);
          capslock = (let other : code == key_capslock ≡ false = ground arith in rw other c);
          numlock = (let other : code == key_numlock ≡ false = ground arith in rw other n);
          scrlock = (let other : code == key_scrlock ≡ false = ground arith in rw other s);
        },
        set_down-IsValid ext (code % 128) false kb0 v,
      )

  make-Step : leb 128 code ≡ false → Answer ext code kb
  unfolding Answer key_code
  make-Step make =
      let kb0 = record kb { extcode_state = false } in
      let k = code % 128 in
      let whole : k ≡ code = ground arith in
      let d = set_down ext k true kb0 in
      let m = toggle_lock k d in
      let vd = set_down-IsValid ext k true kb0 v in
      let (x, c, n, s) = set_down-kept ext k true kb0 in
      let turned = toggle_lock-Turned k d in
      let queue = subst FifoLaws.IsValid (sym (toggle_lock-fifo k d)) vd.queue in
      let (kb', run, same, v') = press-Same ext k kb0 (ground arith) queue in
      (
        kb',
        rw (no_print, legal, make) run,
        record {
          extcode = same.extcode ∙ turned.extcode ∙ x ∙ sym no_prefix;
          keys = λ e key lt.
              keys_set ext e true code key (record kb { extcode_state = ext }) kb' no_prefix
                (ground arith)
                (is_down-same e key m kb' same.down same.ext_down
                  ∙ is_down-same e key d m turned.down turned.ext_down
                  ∙ set_down-is_down ext e k key true kb0 v.keys v.ext_keys (ground arith)
                  ∙ rw
                      (
                        is_down-same e key kb kb0 refl refl,
                        is_down-same e key kb (record kb { extcode_state = ext }) refl refl,
                      )
                      refl);
          capslock = same.capslock ∙ turned.capslock ∙ turn_at k code key_capslock whole c;
          numlock = same.numlock ∙ turned.numlock ∙ turn_at k code key_numlock whole n;
          scrlock = same.scrlock ∙ turned.scrlock ∙ turn_at k code key_scrlock whole s;
        },
        record {
          keys = ap length (same.down ∙ turned.down) ∙ vd.keys;
          ext_keys = ap length (same.ext_down ∙ turned.ext_down) ∙ vd.ext_keys;
          queue = v';
        },
      )

-- A scan code other than the prefix.
key_code-Step :
    (ext : Bool) (code : ℕ) (kb : Keyboard)
    → code < 256
    → (code == 0xE0) ≡ false
    → IsValid (record kb { extcode_state = false })
    → Answer ext code kb
unfolding Answer key_code
key_code-Step ext code kb small no_prefix v =
    let kb0 = record kb { extcode_state = false } in
    let no_print : code % 128 == code_print_screen_down ≡ false = ground arith in
    elim (Bool-cases (ltb key_print_screen (code % 128))) [
      | inl illegal ↦ (
        kb0,
        rw (no_print, illegal) refl,
        record {
          extcode = sym no_prefix;
          keys = λ e key lt.
              (let other : code % 128 == key ≡ false = ground arith in
                rw (no_prefix, other, and_false (agree ext e))
                  (is_down-same e key (record kb { extcode_state = ext }) kb0 refl refl));
          capslock = (let other : code == key_capslock ≡ false = ground arith in rw other refl);
          numlock = (let other : code == key_numlock ≡ false = ground arith in rw other refl);
          scrlock = (let other : code == key_scrlock ≡ false = ground arith in rw other refl);
        },
        v,
      )
      | inr legal ↦ elim (Bool-cases (leb 128 code)) [
        | inl break_ ↦ break-Step ext code kb v no_prefix legal no_print small break_
        | inr make ↦ make-Step ext code kb v no_prefix legal no_print make
      ]
    ]

pub keyboard_handler-Step :
    (code : ℕ) (kb : Keyboard)
    → code < 256
    → IsValid kb
    → (kb' : Keyboard) × (keyboard_handler code kb ≡ some kb') × Step code kb kb' × IsValid kb'
unfolding keyboard_handler Answer
keyboard_handler-Step code kb small v = elim (Bool-cases (code == 0xE0)) [
  | inl prefix ↦
      let kb' = record kb { extcode_state = true } in
      let e : code ≡ 0xE0 = ground arith in
      (
        kb',
        rw prefix refl,
        record {
          extcode = sym prefix;
          keys = λ e key lt. rw prefix (is_down-same e key kb kb' refl refl);
          capslock = (let other : code == key_capslock ≡ false = ground arith in rw other refl);
          numlock = (let other : code == key_numlock ≡ false = ground arith in rw other refl);
          scrlock = (let other : code == key_scrlock ≡ false = ground arith in rw other refl);
        },
        record { keys = v.keys; ext_keys = v.ext_keys; queue = v.queue },
      )
  | inr other ↦
      let (kb', run, step, v') =
        key_code-Step kb.extcode_state code kb small other
          (record { keys = v.keys; ext_keys = v.ext_keys; queue = v.queue }) in
      (kb', rw other run, step, v')
]
