-- ===== src/Keyboard/Keys.antt =====
-- The keys that src/kernel/keyboard.c takes for pressed, and its locks.
use mathlib.Core.Path.{subst}
use neonix.Prelude.{
  ℕ, ◌%◌, ◌<◌, ◌≡◌, refl, inl, inr, Bool, true, false, ◌&&◌, not, none, some, List, ◌++◌, arith,
  ltb, ◌==◌, if◌then◌else◌, Bool-cases, length, get_or, set, get_or-set_self, get_or-set_ne,
  get_elem?-eq-get_or,
}
use neonix.Fifo.Laws as FifoLaws
use neonix.Fifo.Put.{fifo_put-contents}
use neonix.Keyboard.{
  Keyboard, waiting_list, keymap, key_capslock, key_numlock, key_scrlock, is_down, set_down,
  set_leds, toggle_lock, key_char, tty_rx_notify, deliver, pass_on, press, ctrl_state,
}

-- What is kept when a character is passed on: the keys and the locks.
pub record Same (kb kb' : Keyboard) : Type 0 where
  pub down : kb'.down ≡ kb.down
  pub ext_down : kb'.ext_down ≡ kb.ext_down
  pub capslock : kb'.capslock_state ≡ kb.capslock_state
  pub numlock : kb'.numlock_state ≡ kb.numlock_state
  pub scrlock : kb'.scrlock_state ≡ kb.scrlock_state
  pub extcode : kb'.extcode_state ≡ kb.extcode_state

-- Both columns of `keymap` have all keys, and the queue is valid.
pub record IsValid (kb : Keyboard) : Type 0 where
  pub keys : length kb.down ≡ 96
  pub ext_keys : length kb.ext_down ≡ 96
  pub queue : FifoLaws.IsValid kb.fifo

pub Same-refl : (kb : Keyboard) → Same kb kb
Same-refl kb = record {
  down = refl;
  ext_down = refl;
  capslock = refl;
  numlock = refl;
  scrlock = refl;
  extcode = refl;
}

pub deliver-Same :
    (ch : ℕ) (kb : Keyboard)
    → FifoLaws.IsValid kb.fifo
    → (kb' : Keyboard) × (deliver ch kb ≡ some kb') × Same kb kb' × FifoLaws.IsValid kb'.fifo
unfolding deliver
deliver-Same ch kb v =
    let (f, put_, v', len, c) = fifo_put-contents kb.fifo ch v in
    (
      record kb { fifo = f; waiter = none; woken = kb.woken ++ waiting_list kb.waiter },
      rw put_ refl,
      record {
        down = refl;
        ext_down = refl;
        capslock = refl;
        numlock = refl;
        scrlock = refl;
        extcode = refl;
      },
      v',
    )

pub pass_on-Same :
    (ch : ℕ) (kb : Keyboard)
    → FifoLaws.IsValid kb.fifo
    → (kb' : Keyboard) × (pass_on ch kb ≡ some kb') × Same kb kb' × FifoLaws.IsValid kb'.fifo
unfolding pass_on
pass_on-Same ch kb v =
    let (ch', taken, notices) = tty_rx_notify ch (ctrl_state kb) in
    let noted = record kb { notices = kb.notices ++ notices } in
    elim (Bool-cases taken) [
      | inl yes_ ↦ (
        noted,
        rw yes_ refl,
        record {
          down = refl;
          ext_down = refl;
          capslock = refl;
          numlock = refl;
          scrlock = refl;
          extcode = refl;
        },
        v,
      )
      | inr no_ ↦
          let (kb', run, same, v') = deliver-Same ch' noted v in
          (
            kb',
            rw no_ run,
            record {
              down = same.down;
              ext_down = same.ext_down;
              capslock = same.capslock;
              numlock = same.numlock;
              scrlock = same.scrlock;
              extcode = same.extcode;
            },
            v',
          )
    ]

pub keymap-length : length keymap ≡ 96
keymap-length = refl

-- A press marks the key and turns a lock; what else it does leaves the keys alone.
pub press-Same :
    (ext : Bool) (key : ℕ) (kb : Keyboard)
    → key < 96
    → FifoLaws.IsValid (toggle_lock key (set_down ext key true kb)).fifo
    → (kb' : Keyboard) × (press ext key kb ≡ some kb')
      × Same (toggle_lock key (set_down ext key true kb)) kb'
      × FifoLaws.IsValid kb'.fifo
unfolding press
press-Same ext key kb lt v =
    let m = toggle_lock key (set_down ext key true kb) in
    let chars = get_elem?-eq-get_or keymap key (0, 0) (omega (arith, keymap-length)) in
    let ch = key_char ext key (get_or keymap key (0, 0)) m in
    elim (Bool-cases (ch == 0)) [
      | inl silent ↦ (m, rw (chars, silent) refl, Same-refl m, v)
      | inr loud ↦
          let (kb', run, same, v') = pass_on-Same ch m v in (kb', rw (chars, loud) run, same, v')
    ]

pub toggle_lock-fifo : (key : ℕ) (kb : Keyboard) → (toggle_lock key kb).fifo ≡ kb.fifo
unfolding toggle_lock set_leds
toggle_lock-fifo key kb = ground arith

pub set_down-fifo :
    (ext : Bool) (key : ℕ) (b : Bool) (kb : Keyboard) → (set_down ext key b kb).fifo ≡ kb.fifo
unfolding set_down
set_down-fifo true key b kb = refl
set_down-fifo false key b kb = refl

-- Do the prefix and the column belong together?
abbrev pub agree : (ext e : Bool) → Bool
agree ext e = if ext then e else not e

pub set_column :
    (l : List Bool) (code key : ℕ) (b : Bool)
    → code < length l
    → get_or (set l code b) key false ≡ (if code == key then b else get_or l key false)
set_column l code key b lt = elim (Bool-cases (code == key)) [
  | inl same ↦
      let e : code ≡ key = ground arith in
      rw same (subst (λ k. get_or (set l code b) k false ≡ b) e (get_or-set_self l code b false lt))
  | inr other ↦ rw other (get_or-set_ne l code key b false (ground arith))
]

pub set_down-is_down :
    (ext e : Bool) (code key : ℕ) (b : Bool) (kb : Keyboard)
    → length kb.down ≡ 96
    → length kb.ext_down ≡ 96
    → code < 96
    → is_down e key (set_down ext code b kb)
      ≡ (if agree ext e && code == key then b else is_down e key kb)
unfolding set_down is_down
set_down-is_down true true code key b kb n m lt = set_column kb.ext_down code key b (omega arith)
set_down-is_down true false code key b kb n m lt = refl
set_down-is_down false true code key b kb n m lt = refl
set_down-is_down false false code key b kb n m lt = set_column kb.down code key b (omega arith)

-- What a scan code does to the keys and locks.
pub record Step (code : ℕ) (kb kb' : Keyboard) : Type 0 where
  pub extcode : kb'.extcode_state ≡ (code == 0xE0)
  pub keys :
      (e : Bool) (key : ℕ)
      → key < 96
      → is_down e key kb' ≡ (
          if code == 0xE0
          then is_down e key kb
          else if agree kb.extcode_state e && code % 128 == key
          then ltb code 128
          else is_down e key kb)
  pub capslock :
      kb'.capslock_state
      ≡ (if code == key_capslock then not kb.capslock_state else kb.capslock_state)
  pub numlock :
      kb'.numlock_state ≡ (if code == key_numlock then not kb.numlock_state else kb.numlock_state)
  pub scrlock :
      kb'.scrlock_state ≡ (if code == key_scrlock then not kb.scrlock_state else kb.scrlock_state)
