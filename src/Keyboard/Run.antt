-- ===== src/Keyboard/Run.antt =====
-- The keys and locks of src/kernel/keyboard.c after a sequence of scan codes.
use neonix.Prelude.{
  ℕ, ◌%◌, ◌<◌, ◌≡◌, refl, ap, ◌∙◌, inl, inr, Bool, true, false, ◌&&◌, not, some, List, [], ◌∷◌, ltb,
  ◌==◌, if◌then◌else◌, Bool-cases, All,
}
use neonix.Keyboard.{Keyboard, key_capslock, key_numlock, key_scrlock, is_down, keyboard_run}
use neonix.Keyboard.Keys.{IsValid, agree}
use neonix.Keyboard.Track.{keyboard_handler-Step}

-- Whether a key is held after some scan codes: the last make or break code of the key decides, with
-- the prefix for the column `e`, without it for the other one. `prefixed` says that the prefix came
-- just before, and `b` whether the key was held.
unfoldable pub held : (e : Bool) → (key : ℕ) → (prefixed b : Bool) → List ℕ → Bool
held e key prefixed b [] = b
held e key prefixed b (code ∷ codes) =
    let b' = if agree prefixed e && code % 128 == key then ltb code 128 else b in
    let on = held e key true b codes in
    let off = held e key false b' codes in if code == 0xE0 then on else off

-- Whether a lock is on: every make code of its key turns it.
unfoldable pub locked : (key : ℕ) → (b : Bool) → List ℕ → Bool
locked key b [] = b
locked key b (code ∷ codes) = locked key (if code == key then not b else b) codes

-- The keys and locks of a state.
pub record Tracked (kb kb' : Keyboard) (codes : List ℕ) : Type 0 where
  pub keys :
      (e : Bool) (key : ℕ)
      → key < 96
      → is_down e key kb' ≡ held e key kb.extcode_state (is_down e key kb) codes
  pub capslock : kb'.capslock_state ≡ locked key_capslock kb.capslock_state codes
  pub numlock : kb'.numlock_state ≡ locked key_numlock kb.numlock_state codes
  pub scrlock : kb'.scrlock_state ≡ locked key_scrlock kb.scrlock_state codes

held-cons :
    (e : Bool) (key code : ℕ) (codes : List ℕ) (kb kb1 kb2 : Keyboard)
    → kb1.extcode_state ≡ (code == 0xE0)
    → is_down e key kb1 ≡ (
        if code == 0xE0
        then is_down e key kb
        else if agree kb.extcode_state e && code % 128 == key
        then ltb code 128
        else is_down e key kb)
    → is_down e key kb2 ≡ held e key kb1.extcode_state (is_down e key kb1) codes
    → is_down e key kb2 ≡ held e key kb.extcode_state (is_down e key kb) (code ∷ codes)
unfolding held
held-cons e key code codes kb kb1 kb2 x first rest = elim (Bool-cases (code == 0xE0)) [
  | inl prefix ↦ rest ∙ rw (first, x, prefix) refl
  | inr other ↦ rest ∙ rw (first, x, other) refl
]

-- The handler tracks the keys: from a valid state, every sequence of bytes from the keyboard is
-- handled without a fault; afterwards a key counts as pressed just if its last code with the
-- prefix, or without it, was a make code, each lock is turned as often as its key was pressed, and
-- the queue is valid.
pub keyboard_run-Tracked :
    (codes : List ℕ) (kb : Keyboard)
    → All (λ code. code < 256) codes
    → IsValid kb
    → (kb' : Keyboard) × (keyboard_run codes kb ≡ some kb') × Tracked kb kb' codes × IsValid kb'
unfolding keyboard_run held locked
keyboard_run-Tracked [] kb bytes v = (
  kb,
  refl,
  record { keys = λ e key lt. refl; capslock = refl; numlock = refl; scrlock = refl },
  v,
)
keyboard_run-Tracked (code ∷ codes) kb (small, bytes) v =
    let (kb1, run, step, v1) = keyboard_handler-Step code kb small v in
    let (kb2, run', tracked, v2) = keyboard_run-Tracked codes kb1 bytes v1 in
    (
      kb2,
      rw run run',
      record {
        keys = λ e key lt.
            held-cons e key code codes kb kb1 kb2 step.extcode (step.keys e key lt)
              (tracked.keys e key lt);
        capslock = tracked.capslock ∙ ap (λ b. locked key_capslock b codes) step.capslock;
        numlock = tracked.numlock ∙ ap (λ b. locked key_numlock b codes) step.numlock;
        scrlock = tracked.scrlock ∙ ap (λ b. locked key_scrlock b codes) step.scrlock;
      },
      v2,
    )
