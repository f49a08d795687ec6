-- ===== src/Console/Text.antt =====
-- Plain text that fits the line appears on the screen as it is.
use neonix.Prelude.{
  ℕ, zero, suc, ◌+◌, ◌*◌, ◌≤◌, ◌<◌, ◌≡◌, refl, ◌∙◌, some, List, [], ◌∷◌, arith, ◌==◌, if◌then◌else◌,
  length, get_or, All,
}
use neonix.Prelude.Words.{add32}
use neonix.Console.{Console, nor, width, poke}
use neonix.Console.Screen.{wrap_line, chr, state_normal}
use neonix.Console.Input.{write_char, write_all}
use neonix.Console.Memory.{IsValid}

abbrev pub IsPlain : ℕ → Type 0
IsPlain ch = (0x20 ≤ ch) × (ch < 0x7F)

-- The console after one plain character in the line.
abbrev pub shown : ℕ → Console → Console
shown ch c = record c {
  mem = λ b. if b == c.pos + 1 then c.style else if b == c.pos then ch else c.mem b;
  pos = c.pos + 2;
  x = c.x + 1;
}

chr-shown : (ch : ℕ) (c : Console) → IsValid c → c.x < width → chr ch c ≡ some (shown ch c)
unfolding chr wrap_line poke
chr-shown ch c v inside =
    let e : add32 c.pos 2 ≡ c.pos + 2 = omega (arith, v.low, v.high) in
    ground (arith, v.low, v.high)

write_char-shown :
    (ch : ℕ) (c : Console)
    → IsValid c
    → c.state ≡ nor
    → IsPlain ch
    → c.x < width
    → write_char ch c ≡ some (shown ch c)
unfolding write_char state_normal
write_char-shown ch c v s p inside = ground (arith, chr-shown ch c v inside)

-- What a text in the line leaves: its characters from the cursor on, in the style, and all else as
-- it was.
pub record Printed (buf : List ℕ) (c c' : Console) : Type 0 where
  pub column : c'.x ≡ c.x + length buf
  pub line : c'.y ≡ c.y
  pub cursor : c'.pos ≡ c.pos + 2 * length buf
  pub text : (i : ℕ) → i < length buf → c'.mem (c.pos + 2 * i) ≡ get_or buf i 0
  pub look : (i : ℕ) → i < length buf → c'.mem (c.pos + 2 * i + 1) ≡ c.style
  pub front : (a : ℕ) → a < c.pos → c'.mem a ≡ c.mem a
  pub back : (a : ℕ) → c.pos + 2 * length buf ≤ a → c'.mem a ≡ c.mem a

shown-IsValid : (ch : ℕ) (c : Console) → IsValid c → c.x < width → IsValid (shown ch c)
shown-IsValid ch c v inside = ground (arith, v.low, v.high)

Printed-cons :
    (ch : ℕ) (rest : List ℕ) (c c' : Console)
    → Printed rest (shown ch c) c'
    → Printed (ch ∷ rest) c c'
Printed-cons ch rest c c' p = record {
  column = omega (arith, p.column);
  line = p.line;
  cursor = omega (arith, p.cursor);
  text = text;
  look = look;
  front = λ a h. p.front a (omega arith) ∙ ground arith;
  back = λ a h. p.back a (omega arith) ∙ ground arith;
}
  where
    text : (i : ℕ) → i < length (ch ∷ rest) → c'.mem (c.pos + 2 * i) ≡ get_or (ch ∷ rest) i 0
    text zero h = p.front (c.pos + 2 * 0) (omega arith) ∙ ground arith
    text (suc i) h =
        let e : c.pos + 2 * suc i ≡ c.pos + 2 + 2 * i = omega arith in rw e (p.text i (omega arith))

    look : (i : ℕ) → i < length (ch ∷ rest) → c'.mem (c.pos + 2 * i + 1) ≡ c.style
    look zero h = p.front (c.pos + 2 * 0 + 1) (omega arith) ∙ ground arith
    look (suc i) h =
        let e : c.pos + 2 * suc i + 1 ≡ c.pos + 2 + 2 * i + 1 = omega arith in
        rw e (p.look i (omega arith))

-- A text of plain characters that fits the rest of the line is written as it is: its characters
-- stand from the cursor on, in the current style, the cursor stands behind them in the same line,
-- and no other byte of the memory changes.
pub write_all-Printed :
    (buf : List ℕ) (c : Console)
    → IsValid c
    → c.state ≡ nor
    → All IsPlain buf
    → c.x + length buf ≤ width
    → (c' : Console) × (write_all buf c ≡ some c') × Printed buf c c'
unfolding write_all
write_all-Printed [] c v s plain fits = (
  c,
  refl,
  record {
    column = omega arith;
    line = refl;
    cursor = omega arith;
    text = λ i h. elim h [ ];
    look = λ i h. elim h [ ];
    front = λ a h. refl;
    back = λ a h. refl;
  },
)
write_all-Printed (ch ∷ rest) c v s plain fits =
    let (c', run, p) =
      write_all-Printed rest (shown ch c) (shown-IsValid ch c v (omega arith)) s plain.1
        (omega arith) in
    (c', rw (write_char-shown ch c v s plain.0 (omega arith)) run, Printed-cons ch rest c c' p)
