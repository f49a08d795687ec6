-- ===== src/Pipe/Flow.antt =====
-- A pipe of src/fs/pipe.c loses, repeats and reorders nothing, never stops at an assert, and does not
-- leave both tasks asleep.
use neonix.Prelude.{
  ℕ, ◌≡◌, refl, sym, ap, ◌∙◌, inl, inr, true, false, ◌&&◌, Option, some, List, [], ◌∷◌, ◌++◌, arith,
  ◌==◌, if◌then◌else◌, Bool-cases,
}
use mathlib.Core.Path.{subst}
use neonix.Fifo.{Fifo, fifo_full, fifo_empty}
use neonix.Fifo.Window.{window, stored, contents}
use neonix.Fifo.Laws.{IsValid, fifo_empty-eq, fifo_full-eq}
use neonix.Pipe.{
  Point, top, woken, System, read_byte, read_block, read_step, write_byte, write_block, write_step,
  read, write, Reach, here, next,
}
use neonix.Pipe.Sound.{
  IsSound, read_byte-IsSound, write_byte-IsSound, read_block-IsSound, write_block-IsSound,
}

-- A run has one result.
run_once : {o : Option System} {s t : System} → o ≡ some s → o ≡ some t → s ≡ t
run_once p q = cc

module _ (sent : List ℕ) where
  read_top :
      (s : System)
      → IsSound sent s
      → s.reader.blocked ≡ false
      → (s' : System) × ((if fifo_empty s.fifo then read_block s else read_byte s) ≡ some s')
        × IsSound sent s'
  read_top s i up = elim (Bool-cases (fifo_empty s.fifo)) [
    | inl e ↦ rw e (read_block-IsSound sent s i up e)
    | inr e ↦ rw e (read_byte-IsSound sent s i up e)
  ]

  -- A reader that may run takes its step, at no assert, and the pipe stays sound.
  pub read_step-IsSound :
      (s : System)
      → IsSound sent s
      → s.reader.blocked ≡ false
      → (s' : System) × (read_step s ≡ some s') × IsSound sent s'
  unfolding read_step
  read_step-IsSound s i up = elim (Bool-cases (s.reader.left == 0)) [
    | inl done ↦ (s, rw done, i)
    | inr more ↦ rw more (go s.reader.at refl)
  ]
    where
      go :
          (p : Point)
          → s.reader.at ≡ p
          → (s' : System) × ((elim s.reader.at [
            | top ↦ if fifo_empty s.fifo then read_block s else read_byte s
            | woken ↦ read_byte s
          ])
              ≡ some s')
            × IsSound sent s'
      go top e = rw e (read_top s i up)
      go woken e = rw e (read_byte-IsSound sent s i up (sym (rw e at i.reader_ok) ∙ up))

  write_top :
      (s : System) (x : ℕ) (rest : List ℕ)
      → IsSound sent s
      → s.writer.todo ≡ x ∷ rest
      → s.writer.blocked ≡ false
      → (s' : System) × ((if fifo_full s.fifo then write_block s else write_byte s x rest)
          ≡ some s')
        × IsSound sent s'
  write_top s x rest i more up = elim (Bool-cases (fifo_full s.fifo)) [
    | inl e ↦ rw e (write_block-IsSound sent s i up e)
    | inr e ↦ rw e (write_byte-IsSound sent s x rest i more up e)
  ]

  -- So does a writer.
  pub write_step-IsSound :
      (s : System)
      → IsSound sent s
      → s.writer.blocked ≡ false
      → (s' : System) × (write_step s ≡ some s') × IsSound sent s'
  unfolding write_step
  write_step-IsSound s i up = go s.writer.todo refl s.writer.at refl
    where
      go :
          (w : List ℕ)
          → s.writer.todo ≡ w
          → (p : Point) → s.writer.at ≡ p
          → (s' : System) × (write_step s ≡ some s') × IsSound sent s'
      go [] d p e = (s, simp (d, write_step), i)
      go (x ∷ rest) d top e = rw (d, e, write_step) (write_top s x rest i d up)
      go (x ∷ rest) d woken e =
          rw (d, e, write_step)
            (write_byte-IsSound sent s x rest i d up (sym (rw e at i.writer_ok) ∙ up))

  -- Every step of either task keeps the pipe sound: its buffer and flags, and that the bytes read,
  -- the bytes stored and the bytes still to write make up, in this order, all that was sent.
  pub Reach-IsSound : {s t : System} → IsSound sent s → Reach s t → IsSound sent t
  Reach-IsSound i here = i
  Reach-IsSound i (next {t} r (read up run)) =
      let (t', run', i') = read_step-IsSound t (Reach-IsSound i r) up in
      subst (IsSound sent) (run_once run' run) i'
  Reach-IsSound i (next {t} r (write up run)) =
      let (t', run', i') = write_step-IsSound t (Reach-IsSound i r) up in
      subst (IsSound sent) (run_once run' run) i'

  asleep_reader : (s : System) → IsSound sent s → s.reader.blocked ≡ true → fifo_empty s.fifo ≡ true
  asleep_reader s i b = go s.reader.at refl
    where
      go : (p : Point) → s.reader.at ≡ p → fifo_empty s.fifo ≡ true
      go top e = let awake : s.reader.blocked ≡ false = rw e at i.reader_ok in cc
      go woken e = sym (rw e at i.reader_ok) ∙ b

  asleep_writer : (s : System) → IsSound sent s → s.writer.blocked ≡ true → fifo_full s.fifo ≡ true
  asleep_writer s i b = go s.writer.at refl
    where
      go : (p : Point) → s.writer.at ≡ p → fifo_full s.fifo ≡ true
      go top e = let awake : s.writer.blocked ≡ false = rw e at i.writer_ok in cc
      go woken e = sym (rw e at i.writer_ok) ∙ b

  -- In a sound pipe the reader and the writer never sleep both.
  pub never_both_asleep :
      (s : System) → IsSound sent s → (s.reader.blocked && s.writer.blocked) ≡ false
  never_both_asleep s i = elim (Bool-cases (s.reader.blocked)) [
    | inr awake ↦ rw awake
    | inl r ↦ elim (Bool-cases (s.writer.blocked)) [
      | inr awake ↦ ground arith
      | inl w ↦
          let e = sym (fifo_empty-eq s.fifo i.valid) ∙ asleep_reader s i r in
          let f = sym (fifo_full-eq s.fifo i.valid) ∙ asleep_writer s i w in
          absurd (ground (arith, i.valid.two))
    ]
  ]

-- The state in which both calls start, on an empty pipe.
abbrev pub start : Fifo → ℕ → List ℕ → System
start f count sent = record {
  fifo = f;
  rxwaiter = false;
  txwaiter = false;
  reader = record { at = top; blocked = false; got = []; left = count };
  writer = record { at = top; blocked = false; todo = sent };
}

start-IsSound :
    (f : Fifo) (count : ℕ) (sent : List ℕ)
    → IsValid f
    → fifo_empty f ≡ true
    → IsSound sent (start f count sent)
start-IsSound f count sent v e = record {
  valid = v;
  rx = refl;
  tx = refl;
  reader_ok = refl;
  writer_ok = refl;
  flow =
      let none_stored : stored f ≡ 0 = ground (arith, fifo_empty-eq f v) in
      ap (λ n. window f.buf f.length f.tail 0 n ++ sent) none_stored;
}

-- Whatever the order in which a reader and a writer run on a pipe that was empty and valid: what
-- was read, what is stored and what is still to be written make up what was sent, in order; and
-- the two tasks never sleep both.
pub pipe_flow :
    (f : Fifo) (count : ℕ) (sent : List ℕ) (s : System)
    → IsValid f
    → fifo_empty f ≡ true
    → Reach (start f count sent) s
    → (s.reader.got ++ (contents s.fifo ++ s.writer.todo) ≡ sent)
      × ((s.reader.blocked && s.writer.blocked) ≡ false)
pipe_flow f count sent s v e r =
    let i = Reach-IsSound sent (start-IsSound f count sent v e) r in
    (i.flow, never_both_asleep sent s i)

-- In every state that is reached from a pipe that was empty and valid, a reader that does not
-- sleep takes its next step: no assert of `pipe_read` and `fifo_get` fails.
pub pipe_read_runs :
    (f : Fifo) (count : ℕ) (sent : List ℕ) (s : System)
    → IsValid f
    → fifo_empty f ≡ true
    → Reach (start f count sent) s
    → s.reader.blocked ≡ false
    → (s' : System) × (read_step s ≡ some s')
pipe_read_runs f count sent s v e r up =
    let i = Reach-IsSound sent (start-IsSound f count sent v e) r in
    let (s', run, i') = read_step-IsSound sent s i up in (s', run)

-- In every state that is reached from a pipe that was empty and valid, a writer that does not
-- sleep takes its next step: no assert of `pipe_write` and `fifo_put` fails.
pub pipe_write_runs :
    (f : Fifo) (count : ℕ) (sent : List ℕ) (s : System)
    → IsValid f
    → fifo_empty f ≡ true
    → Reach (start f count sent) s
    → s.writer.blocked ≡ false
    → (s' : System) × (write_step s ≡ some s')
pipe_write_runs f count sent s v e r up =
    let i = Reach-IsSound sent (start-IsSound f count sent v e) r in
    let (s', run, i') = write_step-IsSound sent s i up in (s', run)
