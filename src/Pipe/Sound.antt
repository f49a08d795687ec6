-- ===== src/Pipe/Sound.antt =====
-- What holds of a pipe of src/fs/pipe.c between two steps, and that each part of a step keeps it.
use neonix.Prelude.{
  ℕ, ◌+◌, ◌-◌, ◌≡◌, refl, sym, ap, ◌∙◌, true, false, some, List, [], ◌∷◌, ◌++◌, append_assoc, arith,
  ◌==◌, if◌then◌else◌, length, length-append,
}
use neonix.Fifo.{Fifo, fifo_full, fifo_empty, fifo_get, fifo_put}
use neonix.Fifo.Window.{contents}
use neonix.Fifo.Laws.{IsValid, fifo_empty-eq, fifo_full-eq, fifo_get-contents, stored-lt}
use neonix.Fifo.Put.{put_bounded, length-contents, fifo_put-contents}
use neonix.Pipe.{top, woken, System, read_byte, read_block, write_byte, write_block}

-- A task that stands behind `task_block` sleeps, or its condition holds.
abbrev pub ReaderOk : System → Type 0
ReaderOk s = elim s.reader.at [
  | top ↦ s.reader.blocked ≡ false
  | woken ↦ s.reader.blocked ≡ fifo_empty s.fifo
]

abbrev pub WriterOk : System → Type 0
WriterOk s = elim s.writer.at [
  | top ↦ s.writer.blocked ≡ false
  | woken ↦ s.writer.blocked ≡ fifo_full s.fifo
]

-- `sent` is all that the writer was given.
pub record IsSound (sent : List ℕ) (s : System) : Type 0 where
  pub valid : IsValid s.fifo
  pub rx : s.rxwaiter ≡ s.reader.blocked
  pub tx : s.txwaiter ≡ s.writer.blocked
  pub reader_ok : ReaderOk s
  pub writer_ok : WriterOk s
  pub flow : s.reader.got ++ (contents s.fifo ++ s.writer.todo) ≡ sent

get_not_full :
    (f : Fifo)
    → IsValid f
    → fifo_empty f ≡ false
    → (x : ℕ) × (f' : Fifo) × (fifo_get f ≡ some (x, f'))
      × IsValid f'
      × (contents f ≡ x ∷ contents f')
      × (fifo_full f' ≡ false)
get_not_full f v e =
    let (x, f', run, v', c, len) = fifo_get-contents f v e in
    let short = ap length c in
    (
      x,
      f',
      run,
      v',
      c,
      fifo_full-eq f' v' ∙ ground (arith, length-contents f, length-contents f', stored-lt f v),
    )

put_not_empty :
    (f : Fifo) (x : ℕ)
    → IsValid f
    → fifo_full f ≡ false
    → (f' : Fifo) × (fifo_put f x ≡ some f')
      × IsValid f'
      × (contents f' ≡ contents f ++ x ∷ [])
      × (fifo_empty f' ≡ false)
unfolding put_bounded
put_not_empty f x v e =
    let (f', run, v', len, c) = fifo_put-contents f x v in
    let room : (length (contents f) + 1 == f.length) ≡ false =
      rw (length-contents f) (sym (fifo_full-eq f v) ∙ e) in
    let c' : contents f' ≡ contents f ++ x ∷ [] = rw room at c in
    (
      f',
      run,
      v',
      c',
      fifo_empty-eq f' v'
          ∙ ground (arith, length-contents f', ap length c', length-append (contents f) (x ∷ [])),
    )

module _ (sent : List ℕ) where
  pub read_byte-IsSound :
      (s : System)
      → IsSound sent s
      → s.reader.blocked ≡ false
      → fifo_empty s.fifo ≡ false
      → (s' : System) × (read_byte s ≡ some s') × IsSound sent s'
  unfolding read_byte
  read_byte-IsSound s i up e =
      let (x, f', run, v', c, free) = get_not_full s.fifo i.valid e in
      (
        record s {
          fifo = f';
          txwaiter = false;
          reader = record (s.reader) {
            at = top;
            got = s.reader.got ++ x ∷ [];
            left = s.reader.left - 1;
          };
          writer = record (s.writer) { blocked = if s.txwaiter then false else s.writer.blocked };
        },
        rw run,
        record {
          valid = v';
          rx = i.rx;
          tx = ground (arith, i.tx);
          reader_ok = up;
          writer_ok = ground (arith, i.tx, i.writer_ok);
          flow =
              append_assoc s.reader.got (x ∷ []) (contents f' ++ s.writer.todo)
              ∙ ap (λ q. s.reader.got ++ (q ++ s.writer.todo)) (sym c)
              ∙ i.flow;
        },
      )

  pub write_byte-IsSound :
      (s : System) (x : ℕ) (rest : List ℕ)
      → IsSound sent s
      → s.writer.todo ≡ x ∷ rest
      → s.writer.blocked ≡ false
      → fifo_full s.fifo ≡ false
      → (s' : System) × (write_byte s x rest ≡ some s') × IsSound sent s'
  unfolding write_byte
  write_byte-IsSound s x rest i more up e =
      let (f', run, v', c, some_byte) = put_not_empty s.fifo x i.valid e in
      (
        record s {
          fifo = f';
          rxwaiter = false;
          reader = record (s.reader) { blocked = if s.rxwaiter then false else s.reader.blocked };
          writer = record (s.writer) { at = top; todo = rest };
        },
        rw run,
        record {
          valid = v';
          rx = ground (arith, i.rx);
          tx = i.tx;
          reader_ok = ground (arith, i.rx, i.reader_ok);
          writer_ok = up;
          flow =
              ap (λ q. s.reader.got ++ (q ++ rest)) c
              ∙ ap (λ w. s.reader.got ++ w) (append_assoc (contents s.fifo) (x ∷ []) rest)
              ∙ ap (λ w. s.reader.got ++ (contents s.fifo ++ w)) (sym more)
              ∙ i.flow;
        },
      )

  pub read_block-IsSound :
      (s : System)
      → IsSound sent s
      → s.reader.blocked ≡ false
      → fifo_empty s.fifo ≡ true
      → (s' : System) × (read_block s ≡ some s') × IsSound sent s'
  unfolding read_block
  read_block-IsSound s i up e = (
    record s { rxwaiter = true; reader = record (s.reader) { at = woken; blocked = true } },
    ground (arith, i.rx),
    record {
      valid = i.valid;
      rx = refl;
      tx = i.tx;
      reader_ok = sym e;
      writer_ok = i.writer_ok;
      flow = i.flow;
    },
  )

  pub write_block-IsSound :
      (s : System)
      → IsSound sent s
      → s.writer.blocked ≡ false
      → fifo_full s.fifo ≡ true
      → (s' : System) × (write_block s ≡ some s') × IsSound sent s'
  unfolding write_block
  write_block-IsSound s i up e = (
    record s { txwaiter = true; writer = record (s.writer) { at = woken; blocked = true } },
    ground (arith, i.tx),
    record {
      valid = i.valid;
      rx = i.rx;
      tx = refl;
      reader_ok = i.reader_ok;
      writer_ok = sym e;
      flow = i.flow;
    },
  )
