-- ===== src/Fifo/Tests.antt =====
-- src/lib/fifo.c at a buffer of three bytes, and its theorems there.
use neonix.Prelude.{ℕ, ◌≡◌, refl, none, some, [], ◌∷◌, arith}
use neonix.Fifo.{Fifo, fifo_next, fifo_init, fifo_full, fifo_empty, fifo_get, make_room, fifo_put}
use neonix.Fifo.Window.{contents}
use neonix.Fifo.Laws.{IsValid, fifo_get-contents}
use neonix.Fifo.Put.{put_bounded, fifo_put-contents}

-- Full, and round the end of the buffer: 8, then 9.
abbrev wrapped : Fifo
wrapped = record { buf = 9 ∷ 7 ∷ 8 ∷ []; length = 3; head = 1; tail = 2 }

wrapped-IsValid : IsValid wrapped
wrapped-IsValid = omega arith

contents-wrapped : contents wrapped ≡ 8 ∷ 9 ∷ []
contents-wrapped = refl

fifo_put_drops :
    fifo_put wrapped 5 ≡ some (record { buf = 9 ∷ 5 ∷ 8 ∷ []; length = 3; head = 2; tail = 0 })
unfolding fifo_put make_room fifo_get fifo_full fifo_empty fifo_next
fifo_put_drops = refl

fifo_get_empty : fifo_get (fifo_init (0 ∷ 0 ∷ []) 2) ≡ none
unfolding fifo_get fifo_init fifo_empty
fifo_get_empty = refl

fifo_get-contents_example :
    (x : ℕ) × (f' : Fifo) × (fifo_get wrapped ≡ some (x, f'))
    × IsValid f'
    × (contents wrapped ≡ x ∷ contents f')
    × (f'.length ≡ 3)
unfolding fifo_empty
fifo_get-contents_example = fifo_get-contents wrapped wrapped-IsValid refl

fifo_put-contents_example :
    (f' : Fifo) × (fifo_put wrapped 5 ≡ some f')
    × IsValid f'
    × (f'.length ≡ 3)
    × (contents f' ≡ put_bounded 3 (contents wrapped) 5)
fifo_put-contents_example = fifo_put-contents wrapped 5 wrapped-IsValid
