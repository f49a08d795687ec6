-- ===== src/Fifo/Window.antt =====
-- The bytes that a circular buffer holds, oldest first.
use neonix.Prelude.{
  ℕ, zero, suc, ◌+◌, ◌-◌, ◌≤◌, ◌<◌, ◌≡◌, refl, ap, ◌∙◌, List, [], ◌∷◌, ◌++◌, arith, ltb, leb, ◌==◌,
  if◌then◌else◌, length, get_or, set, get_or-set_self, get_or-set_ne,
}
use neonix.Fifo.{Fifo}

-- The place `i` steps behind `t`, for less than one turn.
abbrev pub place : ℕ → ℕ → ℕ → ℕ
place len t i = if ltb (t + i) len then t + i else t + i - len

-- The `n` bytes from step `i` on.
abbrev pub window : List ℕ → ℕ → ℕ → ℕ → ℕ → List ℕ
window buf len t i zero = []
window buf len t i (suc n) = get_or buf (place len t i) 0 ∷ window buf len t (i + 1) n

-- How many bytes are stored.
abbrev pub stored : Fifo → ℕ
stored f = if leb f.tail f.head then f.head - f.tail else f.head + f.length - f.tail

abbrev pub contents : Fifo → List ℕ
contents f = window f.buf f.length f.tail 0 (stored f)

pub length-window : (buf : List ℕ) (len t i n : ℕ) → length (window buf len t i n) ≡ n
length-window buf len t i zero = refl
length-window buf len t i (suc n) = ap suc (length-window buf len t (i + 1) n)

-- The same window seen from the next place.
pub window-shift :
    (buf : List ℕ) (len t i n : ℕ)
    → t < len
    → i + 1 + n ≤ len
    → window buf len t (i + 1) n ≡ window buf len (if t + 1 == len then 0 else t + 1) i n
window-shift buf len t i zero h b = refl
window-shift buf len t i (suc n) h b =
    ground (arith, window-shift buf len t (i + 1) n h (omega arith))

-- A window grows at its end.
pub window-suc :
    (buf : List ℕ) (len t i n j : ℕ)
    → i + n ≡ j
    → window buf len t i (suc n) ≡ window buf len t i n ++ get_or buf (place len t j) 0 ∷ []
window-suc buf len t i zero j e = let e' : i ≡ j = omega arith in rw e'
window-suc buf len t i (suc n) j e =
    ap (λ w. get_or buf (place len t i) 0 ∷ w) (window-suc buf len t (i + 1) n j (omega arith))

-- A write behind a window leaves it alone.
pub window-set :
    (buf : List ℕ) (len t i n k v : ℕ)
    → t < len
    → i + n ≤ k
    → k < len
    → window (set buf (place len t k) v) len t i n ≡ window buf len t i n
window-set buf len t i zero k v h a b = refl
window-set buf len t i (suc n) k v h a b = ground (
  arith,
  get_or-set_ne buf (place len t k) (place len t i) v 0 (ground arith),
  window-set buf len t (i + 1) n k v h (omega arith) b,
)

-- The oldest byte, and the rest from the next place.
pub window-cons :
    (buf : List ℕ) (len t n : ℕ)
    → t < len
    → suc n ≤ len
    → window buf len t 0 (suc n)
      ≡ get_or buf t 0 ∷ window buf len (if t + 1 == len then 0 else t + 1) 0 n
window-cons buf len t n h b = ground (arith, window-shift buf len t 0 n h (omega arith))

-- A write just behind a window makes it longer by that byte.
pub window-write :
    (buf : List ℕ) (len t n k v : ℕ)
    → k ≡ place len t n
    → t < len
    → n < len
    → k < length buf
    → window (set buf k v) len t 0 (suc n) ≡ window buf len t 0 n ++ v ∷ []
window-write buf len t n k v e h b room =
    let same : window (set buf k v) len t 0 n ≡ window buf len t 0 n =
      rw e (window-set buf len t 0 n n v h (omega arith) b) in
    let last : get_or (set buf k v) (place len t n) 0 ≡ v =
      rw (← e) (get_or-set_self buf k v 0 room) in
    window-suc (set buf k v) len t 0 n n (omega arith)
    ∙ ap (λ w. w ++ get_or (set buf k v) (place len t n) 0 ∷ []) same
    ∙ ap (λ b. window buf len t 0 n ++ b ∷ []) last
