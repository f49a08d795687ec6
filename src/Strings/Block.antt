-- ===== src/Strings/Block.antt =====
-- `memcpy` and `memcmp` of src/lib/string.c.
use neonix.Prelude.{
  ℕ, zero, suc, ◌+◌, ◌-◌, ◌<◌, ◌≡◌, refl, ◌∙◌, ◌↔◌, inl, inr, arith, ◌==◌, Bool-cases,
}
use neonix.Prelude.Int.{pos}
use neonix.Strings.{Memory, store, order, memcpy, memcmp}
use neonix.Strings.Copy.{Apart, SameOutside}
use neonix.Strings.Compare.{IsByte, order-eq_zero}

-- Blocks that lie apart: the copy holds the bytes of the source, in order, and no byte outside of
-- the copy changes.
pub memcpy-copies :
    (count dest src : ℕ) (m : Memory)
    → Apart count dest src
    → ((i : ℕ) → i < count → memcpy dest src count m (dest + i) ≡ m (src + i))
      × SameOutside count dest m (memcpy dest src count m)
unfolding memcpy store
memcpy-copies zero dest src m apart = (λ i lt. elim lt [ ], λ a out. refl)
memcpy-copies (suc count) dest src m apart =
    let m1 = store dest (m src) m in
    let (copied, same) = memcpy-copies count (dest + 1) (src + 1) m1 (ground arith) in
    (
      λ i lt. elim (Bool-cases (i == 0)) [
        | inl first ↦
            let d : dest + i ≡ dest = ground arith in
            let s : src + i ≡ src = ground arith in
            rw (d, s) (same dest (inl (omega arith)) ∙ ground arith)
        | inr later ↦
            let d : dest + i ≡ dest + 1 + (i - 1) = ground arith in
            let s : src + i ≡ src + 1 + (i - 1) = ground arith in
            rw (d, s) (copied (i - 1) (ground arith) ∙ ground arith)
      ],
      λ a out. same a (ground arith) ∙ ground arith,
    )

memcmp-step :
    (count lhs rhs : ℕ) (m : Memory)
    → IsByte (m lhs)
    → IsByte (m rhs)
    → memcmp lhs rhs (suc count) m ≡ pos 0
    → (m lhs ≡ m rhs) × (memcmp (lhs + 1) (rhs + 1) count m ≡ pos 0)
unfolding memcmp
memcmp-step count lhs rhs m bl br e = elim (Bool-cases (m lhs == m rhs)) [
  | inl same ↦ (ground arith, ground arith)
  | inr differ ↦
      let z : order (m lhs) (m rhs) ≡ pos 0 = ground arith in
      let at = order-eq_zero (m lhs) (m rhs) bl br z in absurd (ground arith)
]

-- For memory that holds bytes, `memcmp` returns 0 just when the two blocks agree.
pub memcmp-eq_iff :
    (count lhs rhs : ℕ) (m : Memory)
    → ((a : ℕ) → IsByte (m a))
    → (memcmp lhs rhs count m ≡ pos 0) ↔ ((i : ℕ) → i < count → m (lhs + i) ≡ m (rhs + i))
unfolding memcmp
memcmp-eq_iff zero lhs rhs m bytes = (λ e i lt. elim lt [ ], λ f. refl)
memcmp-eq_iff (suc count) lhs rhs m bytes =
    let ih = memcmp-eq_iff count (lhs + 1) (rhs + 1) m bytes in
    (
      λ e i lt.
          let (at, rest) = memcmp-step count lhs rhs m (bytes lhs) (bytes rhs) e in
          elim (Bool-cases (i == 0)) [
            | inl first ↦
                let l : lhs + i ≡ lhs = ground arith in
                let r : rhs + i ≡ rhs = ground arith in rw (l, r) at
            | inr later ↦
                let l : lhs + i ≡ lhs + 1 + (i - 1) = ground arith in
                let r : rhs + i ≡ rhs + 1 + (i - 1) = ground arith in
                rw (l, r) (ih.0 rest (i - 1) (ground arith))
          ],
      λ f.
          let at = f 0 (omega arith) in
          let rest = ih.1 (λ i lt.
            let l : lhs + 1 + i ≡ lhs + suc i = omega arith in
            let r : rhs + 1 + i ≡ rhs + suc i = omega arith in
            rw (l, r) (f (suc i) (omega arith))) in
          let h : m lhs ≡ m rhs = ground (arith, at) in ground arith,
    )
