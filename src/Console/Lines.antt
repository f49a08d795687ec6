-- ===== src/Console/Lines.antt =====
-- The commands of src/kernel/console.c that erase, insert and delete lines keep the console valid.
use neonix.Prelude.{
  ℕ, zero, suc, ◌+◌, ◌-◌, ◌*◌, ◌/◌, ◌%◌, ◌≤◌, ◌<◌, ◌≡◌, refl, inl, inr, Option, arith, ltb, leb,
  ◌==◌, Bool-cases,
}
use neonix.Prelude.Words.{add32, sub32}
use neonix.Console.{Console, mem_base, mem_end, width, row_size, scr_size}
use neonix.Console.Csi.{arg_at, csi_J, csi_K, times, move_down, insert_line, move_up, delete_line}
use neonix.Console.Memory.{OnlyMem, IsValid, Keeps, memcpy-OnlyMem, erase-OnlyMem}

-- A change of the memory alone keeps a console valid.
pub OnlyMem-Keeps : (c : Console) (o : Option Console) → IsValid c → OnlyMem c o → Keeps o
OnlyMem-Keeps c o v (m, run) = (record c { mem = m }, run, v)

pub csi_J-IsValid : (c : Console) → IsValid c → Keeps (csi_J c)
unfolding csi_J
csi_J-IsValid c v = elim (Bool-cases (arg_at c 0 == 0)) [
  | inl zero_arg ↦ rw zero_arg (
      OnlyMem-Keeps c _ v (
        erase-OnlyMem c.pos (sub32 (add32 c.screen scr_size) c.pos / 2) c
          (omega (arith, v.low, v.high)) (omega (arith, v.low, v.high))))
  | inr a ↦ rw a (elim (Bool-cases (arg_at c 0 == 1)) [
    | inl one_arg ↦ rw one_arg (
        OnlyMem-Keeps c _ v (
          erase-OnlyMem c.screen (sub32 c.pos c.screen / 2) c v.low (omega (arith, v.low, v.high))))
    | inr b ↦ rw b (elim (Bool-cases (arg_at c 0 == 2)) [
      | inl two_arg ↦ rw two_arg (
          OnlyMem-Keeps c _ v
            (erase-OnlyMem c.screen (scr_size / 2) c v.low (omega (arith, v.high))))
      | inr other ↦ rw other (c, refl, v)
    ])
  ])
]

pub csi_K-IsValid : (c : Console) → IsValid c → Keeps (csi_K c)
unfolding csi_K
csi_K-IsValid c v = elim (Bool-cases (arg_at c 0 == 0)) [
  | inl zero_arg ↦ rw zero_arg (
      OnlyMem-Keeps c _ v (
        erase-OnlyMem c.pos (sub32 width c.x) c (omega (arith, v.low, v.high))
          (omega (arith, v.low, v.high))))
  | inr a ↦ rw a (elim (Bool-cases (arg_at c 0 == 1)) [
    | inl one_arg ↦ rw one_arg (
        OnlyMem-Keeps c _ v (
          erase-OnlyMem (sub32 c.pos (2 * c.x)) c.x c (omega (arith, v.low, v.high))
            (omega (arith, v.low, v.high))))
    | inr b ↦ rw b (elim (Bool-cases (arg_at c 0 == 2)) [
      | inl two_arg ↦ rw two_arg (
          OnlyMem-Keeps c _ v (
            erase-OnlyMem (sub32 c.pos (2 * c.x)) width c (omega (arith, v.low, v.high))
              (omega (arith, v.low, v.high))))
      | inr other ↦ rw other (c, refl, v)
    ])
  ])
]

pub times-IsValid :
    (nr : ℕ) (op : Console → Option Console)
    → ((c : Console) → IsValid c → Keeps (op c))
    → (c : Console) → IsValid c
    → Keeps (times nr op c)
unfolding times
times-IsValid zero op keep c v = (c, refl, v)
times-IsValid (suc nr) op keep c v =
    let (c1, run, v1) = keep c v in
    let (c2, run', v2) = times-IsValid nr op keep c1 v1 in (c2, rw run run', v2)

-- The rounds left cover the rows between the source and the start.
move_down-OnlyMem :
    (fuel i start : ℕ) (c : Console)
    → mem_base ≤ start
    → 2 ≤ i
    → i ≤ 103
    → i + fuel ≡ 104
    → OnlyMem c (move_down fuel i start c)
unfolding move_down
move_down-OnlyMem zero i start c low two top e = absurd (omega arith)
move_down-OnlyMem (suc fuel) i start c low two top e =
    elim (Bool-cases (ltb (sub32 mem_end (i * row_size)) start)) [
      | inl stop ↦ (c.mem, rw stop)
      | inr go ↦
          let (m, run) =
            memcpy-OnlyMem (add32 (sub32 mem_end (i * row_size)) row_size)
              (sub32 mem_end (i * row_size)) row_size c (ground arith) (ground arith) (ground arith)
              (ground arith) in
          let more : i ≤ 102 = ground arith in
          let (m', run') =
            move_down-OnlyMem fuel (i + 1) start (record c { mem = m }) low (omega arith)
              (omega arith) (omega arith) in
          (m', rw (go, run) run')
    ]

pub insert_line-IsValid : (c : Console) → IsValid c → Keeps (insert_line c)
unfolding insert_line
insert_line-IsValid c v =
    let (m, run) =
      move_down-OnlyMem 102 2 (add32 c.screen (c.y * row_size)) c
        (omega (arith, v.low, v.high, v.line)) (omega arith) (omega arith) (omega arith) in
    let (m', run') =
      erase-OnlyMem (add32 c.screen (c.y * row_size)) width (record c { mem = m })
        (omega (arith, v.low, v.high, v.line)) (omega (arith, v.low, v.high, v.line)) in
    (record c { mem = m' }, rw run run', v)

move_up-OnlyMem :
    (fuel i start : ℕ) (c : Console)
    → mem_base ≤ start
    → start ≤ mem_end
    → (start - mem_base) % row_size ≡ 0
    → 1 ≤ i
    → i ≤ 52
    → i + fuel ≡ 103
    → OnlyMem c (move_up fuel i start c)
unfolding move_up
move_up-OnlyMem zero i start c low high rows one top e = absurd (omega arith)
move_up-OnlyMem (suc fuel) i start c low high rows one top e =
    elim (Bool-cases (leb mem_end (add32 start (2 * (i * row_size))))) [
      | inl stop ↦ (c.mem, rw stop)
      | inr go ↦
          let src = add32 start (2 * (i * row_size)) in
          let inside : start + 320 * i < mem_end = ground arith in
          let (m, run) =
            memcpy-OnlyMem (sub32 src row_size) src row_size c (omega arith) (omega arith)
              (omega arith) (omega arith) in
          let (m', run') =
            move_up-OnlyMem fuel (i + 1) start (record c { mem = m }) low high rows (omega arith)
              (omega arith) (omega arith) in
          (m', rw (go, run) run')
    ]

pub delete_line-IsValid : (c : Console) → IsValid c → Keeps (delete_line c)
unfolding delete_line
delete_line-IsValid c v =
    let (m, run) =
      move_up-OnlyMem 102 1 (add32 c.screen (c.y * row_size)) c
        (omega (arith, v.low, v.high, v.line)) (omega (arith, v.low, v.high, v.line))
        (omega (arith, v.low, v.high, v.line, v.aligned)) (omega arith) (omega arith)
        (omega arith) in
    let (m', run') =
      erase-OnlyMem (sub32 mem_end row_size) width (record c { mem = m }) (omega arith)
        (omega arith) in
    (record c { mem = m' }, rw run run', v)
