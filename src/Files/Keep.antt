-- ===== src/Files/Keep.antt =====
-- Every operation of src/fs/file.c keeps the tables valid.
use neonix.Prelude.{
  ℕ, ◌+◌, ◌-◌, ◌^◌, ◌<◌, ◌≡◌, refl, ◌∙◌, inl, inr, true, false, none, some, [], ◌∷◌, ◌++◌, arith,
  ltb, ◌==◌, if◌then◌else◌, Bool-cases, get_elem?, set, length-set, get_elem?-eq-get_or,
}
use neonix.Prelude.Words.{add32}
use neonix.Files.{File, Table, has_inode, put_file, task_put_fd, close_at, count_up, dup_to}
use neonix.Files.Refs.{
  refs, refs-set, holds-le-refs, refs-le-length, holds_self, holds_ne, no_file, file_at, IsValid,
  update-IsValid,
}

module _ (others : ℕ → ℕ) (t : Table) (v : IsValid others t) where
  -- A file that a descriptor refers to is in the table, in use, and has an inode.
  pub held-lt : (p i : ℕ) → get_elem? t.fds p ≡ some (some i) → i < 128
  held-lt p i e =
      let h = holds-le-refs i t.fds p (some i) e in
      let s = holds_self i in
      elim (Bool-cases (ltb i 128)) [
        | inl lt ↦ ground arith
        | inr ge ↦ let z = v.known i (ground arith) in absurd (omega arith)
      ]

  pub held-refs : (p i : ℕ) → get_elem? t.fds p ≡ some (some i) → 0 < refs i t.fds
  held-refs p i e = omega (arith, holds-le-refs i t.fds p (some i) e, holds_self i)

  pub file_at-eq : (i : ℕ) → i < 128 → get_elem? t.files i ≡ some (file_at t i)
  file_at-eq i lt = get_elem?-eq-get_or t.files i no_file (omega (arith, v.places))

  -- `close` of an open descriptor succeeds.
  pub close_at-open :
      (p i : ℕ)
      → p < 16
      → get_elem? t.fds p ≡ some (some i)
      → (t' : Table) × (close_at p (some i) t ≡ some t')
        × IsValid others t'
        × (t'.fds ≡ set t.fds p none)
        × (t'.files ≡ set t.files i (record (file_at t i) { count = (file_at t i).count - 1 }))
        × (t'.iputs
            ≡ (if (file_at t i).count == 1 then t.iputs ++ (file_at t i).inode ∷ [] else t.iputs))
  unfolding close_at put_file task_put_fd
  close_at-open p i lp e =
      let li = held-lt p i e in
      let r = held-refs p i e in
      let c = v.counted i li in
      let b = v.backed i (omega arith) in
      let f = file_at-eq i li in
      let nz : (file_at t i).count == 0 ≡ false = ground arith in
      let lp' : ltb p 16 ≡ true = ground arith in
      (
        _,
        rw (f, b, nz, lp') refl,
        update-IsValid others t i (record (file_at t i) { count = (file_at t i).count - 1 })
            (set t.fds p none) _ v li (length-set t.fds p none ∙ v.slots)
            (λ g ne. omega (arith, refs-set g t.fds p none (some i) e, holds_ne g i ne))
            (omega (arith, refs-set i t.fds p none (some i) e, holds_self i)) (λ q. b),
        refl,
        refl,
        refl,
      )

  count-small : (i : ℕ) → i < 128 → (file_at t i).count + 1 < 2 ^ 32
  count-small i li = omega (arith, v.counted i li, refs-le-length i t.fds, v.small i, v.slots)

  -- `dupfd` of an open file to a free descriptor succeeds.
  pub dup_to-free :
      (p i arg : ℕ)
      → get_elem? t.fds p ≡ some (some i)
      → get_elem? t.fds arg ≡ some none
      → (t' : Table) × (dup_to i (some arg) t ≡ some (arg, t'))
        × IsValid others t'
        × (t'.fds ≡ set t.fds arg (some i))
        × (t'.files ≡ set t.files i (record (file_at t i) { count = (file_at t i).count + 1 }))
  unfolding dup_to count_up
  dup_to-free p i arg e free =
      let li = held-lt p i e in
      let r = held-refs p i e in
      let c = v.counted i li in
      let b = v.backed i (omega arith) in
      let f = file_at-eq i li in
      let small = count-small i li in
      let up : add32 (file_at t i).count 1 ≡ (file_at t i).count + 1 = omega arith in
      (
        _,
        rw (f, up) refl,
        update-IsValid others t i (record (file_at t i) { count = (file_at t i).count + 1 })
            (set t.fds arg (some i)) t.iputs v li (length-set t.fds arg (some i) ∙ v.slots)
            (λ g ne. omega (arith, refs-set g t.fds arg (some i) none free, holds_ne g i ne))
            (omega (arith, refs-set i t.fds arg (some i) none free, holds_self i)) (λ q. b),
        refl,
        refl,
      )

  -- A new offset leaves the references alone.
  pub move-IsValid :
      (i to : ℕ)
      → i < 128
      → IsValid others (record t { files = set t.files i (record (file_at t i) { offset = to }) })
  move-IsValid i to li =
      update-IsValid others t i (record (file_at t i) { offset = to }) t.fds t.iputs v li v.slots
        (λ g ne. refl) (v.counted i li) (v.backed i)

  -- A file that nobody has open is opened by a free descriptor.
  pub open-IsValid :
      (i fd : ℕ) (g : File)
      → i < 128
      → (file_at t i).count ≡ 0
      → get_elem? t.fds fd ≡ some none
      → g.count ≡ 1
      → has_inode g ≡ true
      → IsValid others (record t { files = set t.files i g; fds = set t.fds fd (some i) })
  open-IsValid i fd g li zero_count free one inode =
      let c = v.counted i li in
      update-IsValid others t i g (set t.fds fd (some i)) t.iputs v li
        (length-set t.fds fd (some i) ∙ v.slots)
        (λ h ne. omega (arith, refs-set h t.fds fd (some i) none free, holds_ne h i ne))
        (omega (arith, refs-set i t.fds fd (some i) none free, holds_self i)) (λ q. inode)
