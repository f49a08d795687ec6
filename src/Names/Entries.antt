-- ===== src/Names/Entries.antt =====
-- The entries of a directory after a name is added or removed by src/fs/namei.c.
use mathlib.Core.Path.{subst}
use neonix.Prelude.{
  ℕ, zero, suc, ◌≤◌, ◌≡◌, refl, ap, inl, inr, true, false, ◌&&◌, not, none, some, List, [], ◌∷◌,
  append-nil, arith, ◌==◌, if◌then◌else◌, Bool-cases, length, take, All, some_injective,
}
use neonix.Names.{Dentry, match_name, is_some}
use neonix.Names.Counts.{Plain}
use neonix.Names.Match.{same_name, match_name_lem, lookup}
use neonix.Names.Changes.{entry_index, set_nr, cut_name, put_name}

-- The first entry in use with a name is freed.
unfoldable pub forget : (c : List ℕ) → List Dentry → List Dentry
forget c [] = []
forget c (e ∷ entries) =
    let rest = forget c entries in
    if same_name c e.name && not (e.nr == 0) then record e { nr = 0 } ∷ entries else e ∷ rest

-- A name for an inode takes the first free entry, or one more.
unfoldable pub enlist : (c : List ℕ) (nr : ℕ) → List Dentry → List Dentry
enlist c nr [] = record { nr = nr; name = c } ∷ []
enlist c nr (e ∷ entries) =
    let rest = enlist c nr entries in
    if e.nr == 0 then record { nr = nr; name = c } ∷ entries else e ∷ rest

-- A whole name matches just the entry of that name.
pub is_some-match_name :
    (c e : List ℕ) → Plain c → Plain e → is_some (match_name c e) ≡ same_name c e
is_some-match_name c e pc pe =
    let whole =
      subst (λ q. match_name q e ≡ (if same_name c e then some [] else none)) (append-nil c)
        (match_name_lem c e [] pc pe tt) in
    elim (Bool-cases (same_name c e)) [
      | inl same ↦ rw (whole, same) refl
      | inr other ↦ rw (whole, other) refl
    ]

-- `entry->nr = 0` on the entry that is found removes the name.
pub set_nr-entry_index :
    (c : List ℕ) (entries : List Dentry)
    → Plain c
    → All (λ e. Plain e.name) entries
    → set_nr (entry_index c entries) 0 entries ≡ forget c entries
unfolding set_nr entry_index forget
set_nr-entry_index c [] pc a = refl
set_nr-entry_index c (e ∷ entries) pc (p, a) =
    let rest = set_nr-entry_index c entries pc a in
    let here = is_some-match_name c e.name pc p in
    elim (Bool-cases (same_name c e.name && not (e.nr == 0))) [
      | inl found ↦ rw (here, found) refl
      | inr other ↦ rw (here, other) (ap (λ l. e ∷ l) rest)
    ]

-- A name that fits is stored as it is.
take-short : (n : ℕ) (c : List ℕ) → length c ≤ n → take n c ≡ c
take-short zero [] le = refl
take-short zero (x ∷ c) le = absurd (omega arith)
take-short (suc n) [] le = refl
take-short (suc n) (x ∷ c) le = ap (λ l. x ∷ l) (take-short n c (omega arith))

pub set_nr-put_name :
    (c : List ℕ) (nr : ℕ) (entries : List Dentry)
    → length c ≤ 13
    → set_nr (put_name c entries).0 nr (put_name c entries).1 ≡ enlist c nr entries
unfolding set_nr put_name cut_name enlist
set_nr-put_name c nr [] le = rw (take-short 13 c le) refl
set_nr-put_name c nr (e ∷ entries) le =
    let rest = set_nr-put_name c nr entries le in
    elim (Bool-cases (e.nr == 0)) [
      | inl free ↦ rw (free, take-short 13 c le) refl
      | inr used ↦ rw used (ap (λ l. e ∷ l) rest)
    ]

pub lookup-used :
    (c : List ℕ) (entries : List Dentry) (e : Dentry)
    → lookup c entries ≡ some e
    → (e.nr == 0) ≡ false
unfolding lookup
lookup-used c [] e h = absurd cc
lookup-used c (x ∷ entries) e h = elim (Bool-cases (same_name c x.name && not (x.nr == 0))) [
  | inl found ↦
      let same : x ≡ e = some_injective (rw found at h) in
      subst (λ q. (q.nr == 0) ≡ false) same (ground arith)
  | inr other ↦ lookup-used c entries e (rw other at h)
]

same_name-eq : (c e : List ℕ) → same_name c e ≡ true → c ≡ e
same_name-eq [] [] h = refl
same_name-eq [] (r ∷ e) h = absurd cc
same_name-eq (l ∷ c) [] h = absurd cc
same_name-eq (l ∷ c) (r ∷ e) h =
    let first : l ≡ r = ground arith in
    let rest : same_name c e ≡ true = ground arith in rw (first, same_name-eq c e rest) refl

pub same_name_self : (c : List ℕ) → same_name c c ≡ true
same_name_self [] = refl
same_name_self (l ∷ c) = let here : l == l ≡ true = ground arith in rw (here, same_name_self c) refl

-- A name that is missing is not the first entry, and missing in the rest.
lookup-tail :
    (c : List ℕ) (e : Dentry) (entries : List Dentry)
    → lookup c (e ∷ entries) ≡ none
    → (same_name c e.name && not (e.nr == 0) ≡ false) × (lookup c entries ≡ none)
unfolding lookup
lookup-tail c e entries h = elim (Bool-cases (same_name c e.name && not (e.nr == 0))) [
  | inl found ↦ (let x = rw found at h in absurd cc)
  | inr other ↦ (other, rw other at h)
]

-- A name that an entry in use has is not a missing one.
other_name :
    (c d : List ℕ) (e : Dentry)
    → same_name c e.name && not (e.nr == 0) ≡ false
    → (e.nr == 0) ≡ false
    → same_name d e.name ≡ true
    → same_name d c ≡ false
other_name c d e here busy h = elim (Bool-cases (same_name d c)) [
  | inr other ↦ other
  | inl same ↦
      let h' : same_name c e.name ≡ true =
        subst (λ q. same_name q e.name ≡ true) (same_name-eq d c same) h in
      absurd (let x = rw (h', busy) at here in cc)
]

-- After a name is added, it is found, and every other name as before.
pub lookup-enlist :
    (c d : List ℕ) (nr : ℕ) (entries : List Dentry)
    → (nr == 0) ≡ false
    → lookup c entries ≡ none
    → lookup d (enlist c nr entries)
      ≡ (if same_name d c then some (record { nr = nr; name = c }) else lookup d entries)
unfolding lookup enlist
lookup-enlist c d nr [] used missing = elim (Bool-cases (same_name d c)) [
  | inl same ↦ rw (same, used) refl
  | inr other ↦ rw other refl
]
lookup-enlist c d nr (e ∷ entries) used missing =
    let (here, missing') = lookup-tail c e entries missing in
    let rest = lookup-enlist c d nr entries used missing' in
    elim (Bool-cases (e.nr == 0)) [
      | inl free ↦ elim (Bool-cases (same_name d c)) [
        | inl same ↦ rw (free, used, same) refl
        | inr other ↦ elim (Bool-cases (same_name d e.name)) [
          | inl old ↦ rw (free, used, other, old) refl
          | inr new ↦ rw (free, used, other, new) refl
        ]
      ]
      | inr busy ↦ elim (Bool-cases (same_name d e.name)) [
        | inl old ↦ rw (busy, old, busy, other_name c d e here busy old) refl
        | inr new ↦ rw (busy, new) rest
      ]
    ]

-- A name that is added and removed again leaves every name as it was.
pub lookup-forget-enlist :
    (c d : List ℕ) (nr : ℕ) (entries : List Dentry)
    → (nr == 0) ≡ false
    → lookup c entries ≡ none
    → lookup d (forget c (enlist c nr entries)) ≡ lookup d entries
unfolding lookup enlist forget
lookup-forget-enlist c d nr [] used missing = elim (Bool-cases (same_name d c)) [
  | inl same ↦ rw (used, same_name_self c, same) refl
  | inr other ↦ rw (used, same_name_self c, other) refl
]
lookup-forget-enlist c d nr (e ∷ entries) used missing =
    let (here, missing') = lookup-tail c e entries missing in
    let rest = lookup-forget-enlist c d nr entries used missing' in
    elim (Bool-cases (e.nr == 0)) [
      | inl free ↦ elim (Bool-cases (same_name d c)) [
        | inl same ↦ elim (Bool-cases (same_name d e.name)) [
          | inl old ↦ rw (free, used, same_name_self c, same, old) refl
          | inr new ↦ rw (free, used, same_name_self c, same, new) refl
        ]
        | inr other ↦ elim (Bool-cases (same_name d e.name)) [
          | inl old ↦ rw (free, used, same_name_self c, other, old) refl
          | inr new ↦ rw (free, used, same_name_self c, other, new) refl
        ]
      ]
      | inr busy ↦
          let other : same_name c e.name ≡ false = ground arith in
          elim (Bool-cases (same_name d e.name)) [
            | inl old ↦ rw (busy, other, old, busy) refl
            | inr new ↦ rw (busy, other, new) rest
          ]
    ]
