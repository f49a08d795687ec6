-- ===== src/Names/Restore.antt =====
-- A name that `sys_link` of src/fs/namei.c adds to a directory, and `sys_unlink` removes.
use mathlib.Core.Path.{subst}
use neonix.Prelude.{
  ℕ, ◌≤◌, ◌≡◌, refl, sym, ◌∙◌, inl, inr, false, ◌&&◌, not, none, some, List, [], ◌∷◌, append-nil,
  ◌==◌, Bool-cases, Option-cases, length, All,
}
use neonix.Names.{Dentry, find_in}
use neonix.Names.Counts.{Plain}
use neonix.Names.Match.{same_name, lookup, with_rest, find_in-lookup}
use neonix.Names.Changes.{entry_index, set_nr, put_name}
use neonix.Names.Entries.{
  forget, enlist, set_nr-entry_index, set_nr-put_name, lookup-enlist, lookup-forget-enlist,
  same_name_self,
}

abbrev pub PlainNames : List Dentry → Type 0
PlainNames entries = All (λ e. Plain e.name) entries

pub enlist-PlainNames :
    (c : List ℕ) (nr : ℕ) (entries : List Dentry)
    → Plain c
    → PlainNames entries
    → PlainNames (enlist c nr entries)
unfolding enlist
enlist-PlainNames c nr [] p a = (p, tt)
enlist-PlainNames c nr (e ∷ entries) p (q, a) =
    let rest = enlist-PlainNames c nr entries p a in
    elim (Bool-cases (e.nr == 0)) [ inl free ↦ rw free (p, a) | inr busy ↦ rw busy (q, rest) ]

forget-PlainNames :
    (c : List ℕ) (entries : List Dentry) → PlainNames entries → PlainNames (forget c entries)
unfolding forget
forget-PlainNames c [] a = tt
forget-PlainNames c (e ∷ entries) (q, a) =
    let rest = forget-PlainNames c entries a in
    elim (Bool-cases (same_name c e.name && not (e.nr == 0))) [
      | inl found ↦ rw found (q, a)
      | inr other ↦ rw other (q, rest)
    ]

-- A whole name is found where it is looked up.
find_in-whole :
    (c : List ℕ) (entries : List Dentry)
    → Plain c
    → PlainNames entries
    → find_in c entries ≡ with_rest [] (lookup c entries)
find_in-whole c entries p a =
    subst (λ q. find_in q entries ≡ with_rest [] (lookup c entries)) (append-nil c)
      (find_in-lookup c [] entries p a tt)

missing-lookup :
    (c : List ℕ) (entries : List Dentry)
    → Plain c
    → PlainNames entries
    → find_in c entries ≡ none
    → lookup c entries ≡ none
missing-lookup c entries p a h = elim (Option-cases (lookup c entries)) [
  | inl missing ↦ missing
  | inr (e, there) ↦
      let x : with_rest [] (some e) ≡ none = rw there at (sym (find_in-whole c entries p a) ∙ h) in
      absurd cc
]

-- The entries after `add_entry` and the assignment of a number.
abbrev pub added : (c : List ℕ) (nr : ℕ) → List Dentry → List Dentry
added c nr entries = set_nr (put_name c entries).0 nr (put_name c entries).1

-- The entries after the entry that is found is freed.
abbrev pub removed : (c : List ℕ) → List Dentry → List Dentry
removed c entries = set_nr (entry_index c entries) 0 entries

-- A name that is missing in a directory, has at most 13 characters and no separator, and is added for
-- an inode, is found then with the number of that inode; and once it is removed, every name without
-- separators is found or missing as before.
pub removed-added :
    (c d : List ℕ) (nr : ℕ) (entries : List Dentry)
    → Plain c
    → Plain d
    → All (λ e. Plain e.name) entries
    → length c ≤ 13
    → (nr == 0) ≡ false
    → find_in c entries ≡ none
    → (find_in c (added c nr entries) ≡ some (record { nr = nr; name = c }, []))
      × (find_in d (removed c (added c nr entries)) ≡ find_in d entries)
removed-added c d nr entries pc pd a fits used h =
    let missing = missing-lookup c entries pc a h in
    let more = enlist-PlainNames c nr entries pc a in
    let put = set_nr-put_name c nr entries fits in
    (
      rw
          (
            put,
            find_in-whole c (enlist c nr entries) pc more,
            lookup-enlist c c nr entries used missing,
            same_name_self c,
          )
          refl,
      rw
          (
            put,
            set_nr-entry_index c (enlist c nr entries) pc more,
            find_in-whole d (forget c (enlist c nr entries)) pd
                (forget-PlainNames c (enlist c nr entries) more),
            lookup-forget-enlist c d nr entries used missing,
          )
          (sym (find_in-whole d entries pd a)),
    )
