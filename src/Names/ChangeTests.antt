-- ===== src/Names/ChangeTests.antt =====
-- The small file system of Names/Tests, with a name less and a name more.
use mathlib.Core.Path.{subst}
use neonix.Prelude.{
  ℕ, ◌≡◌, refl, sym, Bool, true, false, Option, none, some, [], ◌∷◌, arith, replicate, ◌>>=◌,
  some_injective,
}
use neonix.Strings.{is_separator}
use neonix.Names.{
  reads, has_block, Dentry, Ino, Fs, class_bits, permission, match_name, add_count, iput, fit_inode,
  iget, find_in, leave_root, find_entry, behind_last, enter_entry, arrived, named_from, named_at,
  named, get_entry, namei_in, namei,
}
use neonix.Bitmap.{test_bit, put_bit, bitmap_make, bitmap_test, bitmap_set}
use neonix.Blocks.{Super, bfree, ifree, free_from, free_at, buffer_at, sync, bwrite}
use neonix.Names.Tests.{disk, bin, sh, fs, user, rest, fs-IsSound}
use neonix.Names.Counts.{Held, landed, at_counts}
use neonix.Names.Walk.{up, entry_of, child, enter, walk}
use neonix.Names.Namei.{final}
use neonix.Names.Paths.{first_dir}
use neonix.Names.Changes.{
  set_desc, set_entries, more_links, less_links, free_zones, bmap_create, inode_truncate,
  entry_index, set_nr, cut_name, put_name, no_separators, add_entry, search_parent,
  search_in_parent, any_dir,
}
use neonix.Names.Links.{drop_link, unlink_entry, sys_unlink, link_entry, link_to, sys_link}
use neonix.Names.Parent.{IsGiven, target}
use neonix.Names.Dropped.{own_zones, Releases}
use neonix.Names.Unlink.{UnlinkResult, sys_unlink-UnlinkResult}
use neonix.Names.Adding.{has_room, up_self}
use neonix.Names.Match.{lookup, same_name}
use neonix.Names.Link.{same_dev, link_result, sys_link-link_result}
use neonix.Names.Walk.{held_by}
use neonix.Names.Creating.{open_flag, inode_open}
use neonix.Names.Open.{Empties, OpenResult, inode_open-OpenResult}
use neonix.Names.Restore.{added, removed, removed-added}

-- What is left of the bitmaps without the file: zone 20 and inode 3 are free.
abbrev no_zone : Super
no_zone = record disk {
  zmaps =
      some (record {
        bytes = 255 ∷ 127 ∷ replicate 1022 0;
        dirty = false;
        disk = 255 ∷ 127 ∷ replicate 1022 0;
      })
      ∷ replicate 7 none;
}

abbrev no_inode : Super
no_inode = record no_zone {
  imaps =
      some (record { bytes = 7 ∷ replicate 1023 0; dirty = false; disk = 7 ∷ replicate 1023 0 })
      ∷ replicate 7 none;
}

sh-zones : free_zones (own_zones fs (1, 3)) disk ≡ some no_zone
unfolding free_zones bfree free_from free_at buffer_at sync bwrite bitmap_test bitmap_set
    bitmap_make test_bit put_bit
sh-zones = refl

sh-Empties : Empties fs (1, 3)
sh-Empties = record { direct = refl; without_zones = no_zone; zones = sh-zones }

sh-Releases : Releases fs (1, 3)
unfolding ifree free_from free_at buffer_at sync bwrite bitmap_test bitmap_set bitmap_make test_bit
    put_bit
sh-Releases = record {
  direct = refl;
  without_zones = no_zone;
  released = no_inode;
  zones = sh-zones;
  node = refl;
}

abbrev after_unlink : Option (Bool × Option Ino × Super)
after_unlink = do
  (ok, fs') ← sys_unlink user (47 ∷ rest) fs
  (inode, fs'') ← namei user (47 ∷ rest) fs'
  some (ok, inode, fs'.super 1)

-- The file is gone, and its inode is free.
unlinked_sh : after_unlink ≡ some (true, none, no_inode)
unfolding sys_unlink search_in_parent search_parent unlink_entry drop_link less_links set_entries
    set_desc inode_truncate free_zones bfree ifree free_from free_at buffer_at sync bwrite
    bitmap_test bitmap_set bitmap_make test_bit put_bit reads has_block entry_index set_nr namei
    named named_at named_from behind_last is_separator find_entry leave_root match_name find_in
    enter_entry iget fit_inode add_count iput permission class_bits arrived namei_in get_entry
unlinked_sh = refl

abbrev after_link : Option (Bool × Option Ino × ℕ)
after_link = do
  (ok, fs') ← sys_link user (47 ∷ rest) (47 ∷ sh) fs
  (inode, fs'') ← namei user (47 ∷ sh) fs'
  some (ok, inode, (fs'.desc (1, 3)).nlinks)

-- The root directory has the file, too.
linked_sh : after_link ≡ some (true, some (1, 3), 2)
unfolding sys_link link_to link_entry search_in_parent search_parent add_entry put_name cut_name
    no_separators more_links bmap_create reads has_block set_entries set_desc set_nr namei named
    named_at named_from behind_last is_separator find_entry leave_root match_name find_in
    enter_entry iget fit_inode add_count iput permission class_bits arrived namei_in get_entry
linked_sh = refl

-- "/bin/sh" and "/sh".
bin-sh-IsGiven : IsGiven fs user 47 rest ((bin, 47) ∷ []) sh
unfolding is_separator
bin-sh-IsGiven = record {
  first = refl;
  split = refl;
  whole_dirs = (((refl, (refl, (refl, tt))), refl), tt);
  whole_last = (refl, (refl, tt));
}

sh-IsGiven : IsGiven fs user 47 sh [] sh
unfolding is_separator
sh-IsGiven = record { first = refl; split = refl; whole_dirs = tt; whole_last = (refl, (refl, tt)) }

way-some : (d : Ino) → walk fs user ((bin, 47) ∷ []) (first_dir user 47) ≡ some d → (1, 2) ≡ d
unfolding walk enter child entry_of up lookup same_name permission class_bits is_separator
way-some d h = some_injective h

sh-some : (e : Dentry) → entry_of fs (1, 2) sh ≡ some e → record { nr = 3; name = sh } ≡ e
unfolding entry_of up lookup same_name is_separator
sh-some e h = some_injective h

-- What holds of the file holds of what "/bin/sh" leads to.
of-sh :
    (P : Ino → Type 0) (d : Ino) (e : Dentry)
    → P (1, 3)
    → walk fs user ((bin, 47) ∷ []) (first_dir user 47) ≡ some d
    → entry_of fs d sh ≡ some e
    → P (landed fs (d.0, e.nr))
of-sh P d e p way there =
    let at : (1, 2) ≡ d = way-some d way in
    let there' : entry_of fs (1, 2) sh ≡ some e =
      subst (λ q. entry_of fs q sh ≡ some e) (sym at) there in
    subst (λ q. P (landed fs (q.0, e.nr))) at
      (subst (λ q. P (landed fs (1, q.nr))) (sh-some e there') p)

sys_unlink-UnlinkResult_example :
    (ok : Bool) × (g : Fs) × (c' : Ino → ℕ) × UnlinkResult fs user
      (target fs user any_dir ((bin, 47) ∷ []) sh (first_dir user 47))
      ok
      g
    × (sys_unlink user (47 ∷ rest) fs ≡ some (ok, at_counts g c'))
    × Held fs c' []
sys_unlink-UnlinkResult_example =
    sys_unlink-UnlinkResult fs user 47 rest ((bin, 47) ∷ []) sh fs-IsSound bin-sh-IsGiven refl
      (λ d e way there free. of-sh (Releases fs) d e sh-Releases way there)

root-some : (d : Ino) → walk fs user [] (first_dir user 47) ≡ some d → (1, 1) ≡ d
unfolding walk is_separator
root-some d h = some_injective h

root-has_room : (d : Ino) → walk fs user [] (first_dir user 47) ≡ some d → has_room fs d ≡ true
unfolding has_block
root-has_room d way = subst (λ q. has_room fs q ≡ true) (root-some d way) refl

sys_link-link_result_example :
    let r =
      link_result fs
        (walk fs user ((bin, 47) ∷ []) (first_dir user 47) >>= final fs sh)
        (λ m. target fs user (same_dev m) [] sh (first_dir user 47)) in
    (c' : Ino → ℕ) × (sys_link user (47 ∷ rest) (47 ∷ sh) fs ≡ some (r.0, at_counts r.1 c'))
    × Held fs c' []
sys_link-link_result_example =
    sys_link-link_result fs user 47 rest ((bin, 47) ∷ []) sh 47 sh [] sh fs-IsSound
      (λ j. ground arith) bin-sh-IsGiven sh-IsGiven (omega arith) refl root-has_room

removed-added_example :
    (find_in sh (added sh 3 (fs.desc (1, 1)).entries) ≡ some (record { nr = 3; name = sh }, []))
    × (find_in bin (removed sh (added sh 3 (fs.desc (1, 1)).entries))
        ≡ find_in bin (fs.desc (1, 1)).entries)
unfolding is_separator find_in match_name
removed-added_example =
    removed-added sh bin 3 (fs.desc (1, 1)).entries (refl, (refl, tt)) (refl, (refl, (refl, tt)))
      (fs-IsSound.names (1, 1)) (omega arith) refl refl

-- The file is opened with O_TRUNC, 512.
inode_open-OpenResult_example :
    (found : Option Ino) × (g : Fs) × (c' : Ino → ℕ) × OpenResult fs user 512 sh
      (walk fs user ((bin, 47) ∷ []) (first_dir user 47))
      found
      g
    × (inode_open user (47 ∷ rest) 512 0 fs ≡ some (found, at_counts g c'))
    × Held fs c' (held_by found)
unfolding open_flag
inode_open-OpenResult_example =
    inode_open-OpenResult fs user 512 0 47 rest ((bin, 47) ∷ []) sh fs-IsSound bin-sh-IsGiven refl
      (λ d e way there may cut.
        subst (λ q. Empties fs (landed fs (q.0, e.nr))) (sym (up_self fs d sh refl))
          (of-sh (Empties fs) d e sh-Empties way there))
