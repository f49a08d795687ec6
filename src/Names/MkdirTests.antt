-- ===== src/Names/MkdirTests.antt =====
-- The small file system of Names/Tests with a directory more.
use neonix.Prelude.{false, none, some, ◌∷◌, replicate}
use neonix.Blocks.{Super}
use neonix.Names.Tests.{disk}

abbrev with_inode : Super
with_inode = record disk {
  imaps =
      some (record { bytes = 31 ∷ replicate 1023 0; dirty = false; disk = 31 ∷ replicate 1023 0 })
      ∷ replicate 7 none;
}

abbrev with_zone : Super
with_zone = record with_inode {
  zmaps =
      some (record {
        bytes = 255 ∷ 255 ∷ 1 ∷ replicate 1021 0;
        dirty = false;
        disk = 255 ∷ 255 ∷ 1 ∷ replicate 1021 0;
      })
      ∷ replicate 7 none;
}
