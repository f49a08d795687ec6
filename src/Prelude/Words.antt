-- ===== src/Prelude/Words.antt =====
-- Machine words: bytes, and 32-bit numbers with their wrap-around written out.
use Prim.Native.Nat.{ℕ, zero, suc, ◌+◌, ◌-◌, ◌%◌, ◌^◌, ◌<◌}
use mathlib.Core.Path.{◌≡◌}
use mathlib.Core.Bool.{Bool, true, ◌&&◌}
use mathlib.Core.Logic.{inl, inr}
use native.Mathlib.Omega.{arith}
use neonix.Prelude.Tests.{ltb, ◌==◌, Bool-cases}

abbrev pub u32_mod : ℕ
u32_mod = 2 ^ 32

-- u32 addition and subtraction.
abbrev pub add32 : ℕ → ℕ → ℕ
add32 a b = (a + b) % u32_mod

abbrev pub sub32 : ℕ → ℕ → ℕ
sub32 a b = (a + u32_mod - b) % u32_mod

-- Does `test` hold at every number below the bound?
unfoldable pub check_all : (ℕ → Bool) → ℕ → Bool
check_all test zero = true
check_all test (suc top) = check_all test top && test top

pub check_all_sound :
    (test : ℕ → Bool) (bound k : ℕ) → k < bound → check_all test bound ≡ true → test k ≡ true
unfolding check_all
check_all_sound test zero k lt all = elim lt [ ]
check_all_sound test (suc top) k lt all = elim (Bool-cases (k == top)) [
  | inl last ↦ let e : k ≡ top = ground arith in rw e (ground arith)
  | inr below ↦ check_all_sound test top k (ground arith) (ground arith)
]

-- `x < y` for two plain `char`s, which are signed: the bytes from 128 on are negative.
abbrev pub signed_lt : ℕ → ℕ → Bool
signed_lt x y = ltb ((x + 128) % 256) ((y + 128) % 256)
