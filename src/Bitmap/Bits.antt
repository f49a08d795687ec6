-- ===== src/Bitmap/Bits.antt =====
-- The bits of a byte and of a buffer of bytes, for src/lib/bitmap.c.
use neonix.Prelude.{
  ℕ, ◌*◌, ◌/◌, ◌%◌, ◌<◌, ◌≡◌, refl, inl, inr, Bool, true, false, ◌&&◌, List, arith, ltb, ◌==◌,
  if◌then◌else◌, Bool-cases, length, get_or, set, All, length-set, get_or-set_self, get_or-set_ne,
  All-get_or, All-set,
}
use neonix.Prelude.Words.{check_all, check_all_sound}
use neonix.Bitmap.{test_bit, put_bit}

same : Bool → Bool → Bool
same true b = b
same false true = false
same false false = true

same-eq : (a b : Bool) → same a b ≡ true → a ≡ b
unfolding same
same-eq a b h = ground arith

-- What `put_bit` does to each bit of each byte.
put_ok : (b k j : ℕ) (v : Bool) → Bool
unfolding same test_bit put_bit
put_ok b k j v =
    same (test_bit (put_bit b k v) j) (if k == j then v else test_bit b j)
    && ltb (put_bit b k v) 256

put_table :
    check_all
      (λ b. check_all (λ k. check_all (λ j. put_ok b k j true && put_ok b k j false) 8) 8)
      256
    ≡ true
unfolding check_all put_ok
put_table = refl

put_ok_all :
    (b k j : ℕ) → b < 256 → k < 8 → j < 8 → (put_ok b k j true && put_ok b k j false) ≡ true
put_ok_all b k j hb hk hj =
    check_all_sound _ 8 j hj (check_all_sound _ 8 k hk (check_all_sound _ 256 b hb put_table))

put_ok_each : (b k j : ℕ) (v : Bool) → b < 256 → k < 8 → j < 8 → put_ok b k j v ≡ true
put_ok_each b k j true hb hk hj = ground (arith, put_ok_all b k j hb hk hj)
put_ok_each b k j false hb hk hj = ground (arith, put_ok_all b k j hb hk hj)

test_bit-put_bit :
    (b k j : ℕ) (v : Bool)
    → b < 256
    → k < 8
    → j < 8
    → test_bit (put_bit b k v) j ≡ (if k == j then v else test_bit b j)
unfolding put_ok
test_bit-put_bit b k j v hb hk hj = ground (
  arith,
  put_ok_each b k j v hb hk hj,
  same-eq (test_bit (put_bit b k v) j) (if k == j then v else test_bit b j),
)

put_bit-lt : (b k : ℕ) (v : Bool) → b < 256 → k < 8 → put_bit b k v < 256
unfolding put_ok
put_bit-lt b k v hb hk = ground (arith, put_ok_each b k 0 v hb hk (omega arith))

-- Bit `i` of a buffer.
unfoldable pub bit_at : List ℕ → ℕ → Bool
bit_at bits i = test_bit (get_or bits (i / 8) 0) (i % 8)

-- The buffer with bit `i` written.
unfoldable pub write_bit : List ℕ → ℕ → Bool → List ℕ
write_bit bits i v = set bits (i / 8) (put_bit (get_or bits (i / 8) 0) (i % 8) v)

abbrev pub AreBytes : List ℕ → Type 0
AreBytes = All (λ b. b < 256)

pub length-write_bit :
    (bits : List ℕ) (i : ℕ) (v : Bool) → length (write_bit bits i v) ≡ length bits
unfolding write_bit
length-write_bit bits i v = length-set bits (i / 8) _

pub write_bit-AreBytes :
    (bits : List ℕ) (i : ℕ) (v : Bool)
    → AreBytes bits
    → i < 8 * length bits
    → AreBytes (write_bit bits i v)
unfolding write_bit
write_bit-AreBytes bits i v a h =
    All-set _ bits (i / 8) _ a
      (put_bit-lt _ _ v (All-get_or _ bits (i / 8) 0 a (omega arith)) (omega arith))

pub bit_at-write_bit :
    (bits : List ℕ) (i j : ℕ) (v : Bool)
    → AreBytes bits
    → i < 8 * length bits
    → bit_at (write_bit bits i v) j ≡ (if i == j then v else bit_at bits j)
unfolding bit_at write_bit
bit_at-write_bit bits i j v a h = elim (Bool-cases (i / 8 == j / 8)) [
  | inl same_byte ↦
      let e : i / 8 ≡ j / 8 = ground arith in
      ground (
        arith,
        get_or-set_self bits (i / 8) (put_bit (get_or bits (i / 8) 0) (i % 8) v) 0 (omega arith),
        test_bit-put_bit (get_or bits (i / 8) 0) (i % 8) (j % 8) v
            (All-get_or _ bits (i / 8) 0 a (omega arith)) (omega arith) (omega arith),
      )
  | inr other ↦
      ground
        (arith, get_or-set_ne bits (i / 8) (j / 8) (put_bit (get_or bits (i / 8) 0) (i % 8) v) 0)
]
