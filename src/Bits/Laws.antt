-- ===== src/Bits/Laws.antt =====
-- What the macros of common_macros.h do to each bit of a 32-bit word.
use native.Mathlib.Nat.{one-le-pow}
use aosis.Base.{
  ℕ, true, ◌*◌, ◌^◌, ◌<◌, ◌≤◌, ◌≡◌, refl, arith, ◌==◌, if◌then◌else◌, shl32, all_below,
  all_below_sound, ltb, ◌&&◌, not32,
}
use aosis.Bits.{check_bit_set, set_bit, clear_bit}
use aosis.Bits.Digits.{
  bit, bit-bit_and, bit-bit_or, bit-pow, bit-complement, bit_and-pow, bit_or-lt, bit_and-le,
  bit_ext, bit-lt,
}

one_table : all_below 32 (λ j. shl32 1 j == 2 ^ j && ltb (2 ^ j) (2 ^ 32)) ≡ true
unfolding all_below
one_table = refl

one_shifted : (j : ℕ) → j < 32 → (shl32 1 j ≡ 2 ^ j) × (2 ^ j < 2 ^ 32)
one_shifted j h =
    ground (arith, all_below_sound 32 (λ j. shl32 1 j == 2 ^ j && ltb (2 ^ j) (2 ^ 32)) j one_table)

zero_or_one : (b p : ℕ) → b < 2 → 1 ≤ p → (b * p == 0) ≡ (b == 0)
zero_or_one b p h g = grind arith

pub check_bit_set-zero : (x j : ℕ) → j < 32 → (check_bit_set x j == 0) ≡ (bit x j == 0)
unfolding check_bit_set
check_bit_set-zero x j h =
    rw ((one_shifted j h).0, bit_and-pow j x)
      (ground (arith, one-le-pow j 2, bit-lt x j, zero_or_one (bit x j) (2 ^ j)))

pub bit-set_bit : (x j k : ℕ) → j < 32 → bit (set_bit x j) k ≡ (if j == k then 1 else bit x k)
unfolding set_bit
bit-set_bit x j k h =
    rw ((one_shifted j h).0, bit-bit_or x (2 ^ j) k) (ground (arith, bit-pow j k, bit-lt x k))

pub bit-clear_bit :
    (x j k : ℕ) → j < 32 → k < 32 → bit (clear_bit x j) k ≡ (if j == k then 0 else bit x k)
unfolding clear_bit
bit-clear_bit x j k h g =
    rw
      (
        (one_shifted j h).0,
        bit-bit_and x (not32 (2 ^ j)) k,
        bit-complement 32 (2 ^ j) k (one_shifted j h).1 g,
      )
      (ground (arith, bit-pow j k, bit-lt x k))

pub set_bit-lt : (x j : ℕ) → x < 2 ^ 32 → j < 32 → set_bit x j < 2 ^ 32
unfolding set_bit
set_bit-lt x j h g = bit_or-lt 32 x (shl32 1 j) h (omega arith)

pub clear_bit-lt : (x j : ℕ) → x < 2 ^ 32 → clear_bit x j < 2 ^ 32
unfolding clear_bit
clear_bit-lt x j h = omega (arith, bit_and-le x (not32 (shl32 1 j)))

-- Clearing a bit that was just set gives the word back, if the bit was clear before.
pub clear_bit-set_bit :
    (x j : ℕ) → x < 2 ^ 32 → j < 32 → bit x j ≡ 0 → clear_bit (set_bit x j) j ≡ x
clear_bit-set_bit x j h g e =
    bit_ext 32 (clear_bit (set_bit x j) j) x (clear_bit-lt (set_bit x j) j (set_bit-lt x j h g)) h
      (λ k p. ground (arith, bit-clear_bit (set_bit x j) j k g p, bit-set_bit x j k g))
