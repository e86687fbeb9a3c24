-- ===== src/Bits.antt =====
-- include/kernel/common/common_macros.h: the macros that test, set and clear one bit of a word.
-- The children have the laws of `&`, `|` and `~` on binary digits, and those of the macros.
pub mod Digits
pub mod Laws
use aosis.Base.{ℕ, bit_and, bit_or, shl32, not32}

-- CHECK_BIT_SET: the masked word, which C takes for true when it is not 0. Like the two macros
-- below it is defined for an index below 32.
unfoldable pub check_bit_set : ℕ → ℕ → ℕ
check_bit_set num index = bit_and num (shl32 1 index)

-- SET_BIT
unfoldable pub set_bit : ℕ → ℕ → ℕ
set_bit num index = bit_or num (shl32 1 index)

-- CLEAR_BIT
unfoldable pub clear_bit : ℕ → ℕ → ℕ
clear_bit num index = bit_and num (not32 (shl32 1 index))
