-- ===== src/Memory/Page.antt =====
-- The page macros of include/kernel/memory/pmm.h, and what they compute on 32-bit addresses.
use aosis.Base.{ℕ, ◌+◌, ◌*◌, ◌/◌, ◌%◌, ◌^◌, ◌<◌, ◌≡◌, bit_and, arith, u32, sub32}
use aosis.Bits.Digits.{bit_and_shifted, bit_and_low}

abbrev pub page_size : ℕ
page_size = 4096

-- PAGE_ALIGN
unfoldable pub page_align : ℕ → ℕ
page_align x = bit_and x 0xFFFFF000

-- PAGE_INCREMENT
unfoldable pub page_increment : ℕ → ℕ
page_increment x = u32 (x + page_size)

-- PAGE_DECREMENT
unfoldable pub page_decrement : ℕ → ℕ
page_decrement x = sub32 x page_size

-- The mask rounds a 32-bit address down to its page.
pub page_align_lem : (x : ℕ) → x < 2 ^ 32 → page_align x ≡ x / 4096 * 4096
unfolding page_align
page_align_lem x h =
    ground (arith, bit_and_shifted 12 (x / 4096) (x % 4096) 0xFFFFF, bit_and_low 20 (x / 4096))
