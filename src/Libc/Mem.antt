-- ===== src/Libc/Mem.antt =====
-- libc/string: memcpy, memmove, memset and memcmp, on a memory that gives the byte at each address. The
-- blocks lie inside the address space, so an address is not wrapped.
pub mod Laws
use aosis.Base.{ℕ, zero, suc, ◌+◌, ◌-◌, ◌^◌, ltb, ◌==◌, if◌then◌else◌, for_range, u8, sub32}

abbrev pub Bytes : Type 0
Bytes = ℕ → ℕ

-- `*p = v` for a byte
abbrev pub store : Bytes → ℕ → ℕ → Bytes
store m p v a = if p == a then v else m a

-- The loop that counts up, which `memcpy` and `memmove` share.
unfoldable pub copy_up : ℕ → ℕ → ℕ → ℕ → Bytes → Bytes
copy_up dest src n i m = for_range n i (λ k t. store t (dest + k) (t (src + k))) m

-- The loop of `memmove` that counts down.
unfoldable pub copy_down : ℕ → ℕ → ℕ → Bytes → Bytes
copy_down dest src zero m = m
copy_down dest src (suc i) m = copy_down dest src i (store m (dest + i) (m (src + i)))

unfoldable pub memcpy : ℕ → ℕ → ℕ → Bytes → ℕ × Bytes
memcpy dest src n m = (dest, copy_up dest src n 0 m)

unfoldable pub memmove : ℕ → ℕ → ℕ → Bytes → ℕ × Bytes
memmove dest src n m =
    if ltb dest src then (dest, copy_up dest src n 0 m) else (dest, copy_down dest src n m)

unfoldable pub memset : ℕ → ℕ → ℕ → Bytes → ℕ × Bytes
memset s c n m = (s, for_range n 0 (λ k t. store t (s + k) (u8 c)) m)

-- A char as an int: char is signed, and an int is its 32-bit word.
abbrev pub int_of_char : ℕ → ℕ
int_of_char c = if ltb c 128 then c else c + (2 ^ 32 - 256)

-- The loop of `memcmp` from byte `i`, with `left` bytes to go.
unfoldable pub memcmp_loop : ℕ → ℕ → ℕ → ℕ → Bytes → ℕ
memcmp_loop s1 s2 zero i m = 0
memcmp_loop s1 s2 (suc left) i m =
    let rest = memcmp_loop s1 s2 left (i + 1) m in
    if m (s1 + i) == m (s2 + i)
    then rest
    else sub32 (int_of_char (m (s1 + i))) (int_of_char (m (s2 + i)))

unfoldable pub memcmp : ℕ → ℕ → ℕ → Bytes → ℕ
memcmp s1 s2 n m = memcmp_loop s1 s2 n 0 m
