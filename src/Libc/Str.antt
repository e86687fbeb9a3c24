-- ===== src/Libc/Str.antt =====
-- libc/string: strlen, strnlen, strcmp and strcat. A loop that ends at a terminator has fuel, and returns none
-- when that is used up.
pub mod Laws
pub mod Concat
use aosis.Base.{ℕ, zero, suc, ◌+◌, ◌==◌, if◌then◌else◌, Option, none, some, ◌||◌, sub32}
use aosis.Libc.Mem.{Bytes, store, int_of_char}

-- The loop `while (str[len]) len++`.
unfoldable pub strlen : ℕ → ℕ → ℕ → Bytes → Option ℕ
strlen zero str len m = none
strlen (suc fuel) str len m =
    let rest = strlen fuel str (len + 1) m in if m (str + len) == 0 then some len else rest

-- The loop of `strnlen`; it never changes `len`.
unfoldable pub strnlen_loop : ℕ → ℕ → ℕ → ℕ → Bytes → ℕ
strnlen_loop zero str i len m = len
strnlen_loop (suc left) str i len m =
    let rest = strnlen_loop left str (i + 1) len m in if m (str + i) == 0 then len else rest

unfoldable pub strnlen : ℕ → ℕ → Bytes → ℕ
strnlen str maxlen m = strnlen_loop maxlen str 0 0 m

-- `strcmp` from index `i`. The difference of two chars is an int, as its 32-bit word.
unfoldable pub strcmp : ℕ → ℕ → ℕ → ℕ → Bytes → Option ℕ
strcmp zero s1 s2 i m = none
strcmp (suc fuel) s1 s2 i m =
    let rest = strcmp fuel s1 s2 (i + 1) m in
    let difference = sub32 (int_of_char (m (s1 + i))) (int_of_char (m (s2 + i))) in
    if m (s1 + i) == 0 || m (s2 + i) == 0
    then some difference
    else if m (s1 + i) == m (s2 + i)
    then rest
    else some difference

-- The second loop of `strcat`: it copies a character before it tests it.
unfoldable pub append_loop : ℕ → ℕ → ℕ → ℕ → Bytes → Option Bytes
append_loop zero end src j m = none
append_loop (suc fuel) end src j m =
    let copied = store m (end + j) (m (src + j)) in
    let rest = append_loop fuel end src (j + 1) copied in
    if copied (src + j) == 0 then some copied else rest

-- Its first loop is that of `strlen`.
unfoldable pub strcat : ℕ → ℕ → ℕ → Bytes → Option (ℕ × Bytes)
strcat fuel dest src m = elim (strlen fuel dest 0 m) [
  | none ↦ none
  | some i ↦ elim (append_loop fuel (dest + i) src 0 m) [ none ↦ none | some m' ↦ some (dest, m') ]
]
