-- ===== src/Tests/Libc.antt =====
-- The functions of libc/string on a small memory.
use aosis.Base.{◌-◌, ◌%◌, ◌^◌, ◌≡◌, refl, arith, inl, some, ◌==◌, if◌then◌else◌, for_range}
use aosis.Libc.Mem.{Bytes, copy_up, memcpy, memmove, memcmp_loop, memcmp}
use aosis.Libc.Mem.Laws.{memmove-copies}
use aosis.Libc.Str.{strcat, strnlen_loop, strnlen}
use aosis.Libc.Str.Concat.{strcat-appends}

-- 0 1 2 3 4 0 1 2 3 4 ...
abbrev sample : Bytes
sample a = a % 5

memmove-copies_example :
    ((memmove 12 10 5 sample).0 ≡ 12) × ((memmove 12 10 5 sample).1 14 ≡ sample 12)
memmove-copies_example = memmove-copies 12 10 5 14 sample

-- The four characters from address 11 behind the four from address 31.
strcat-appends_example :
    (m' : Bytes) × (strcat 9 31 11 sample ≡ some (31, m')) × (m' 37 ≡ sample 13)
strcat-appends_example =
    strcat-appends 9 31 11 4 4 37 sample (omega arith) (omega arith) (λ k h. omega arith) refl
      (λ k h. omega arith) refl (inl (omega arith))

-- A copy that runs upwards into its own source repeats the first bytes.
overlap_up : (memcpy 12 10 5 sample).1 14 ≡ 0
unfolding memcpy copy_up for_range
overlap_up = refl

-- A byte above 127 compares as negative, where C asks for unsigned characters.
abbrev signs : Bytes
signs a = if a == 0 then 200 else 1

signed_order : memcmp 0 1 1 signs ≡ 2 ^ 32 - 57
unfolding memcmp memcmp_loop
signed_order = refl

-- `strnlen` never counts.
never_counts : strnlen 11 9 sample ≡ 0
unfolding strnlen strnlen_loop
never_counts = refl
