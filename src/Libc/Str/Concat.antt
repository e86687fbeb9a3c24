-- ===== src/Libc/Str/Concat.antt =====
-- What `strcat` of libc/string leaves in memory.
use aosis.Base.{
  ℕ, zero, suc, ◌+◌, ◌-◌, ◌<◌, ◌≤◌, ◌≡◌, ◌≢◌, ◌⊎◌, ◌∙◌, refl, ap, arith, some, leb, ◌&&◌,
  if◌then◌else◌,
}
use aosis.Libc.Mem.{Bytes, store}
use aosis.Libc.Str.{append_loop, strcat}
use aosis.Libc.Str.Laws.{strlen_lem}

-- Byte `a` after the characters of the source from index `j` on were copied behind `end`, with its terminator.
abbrev appended : ℕ → ℕ → ℕ → ℕ → Bytes → ℕ → ℕ
appended end src j n m a =
    if leb (end + j) a && leb a (end + j + n) then m (src + (a - end)) else m a

append_loop_lem :
    (fuel end src j n : ℕ) (m : Bytes)
    → n < fuel
    → (src + (j + n) < end + j) ⊎ (end + (j + n) < src + j)
    → ((k : ℕ) → j ≤ k → k < j + n → m (src + k) ≢ 0)
    → m (src + (j + n)) ≡ 0
    → (m' : Bytes) × (append_loop fuel end src j m ≡ some m')
      × ((a : ℕ) → m' a ≡ appended end src j n m a)
unfolding append_loop
append_loop_lem zero end src j n m h apart full stop = absurd (omega arith)
append_loop_lem (suc fuel) end src j zero m h apart full stop =
    let e : j + 0 ≡ j = omega arith in
    let stop' : m (src + j) ≡ 0 = rw e at stop in
    (
      store m (end + j) (m (src + j)),
      ground (arith, stop'),
      λ a. ground (arith, ap m {x = src + j} {y = src + (a - end)}),
    )
append_loop_lem (suc fuel) end src j (suc n) m h apart full stop =
    let e : j + suc n ≡ j + 1 + n = omega arith in
    let copied = store m (end + j) (m (src + j)) in
    let here = full j (omega arith) (omega arith) in
    let kept : (k : ℕ) → j ≤ k → k ≤ j + suc n → copied (src + k) ≡ m (src + k) =
      λ k a b. ground arith in
    let (m', loops, bytes) =
      append_loop_lem fuel end src (j + 1) n copied (omega arith) (ground arith)
        (λ k a b. rw (kept k (omega arith) (omega arith)) (full k (omega arith) (omega arith)))
        (rw (kept (j + 1 + n) (omega arith) (omega arith)) (rw e at stop)) in
    (
      m',
      ground (arith, here, kept j (omega arith) (omega arith), loops),
      λ a. ground (arith, bytes a, kept (a - end), ap m {x = src + j} {y = src + (a - end)}),
    )

-- Let `dest` be a string of `i` characters and `src` one of `n`, and let the source, with its terminator, lie apart
-- from the `n + 1` bytes from the end of `dest` on. Given more rounds than either has characters,
-- `strcat` returns `dest`, leaves the source's characters and its terminator from the end of `dest`
-- on, and changes no other byte.
pub strcat-appends :
    (fuel dest src i n a : ℕ) (m : Bytes)
    → i < fuel
    → n < fuel
    → ((k : ℕ) → k < i → m (dest + k) ≢ 0)
    → m (dest + i) ≡ 0
    → ((k : ℕ) → k < n → m (src + k) ≢ 0)
    → m (src + n) ≡ 0
    → (src + n < dest + i) ⊎ (dest + i + n < src)
    → (m' : Bytes) × (strcat fuel dest src m ≡ some (dest, m'))
      × (m' a
          ≡ (if leb (dest + i) a && leb a (dest + i + n) then m (src + (a - (dest + i))) else m a))
unfolding strcat
strcat-appends fuel dest src i n a m h g full_dest end_dest full_src end_src apart =
    let found = strlen_lem fuel dest i m h full_dest end_dest in
    let (m', loops, bytes) =
      append_loop_lem fuel (dest + i) src 0 n m g (ground arith) (λ k _ b. full_src k (omega arith))
        (ground (arith, end_src)) in
    (m', rw (strcat, found, loops) refl, bytes a ∙ ground arith)
