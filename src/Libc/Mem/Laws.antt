-- ===== src/Libc/Mem/Laws.antt =====
-- What the functions of Mem leave at each address.
use aosis.Base.{
  ℕ, zero, suc, ◌+◌, ◌-◌, ◌≤◌, ◌<◌, ◌≡◌, ◌↔◌, sub32, refl, ap, arith, ◌⊎◌, ltb, leb, ◌&&◌,
  if◌then◌else◌, for_range, u8,
}
use aosis.Libc.Mem.{
  Bytes, store, copy_up, copy_down, memcpy, memmove, memset, memcmp_loop, memcmp, int_of_char,
}

-- What byte `a` is after the bytes from `src` were copied to `dest`, for the indices from `i` to `j`.
abbrev copied : ℕ → ℕ → ℕ → ℕ → Bytes → ℕ → ℕ
copied dest src i j m a = if leb (dest + i) a && ltb a (dest + j) then m (src + (a - dest)) else m a

copy_up-copied :
    (dest src n i : ℕ) (m : Bytes) (a : ℕ)
    → (dest ≤ src) ⊎ (src + (i + n) ≤ dest)
    → copy_up dest src n i m a ≡ copied dest src i (i + n) m a
unfolding copy_up for_range
copy_up-copied dest src zero i m a h = ground arith
copy_up-copied dest src (suc n) i m a h =
    let m' = store m (dest + i) (m (src + i)) in
    ground
      (arith, copy_up-copied dest src n (i + 1) m' a, ap m {x = src + i} {y = src + (a - dest)})

copy_down-copied :
    (dest src n : ℕ) (m : Bytes) (a : ℕ)
    → src ≤ dest
    → copy_down dest src n m a ≡ copied dest src 0 n m a
unfolding copy_down
copy_down-copied dest src zero m a h = ground arith
copy_down-copied dest src (suc n) m a h =
    let m' = store m (dest + n) (m (src + n)) in
    ground (arith, copy_down-copied dest src n m' a, ap m {x = src + n} {y = src + (a - dest)})

-- `memmove` returns the destination and leaves in it the bytes that the source held before, also when
-- the two overlap; all other bytes are as before.
pub memmove-copies :
    (dest src n a : ℕ) (m : Bytes)
    → let (result, m') = memmove dest src n m in
      (result ≡ dest)
      × (m' a ≡ (if leb dest a && ltb a (dest + n) then m (src + (a - dest)) else m a))
unfolding memmove
memmove-copies dest src n a m =
    ground (arith, copy_up-copied dest src n 0 m a, copy_down-copied dest src n m a)

-- If the destination starts at or before the source, or at or behind its end, `memcpy` returns the
-- destination and leaves the same memory as `memmove`.
memcpy-copies :
    (dest src n a : ℕ) (m : Bytes)
    → (dest ≤ src) ⊎ (src + n ≤ dest)
    → let (result, m') = memcpy dest src n m in
      (result ≡ dest) × (m' a ≡ (memmove dest src n m).1 a)
unfolding memcpy
memcpy-copies dest src n a m h =
    ground (arith, copy_up-copied dest src n 0 m a, (memmove-copies dest src n a m).1)

memset_loop :
    (s c n i a : ℕ) (m : Bytes)
    → for_range n i (λ k t. store t (s + k) (u8 c)) m a
      ≡ (if leb (s + i) a && ltb a (s + (i + n)) then u8 c else m a)
unfolding for_range
memset_loop s c zero i a m = ground arith
memset_loop s c (suc n) i a m = ground (arith, memset_loop s c n (i + 1) a (store m (s + i) (u8 c)))

-- `memset` returns the block and stores the low byte of its argument in each byte of it, and no other.
pub memset-fills :
    (s c n a : ℕ) (m : Bytes)
    → let (result, m') = memset s c n m in
      (result ≡ s) × (m' a ≡ (if leb s a && ltb a (s + n) then u8 c else m a))
unfolding memset
memset-fills s c n a m = ground (arith, memset_loop s c n 0 a m)

-- The difference of two chars is 0 only for equal ones.
pub difference-zero :
    (c d : ℕ) → c < 256 → d < 256 → (sub32 (int_of_char c) (int_of_char d) ≡ 0) ↔ (c ≡ d)
difference-zero c d h g = ground arith

memcmp_loop-zero :
    (s1 s2 left i k : ℕ) (m : Bytes)
    → ((a : ℕ) → m a < 256)
    → memcmp_loop s1 s2 left i m ≡ 0
    → i ≤ k
    → k < i + left
    → m (s1 + k) ≡ m (s2 + k)
unfolding memcmp_loop
memcmp_loop-zero s1 s2 zero i k m byte z a b = absurd (omega arith)
memcmp_loop-zero s1 s2 (suc left) i k m byte z a b = ground (
  arith,
  difference-zero (m (s1 + i)) (m (s2 + i)) (byte (s1 + i)) (byte (s2 + i)),
  memcmp_loop-zero s1 s2 left (i + 1) k m byte,
  ap (λ (j : ℕ). m (s1 + j)) {x = i} {y = k},
  ap (λ (j : ℕ). m (s2 + j)) {x = i} {y = k},
)

memcmp_loop-same :
    (s1 s2 left i : ℕ) (m : Bytes)
    → ((k : ℕ) → i ≤ k → k < i + left → m (s1 + k) ≡ m (s2 + k))
    → memcmp_loop s1 s2 left i m ≡ 0
unfolding memcmp_loop
memcmp_loop-same s1 s2 zero i m same = refl
memcmp_loop-same s1 s2 (suc left) i m same = ground (
  arith,
  same i (omega arith) (omega arith),
  memcmp_loop-same s1 s2 left (i + 1) m (λ k a b. same k (omega arith) (omega arith)),
)

-- On a memory of bytes, `memcmp` returns 0 if and only if the two blocks hold the same bytes.
memcmp-same :
    (s1 s2 n : ℕ) (m : Bytes)
    → ((a : ℕ) → m a < 256)
    → (memcmp s1 s2 n m ≡ 0) ↔ ((k : ℕ) → k < n → m (s1 + k) ≡ m (s2 + k))
unfolding memcmp
memcmp-same s1 s2 n m byte = (
  λ z k h. memcmp_loop-zero s1 s2 n 0 k m byte z (omega arith) (omega arith),
  λ same. memcmp_loop-same s1 s2 n 0 m (λ k _ h. same k (omega arith)),
)
