-- ===== src/Libc/Str/Laws.antt =====
-- What the functions of Str return for strings that end.
use aosis.Base.{ℕ, zero, suc, ◌+◌, ◌<◌, ◌≤◌, ◌≡◌, ◌≢◌, ◌⊎◌, ◌↔◌, refl, arith, some, sub32}
use aosis.Libc.Mem.{Bytes, int_of_char}
use aosis.Libc.Mem.Laws.{difference-zero}
use aosis.Libc.Str.{strlen, strnlen_loop, strcmp}

strlen_from :
    (fuel str i n : ℕ) (m : Bytes)
    → n < fuel
    → ((k : ℕ) → i ≤ k → k < i + n → m (str + k) ≢ 0)
    → m (str + (i + n)) ≡ 0
    → strlen fuel str i m ≡ some (i + n)
unfolding strlen
strlen_from zero str i n m h full end = absurd (omega arith)
strlen_from (suc fuel) str i zero m h full end =
    let e : i + 0 ≡ i = omega arith in
    let end' : m (str + i) ≡ 0 = rw e at end in rw e (ground arith)
strlen_from (suc fuel) str i (suc n) m h full end =
    let e : i + suc n ≡ i + 1 + n = omega arith in
    let end' : m (str + (i + 1 + n)) ≡ 0 = rw e at end in
    rw e (
      ground (
        arith,
        full i (omega arith) (omega arith),
        strlen_from fuel str (i + 1) n m (omega arith) (λ k a b. full k (omega arith) (omega arith))
            end',
      ))

-- `strlen` returns the index of the first zero byte, given more rounds than that.
pub strlen_lem :
    (fuel str n : ℕ) (m : Bytes)
    → n < fuel
    → ((k : ℕ) → k < n → m (str + k) ≢ 0)
    → m (str + n) ≡ 0
    → strlen fuel str 0 m ≡ some n
strlen_lem fuel str n m h full end =
    let e : 0 + n ≡ n = omega arith in
    let r = strlen_from fuel str 0 n m h (λ k a b. full k (omega arith)) (rw e end) in rw e at r

strnlen_loop-len : (left str i len : ℕ) (m : Bytes) → strnlen_loop left str i len m ≡ len
unfolding strnlen_loop
strnlen_loop-len zero str i len m = refl
strnlen_loop-len (suc left) str i len m = ground (arith, strnlen_loop-len left str (i + 1) len m)

strcmp_from :
    (fuel s1 s2 i n : ℕ) (m : Bytes)
    → n < fuel
    → ((k : ℕ) → i ≤ k → k < i + n → (m (s1 + k) ≢ 0) × (m (s1 + k) ≡ m (s2 + k)))
    → (m (s1 + (i + n)) ≡ 0) ⊎ (m (s1 + (i + n)) ≢ m (s2 + (i + n)))
    → strcmp fuel s1 s2 i m
      ≡ some (sub32 (int_of_char (m (s1 + (i + n)))) (int_of_char (m (s2 + (i + n)))))
unfolding strcmp
strcmp_from zero s1 s2 i n m h same end = absurd (omega arith)
strcmp_from (suc fuel) s1 s2 i zero m h same end =
    let e : i + 0 ≡ i = omega arith in
    let end' : (m (s1 + i) ≡ 0) ⊎ (m (s1 + i) ≢ m (s2 + i)) = rw e at end in rw e (ground arith)
strcmp_from (suc fuel) s1 s2 i (suc n) m h same end =
    let e : i + suc n ≡ i + 1 + n = omega arith in
    let end' : (m (s1 + (i + 1 + n)) ≡ 0) ⊎ (m (s1 + (i + 1 + n)) ≢ m (s2 + (i + 1 + n))) =
      rw e at end in
    rw e (
      ground (
        arith,
        same i (omega arith) (omega arith),
        strcmp_from fuel s1 s2 (i + 1) n m (omega arith)
            (λ k a b. same k (omega arith) (omega arith)) end',
      ))

-- Let `n` be the first index at which the first string ends or the strings differ. Given more than
-- `n` rounds, `strcmp` returns the difference of the two characters there, as signed chars; it
-- is 0 if and only if the strings end together at `n`.
strcmp-first :
    (fuel s1 s2 n : ℕ) (m : Bytes)
    → ((a : ℕ) → m a < 256)
    → n < fuel
    → ((k : ℕ) → k < n → (m (s1 + k) ≢ 0) × (m (s1 + k) ≡ m (s2 + k)))
    → (m (s1 + n) ≡ 0) ⊎ (m (s1 + n) ≢ m (s2 + n))
    → (difference : ℕ) × (strcmp fuel s1 s2 0 m ≡ some difference)
      × (difference ≡ sub32 (int_of_char (m (s1 + n))) (int_of_char (m (s2 + n))))
      × ((difference ≡ 0) ↔ ((m (s1 + n) ≡ 0) × (m (s2 + n) ≡ 0)))
strcmp-first fuel s1 s2 n m byte h same end =
    let e : 0 + n ≡ n = omega arith in
    let r = strcmp_from fuel s1 s2 0 n m h (λ k a b. same k (omega arith)) (rw e end) in
    let r' = rw e at r in
    (
      sub32 (int_of_char (m (s1 + n))) (int_of_char (m (s2 + n))),
      r',
      refl,
      ground (arith, difference-zero (m (s1 + n)) (m (s2 + n)) (byte _) (byte _)),
    )
