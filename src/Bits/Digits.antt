-- ===== src/Bits/Digits.antt =====
-- The binary digits of a word, and what the native `&` and `|` do to each of them.
use Prim.Native.Nat.{digits, bitwise, bit_and-bitwise, bit_or-bitwise}
use aosis.Base.{
  ℕ, zero, suc, ◌+◌, ◌-◌, ◌*◌, ◌/◌, ◌%◌, ◌^◌, ◌≤◌, ◌<◌, ◌≡◌, ◌∙◌, refl, ap, bit_and, bit_or, min,
  max, arith, ◌==◌, if◌then◌else◌,
}
use native.Mathlib.Nat.{pow-suc, one-le-pow}

-- Bit `k` of `x`, as 0 or 1.
unfoldable pub bit : ℕ → ℕ → ℕ
bit x zero = x % 2
bit x (suc k) = bit (x / 2) k

-- The native operations mean a recursion on digits with fuel. Fuel above the first number is not used,
-- so the recursion satisfies an equation that takes one digit off both numbers.
module _ (tail : ℕ → ℕ) (op : ℕ → ℕ → ℕ) where
  spare : (fuel x y : ℕ) → x ≤ fuel → digits tail op (suc fuel) x y ≡ digits tail op fuel x y
  spare zero zero y h = refl
  spare (suc fuel) zero y h = refl
  spare zero (suc x) y h = absurd (omega arith)
  spare (suc fuel) (suc x) y h = omega (arith, spare fuel (suc x / 2) (y / 2) (omega arith))

  spares : (k x y : ℕ) → digits tail op (k + x) x y ≡ digits tail op x x y
  spares zero x y = let e : 0 + x ≡ x = omega arith in rw e refl
  spares (suc k) x y =
      let e : suc k + x ≡ suc (k + x) = omega arith in
      rw e (spare (k + x) x y (omega arith) ∙ spares k x y)

  top_digit :
      (x y : ℕ)
      → bitwise tail op (suc x) y ≡ op (suc x % 2) (y % 2) + 2 * bitwise tail op (suc x / 2) (y / 2)
  top_digit x y =
      let enough : x - suc x / 2 + suc x / 2 ≡ x = omega arith in
      let half = spares (x - suc x / 2) (suc x / 2) (y / 2) in
      omega (arith, ap (λ (n : ℕ). digits tail op n (suc x / 2) (y / 2)) enough, half)

pub bit_or_step : (x y : ℕ) → bit_or x y ≡ max (x % 2) (y % 2) + 2 * bit_or (x / 2) (y / 2)
bit_or_step zero y = omega (arith, bit_or-bitwise 0 y, bit_or-bitwise 0 (y / 2))
bit_or_step (suc x) y =
    bit_or-bitwise (suc x) y
    ∙ top_digit (λ n. n) max x y
    ∙ rw (bit_or-bitwise (suc x / 2) (y / 2)) refl

pub bit_and_step : (x y : ℕ) → bit_and x y ≡ min (x % 2) (y % 2) + 2 * bit_and (x / 2) (y / 2)
bit_and_step zero y = omega (arith, bit_and-bitwise 0 y, bit_and-bitwise 0 (y / 2))
bit_and_step (suc x) y =
    bit_and-bitwise (suc x) y
    ∙ top_digit (λ n. 0) min x y
    ∙ rw (bit_and-bitwise (suc x / 2) (y / 2)) refl

-- `&` and `|` work on each bit alone.
pub bit-bit_and : (a b k : ℕ) → bit (bit_and a b) k ≡ min (bit a k) (bit b k)
unfolding bit
bit-bit_and a b zero = omega (arith, bit_and_step a b)
bit-bit_and a b (suc k) =
    let half : bit_and a b / 2 ≡ bit_and (a / 2) (b / 2) = omega (arith, bit_and_step a b) in
    rw half (bit-bit_and (a / 2) (b / 2) k)

pub bit-bit_or : (a b k : ℕ) → bit (bit_or a b) k ≡ max (bit a k) (bit b k)
unfolding bit
bit-bit_or a b zero = omega (arith, bit_or_step a b)
bit-bit_or a b (suc k) =
    let half : bit_or a b / 2 ≡ bit_or (a / 2) (b / 2) = omega (arith, bit_or_step a b) in
    rw half (bit-bit_or (a / 2) (b / 2) k)

pub bit-lt : (x k : ℕ) → bit x k < 2
unfolding bit
bit-lt x zero = omega arith
bit-lt x (suc k) = bit-lt (x / 2) k

pub bit-zero : (k : ℕ) → bit 0 k ≡ 0
unfolding bit
bit-zero zero = refl
bit-zero (suc k) = bit-zero k

pow-suc_half : (j : ℕ) → (2 ^ suc j / 2 ≡ 2 ^ j) × (2 ^ suc j % 2 ≡ 0)
pow-suc_half j = omega (arith, pow-suc 2 j)

-- A power of two has one bit.
pub bit-pow : (j k : ℕ) → bit (2 ^ j) k ≡ (if j == k then 1 else 0)
unfolding bit
bit-pow zero zero = refl
bit-pow zero (suc k) = ground (arith, bit-zero k)
bit-pow (suc j) zero = ground (arith, pow-suc_half j)
bit-pow (suc j) (suc k) = rw (pow-suc_half j).0 (ground (arith, bit-pow j k))

-- The complement in `w` bits turns each of them over.
pub bit-complement : (w x k : ℕ) → x < 2 ^ w → k < w → bit (2 ^ w - 1 - x) k ≡ 1 - bit x k
unfolding bit
bit-complement zero x k h p = elim p [ ]
bit-complement (suc w) x zero h p = omega (arith, pow-suc 2 w)
bit-complement (suc w) x (suc k) h p =
    let half : (2 ^ suc w - 1 - x) / 2 ≡ 2 ^ w - 1 - x / 2 = omega (arith, pow-suc 2 w) in
    rw half (bit-complement w (x / 2) k (omega (arith, pow-suc 2 w)) (omega arith))

-- Words of `w` bits with the same bits are equal.
pub bit_ext : (w x y : ℕ) → x < 2 ^ w → y < 2 ^ w → ((k : ℕ) → k < w → bit x k ≡ bit y k) → x ≡ y
unfolding bit
bit_ext zero x y h g e = omega arith
bit_ext (suc w) x y h g e =
    let halves : x / 2 ≡ y / 2 =
      bit_ext w (x / 2) (y / 2) (omega (arith, pow-suc 2 w)) (omega (arith, pow-suc 2 w))
        (λ k p. e (suc k) (omega arith)) in
    omega (arith, e 0 (omega arith), halves)

-- Both operations with 0 on the right.
with_zero : (fuel x : ℕ) → x ≤ fuel → (bit_or x 0 ≡ x) × (bit_and x 0 ≡ 0)
with_zero fuel zero h = (refl, refl)
with_zero zero (suc x) h = absurd (omega arith)
with_zero (suc fuel) (suc x) h =
    let (joined, met) = with_zero fuel (suc x / 2) (omega arith) in
    (omega (arith, bit_or_step (suc x) 0, joined), omega (arith, bit_and_step (suc x) 0, met))

bit_and-zero : (x : ℕ) → bit_and x 0 ≡ 0
bit_and-zero x = (with_zero x x (omega arith)).1

-- `x & (1 << j)` is bit `j` in its place.
pub bit_and-pow : (j x : ℕ) → bit_and x (2 ^ j) ≡ bit x j * 2 ^ j
unfolding bit
bit_and-pow zero x = omega (arith, bit_and_step x 1, bit_and-zero (x / 2))
bit_and-pow (suc j) x =
    rw (bit_and_step x (2 ^ suc j), (pow-suc_half j).0, (pow-suc_half j).1, bit_and-pow j (x / 2))
      (omega (arith, pow-suc 2 j, ap (λ (t : ℕ). bit (x / 2) j * t) (pow-suc 2 j)))

-- Taking a digit off the low end of a number cut at `2 ^ suc k` cuts the half at `2 ^ k`.
twice-pow : (q k : ℕ) → q * 2 ^ suc k ≡ 2 * (q * 2 ^ k)
twice-pow q k = omega (arith, ap (λ (t : ℕ). q * t) (pow-suc 2 k))

pub bit_or_zero : (x : ℕ) → bit_or x 0 ≡ x
bit_or_zero x = (with_zero x x (omega arith)).0

-- The results stay in the width of the operands.
pub bit_or-lt : (w a b : ℕ) → a < 2 ^ w → b < 2 ^ w → bit_or a b < 2 ^ w
bit_or-lt zero a b h g = ground (arith, bit_or_zero a)
bit_or-lt (suc w) a b h g = omega (arith, bit_or_step a b, pow-suc 2 w, bit_or-lt w (a / 2) (b / 2))

bit_and-le_fuel : (fuel x y : ℕ) → x ≤ fuel → bit_and x y ≤ x
bit_and-le_fuel fuel zero y h = omega (arith, bit_and-bitwise 0 y)
bit_and-le_fuel zero (suc x) y h = absurd (omega arith)
bit_and-le_fuel (suc fuel) (suc x) y h =
    omega (arith, bit_and_step (suc x) y, bit_and-le_fuel fuel (suc x / 2) (y / 2))

pub bit_and-le : (a b : ℕ) → bit_and a b ≤ a
bit_and-le a b = bit_and-le_fuel a a b (omega arith)

-- A mask of `2 ^ k`s keeps nothing below bit `k`.
pub bit_and_shifted :
    (k q r m : ℕ) → r < 2 ^ k → bit_and (q * 2 ^ k + r) (m * 2 ^ k) ≡ bit_and q m * 2 ^ k
bit_and_shifted zero q r m h =
    let e : q * 2 ^ 0 + r ≡ q = omega arith in
    let e' : m * 2 ^ 0 ≡ m = omega arith in rw (e, e') (omega arith)
bit_and_shifted (suc k) q r m h = ground (
  arith,
  bit_and_step (q * 2 ^ suc k + r) (m * 2 ^ suc k),
  twice-pow q k,
  twice-pow m k,
  twice-pow (bit_and q m) k,
  pow-suc 2 k,
  bit_and_shifted k q (r / 2) m,
)

-- `|` of fields that do not overlap is their sum.
pub bit_or_fields : (k q r : ℕ) → r < 2 ^ k → bit_or (q * 2 ^ k) r ≡ q * 2 ^ k + r
bit_or_fields zero q r h = ground (arith, bit_or_zero q)
bit_or_fields (suc k) q r h =
    ground
      (arith, bit_or_step (q * 2 ^ suc k) r, twice-pow q k, pow-suc 2 k, bit_or_fields k q (r / 2))

low_field : (k q r : ℕ) → r < 2 ^ k → bit_and (q * 2 ^ k + r) (2 ^ k - 1) ≡ r
low_field zero q r h = omega (arith, bit_and-zero (q * 2 ^ 0 + r))
low_field (suc k) q r h = ground (
  arith,
  bit_and_step (q * 2 ^ suc k + r) (2 ^ suc k - 1),
  twice-pow q k,
  pow-suc 2 k,
  low_field k q (r / 2),
)

-- `x & (2 ^ k - 1)` is the remainder by `2 ^ k`.
pub bit_and_low : (k x : ℕ) → bit_and x (2 ^ k - 1) ≡ x % 2 ^ k
bit_and_low k x = ground (arith, one-le-pow k 2, low_field k (x / 2 ^ k) (x % 2 ^ k))

below_one : (a : ℕ) → a < 2 ^ 0 → a ≡ 0
below_one a h = omega arith

pub bit_and_comm : (w a b : ℕ) → a < 2 ^ w → b < 2 ^ w → bit_and a b ≡ bit_and b a
bit_and_comm zero a b h g = rw (below_one a h, below_one b g) refl
bit_and_comm (suc w) a b h g =
    omega (arith, bit_and_step a b, bit_and_step b a, pow-suc 2 w, bit_and_comm w (a / 2) (b / 2))

pub bit_or_comm : (w a b : ℕ) → a < 2 ^ w → b < 2 ^ w → bit_or a b ≡ bit_or b a
bit_or_comm zero a b h g = rw (below_one a h, below_one b g) refl
bit_or_comm (suc w) a b h g =
    omega (arith, bit_or_step a b, bit_or_step b a, pow-suc 2 w, bit_or_comm w (a / 2) (b / 2))
