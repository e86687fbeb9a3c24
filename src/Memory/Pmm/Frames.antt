-- ===== src/Memory/Pmm/Frames.antt =====
-- The bitmap read as a set of frames: frame `p` is in use when bit `p % 32` of word `p / 32` is
-- set; and what the scans of one word find.
use aosis.Base.{
  ap, all_below, all_below_sound, ==_iff, get_or-set-lt, get_or-set_self, set-set, set-get_or, ℕ,
  zero, suc, ◌+◌, ◌*◌, ◌/◌, ◌%◌, ◌^◌, ◌≤◌, ◌<◌, ◌≡◌, ◌≢◌, refl, true, some, List, arith, ◌==◌,
  if◌then◌else◌, length, get_or, set, get_or-set,
}
use aosis.Bits.{set_bit, clear_bit}
use aosis.Bits.Digits.{bit, bit_ext, bit-lt}
use aosis.Bits.Laws.{check_bit_set-zero, bit-set_bit, bit-clear_bit, clear_bit-set_bit}
use aosis.Memory.Pmm.{find_unset}

-- 1 when frame `p` is in use, else 0.
unfoldable pub frame : List ℕ → ℕ → ℕ
frame bitmap p = bit (get_or bitmap (p / 32) 0) (p % 32)

pub frame-lt : (bitmap : List ℕ) (p : ℕ) → frame bitmap p < 2
unfolding frame
frame-lt bitmap p = bit-lt (get_or bitmap (p / 32) 0) (p % 32)

-- Every word of the bitmap is a 32-bit number.
abbrev pub IsWords : List ℕ → Type 0
IsWords bitmap = (i : ℕ) → get_or bitmap i 0 < 2 ^ 32

-- The search finds the first bit that is clear.
pub find_unset-first :
    (left j k w : ℕ)
    → j ≤ k
    → k < j + left
    → j + left ≤ 32
    → bit w k ≡ 0
    → ((i : ℕ) → j ≤ i → i < k → bit w i ≡ 1)
    → find_unset left j w ≡ some k
unfolding find_unset
find_unset-first zero j k w a b c e full = absurd (omega arith)
find_unset-first (suc left) j k w a b c e full = ground (
  arith,
  check_bit_set-zero w j (omega arith),
  full j,
  bit-lt w j,
  find_unset-first left (j + 1) k w,
)

-- A word with a clear bit is not all ones; a word with every bit set is.
all_ones_table : all_below 32 (λ k. bit 0xFFFFFFFF k == 1) ≡ true
unfolding all_below bit
all_ones_table = refl

pub all_ones_bits : (k : ℕ) → k < 32 → bit 0xFFFFFFFF k ≡ 1
all_ones_bits k h = (==_iff _ 1).0 (all_below_sound 32 _ k all_ones_table h)

pub all_ones : (w : ℕ) → w < 2 ^ 32 → ((k : ℕ) → k < 32 → bit w k ≡ 1) → w ≡ 0xFFFFFFFF
all_ones w h full =
    bit_ext 32 w 0xFFFFFFFF h (omega arith) (λ k p. ground (arith, full k p, all_ones_bits k p))

pub not_all_ones : (w k : ℕ) → k < 32 → bit w k ≡ 0 → w ≢ 0xFFFFFFFF
not_all_ones w k h e e' = omega (arith, all_ones_bits k h, ap (λ t. bit t k) e')

-- A word of frames in use is all ones, and a free frame is the first clear bit of its word if the frames before it are in use.
pub full_word :
    (bitmap : List ℕ)
    → IsWords bitmap
    → (i : ℕ) → ((q : ℕ) → i * 32 ≤ q → q < i * 32 + 32 → frame bitmap q ≡ 1)
    → get_or bitmap i 0 ≡ 0xFFFFFFFF
unfolding frame
full_word bitmap ws i full = all_ones (get_or bitmap i 0) (ws i) λ k h.
    let word : (i * 32 + k) / 32 ≡ i = omega arith in
    let place : (i * 32 + k) % 32 ≡ k = omega arith in
    let used = full (i * 32 + k) (omega arith) (omega arith) in rw (word, place) at used

pub first_in_word :
    (bitmap : List ℕ) (p : ℕ)
    → frame bitmap p ≡ 0
    → ((q : ℕ) → p / 32 * 32 ≤ q → q < p → frame bitmap q ≡ 1)
    → (find_unset 32 0 (get_or bitmap (p / 32) 0) ≡ some (p % 32))
      × (get_or bitmap (p / 32) 0 ≢ 0xFFFFFFFF)
unfolding frame
first_in_word bitmap p e full = (
  find_unset-first 32 0 (p % 32) (get_or bitmap (p / 32) 0) (omega arith) (omega arith)
      (omega arith) e
      λ k _ h.
        let word : (p / 32 * 32 + k) / 32 ≡ p / 32 = omega arith in
        let place : (p / 32 * 32 + k) % 32 ≡ k = omega arith in
        let used = full (p / 32 * 32 + k) (omega arith) (omega arith) in rw (word, place) at used,
  not_all_ones (get_or bitmap (p / 32) 0) (p % 32) (omega arith) e,
)

-- Setting or clearing a frame's bit changes that frame alone.
pub frame-set_bit :
    (bitmap : List ℕ) (p q : ℕ)
    → p / 32 < length bitmap
    → frame (set bitmap (p / 32) (set_bit (get_or bitmap (p / 32) 0) (p % 32))) q
      ≡ (if p == q then 1 else frame bitmap q)
unfolding frame
frame-set_bit bitmap p q h = ground (
  arith,
  get_or-set bitmap (p / 32) (q / 32) (set_bit (get_or bitmap (p / 32) 0) (p % 32)) 0 h,
  bit-set_bit (get_or bitmap (p / 32) 0) (p % 32) (q % 32) (omega arith),
)

pub frame-clear_bit :
    (bitmap : List ℕ) (p q : ℕ)
    → p / 32 < length bitmap
    → frame (set bitmap (p / 32) (clear_bit (get_or bitmap (p / 32) 0) (p % 32))) q
      ≡ (if p == q then 0 else frame bitmap q)
unfolding frame
frame-clear_bit bitmap p q h = ground (
  arith,
  get_or-set bitmap (p / 32) (q / 32) (clear_bit (get_or bitmap (p / 32) 0) (p % 32)) 0 h,
  bit-clear_bit (get_or bitmap (p / 32) 0) (p % 32) (q % 32) (omega arith) (omega arith),
)

pub set-IsWords :
    (bitmap : List ℕ) (i v : ℕ) → IsWords bitmap → v < 2 ^ 32 → IsWords (set bitmap i v)
set-IsWords bitmap i v ws h j = get_or-set-lt bitmap i j v (2 ^ 32) (ws j) h

-- The bitmap with the bit of frame `p` set, and with it cleared.
abbrev pub marked : List ℕ → ℕ → List ℕ
marked bitmap p = set bitmap (p / 32) (set_bit (get_or bitmap (p / 32) 0) (p % 32))

abbrev pub unmarked : List ℕ → ℕ → List ℕ
unmarked bitmap p = set bitmap (p / 32) (clear_bit (get_or bitmap (p / 32) 0) (p % 32))

pub unmarked-marked :
    (bitmap : List ℕ) (p : ℕ)
    → IsWords bitmap
    → p / 32 < length bitmap
    → frame bitmap p ≡ 0
    → unmarked (marked bitmap p) p ≡ bitmap
unfolding frame
unmarked-marked bitmap p ws h e =
    let word = get_or bitmap (p / 32) 0 in
    let stored = get_or-set_self bitmap (p / 32) (set_bit word (p % 32)) 0 h in
    let restored = clear_bit-set_bit word (p % 32) (ws (p / 32)) (omega arith) e in
    rw (stored, restored, set-set, set-get_or)
