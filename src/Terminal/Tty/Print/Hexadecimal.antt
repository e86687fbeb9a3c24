-- ===== src/Terminal/Tty/Print/Hexadecimal.antt =====
-- The numbers that `tty_printhex` of kernel/terminal/tty.c prints, read back.
use aosis.Base.{
  ℕ, zero, suc, ◌+◌, ◌-◌, ◌*◌, ◌/◌, ◌%◌, ◌^◌, ◌<◌, ◌≡◌, ◌≢◌, refl, ap, true, List, [], ◌∷◌, arith,
  leb, Bool, ◌&&◌, ◌||◌, ◌==◌, if◌then◌else◌, length, get_or, shl32, bit_and, all_below,
  all_below_sound, Bool-cases, inl, inr,
}
use aosis.Bits.Digits.{bit_and_shifted, bit_and_low}
use aosis.Terminal.Tty.{Tty, tty_putc}
use aosis.Terminal.Tty.Print.{tty_printstr, hex, hex_loop, tty_printhex}

-- Reading hexadecimal text, from the left.
unfoldable pub unhex : ℕ → ℕ
unhex c = if leb c b'9' then c - b'0' else c - b'a' + 10

unfoldable pub parse_hex_from : ℕ → List ℕ → ℕ
parse_hex_from acc [] = acc
parse_hex_from acc (c ∷ text) = parse_hex_from (acc * 16 + unhex c) text

-- The characters '0' to '9' and 'a' to 'f'.
abbrev pub is_hex : ℕ → Bool
is_hex c = (leb b'0' c && leb c b'9') || (leb b'a' c && leb c b'f')

abbrev pub AllHex : List ℕ → Type 0
AllHex [] = Unit {0}
AllHex (c ∷ text) = (is_hex c ≡ true) × AllHex text

nibble_table : all_below 16 (λ c. (unhex (get_or hex c 0) == c) && is_hex (get_or hex c 0)) ≡ true
unfolding all_below unhex
nibble_table = refl

nibble :
    (c : ℕ)
    → c < 16
    → (unhex (get_or hex c 0) ≡ c) × (get_or hex c 0 ≢ 0) × (is_hex (get_or hex c 0) ≡ true)
nibble c h = ground (
  arith,
  all_below_sound 16 (λ c. (unhex (get_or hex c 0) == c) && is_hex (get_or hex c 0)) c nibble_table,
)

-- The top four bits, as `tty_printhex` takes them.
top_nibble :
    (num : ℕ) → num < 2 ^ 32 → bit_and (bit_and num 0xF0000000 / 2 ^ 28) 0x0F ≡ num / 2 ^ 28
top_nibble num h = ground (
  arith,
  bit_and_shifted 28 (num / 2 ^ 28) (num % 2 ^ 28) 15,
  bit_and_low 4 (num / 2 ^ 28),
  bit_and_low 4 (bit_and num 0xF0000000 / 2 ^ 28),
)

-- The text that the loop of `tty_printhex` prints.
hex_text : ℕ → ℕ → List ℕ
hex_text zero num = []
hex_text (suc left) num = get_or hex (num / 2 ^ 28) 0 ∷ hex_text left (num % 2 ^ 28 * 16)

hex_loop-text :
    (left num : ℕ) (s : Tty)
    → num < 2 ^ 32
    → hex_loop left num s ≡ tty_printstr (hex_text left num) s
unfolding hex_loop hex_text tty_printstr
hex_loop-text zero num s h = refl
hex_loop-text (suc left) num s h =
    let shifted : shl32 num 4 ≡ num % 2 ^ 28 * 16 = omega arith in
    rw
      (
        top_nibble num h,
        shifted,
        hex_loop-text left (num % 2 ^ 28 * 16) (tty_putc (get_or hex (num / 2 ^ 28) 0) s)
            (omega arith),
      )
      (ground (arith, nibble (num / 2 ^ 28) (omega arith)))

length-hex_text : (left num : ℕ) → length (hex_text left num) ≡ left
unfolding hex_text
length-hex_text zero num = refl
length-hex_text (suc left) num = ap suc (length-hex_text left (num % 2 ^ 28 * 16))

hex_text-AllHex : (left num : ℕ) → num < 2 ^ 32 → AllHex (hex_text left num)
unfolding hex_text
hex_text-AllHex zero num h = tt
hex_text-AllHex (suc left) num h =
    let (_, _, digit) = nibble (num / 2 ^ 28) (omega arith) in
    (digit, hex_text-AllHex left (num % 2 ^ 28 * 16) (omega arith))

parse_hex-step :
    (left acc num : ℕ)
    → num < 2 ^ 32
    → parse_hex_from acc (hex_text (suc left) num)
      ≡ parse_hex_from (acc * 16 + num / 2 ^ 28) (hex_text left (num % 2 ^ 28 * 16))
unfolding hex_text parse_hex_from
parse_hex-step left acc num h = rw (parse_hex_from, (nibble (num / 2 ^ 28) (omega arith)).0)

-- The number without its top digit, moved up by one digit.
abbrev up : ℕ → ℕ
up num = num % 2 ^ 28 * 16

-- Two digits make a byte of the number.
parse_hex-byte :
    (left acc num : ℕ)
    → num < 2 ^ 32
    → parse_hex_from acc (hex_text (suc (suc left)) num)
      ≡ parse_hex_from (acc * 256 + num / 2 ^ 24) (hex_text left (num % 2 ^ 24 * 256))
parse_hex-byte left acc num h =
    let first = parse_hex-step (suc left) acc num h in
    let second = parse_hex-step left (acc * 16 + num / 2 ^ 28) (up num) (omega arith) in
    let read : (acc * 16 + num / 2 ^ 28) * 16 + up num / 2 ^ 28 ≡ acc * 256 + num / 2 ^ 24 =
      omega arith in
    let left_over : up (up num) ≡ num % 2 ^ 24 * 256 = omega arith in
    rw (first, second, read, left_over) refl

parse_hex-all : (num : ℕ) → num < 2 ^ 32 → parse_hex_from 0 (hex_text 8 num) ≡ num
parse_hex-all num h =
    let n₁ = num % 2 ^ 24 * 256 in
    let n₂ = n₁ % 2 ^ 24 * 256 in
    let n₃ = n₂ % 2 ^ 24 * 256 in
    rw
      (
        parse_hex-byte 6 0 num h,
        parse_hex-byte 4 (0 * 256 + num / 2 ^ 24) n₁ (omega arith),
        parse_hex-byte 2 ((0 * 256 + num / 2 ^ 24) * 256 + n₁ / 2 ^ 24) n₂ (omega arith),
        parse_hex-byte 0 (((0 * 256 + num / 2 ^ 24) * 256 + n₁ / 2 ^ 24) * 256 + n₂ / 2 ^ 24) n₃
            (omega arith),
      )
      (unfold parse_hex_from hex_text in omega arith)

-- The text that `tty_printhex` prints.
unfoldable pub hexadecimal : ℕ → List ℕ
unfolding hex_text
hexadecimal num = if num == 0 then b'0' ∷ [] else hex_text 8 num

-- `tty_printhex` prints each 32-bit number as a hexadecimal text that reads back as that number: one digit
-- for 0, else 8 digits, with leading zeros. Each character is one of '0' to '9' and 'a' to 'f'.
pub tty_printhex-parse :
    (num : ℕ) (s : Tty)
    → num < 2 ^ 32
    → (tty_printhex num s ≡ tty_printstr (hexadecimal num) s)
      × (length (hexadecimal num) ≡ (if num == 0 then 1 else 8))
      × (parse_hex_from 0 (hexadecimal num) ≡ num)
      × AllHex (hexadecimal num)
unfolding tty_printhex hexadecimal
tty_printhex-parse num s h = elim (Bool-cases (num == 0)) [
  | inl e ↦ rw e (
    unfold tty_printstr in ground arith,
    refl,
    unfold parse_hex_from unhex in ground arith,
    (refl, tt),
  )
  | inr e ↦
      rw e (
        hex_loop-text 8 num s h,
        length-hex_text 8 num,
        parse_hex-all num h,
        hex_text-AllHex 8 num h,
      )
]
