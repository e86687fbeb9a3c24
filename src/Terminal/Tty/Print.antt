-- ===== src/Terminal/Tty/Print.antt =====
-- Printing on the terminal: `tty_write`, `tty_printstr`, `tty_printint`, `tty_printhex` and `kprintf` of
-- kernel/terminal/tty.c. A C string is the list of its bytes; its end stands for the terminating 0.
pub mod Decimal
pub mod Hexadecimal
pub mod Format
use aosis.Base.{
  ℕ, zero, suc, ◌+◌, ◌-◌, ◌*◌, ◌/◌, ◌%◌, ◌^◌, Bool, true, false, ◌||◌, Option, none, some, List, [],
  ◌∷◌, bit_and, ltb, ◌==◌, if◌then◌else◌, get_or, shl32, for_range, Result, ok, fault, ◌>>=◌,
}
use aosis.Terminal.Tty.{Tty, tty_putc}

unfoldable pub tty_write : List ℕ → ℕ → Tty → Tty
tty_write str len s = for_range len 0 (λ i t. tty_putc (get_or str i 0) t) s

unfoldable pub tty_printstr : List ℕ → Tty → Tty
tty_printstr [] s = s
tty_printstr (c ∷ str) s = if c == 0 then s else tty_printstr str (tty_putc c s)

-- The first loop of `tty_printint`: the digits, the lowest first. The fuel is the 32 places of the array.
unfoldable pub int_digits : ℕ → ℕ → List ℕ
int_digits zero num = []
int_digits (suc room) num =
    let rest = int_digits room (num / 10) in if num == 0 then [] else num % 10 ∷ rest

-- The second loop prints them from the last to the first.
unfoldable pub put_digits : List ℕ → Tty → Tty
put_digits [] s = s
put_digits (d ∷ ds) s = tty_putc (b'0' + d) (put_digits ds s)

unfoldable pub tty_printint : ℕ → Tty → Tty
tty_printint num s = if num == 0 then tty_putc b'0' s else put_digits (int_digits 32 num) s

-- hex[c] for the string "0123456789abcdef"
abbrev pub hex : List ℕ
hex =
    b'0' ∷ b'1' ∷ b'2' ∷ b'3' ∷ b'4' ∷ b'5' ∷ b'6' ∷ b'7' ∷ b'8' ∷ b'9' ∷ b'a' ∷ b'b' ∷ b'c' ∷ b'd'
    ∷ b'e' ∷ b'f' ∷ []

unfoldable pub hex_loop : ℕ → ℕ → Tty → Tty
hex_loop zero num s = s
hex_loop (suc left) num s =
    let c = bit_and (bit_and num 0xF0000000 / 2 ^ 28) 0x0F in
    hex_loop left (shl32 num 4) (tty_putc (get_or hex c 0) s)

unfoldable pub tty_printhex : ℕ → Tty → Tty
tty_printhex num s = if num == 0 then tty_putc b'0' s else hex_loop 8 num s

-- What `va_arg` finds: a 32-bit number or a string.
pub data Arg : Type 0 where
  num : ℕ → Arg
  str : List ℕ → Arg

-- Taking an argument that is not there, or of another kind, is undefined.
unfoldable pub next_num : List Arg → Result (ℕ × List Arg)
next_num [] = fault
next_num (num n ∷ args) = ok (n, args)
next_num (str t ∷ args) = fault

unfoldable pub next_str : List Arg → Result (List ℕ × List Arg)
next_str [] = fault
next_str (num n ∷ args) = fault
next_str (str t ∷ args) = ok (t, args)

-- What `kprintf` carries through its loop, less the index.
pub record Printf : Type 0 where
  pub args : List Arg
  pub printed : ℕ
  pub fmt_flag : Bool
  pub tty : Tty

-- The `switch` on the character after a `%`. An unknown one prints nothing.
unfoldable pub directive : ℕ → Printf → Result Printf
directive c p =
    if c == b'%'
    then ok (record p { printed = p.printed + 1; tty = tty_putc b'%' p.tty })
    else if c == b'd' || (c == b'u' || c == b'i')
    then (do (n, args) ← next_num p.args; ok (record p { args = args; tty = tty_printint n p.tty }))
    else if c == b'x' || c == b'X'
    then (do (n, args) ← next_num p.args; ok (record p { args = args; tty = tty_printhex n p.tty }))
    else if c == b's'
    then (do (t, args) ← next_str p.args; ok (record p { args = args; tty = tty_printstr t p.tty }))
    else ok p

-- One round of the loop of `kprintf`.
unfoldable pub format_char : ℕ → Printf → Result Printf
format_char c p =
    if p.fmt_flag
    then (do p' ← directive c p; ok (record p' { fmt_flag = false }))
    else if c == b'%'
    then ok (record p { fmt_flag = true })
    else ok (record p { tty = tty_putc c p.tty })

-- The loop: it gives the state and the index at which it stopped.
unfoldable pub format_loop : List ℕ → ℕ → Printf → Result (Printf × ℕ)
format_loop [] i p = ok (p, i)
format_loop (c ∷ format) i p =
    if c == 0 then ok (p, i) else format_char c p >>= λ p'. format_loop format (i + 1) p'

unfoldable pub kprintf : List ℕ → List Arg → Tty → Result (ℕ × Tty)
kprintf format args s = do
  (p, i) ← format_loop format 0 (record { args = args; printed = 0; fmt_flag = false; tty = s })
  ok (p.printed + i, p.tty)
