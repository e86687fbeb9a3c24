-- ===== src/Tests/Tty.antt =====
-- The terminal of kernel/terminal/tty.c on a screen of zeros.
use aosis.Base.{
  ℕ, ◌+◌, ◌≤◌, ◌<◌, ◌≡◌, refl, List, [], ◌∷◌, arith, length, get_or, replicate, length-replicate,
  ok,
}
use aosis.Terminal.Vga.{vga_entry}
use aosis.Terminal.Tty.{Tty, initialize_terminal, tty_putc, tty_deleteprev}
use aosis.Terminal.Tty.Bounds.{IsValid, IsSynced}
use aosis.Terminal.Tty.Reach.{here, next, putc, printint, deleteprev, initialize_terminal-Reach}
use aosis.Terminal.Tty.Shows.{tty_putc-shows, tty_deleteprev-putc}
use aosis.Terminal.Tty.Print.{tty_printstr, tty_printint, tty_printhex, kprintf, int_digits}
use aosis.Terminal.Tty.Print.Decimal.{AllDigits, parse_from, decimal, tty_printint-parse}
use aosis.Terminal.Tty.Print.Hexadecimal.{AllHex, parse_hex_from, hexadecimal, tty_printhex-parse}
use aosis.Terminal.Tty.Print.Format.{Piece, format_of, args_of, show, percents, kprintf-pieces}

unfoldable zeros : List ℕ
zeros = replicate 2000 0

length-zeros : length zeros ≡ 2000
unfolding zeros
length-zeros = length-replicate {A = ℕ} 2000 0

abbrev tty_at : ℕ → ℕ → Tty
tty_at x y = record { tty_xpos = x; tty_ypos = y; tty_color = 15; tty_buffer = zeros; ports = [] }

tty_at-IsValid : (x y : ℕ) → x < 80 → y < 25 → IsValid (tty_at x y)
tty_at-IsValid x y h g = record { xpos_in = h; ypos_in = g; size = length-zeros }

-- The last cell of the screen.
corner-IsValid : IsValid (tty_at 79 24)
corner-IsValid = tty_at-IsValid 79 24 (omega arith) (omega arith)

middle-IsValid : IsValid (tty_at 79 3)
middle-IsValid = tty_at-IsValid 79 3 (omega arith) (omega arith)

-- Every port reads as 0.
abbrev no_input : List (ℕ × ℕ) → ℕ → ℕ
no_input ports port = 0

-- A tab, a number, and a character deleted.
initialize_terminal-Reach_example :
    let t =
      tty_deleteprev
        (tty_printint 137 (tty_putc 9 (initialize_terminal no_input (tty_at 70 24)))) in
    IsValid t × IsSynced t
initialize_terminal-Reach_example =
    initialize_terminal-Reach no_input (tty_at 70 24)
      (tty_deleteprev (tty_printint 137 (tty_putc 9 (initialize_terminal no_input (tty_at 70 24)))))
      length-zeros (next (next (next here (putc 9 refl)) (printint 137 refl)) (deleteprev refl))

tty_putc-shows_example : get_or (tty_putc b'a' (tty_at 79 24)).tty_buffer 1919 0 ≡ vga_entry b'a' 15
tty_putc-shows_example =
    tty_putc-shows b'a' 1919 (tty_at 79 24) corner-IsValid (omega arith) (omega arith) (omega arith)

tty_deleteprev-putc_example :
    ((tty_deleteprev (tty_putc b'a' (tty_at 79 3))).tty_xpos ≡ 79)
    × ((tty_deleteprev (tty_putc b'a' (tty_at 79 3))).tty_ypos ≡ 3)
    × (get_or (tty_deleteprev (tty_putc b'a' (tty_at 79 3))).tty_buffer 319 0 ≡ vga_entry 32 15)
tty_deleteprev-putc_example =
    tty_deleteprev-putc b'a' 319 (tty_at 79 3) middle-IsValid (omega arith) (omega arith)
      (omega arith)

tty_printint-parse_example :
    (tty_printint 1204 (tty_at 0 0) ≡ tty_printstr (decimal 1204) (tty_at 0 0))
    × AllDigits (decimal 1204)
    × (length (decimal 1204) ≤ 10)
    × (parse_from 0 (decimal 1204) ≡ 1204)
tty_printint-parse_example = tty_printint-parse 1204 (tty_at 0 0) (omega arith)

tty_printhex-parse_example :
    (tty_printhex 0xC0FFEE (tty_at 0 0) ≡ tty_printstr (hexadecimal 0xC0FFEE) (tty_at 0 0))
    × (length (hexadecimal 0xC0FFEE) ≡ 8)
    × (parse_hex_from 0 (hexadecimal 0xC0FFEE) ≡ 0xC0FFEE)
    × AllHex (hexadecimal 0xC0FFEE)
tty_printhex-parse_example = tty_printhex-parse 0xC0FFEE (tty_at 0 0) (omega arith)

-- "at %x, 7%%"
abbrev pieces : List Piece
pieces =
    Piece.text (b'a' ∷ b't' ∷ b' ' ∷ [])
    ∷ Piece.hexadecimal 0x1000
    ∷ Piece.text (b',' ∷ b' ' ∷ b'7' ∷ [])
    ∷ Piece.percent
    ∷ []

kprintf-pieces_example :
    kprintf (format_of pieces) (args_of pieces) (tty_at 0 0)
    ≡ ok (length (format_of pieces) + percents pieces, show pieces (tty_at 0 0))
kprintf-pieces_example = kprintf-pieces pieces (tty_at 0 0) (omega arith)

decimal_1204 : decimal 1204 ≡ b'1' ∷ b'2' ∷ b'0' ∷ b'4' ∷ []
unfolding decimal int_digits
decimal_1204 = refl
