-- ===== src/Terminal/Tty/Print/Format.antt =====
-- What `kprintf` prints for a format and the arguments that belong to it.
use aosis.Base.{
  ℕ, suc, ◌+◌, ◌≡◌, ◌≢◌, ap, ◌∙◌, false, List, [], ◌∷◌, ◌++◌, arith, length, length-append, ok,
}
use aosis.Terminal.Tty.{Tty, tty_putc}
use aosis.Terminal.Tty.Print.{
  tty_printstr, tty_printint, tty_printhex, Arg, num, str, next_num, next_str, Printf, directive,
  format_char, format_loop, kprintf,
}

-- A piece of output: text without `%`, a directive with its argument, or a percent sign.
pub data Piece : Type 0 where
  text : List ℕ → Piece
  decimal : ℕ → Piece
  hexadecimal : ℕ → Piece
  string : List ℕ → Piece
  percent : Piece

-- Text that `kprintf` copies.
abbrev pub IsPlain : List ℕ → Type 0
IsPlain [] = Unit {0}
IsPlain (c ∷ t) = (c ≢ 0) × (c ≢ b'%') × IsPlain t

abbrev pub AllPlain : List Piece → Type 0
AllPlain [] = Unit {0}
AllPlain (text t ∷ ps) = IsPlain t × AllPlain ps
AllPlain (_ ∷ ps) = AllPlain ps

-- The format and the arguments that ask for the pieces.
unfoldable pub format_of : List Piece → List ℕ
format_of [] = []
format_of (text t ∷ ps) = t ++ format_of ps
format_of (decimal n ∷ ps) = b'%' ∷ b'd' ∷ format_of ps
format_of (hexadecimal n ∷ ps) = b'%' ∷ b'x' ∷ format_of ps
format_of (string t ∷ ps) = b'%' ∷ b's' ∷ format_of ps
format_of (percent ∷ ps) = b'%' ∷ b'%' ∷ format_of ps

unfoldable pub args_of : List Piece → List Arg
args_of [] = []
args_of (text t ∷ ps) = args_of ps
args_of (decimal n ∷ ps) = num n ∷ args_of ps
args_of (hexadecimal n ∷ ps) = num n ∷ args_of ps
args_of (string t ∷ ps) = str t ∷ args_of ps
args_of (percent ∷ ps) = args_of ps

-- What the pieces print.
unfoldable pub show : List Piece → Tty → Tty
show [] s = s
show (text t ∷ ps) s = show ps (tty_printstr t s)
show (decimal n ∷ ps) s = show ps (tty_printint n s)
show (hexadecimal n ∷ ps) s = show ps (tty_printhex n s)
show (string t ∷ ps) s = show ps (tty_printstr t s)
show (percent ∷ ps) s = show ps (tty_putc b'%' s)

unfoldable pub percents : List Piece → ℕ
percents [] = 0
percents (percent ∷ ps) = percents ps + 1
percents (_ ∷ ps) = percents ps

abbrev ready : List Arg → ℕ → Tty → Printf
ready args printed s = record { args = args; printed = printed; fmt_flag = false; tty = s }

format_loop-text :
    (t rest : List ℕ) (i : ℕ) (args : List Arg) (printed : ℕ) (s : Tty)
    → IsPlain t
    → format_loop (t ++ rest) i (ready args printed s)
      ≡ format_loop rest (i + length t) (ready args printed (tty_printstr t s))
unfolding format_loop format_char tty_printstr
format_loop-text [] rest i args printed s h =
    ap (λ j. format_loop rest j (ready args printed s)) (omega arith)
format_loop-text (c ∷ t) rest i args printed s h = ground (
  arith,
  format_loop-text t rest (i + 1) args printed (tty_putc c s) h.2,
  ap (λ j. format_loop rest j (ready args printed (tty_printstr t (tty_putc c s))))
      {x = i + 1 + length t} {y = i + suc (length t)} (omega arith),
)

format_loop-pieces :
    (ps : List Piece) (i printed : ℕ) (s : Tty)
    → AllPlain ps
    → format_loop (format_of ps) i (ready (args_of ps) printed s)
      ≡ ok (ready [] (printed + percents ps) (show ps s), i + length (format_of ps))
unfolding format_loop format_char directive next_num next_str format_of args_of show percents
format_loop-pieces [] i printed s h = ground arith
format_loop-pieces (text t ∷ ps) i printed s h =
    format_loop-text t (format_of ps) i (args_of ps) printed s h.0
    ∙ format_loop-pieces ps (i + length t) printed (tty_printstr t s) h.1
    ∙ ground (arith, length-append t (format_of ps))
format_loop-pieces (decimal n ∷ ps) i printed s h =
    ground (arith, format_loop-pieces ps (i + 1 + 1) printed (tty_printint n s) h)
format_loop-pieces (hexadecimal n ∷ ps) i printed s h =
    ground (arith, format_loop-pieces ps (i + 1 + 1) printed (tty_printhex n s) h)
format_loop-pieces (string t ∷ ps) i printed s h =
    ground (arith, format_loop-pieces ps (i + 1 + 1) printed (tty_printstr t s) h)
format_loop-pieces (percent ∷ ps) i printed s h =
    ground (arith, format_loop-pieces ps (i + 1 + 1) (printed + 1) (tty_putc b'%' s) h)

-- `kprintf`, given a format made of plain text and the directives %d, %x, %s and %%, with an argument
-- for each that takes one, prints the pieces in order. What it returns is the length of the
-- format plus the number of `%%`, whatever the arguments printed.
pub kprintf-pieces :
    (ps : List Piece) (s : Tty)
    → AllPlain ps
    → kprintf (format_of ps) (args_of ps) s ≡ ok (length (format_of ps) + percents ps, show ps s)
unfolding kprintf
kprintf-pieces ps s h = rw (format_loop-pieces ps 0 0 s h) (ground arith)
