-- ===== src/Libc/Stdio.antt =====
-- libc/stdio, over the terminal of kernel/terminal/tty.c. `puts` and `printf` are stubs.
use aosis.Base.{ℕ, List}
use aosis.Terminal.Tty.{Tty, tty_putc}
use aosis.Terminal.Tty.Print.{Arg}

unfoldable putchar : ℕ → Tty → ℕ × Tty
putchar c t = (0, tty_putc c t)

unfoldable puts : List ℕ → Tty → ℕ × Tty
puts s t = (0, t)

unfoldable printf : List ℕ → List Arg → Tty → ℕ × Tty
printf format args t = (0, t)
