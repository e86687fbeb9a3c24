-- ===== src/Terminal/Tty/Shows.antt =====
-- What printing and deleting a character show on the screen of kernel/terminal/tty.c.
use aosis.Base.{
  set-set, ℕ, zero, suc, ◌+◌, ◌-◌, ◌*◌, ◌%◌, ◌<◌, ◌≡◌, ◌≢◌, arith, ltb, ◌==◌, if◌then◌else◌, get_or,
  set, length-set, get_or-set, for_range,
}
use aosis.Terminal.Vga.{vga_entry}
use aosis.Terminal.Tty.{
  Tty, update_cursor, sync_cursor, tty_scroll, tty_putentryat, next_line, advance, put_char,
  tty_putc, tty_deleteprev,
}
use aosis.Terminal.Tty.Screen.{scroll_cells}
use aosis.Terminal.Tty.Bounds.{IsValid, put_char-IsValid}

-- A printable character is stored, in the terminal's colour, in the cell at the cursor, and all other
-- cells stay as they are; in the last cell of the screen it is stored and the screen then scrolls.
pub tty_putc-shows :
    (c i : ℕ) (s : Tty)
    → IsValid s
    → c ≢ 10
    → c ≢ 9
    → i < 2000
    → let cell = s.tty_ypos * 80 + s.tty_xpos in
      let written =
        λ (k : ℕ). if cell == k then vga_entry c s.tty_color else get_or s.tty_buffer k 0 in
      get_or (tty_putc c s).tty_buffer i 0
      ≡ (if cell == 1999 then (if ltb i 1920 then written (i + 80) else 32) else written i)
unfolding tty_putc put_char tty_putentryat sync_cursor update_cursor advance next_line tty_scroll
tty_putc-shows c i s v nl tab p =
    let cell = s.tty_ypos * 80 + s.tty_xpos in
    let buffer = set s.tty_buffer cell (vga_entry c s.tty_color) in
    ground (
      arith,
      length-set s.tty_buffer cell (vga_entry c s.tty_color),
      get_or-set s.tty_buffer cell i (vga_entry c s.tty_color) 0,
      get_or-set s.tty_buffer cell (i + 80) (vga_entry c s.tty_color) 0,
      scroll_cells buffer i,
    )

-- After any character but a newline and a tab the cursor is one cell further, at the start of the last row
-- if that was the last cell.
pub tty_putc-moves :
    (c : ℕ) (s : Tty)
    → IsValid s
    → c ≢ 10
    → c ≢ 9
    → let cell = s.tty_ypos * 80 + s.tty_xpos in
      (tty_putc c s).tty_ypos * 80 + (tty_putc c s).tty_xpos
      ≡ (if cell == 1999 then 1920 else cell + 1)
unfolding tty_putc put_char tty_putentryat sync_cursor update_cursor advance next_line tty_scroll
tty_putc-moves c s v nl tab = ground arith

put_char-column :
    (c : ℕ) (s : Tty) → s.tty_xpos < 80 → (put_char c s).tty_xpos % 8 ≡ (s.tty_xpos + 1) % 8
unfolding put_char tty_putentryat sync_cursor update_cursor advance next_line tty_scroll
put_char-column c s h = ground arith

spaces-column :
    (n i : ℕ) (s : Tty)
    → IsValid s
    → (for_range n i (λ _ t. put_char b' ' t) s).tty_xpos % 8 ≡ (s.tty_xpos + n) % 8
unfolding for_range
spaces-column zero i s v = omega arith
spaces-column (suc n) i s v = omega (
  arith,
  put_char-column b' ' s v.xpos_in,
  spaces-column n (i + 1) (put_char b' ' s) (put_char-IsValid b' ' s v).0,
)

-- A tab moves the cursor to a column that is a multiple of 8.
pub tty_putc-tab : (s : Tty) → IsValid s → (tty_putc 9 s).tty_xpos % 8 ≡ 0
unfolding tty_putc
tty_putc-tab s v = omega (arith, spaces-column (8 - s.tty_xpos % 8) 0 s v)

-- Deleting what was just typed, a printable character not in the last cell, brings the cursor back and leaves
-- a blank in the character's cell; the other cells are as before.
pub tty_deleteprev-putc :
    (c i : ℕ) (s : Tty)
    → IsValid s
    → c ≢ 10
    → c ≢ 9
    → s.tty_ypos * 80 + s.tty_xpos < 1999
    → let back = tty_deleteprev (tty_putc c s) in
      let cell = s.tty_ypos * 80 + s.tty_xpos in
      (back.tty_xpos ≡ s.tty_xpos)
      × (back.tty_ypos ≡ s.tty_ypos)
      × (get_or back.tty_buffer i 0
          ≡ (if cell == i then vga_entry b' ' s.tty_color else get_or s.tty_buffer i 0))
unfolding tty_deleteprev tty_putc put_char tty_putentryat sync_cursor update_cursor advance
    next_line tty_scroll
tty_deleteprev-putc c i s v nl tab h =
    let cell = s.tty_ypos * 80 + s.tty_xpos in
    let buffer = set s.tty_buffer cell (vga_entry c s.tty_color) in
    ground (
      arith,
      length-set s.tty_buffer cell (vga_entry c s.tty_color),
      set-set s.tty_buffer cell (vga_entry c s.tty_color) (vga_entry b' ' s.tty_color),
      get_or-set s.tty_buffer cell i (vga_entry b' ' s.tty_color) 0,
    )
