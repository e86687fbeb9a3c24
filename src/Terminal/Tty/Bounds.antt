-- ===== src/Terminal/Tty/Bounds.antt =====
-- The terminal of kernel/terminal/tty.c stays within its screen, and the hardware cursor follows
-- its own.
use aosis.Base.{
  Bool-cases, ℕ, zero, suc, ◌+◌, ◌-◌, ◌*◌, ◌/◌, ◌%◌, ◌^◌, ◌≤◌, ◌<◌, ◌≡◌, refl, ◌∙◌, List, ◌∷◌,
  arith, ◌==◌, length, get_or, set, length-set, for_range, inl, inr,
}
use aosis.Bits.Digits.{bit_and_low}
use aosis.Terminal.Vga.{vga_entry, vga_color_entry, white, black}
use aosis.Terminal.Tty.{
  Tty, update_cursor, sync_cursor, clear_cells, tty_clear, tty_scroll, tty_putentryat, next_line,
  advance, put_char, tty_putc, tty_deleteprev,
}
use aosis.Terminal.Tty.Screen.{clear_cells_lem, scroll_cells}

-- The cursor is on the screen, and the buffer has one cell for each place.
pub record IsValid (s : Tty) : Type 0 where
  pub xpos_in : s.tty_xpos < 80
  pub ypos_in : s.tty_ypos < 25
  pub size : length s.tty_buffer ≡ 2000

-- The last four port writes have moved the hardware cursor to the place of the terminal's own.
abbrev pub IsSynced : Tty → Type 0
IsSynced s =
    let pos = s.tty_ypos * 80 + s.tty_xpos in
    (log : List (ℕ × ℕ)) × (s.ports
      ≡ (0x3D5, pos / 256) ∷ (0x3D4, 0x0E) ∷ (0x3D5, pos % 256) ∷ (0x3D4, 0x0F) ∷ log)

pub update_cursor-IsSynced : (x y : ℕ) (s : Tty) → x < 80 → y < 25 → IsSynced (update_cursor x y s)
unfolding update_cursor
update_cursor-IsSynced x y s h g =
    let pos : (y * 80 + x) % 2 ^ 16 ≡ y * 80 + x = omega arith in
    (
      s.ports,
      rw (pos, bit_and_low 8 ((y * 80 + x) / 256), bit_and_low 8 (y * 80 + x)) (ground arith),
    )

pub sync_cursor-IsValid : (s : Tty) → IsValid s → IsValid (sync_cursor s)
unfolding sync_cursor update_cursor
sync_cursor-IsValid s v = omega arith

pub sync_cursor-IsSynced : (s : Tty) → IsValid s → IsSynced (sync_cursor s)
unfolding sync_cursor
sync_cursor-IsSynced s v = update_cursor-IsSynced s.tty_xpos s.tty_ypos s v.xpos_in v.ypos_in

-- `tty_clear` leaves the cursor at the origin, a blank of the terminal's colour in each cell, and the
-- hardware cursor in step.
pub tty_clear_lem :
    (s : Tty) (i : ℕ)
    → length s.tty_buffer ≡ 2000
    → i < 2000
    → IsValid (tty_clear s)
      × IsSynced (tty_clear s)
      × ((tty_clear s).tty_xpos ≡ 0)
      × ((tty_clear s).tty_ypos ≡ 0)
      × (get_or (tty_clear s).tty_buffer i 0 ≡ vga_entry b' ' (tty_clear s).tty_color)
unfolding tty_clear update_cursor
tty_clear_lem s i h p =
    let color = vga_color_entry white black in
    let cells = clear_cells_lem color i s.tty_buffer h p in
    let cleared = record s {
      tty_color = color;
      tty_buffer = clear_cells color s.tty_buffer;
      tty_xpos = 0;
      tty_ypos = 0;
    } in
    (
      record { xpos_in = omega arith; ypos_in = omega arith; size = cells.0 },
      update_cursor-IsSynced 0 0 cleared (omega arith) (omega arith),
      refl,
      refl,
      cells.1,
    )

next_line-IsValid :
    (s : Tty)
    → s.tty_xpos ≤ 80
    → s.tty_ypos < 25
    → length s.tty_buffer ≡ 2000
    → IsValid (next_line s)
unfolding next_line tty_scroll
next_line-IsValid s l h e = ground (arith, scroll_cells s.tty_buffer 0 e)

advance-IsValid : (s : Tty) → IsValid s → IsValid (advance s)
unfolding advance
advance-IsValid s v = ground (arith, next_line-IsValid (record s { tty_xpos = s.tty_xpos + 1 }))

pub put_char-IsValid :
    (c : ℕ) (s : Tty) → IsValid s → IsValid (put_char c s) × IsSynced (put_char c s)
unfolding put_char tty_putentryat
put_char-IsValid c s v =
    let cell = s.tty_ypos * 80 + s.tty_xpos in
    let written = record s { tty_buffer = set s.tty_buffer cell (vga_entry c s.tty_color) } in
    let valid = advance-IsValid written (record {
      xpos_in = v.xpos_in;
      ypos_in = v.ypos_in;
      size = length-set s.tty_buffer cell (vga_entry c s.tty_color) ∙ v.size;
    }) in
    (sync_cursor-IsValid (advance written) valid, sync_cursor-IsSynced (advance written) valid)

spaces-IsValid :
    (n i : ℕ) (s : Tty)
    → 0 < n
    → IsValid s
    → IsValid (for_range n i (λ _ t. put_char b' ' t) s)
      × IsSynced (for_range n i (λ _ t. put_char b' ' t) s)
unfolding for_range
spaces-IsValid zero i s h v = absurd (omega arith)
spaces-IsValid (suc zero) i s h v = put_char-IsValid b' ' s v
spaces-IsValid (suc (suc n)) i s h v =
    spaces-IsValid (suc n) (i + 1) (put_char b' ' s) (omega arith) (put_char-IsValid b' ' s v).0

-- On a valid terminal `tty_putc` keeps the cursor on the screen and the buffer's size, whatever
-- the character, and leaves the hardware cursor at the terminal's.
pub tty_putc-IsValid :
    (c : ℕ) (s : Tty) → IsValid s → IsValid (tty_putc c s) × IsSynced (tty_putc c s)
unfolding tty_putc
tty_putc-IsValid c s v = elim (Bool-cases (c == 10)) [
  | inl newline ↦ rw newline (
      let valid = next_line-IsValid s (omega arith) v.ypos_in v.size in
      (sync_cursor-IsValid (next_line s) valid, sync_cursor-IsSynced (next_line s) valid))
  | inr other ↦ rw other (elim (Bool-cases (c == 9)) [
    | inl tab ↦ rw tab (spaces-IsValid (8 - s.tty_xpos % 8) 0 s (omega arith) v)
    | inr plain ↦ rw plain (put_char-IsValid c s v)
  ])
]

-- On a valid terminal `tty_deleteprev` keeps the cursor on the screen and the buffer's size.
tty_deleteprev-IsValid : (s : Tty) → IsValid s → IsValid (tty_deleteprev s)
unfolding tty_deleteprev tty_putentryat sync_cursor update_cursor
tty_deleteprev-IsValid s v = ground (
  arith,
  length-set s.tty_buffer (s.tty_ypos * 80 + (s.tty_xpos - 1)) (vga_entry b' ' s.tty_color),
  length-set s.tty_buffer ((s.tty_ypos - 1) * 80 + 79) (vga_entry b' ' s.tty_color),
)
