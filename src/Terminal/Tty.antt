-- ===== src/Terminal/Tty.antt =====
-- kernel/terminal/tty.c: the text terminal over the VGA buffer of 80 by 25 cells. The file's
-- statics are the state; `tty_buffer` is the screen memory that the pointer of that name leads to.
-- Writes to ports are logged, the newest first.
pub mod Screen
pub mod Bounds
pub mod Reach
pub mod Shows
pub mod Print
use aosis.Base.{
  ℕ, zero, suc, ◌+◌, ◌-◌, ◌*◌, ◌/◌, ◌%◌, ◌^◌, Bool, List, [], ◌∷◌, bit_and, bit_or, ltb, ◌==◌,
  if◌then◌else◌, length, get_or, set, u8, u16, shl32, for_range,
}
use aosis.Terminal.Vga.{vga_color_entry, vga_entry, white, black}

abbrev pub screen_width : ℕ
screen_width = 80

abbrev pub screen_height : ℕ
screen_height = 25

pub record Tty : Type 0 where
  pub tty_xpos : ℕ
  pub tty_ypos : ℕ
  pub tty_color : ℕ
  pub tty_buffer : List ℕ
  pub ports : List (ℕ × ℕ)

unfoldable pub outb : ℕ → ℕ → Tty → Tty
outb port val s = record s { ports = (port, val) ∷ s.ports }

unfoldable pub update_cursor : ℕ → ℕ → Tty → Tty
unfolding outb
update_cursor x y s =
    let pos = u16 (y * screen_width + x) in
    let moved = record s { tty_xpos = x; tty_ypos = y } in
    outb 0x3D5 (u8 (bit_and (pos / 2 ^ 8) 0xFF))
      (outb 0x3D4 0x0E (outb 0x3D5 (u8 (bit_and pos 0xFF)) (outb 0x3D4 0x0F moved)))

-- The inner loop that stores `v` in the cells of row `y`.
unfoldable pub fill_row : ℕ → ℕ → List ℕ → List ℕ
fill_row v y buffer = for_range screen_width 0 (λ x b. set b (y * screen_width + x) v) buffer

-- The two loops of `tty_clear`.
unfoldable pub clear_cells : ℕ → List ℕ → List ℕ
clear_cells color buffer = for_range screen_height 0 (fill_row (vga_entry b' ' color)) buffer

unfoldable pub tty_clear : Tty → Tty
tty_clear s =
    let color = vga_color_entry white black in
    update_cursor 0 0 (record s {
      tty_color = color;
      tty_buffer = clear_cells color s.tty_buffer;
      tty_xpos = 0;
      tty_ypos = 0;
    })

-- `inb` is the hardware: what a read of a port gives after the writes so far.
unfoldable pub initialize_terminal : (List (ℕ × ℕ) → ℕ → ℕ) → Tty → Tty
initialize_terminal inb s =
    let s₁ = outb 0x3D4 0x0A (tty_clear s) in
    let s₂ = outb 0x3D5 (bit_or (bit_and (inb s₁.ports 0x3D5) 0xC0) 0) s₁ in
    let s₃ = outb 0x3D4 0x0B s₂ in
    let s₄ = outb 0x3D5 (bit_or (bit_and (inb s₃.ports 0x3D5) 0xE0) 15) s₃ in
    update_cursor 0 0 (record s₄ { tty_xpos = 0; tty_ypos = 0 })

-- The inner loop of `tty_scroll`: row `y` takes the cells of the row below.
unfoldable pub copy_row : ℕ → List ℕ → List ℕ
copy_row y buffer =
    for_range screen_width 0
      (λ x b. set b (y * screen_width + x) (get_or b ((y + 1) * screen_width + x) 0)) buffer

unfoldable pub move_rows_up : List ℕ → List ℕ
move_rows_up buffer = for_range (screen_height - 1) 0 copy_row buffer

-- Its last loop: the cells of the last row become the number 32, with no colour.
unfoldable pub erase_last_row : List ℕ → List ℕ
erase_last_row buffer = fill_row b' ' (screen_height - 1) buffer

-- It is called only with `tty_ypos` at the height, so the decrement does not wrap.
unfoldable pub tty_scroll : Tty → Tty
tty_scroll s = record s {
  tty_buffer = erase_last_row (move_rows_up s.tty_buffer);
  tty_ypos = s.tty_ypos - 1;
}

unfoldable pub tty_putentryat : ℕ → ℕ → ℕ → ℕ → Tty → Tty
tty_putentryat c color x y s = record s {
  tty_buffer = set s.tty_buffer (y * screen_width + x) (vga_entry c color);
}

-- `tty_xpos = 0; if (++tty_ypos == SCREEN_HEIGHT) tty_scroll();`
unfoldable pub next_line : Tty → Tty
next_line s =
    let moved = record s { tty_xpos = 0; tty_ypos = s.tty_ypos + 1 } in
    if moved.tty_ypos == screen_height then tty_scroll moved else moved

unfoldable pub sync_cursor : Tty → Tty
sync_cursor s = update_cursor s.tty_xpos s.tty_ypos s

-- `if (++tty_xpos == SCREEN_WIDTH)` with its body
unfoldable pub advance : Tty → Tty
advance s =
    let moved = record s { tty_xpos = s.tty_xpos + 1 } in
    if moved.tty_xpos == screen_width then next_line moved else moved

-- `tty_putc` for a character that is neither a newline nor a tab.
unfoldable pub put_char : ℕ → Tty → Tty
put_char c s = sync_cursor (advance (tty_putentryat c s.tty_color s.tty_xpos s.tty_ypos s))

-- The call `tty_putc(' ')` of the tab is `put_char`.
unfoldable pub tty_putc : ℕ → Tty → Tty
tty_putc c s =
    if c == 10
    then sync_cursor (next_line s)
    else if c == 9
    then for_range (8 - s.tty_xpos % 8) 0 (λ _ t. put_char b' ' t) s
    else put_char c s

unfoldable pub tty_deleteprev : Tty → Tty
tty_deleteprev s =
    let wrapped = record s { tty_xpos = screen_width - 1; tty_ypos = s.tty_ypos - 1 } in
    let back = record s { tty_xpos = s.tty_xpos - 1 } in
    let erase =
      λ (t : Tty). sync_cursor (tty_putentryat b' ' t.tty_color t.tty_xpos t.tty_ypos t) in
    if s.tty_xpos == 0 then (if s.tty_ypos == 0 then s else erase wrapped) else erase back
