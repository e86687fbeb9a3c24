-- ===== src/Terminal/Vga.antt =====
-- kernel/terminal/vga.c and enum vga_color of include/kernel/terminal/vga.h.
use aosis.Base.{ℕ, ◌*◌, ◌^◌, bit_or, u8}

-- enum vga_color
pub data VgaColor : Type 0 where
  black blue green cyan red magenta brown light_grey : VgaColor
  dark_grey light_blue light_green light_cyan light_red light_magenta light_brown white : VgaColor

abbrev pub color_code : VgaColor → ℕ
color_code black = 0
color_code blue = 1
color_code green = 2
color_code cyan = 3
color_code red = 4
color_code magenta = 5
color_code brown = 6
color_code light_grey = 7
color_code dark_grey = 8
color_code light_blue = 9
color_code light_green = 10
color_code light_cyan = 11
color_code light_red = 12
color_code light_magenta = 13
color_code light_brown = 14
color_code white = 15

unfoldable pub vga_color_entry : VgaColor → VgaColor → ℕ
vga_color_entry fg bg = u8 (bit_or (color_code fg) (color_code bg * 2 ^ 4))

-- The parameters are bytes.
unfoldable pub vga_entry : ℕ → ℕ → ℕ
vga_entry uc color = bit_or (u8 uc) (u8 color * 2 ^ 8)
