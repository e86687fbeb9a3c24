-- ===== src/Terminal.antt =====
-- kernel/terminal: the VGA text terminal.
pub mod Vga
pub mod Tty
