-- ===== src/Interrupt.antt =====
-- kernel/interrupt: the interrupt table and the keyboard driver.
pub mod Keyboard
pub mod Idt
pub mod Pic
