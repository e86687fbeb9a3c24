-- ===== src/Libc.antt =====
-- The C library of libc/.
pub mod Ctype
pub mod Mem
pub mod Str
pub mod Stdio
