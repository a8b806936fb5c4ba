-- ===== src/Bsd29fs.antt =====
-- src/bsd29fs.c: the filesystem interface over the kernel of 2.9BSD, which repeats src/v7fs.c but for what
-- stands here.
pub mod Calls
pub mod System
