-- ===== src/Fuse.antt =====
-- src/v7fuse.c, src/bsd29fuse.c and src/bsd211fuse.c, whose callbacks are the same code over the calls of
-- their filesystems.
pub mod Sizes
pub mod Requests
