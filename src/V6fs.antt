-- ===== src/V6fs.antt =====
-- The interface to a Unix v6 filesystem, src/v6fs.c, a child module for each part.
pub mod FreeList
pub mod Statfs
pub mod Stat
pub mod Kernel
pub mod Files
pub mod Transfer
pub mod Dirs
pub mod Listing
pub mod Rename
pub mod System
pub mod Attributes
