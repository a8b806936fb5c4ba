-- ===== src/V7fs.antt =====
-- src/v7fs.c: the filesystem interface over the kernel of the seventh edition, where it differs from that of
-- the sixth.
pub mod Attributes
pub mod Calls
pub mod FreeList
pub mod Listing
pub mod Rename
pub mod Seek
pub mod Statfs
pub mod System
