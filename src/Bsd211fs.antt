-- ===== src/Bsd211fs.antt =====
-- src/bsd211fs.c, the interface to the kernel of 2.11BSD.
pub mod Kernel
pub mod Toy
pub mod Calls
pub mod Groups
pub mod Inodes
pub mod Listing
pub mod Sizes
pub mod System
