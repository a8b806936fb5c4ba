-- ===== src/Lib.antt =====
-- Verification library for retro-fuse, the FUSE filesystems that mount the disks of ancient Unix.
--
-- The program has four layers. A FUSE front end (src/v6fuse.c, src/fusecommon.c) turns the host's
-- requests into calls of the filesystem interface (src/v6fs.c). The interface sets up arguments in
-- the kernel's user structure, calls the functions of the ancient kernel (ancient-src/v6), and
-- turns `u_error` into a negative result. The kernel reads and writes blocks by an adapter
-- (src/v6adapt.c) over a virtual disk, a range of a host file or block device (src/dskio.c). User
-- and group ids are mapped between the host and the filesystem by tables (src/idmap.c). The same
-- structure is repeated for the seventh edition (src/v7fs.c, src/v7fuse.c), for 2.9BSD
-- (src/bsd29fs.c, src/bsd29fuse.c) and for 2.11BSD (src/bsd211fs.c, src/bsd211fuse.c).
--
-- Which file models which code:
--   * IdMap: src/idmap.c and src/idmap.h. The table's block of memory is a list of cells of
--     which the last ones are unset; IdMap.addidmap is `idmap_addidmap`, tohostid and tofsid
--     are the two lookups. A result `none` stands for an invalid access. IdMap.Holds relates a
--     table to the list of its entries, IdMap.Translation states the lookups on that list.
--   * DskIo: src/dskio.c. The static variables are the record Dsk; dsk_open, close, dsk_read,
--     dsk_write, dsk_flush, setsize and getsize are the functions of these names. The host's
--     calls are the record DskIo.Interface.Host, a parameter, with the laws that an access
--     needs.
--   * V6fs.FreeList: `v6fs_initfreelist` of src/v6fs.c, as the sequence of its calls of
--     `v6_free`.
--   * V6fs.Statfs: `v6fs_statfs`, over the contents of blocks as a parameter.
--   * V6fs.Stat: `v6fs_convertstat`, the mapping functions of ids, and the modes of
--     `v6fs_mknod`. Whether `char` is signed is a parameter.
--   * V6fs.Kernel: the kernel's functions as a parameter, and the fields of the user structure
--     that the interface uses, as a state monad. V6fs.Kernel.Counts and V6fs.Kernel.Balance count the inodes that are
--     handed out.
--   * V6fs.Files: open, close, link, unlink, chmod, mknod, truncate, stat and access of
--     src/v6fs.c.
--   * V6fs.Attributes: chown and utimens of src/v6fs.c. V6fs.Dirs: mkdir, isindir and
--     isdirlinkpath, with dirname(3) on lists of characters. V6fs.Listing: enumdir,
--     failnonemptydir and rmdir. V6fs.Rename: rename and reparentdir. V6fs.System: mkfs, init,
--     shutdown, sync, setreuid and setregid, with v6_zerocore of src/v6adapt.c.
--   * V6fs.Transfer: seek, read, pread, write and pwrite of src/v6fs.c. V6fs.Transfer.Place has what
--     a read and a write at one place have to do with each other.
--   * V6adapt: the arithmetic of src/v6adapt.c on 32-bit numbers in two words. V6adapt.Strategy:
--     its device `v6_dsk_strategy` over DskIo, the clock and the readers of a path's characters.
--   * FuseCommon: src/fusecommon.c. parse_map_option and parse_option are the functions of the
--     options with a key, FuseCommon.Scan and FuseCommon.Decimals the calls of sscanf.
--     FuseCommon.Main is `main` over what libfuse and the host answer, as the list of its calls;
--     FuseCommon.Main.Cleanup has the step relation of the resources that it holds.
--   * V6fuse: src/v6fuse.c. parse_initfs_option, check_initfs_config, initfs and mount are the
--     functions that fusecommon.c calls; V6fuse.Requests has the callbacks, each of which sets the
--     ids of the process (in_context) and calls one function of V6fs.
--   * V7fs: what src/v7fs.c does otherwise than src/v6fs.c. V7fs.FreeList: the sizes of `v7fs_mkfs`
--     and `v7fs_initfreelist`; V7fs.System: mkfs, init, sync and shutdown, with the bytes of the
--     new inode table; V7fs.Statfs: `v7fs_statfs`; V7fs.Attributes: convertstat, the ids, setreuid,
--     setregid, chown, mknod and utimens; V7fs.Seek: seek, pread and pwrite; V7fs.Calls: mkdir,
--     and the calls that are the code of src/v6fs.c again; V7fs.Listing: stat, enumdir and rmdir;
--     V7fs.Rename: rename and reparentdir.
--   * Bsd29fs: src/bsd29fs.c. Bsd29fs.Calls: the calls on files, most of them by the definitions of
--     V7fs, whose code they repeat; Bsd29fs.System: mkfs with its lost+found, init, sync, shutdown
--     and statfs, with bsd29_zerocore of src/bsd29adapt.c.
--   * Bsd211fs: src/bsd211fs.c. Bsd211fs.Kernel: the kernel's routines as a parameter;
--     Bsd211fs.Calls: the calls that hand their arguments to one routine, seek, and the transfers;
--     Bsd211fs.Inodes: chown, utimens and mknod, which work on an inode themselves;
--     Bsd211fs.Groups: setgroups, and refreshgroups of src/bsd211fuse.c; Bsd211fs.Listing: enumdir
--     over the bytes of a directory's blocks, and the blocks that initrootdir lays out;
--     Bsd211fs.Sizes: the sizes of mkfs and the options of src/bsd211fuse.c; Bsd211fs.System: mkfs,
--     initrootdir, init, sync, shutdown and statfs. Bsd211fs.Toy is a small kernel for the tests.
--   * Fuse: src/v7fuse.c, src/bsd29fuse.c and src/bsd211fuse.c. Fuse.Sizes has the options of the
--     first two under their limits, Fuse.Requests the callbacks of all three over the interface
--     Calls, which Fuse.Requests.Instances fills with the operations of V7fs, Bsd29fs and Bsd211fs.
--   * Prelude: the shared operators, lists over the native numbers, integers, words of w bits,
--     and lists in pieces. Errno: the host's error numbers.
--
-- Bounds and fuel. The transfers move at most 65535 bytes in a round and take one round more than
-- there are bytes as fuel; as each round but the last moves a byte, that is enough. The scan for a
-- clear flag in the interleave table takes as much fuel as there are flags. The walk over the
-- ancestors of a path takes one round more than the path has characters, as each directory is `/`,
-- `.` or shorter. The loop over the free list takes 65537 rounds, as its counter of 16 bits leaves
-- the loop before that unless the filesystem is of the greatest size. The loops over the entries of
-- a directory run on fuel that the caller gives, one round for each entry. Words keep their
-- wrap-around: `count -= n` is modulo 2 ^ 64, the counter modulo 2 ^ 16. In the seventh edition the
-- loop over the free list takes two rounds more than the filesystem has blocks, as the code counts
-- its rounds, and the loops of the initial list take n + 1 rounds to a multiple of n and one more
-- than that number for the groups. The loop of V6fs.Statfs over
-- the inode table takes 65537 rounds, as its signed 16-bit counter has 65536 values. A directory of
-- 2.11BSD is read with one round for each record and each
-- block; 513 rounds for a block are enough where no record has the length 0.
--
-- Not modelled: the ancient kernels, which are third-party code and a parameter here; of the front
-- ends the options that libfuse stores itself, the text of the messages, the callback of the start,
-- which negotiates with libfuse, and that of statfs; the adapters of the seventh edition and of the
-- BSD variants, and of src/v6adapt.c the copies of bytes and the kernel's globals, as they rename
-- identifiers or take over routines of the kernels. `sscanf` is modelled as the C library of Linux
-- reads numbers, and a `long` has 64 bits.
pub mod Prelude
pub mod Errno
pub mod IdMap
pub mod DskIo
pub mod V6fs
pub mod V6adapt
pub mod V7fs
pub mod FuseCommon
pub mod V6fuse
pub mod Bsd211fs
pub mod Bsd29fs
pub mod Fuse
