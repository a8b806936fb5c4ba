-- ===== src/V6fs/System/Mkfs.antt =====
-- What `v6fs_mkfs` of src/v6fs.c reports.
use retro_fuse.Prelude.{ℕ, ◌≡◌, false, some, List}
use retro_fuse.Prelude.Int.{pos}
use retro_fuse.V6fs.FreeList.{initfreelist}
use retro_fuse.V6fs.Kernel.{Sys, Kernel, ◌>>=◌, ◌>>◌, pure, last_error}
use retro_fuse.V6fs.System.{Boot, inode_blocks, zerocore, make_filesystem, v6fs_mkfs}

-- Once its sizes are accepted the making of a filesystem reports success, whatever the kernel answers,
-- also where a block could not be allocated or written: the kernel's error is cleared before it is
-- returned.
pub v6fs_mkfs_success :
    (K : Kernel) (B : Boot K) (fssize isize n m blocks : ℕ) (order : List ℕ) (s : Sys K.Core)
    → inode_blocks fssize isize ≡ some blocks
    → initfreelist fssize blocks n m ≡ some order
    → (v6fs_mkfs K B false fssize isize n m s).0 ≡ some (pos 0)
unfolding v6fs_mkfs make_filesystem ◌>>=◌ ◌>>◌ pure last_error zerocore
v6fs_mkfs_success K B fssize isize n m blocks order s e f = rw (e, v6fs_mkfs, f, make_filesystem)
