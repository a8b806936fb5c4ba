-- ===== src/V7fs/System/Success.antt =====
-- What `v7fs_mkfs` of src/v7fs.c reports.
use retro_fuse.Prelude.{ℕ, ◌+◌, ◌≡◌, false, some, List}
use retro_fuse.Prelude.Int.{pos}
use retro_fuse.V6fs.Kernel.{Sys, Kernel, ◌>>=◌, ◌>>◌, pure, last_error}
use retro_fuse.V7fs.FreeList.{Params, mkfs_params, v7fs_initfreelist}
use retro_fuse.V7fs.FreeList.Once.{v7fs_initfreelist_once}
use retro_fuse.V7fs.System.{Boot, v7_zerocore, make_filesystem, v7fs_mkfs}

module _ (K : Kernel) (B : Boot K) where
  made :
      (fssize : ℕ) (p : Params) (order : List ℕ) (s : Sys K.Core)
      → v7fs_initfreelist fssize (p.isize + 2) p.fn p.fm ≡ some order
      → (make_filesystem K B fssize p s).0 ≡ some (pos 0)
  unfolding make_filesystem ◌>>=◌ ◌>>◌ pure last_error v7_zerocore
  made fssize p order s e = rw (e, make_filesystem)

  -- Once its sizes are accepted the making of a filesystem ends and reports success, whatever the kernel
  -- answers, also where a block could not be allocated or written: the kernel's error is cleared before
  -- it is returned.
  pub v7fs_mkfs_success :
      (fssize isize n m : ℕ) (p : Params) (s : Sys K.Core)
      → mkfs_params fssize isize n m ≡ some p
      → (v7fs_mkfs K B false fssize isize n m s).0 ≡ some (pos 0)
  unfolding v7fs_mkfs
  v7fs_mkfs_success fssize isize n m p s e =
      let (order, f, c) = v7fs_initfreelist_once fssize isize n m p e in
      rw (e, v7fs_mkfs) (made fssize p order s f)
