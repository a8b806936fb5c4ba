-- ===== src/Bsd29fs/System/Success.antt =====
-- The free list that `bsd29fs_mkfs` of src/bsd29fs.c makes, and what it reports.
use retro_fuse.Prelude.{ℕ, ◌+◌, ◌≤◌, ◌<◌, ◌≡◌, false, some, List, ◌++◌, arith, count}
use retro_fuse.Prelude.Int.{pos}
use retro_fuse.V6fs.Kernel.{Sys, M, Kernel, ◌>>=◌, ◌>>◌, pure, last_error}
use retro_fuse.V7fs.FreeList.Once.{freed, initfreelist_freed}
use retro_fuse.V7fs.System.{Boot, v7_zerocore}
use retro_fuse.Bsd29fs.System.Freed.{LogsFrees, make_filesystem-log}
use retro_fuse.Bsd29fs.System.{
  Params, mkfs_params, bsd29fs_initfreelist, bsd29_zerocore, make_filesystem, bsd29fs_mkfs,
}

accepted :
    (fssize isize n m : ℕ) (p : Params)
    → mkfs_params fssize isize n m ≡ some p
    → (0 < p.fn) × (5 ≤ fssize)
unfolding mkfs_params
accepted fssize isize n m p e = ground (arith, e)

module _ (K : Kernel) (B : Boot K) (add_inodes : ℕ → M K.Core (Unit {0})) where
  made :
      (fssize : ℕ) (p : Params) (order : List ℕ) (s : Sys K.Core)
      → bsd29fs_initfreelist fssize (p.isize + 2) p.fn p.fm ≡ some order
      → (make_filesystem K B add_inodes fssize p s).0 ≡ some (pos 0)
  unfolding make_filesystem bsd29_zerocore ◌>>=◌ ◌>>◌ pure last_error v7_zerocore
  made fssize p order s e = rw (e, make_filesystem)

  -- For all sizes and interleaves that `bsd29fs_mkfs` accepts it ends, and the calls of the kernel's `free`
  -- that it makes are one for each block behind the inode table and below the last one, one for the last
  -- one just where the interleave does not divide its number, and none for another block, where nothing
  -- else that it calls frees a block. It reports success, whatever else the kernel answers, also where a
  -- block could not be allocated or written.
  pub bsd29fs_mkfs_lem :
      (L : LogsFrees K B add_inodes) (fssize isize n m : ℕ) (p : Params) (s : Sys K.Core)
      → mkfs_params fssize isize n m ≡ some p
      → (let r = bsd29fs_mkfs K B add_inodes false fssize isize n m s in
          (bs : List ℕ) × (L.log r.1.core ≡ L.log s.core ++ bs)
          × ((b : ℕ) → count b bs ≡ freed fssize (p.isize + 2) p.fn b)
          × (r.0 ≡ some (pos 0)))
  unfolding bsd29fs_mkfs bsd29fs_initfreelist
  bsd29fs_mkfs_lem L fssize isize n m p s e =
      let (pos_n, large) = accepted fssize isize n m p e in
      let (order, f, c) = initfreelist_freed fssize (p.isize + 2) p.fn p.fm pos_n (omega arith) in
      (
        order,
        rw (e, bsd29fs_mkfs) (make_filesystem-log K B add_inodes L fssize p order s f),
        c,
        rw (e, bsd29fs_mkfs) (made fssize p order s f),
      )
