-- ===== src/Bsd211fs/Sizes/Bounds.antt =====
-- The sizes and the free list of `bsd211fs_mkfs` of src/bsd211fs.c.
use retro_fuse.Prelude.{ℕ, ◌+◌, ◌≤◌, ◌<◌, ◌≡◌, some, List, arith, count}
use retro_fuse.V7fs.FreeList.Once.{freed, initfreelist_freed}
use retro_fuse.Bsd211fs.Sizes.{Params, mkfs_params, clamp_isize, bsd211fs_initfreelist}

-- The sizes that are gone on with: the inode table has 1 to 4093 blocks, and four blocks more fit in the
-- filesystem, and the interleave is at least 1 and at most 750.
accepted :
    (fssize iratio n m : ℕ) (p : Params)
    → mkfs_params fssize iratio n m ≡ some p
    → (1 ≤ p.isize) × (p.isize ≤ 4093) × (p.isize + 4 ≤ fssize) × (0 < p.fn) × (p.fn ≤ 750)
unfolding mkfs_params clamp_isize
accepted fssize iratio n m p e = ground (arith, e)

-- For all sizes and interleaves that `bsd211fs_mkfs` accepts the inode table has 1 to 4093 blocks, the
-- loops of the free list end, and each block behind the inode table and below the last one of the
-- filesystem is freed exactly once, the last one just where the interleave does not divide its number,
-- and no other block is.
pub bsd211fs_initfreelist_once :
    (fssize iratio n m : ℕ) (p : Params)
    → mkfs_params fssize iratio n m ≡ some p
    → (1 ≤ p.isize)
      × (p.isize ≤ 4093)
      × (bs : List ℕ) × (bsd211fs_initfreelist fssize (p.isize + 2) p.fn p.fm ≡ some bs)
      × ((b : ℕ) → count b bs ≡ freed fssize (p.isize + 2) p.fn b)
unfolding bsd211fs_initfreelist
bsd211fs_initfreelist_once fssize iratio n m p e =
    let (low, high, fits, pos_n, small) = accepted fssize iratio n m p e in
    let (bs, e', c) = initfreelist_freed fssize (p.isize + 2) p.fn p.fm pos_n (omega arith) in
    (low, high, bs, e', c)
