-- ===== src/Bsd211fs/Sizes.antt =====
-- The sizes that `bsd211fs_mkfs` of src/bsd211fs.c takes, its free list, and the options of
-- `retrofuse_parseinitfsopt` and `retrofuse_checkinitfsconfig` of src/bsd211fuse.c. A `long` has 64 bits.
pub mod Bounds
pub mod Checked
pub mod Tests
use retro_fuse.Prelude.{
  ℕ, ◌+◌, ◌-◌, ◌*◌, ◌/◌, ◌%◌, ◌^◌, Bool, true, false, not, ◌&&◌, ◌||◌, Option, none, some, List,
  ltb, leb, ◌==◌, if◌then◌else◌,
}
use retro_fuse.Prelude.Int.{ℤ, pos}
use retro_fuse.FuseCommon.{Config, failed_status}
use retro_fuse.FuseCommon.Scan.{
  Text, InitfsText, no_number, inode_size, half, interleaved, scan_initfs,
}
use retro_fuse.V7fs.FreeList.{v7fs_initfreelist}

abbrev pub min_fs_size : ℕ
min_fs_size = 6

abbrev pub max_fs_size : ℕ
max_fs_size = 2147483647

abbrev pub max_itable_size : ℕ
max_itable_size = 65500 / 16

abbrev pub max_fn : ℕ
max_fn = 750

-- The size of the inode table and the interleave that `bsd211fs_mkfs` goes on with, or none for -EINVAL.
pub record Params : Type 0 where
  pub isize : ℕ
  pub fn : ℕ
  pub fm : ℕ

-- `(dbtob(fssize) / iratio) / INOPB`, kept in 32 bits.
unfoldable pub inode_blocks : (fssize iratio : ℕ) → ℕ
inode_blocks fssize iratio = fssize * 1024 / iratio / 16 % 2 ^ 32

unfoldable pub clamp_isize : ℕ → ℕ
clamp_isize isize =
    if ltb isize 1 then 1 else if ltb max_itable_size isize then max_itable_size else isize

abbrev pub adjust_fn : ℕ → ℕ
adjust_fn n = if n == 0 then 100 else if leb max_fn n then max_fn else n

abbrev pub adjust_fm : (n m : ℕ) → ℕ
adjust_fm n m =
    let m' = if n == 0 then 2 else m in if m' == 0 || ltb (adjust_fn n) m' then 3 else m'

unfoldable pub mkfs_params : (fssize iratio n m : ℕ) → Option Params
unfolding inode_blocks clamp_isize
mkfs_params fssize iratio n m =
    let isize = clamp_isize (inode_blocks fssize (if iratio == 0 then 4096 else iratio)) in
    if ltb fssize min_fs_size || ltb max_fs_size fssize
    then none
    else if ltb (fssize - 4) isize
    then none
    else some (record { isize = isize; fn = adjust_fn n; fm = adjust_fm n m })

-- The blocks in the order in which `bsd211_free` is called for them, by the loops of `v7fs_initfreelist`.
-- `isize` is `fs_isize`, the first block behind the inode table.
unfoldable pub bsd211fs_initfreelist : (fsize isize n m : ℕ) → Option (List ℕ)
bsd211fs_initfreelist fsize isize n m = v7fs_initfreelist fsize isize n m

-- The bounds on the interleave where it is given.
unfoldable pub check_interleave : Config → ℤ × Config
check_interleave cfg =
    if ltb cfg.n 1 || ltb max_fn cfg.n
    then (failed_status, cfg)
    else if ltb cfg.m 1 || ltb cfg.n cfg.m
    then (failed_status, cfg)
    else (pos 0, cfg)

-- The tests on what `sscanf` matched.
unfoldable pub accept_initfs : Config → InitfsText → ℤ × Config
unfolding check_interleave
accept_initfs cfg (no_number ended) = (if ended then pos 0 else failed_status, cfg)
accept_initfs cfg (inode_size iratio ended) =
    (if ended then pos 0 else failed_status, record cfg { iratio = iratio })
accept_initfs cfg (half iratio n) = (failed_status, record cfg { iratio = iratio; n = n })
accept_initfs cfg (interleaved iratio n m ended) =
    let cfg = record cfg { iratio = iratio; n = n; m = m } in
    if ended then check_interleave cfg else (failed_status, cfg)

unfoldable pub parse_initfs_option : Config → Text → Option (ℤ × Config)
unfolding accept_initfs
parse_initfs_option cfg arg =
    let cfg = record cfg { initfs = true; iratio = 0; n = 100; m = 2 } in
    elim (scan_initfs arg) [ none ↦ none | some t ↦ some (accept_initfs cfg t) ]

unfoldable pub check_fssize : (fssize : ℕ) → Bool
check_fssize fssize =
    if not (fssize == 0)
    then if ltb fssize min_fs_size then false else if ltb max_fs_size fssize then false else true
    else true

-- The size in bytes is kept in 32 bits.
unfoldable pub check_iratio : (fssize iratio : ℕ) → Bool
check_iratio fssize iratio =
    if not (iratio == 0) && ltb (fssize * 1024 % 2 ^ 32) iratio then false else true

unfoldable pub check_initfs_config : Config → ℤ
unfolding check_fssize check_iratio
check_initfs_config cfg =
    if not (check_fssize cfg.fssize)
    then failed_status
    else if not (check_iratio cfg.fssize cfg.iratio)
    then failed_status
    else pos 0
