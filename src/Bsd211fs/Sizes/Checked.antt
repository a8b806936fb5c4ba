-- ===== src/Bsd211fs/Sizes/Checked.antt =====
-- `retrofuse_checkinitfsconfig` of src/bsd211fuse.c against the sizes that `bsd211fs_mkfs` of src/bsd211fs.c takes.
use native.Mathlib.Nat.{div-mul-le_self, mul-le-mul_left}
use retro_fuse.Prelude.{
  ℕ, ◌+◌, ◌*◌, ◌/◌, ◌%◌, ◌^◌, ◌≤◌, ◌≡◌, ◌≢◌, ◌⊎◌, none, arith, ◌==◌, if◌then◌else◌,
}
use retro_fuse.Prelude.Int.{pos}
use retro_fuse.FuseCommon.{Config, failed_status}
use retro_fuse.Bsd211fs.Sizes.{
  mkfs_params, inode_blocks, clamp_isize, check_fssize, check_iratio, check_initfs_config,
}

-- A ratio of 256 bytes or more gives at most a quarter of the filesystem to the inode table.
quarter : (fssize iratio : ℕ) → 256 ≤ iratio → fssize * 1024 / iratio / 16 * 4 ≤ fssize
quarter fssize iratio h =
    let q = fssize * 1024 / iratio in
    let low : q * 256 ≤ q * iratio = mul-le-mul_left q h in
    omega (arith, low, div-mul-le_self (fssize * 1024) iratio)

table_fits :
    (fssize iratio : ℕ)
    → 6 ≤ fssize
    → fssize ≤ 2147483647
    → 256 ≤ iratio
    → clamp_isize (inode_blocks fssize iratio) + 4 ≤ fssize
unfolding clamp_isize inode_blocks
table_fits fssize iratio h k r = ground (arith, quarter fssize iratio r)

ratio : (iratio : ℕ) → (iratio ≡ 0) ⊎ (256 ≤ iratio) → 256 ≤ (if iratio == 0 then 4096 else iratio)
ratio iratio given = ground (arith, given)

sizes_taken :
    (fssize iratio n m : ℕ)
    → 6 ≤ fssize
    → fssize ≤ 2147483647
    → (iratio ≡ 0) ⊎ (256 ≤ iratio)
    → mkfs_params fssize iratio n m ≢ none
unfolding mkfs_params
sizes_taken fssize iratio n m h k given =
    let used = if iratio == 0 then 4096 else iratio in
    let fits = table_fits fssize used h k (ratio iratio given) in ground (arith, fits)

-- What the test passes `bsd211fs_mkfs` accepts, where the size of the filesystem is given and the ratio is
-- not, or is at least 256 bytes to an inode.
pub check_initfs_config-mkfs_params :
    (cfg : Config)
    → check_initfs_config cfg ≡ pos 0
    → cfg.fssize ≢ 0
    → (cfg.iratio ≡ 0) ⊎ (256 ≤ cfg.iratio)
    → mkfs_params cfg.fssize cfg.iratio cfg.n cfg.m ≢ none
unfolding check_initfs_config check_fssize
check_initfs_config-mkfs_params cfg e given r =
    sizes_taken cfg.fssize cfg.iratio cfg.n cfg.m (ground arith) (ground arith) r

-- Where the size of the filesystem is not given, and where it is a multiple of 4194304 blocks, the test
-- refuses every ratio that is given.
pub check_initfs_config_lost :
    (cfg : Config) (q : ℕ)
    → cfg.fssize ≡ q * 4194304
    → cfg.iratio ≢ 0
    → check_initfs_config cfg ≡ failed_status
unfolding check_initfs_config check_iratio
check_initfs_config_lost cfg q e given =
    let z : cfg.fssize * 1024 % 2 ^ 32 ≡ 0 = omega arith in ground (arith, z)
