-- ===== src/Fuse/Sizes/Accepted.antt =====
-- `retrofuse_checkinitfsconfig` of src/v7fuse.c and src/bsd29fuse.c against the sizes that `v7fs_mkfs` of
-- src/v7fs.c and `bsd29fs_mkfs` of src/bsd29fs.c take.
use retro_fuse.Prelude.{ℕ, ◌+◌, ◌^◌, ◌≤◌, ◌<◌, ◌≡◌, ◌≢◌, ◌↔◌, none, arith}
use retro_fuse.Prelude.Int.{pos}
use retro_fuse.FuseCommon.{Config}
use retro_fuse.V7fs.FreeList.{mkfs_params as v7_params, default_isize as v7_default}
use retro_fuse.Bsd29fs.System.{mkfs_params as bsd29_params, default_isize as bsd29_default}
use retro_fuse.Fuse.Sizes.{v7_limits, bsd29_limits, check_fssize, check_isize, check_initfs_config}

v7_table :
    (n : ℕ)
    → 5 ≤ n
    → n ≤ 16777215
    → (1 ≤ v7_default n) × (v7_default n ≤ 8187) × (v7_default n + 4 ≤ n)
unfolding v7_default
v7_table n h k = ground arith

bsd29_table :
    (n : ℕ)
    → 5 ≤ n
    → n ≤ 16777215
    → (1 ≤ bsd29_default n) × (bsd29_default n ≤ 4093) × (bsd29_default n + 4 ≤ n)
unfolding bsd29_default
bsd29_table n h k = ground arith

v7_iff :
    (cfg : Config)
    → cfg.fssize < 2 ^ 32
    → cfg.fssize ≢ 0
    → (check_initfs_config v7_limits cfg ≡ pos 0)
      ↔ (v7_params cfg.fssize cfg.isize cfg.n cfg.m ≢ none)
unfolding check_initfs_config check_fssize check_isize v7_params
v7_iff cfg f given = ground (arith, v7_table cfg.fssize)

bsd29_iff :
    (cfg : Config)
    → cfg.fssize < 2 ^ 32
    → cfg.fssize ≢ 0
    → (check_initfs_config bsd29_limits cfg ≡ pos 0)
      ↔ (bsd29_params cfg.fssize cfg.isize cfg.n cfg.m ≢ none)
unfolding check_initfs_config check_fssize check_isize bsd29_params
bsd29_iff cfg f given = ground (arith, bsd29_table cfg.fssize)

-- For a size of the filesystem of 32 bits that is given, the test of either front end passes just those
-- sizes that the making of its filesystem accepts.
pub check_initfs_config_exact :
    (cfg : Config)
    → cfg.fssize < 2 ^ 32
    → cfg.fssize ≢ 0
    → ((check_initfs_config v7_limits cfg ≡ pos 0)
        ↔ (v7_params cfg.fssize cfg.isize cfg.n cfg.m ≢ none))
      × ((check_initfs_config bsd29_limits cfg ≡ pos 0)
          ↔ (bsd29_params cfg.fssize cfg.isize cfg.n cfg.m ≢ none))
check_initfs_config_exact cfg f given = (v7_iff cfg f given, bsd29_iff cfg f given)
