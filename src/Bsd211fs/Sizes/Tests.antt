-- ===== src/Bsd211fs/Sizes/Tests.antt =====
-- The sizes of src/bsd211fs.c and src/bsd211fuse.c at small and at large filesystems.
use retro_fuse.Prelude.{ℕ, ◌≡◌, ◌≢◌, refl, inl, true, false, none, some, arith}
use retro_fuse.FuseCommon.{Config, failed_status}
use retro_fuse.Bsd211fs.Sizes.{
  Params, inode_blocks, mkfs_params, clamp_isize, check_fssize, check_iratio, check_initfs_config,
}
use retro_fuse.Bsd211fs.Sizes.Checked.{check_initfs_config-mkfs_params, check_initfs_config_lost}

abbrev small : Params
small = record { isize = 1; fn = 5; fm = 2 }

small_taken : mkfs_params 20 0 5 2 ≡ some small
unfolding mkfs_params clamp_isize inode_blocks
small_taken = refl

-- A filesystem of 64 GiB with a ratio of 1 byte: the number of blocks is lost, and the table has one.
small_table : clamp_isize (inode_blocks 67108864 1) ≡ 1
unfolding inode_blocks clamp_isize
small_table = refl

abbrev config : (fssize iratio : ℕ) → Config
config fssize iratio = record {
  dskfilename = none;
  fssize = fssize;
  fsoffset = 0;
  mountpoint = none;
  overwrite = false;
  readonly = false;
  foreground = false;
  debug = false;
  showversion = false;
  showhelp = false;
  initfs = true;
  isize = 0;
  iratio = iratio;
  m = 2;
  n = 100;
}

check_initfs_config-mkfs_params_example : mkfs_params 6 0 100 2 ≢ none
unfolding check_initfs_config check_fssize check_iratio
check_initfs_config-mkfs_params_example =
    check_initfs_config-mkfs_params (config 6 0) refl (omega arith) (inl refl)

-- A filesystem of 4 GiB, and the default ratio given as a number.
check_initfs_config_lost_example : check_initfs_config (config 4194304 4096) ≡ failed_status
check_initfs_config_lost_example =
    check_initfs_config_lost (config 4194304 4096) 1 refl (omega arith)
