-- ===== src/Fuse/Sizes/Tests.antt =====
-- The options of src/v7fuse.c and src/bsd29fuse.c at a filesystem of 6 blocks.
use retro_fuse.Prelude.{◌≡◌, ◌≢◌, ◌↔◌, true, false, none, arith}
use retro_fuse.Prelude.Int.{pos}
use retro_fuse.FuseCommon.{Config}
use retro_fuse.V7fs.FreeList.{mkfs_params as v7_params}
use retro_fuse.Bsd29fs.System.{mkfs_params as bsd29_params}
use retro_fuse.Fuse.Sizes.{v7_limits, bsd29_limits, check_initfs_config}
use retro_fuse.Fuse.Sizes.Accepted.{check_initfs_config_exact}

abbrev config : Config
config = record {
  dskfilename = none;
  fssize = 6;
  fsoffset = 0;
  mountpoint = none;
  overwrite = false;
  readonly = false;
  foreground = false;
  debug = false;
  showversion = false;
  showhelp = false;
  initfs = true;
  isize = 2;
  iratio = 0;
  m = 3;
  n = 10;
}

check_initfs_config_exact_example :
    ((check_initfs_config v7_limits config ≡ pos 0) ↔ (v7_params 6 2 10 3 ≢ none))
    × ((check_initfs_config bsd29_limits config ≡ pos 0) ↔ (bsd29_params 6 2 10 3 ≢ none))
check_initfs_config_exact_example = check_initfs_config_exact config (omega arith) (omega arith)
