-- ===== src/Fuse/Sizes.antt =====
-- The options of src/v7fuse.c and of src/bsd29fuse.c, which are the same code with other limits.
pub mod Accepted
pub mod Tests
use retro_fuse.Prelude.{
  ℕ, ◌+◌, ◌-◌, ◌*◌, ◌/◌, ◌%◌, ◌^◌, Bool, true, false, ◌||◌, ◌&&◌, not, Option, none, some, List,
  ltb, ◌==◌, if◌then◌else◌,
}
use retro_fuse.Prelude.Int.{ℤ, pos, eqb_ℤ}
use retro_fuse.FuseCommon.{Config, failed_status}
use retro_fuse.FuseCommon.Scan.{
  Text, InitfsText, scan_initfs, no_number, inode_size, half, interleaved,
}
use retro_fuse.V6fs.Kernel.{M, ◌>>=◌, pure, Kernel}
use retro_fuse.V6fuse.{as_status}
use retro_fuse.V7fs.System.{Boot, v7fs_mkfs, v7fs_init}
use retro_fuse.Bsd29fs.System.{bsd29fs_mkfs, bsd29fs_init}

-- The constants of the two headers, and the interleave where none is given.
pub record Limits : Type 0 where
  pub min_fs_size : ℕ
  pub max_fs_size : ℕ
  pub max_itable_size : ℕ
  pub max_fn : ℕ
  pub default_n : ℕ
  pub default_m : ℕ

abbrev pub v7_limits : Limits
v7_limits = record {
  min_fs_size = 5;
  max_fs_size = 16777215;
  max_itable_size = 65536 / 8;
  max_fn = 500;
  default_n = 500;
  default_m = 3;
}

abbrev pub bsd29_limits : Limits
bsd29_limits = record {
  min_fs_size = 5;
  max_fs_size = 16777215;
  max_itable_size = 65500 / 16;
  max_fn = 500;
  default_n = 10;
  default_m = 5;
}

module _ (l : Limits) where
  -- The bounds on the interleave where it is given.
  unfoldable pub check_interleave : Config → ℤ × Config
  check_interleave cfg =
      if ltb cfg.n 1 || ltb l.max_fn cfg.n
      then (failed_status, cfg)
      else if ltb cfg.m 1 || ltb cfg.n cfg.m
      then (failed_status, cfg)
      else (pos 0, cfg)

  -- The tests on what `sscanf` matched.
  unfoldable pub accept_initfs : Config → InitfsText → ℤ × Config
  unfolding check_interleave
  accept_initfs cfg (no_number ended) = (if ended then pos 0 else failed_status, cfg)
  accept_initfs cfg (inode_size isize ended) =
      (if ended then pos 0 else failed_status, record cfg { isize = isize })
  accept_initfs cfg (half isize n) = (failed_status, record cfg { isize = isize; n = n })
  accept_initfs cfg (interleaved isize n m ended) =
      let cfg = record cfg { isize = isize; n = n; m = m } in
      if ended then check_interleave cfg else (failed_status, cfg)

  unfoldable pub parse_initfs_option : Config → Text → Option (ℤ × Config)
  unfolding accept_initfs
  parse_initfs_option cfg arg =
      let cfg = record cfg { initfs = true; isize = 0; n = l.default_n; m = l.default_m } in
      elim (scan_initfs arg) [ none ↦ none | some t ↦ some (accept_initfs cfg t) ]

  -- The sizes that may be initialised, or -1.
  unfoldable pub check_fssize : (fssize : ℕ) → Bool
  check_fssize fssize =
      if not (fssize == 0)
      then if ltb fssize l.min_fs_size
        then false
        else if ltb l.max_fs_size fssize
        then false
        else true
      else true

  unfoldable pub check_isize : (fssize isize : ℕ) → Bool
  check_isize fssize isize =
      if not (isize == 0)
      then if ltb isize 1
        then false
        else if ltb l.max_itable_size isize
        then false
        else if not (fssize == 0) && ltb ((fssize + 2 ^ 32 - 4) % 2 ^ 32) isize
        then false
        else true
      else true

  unfoldable pub check_initfs_config : Config → ℤ
  unfolding check_fssize check_isize
  check_initfs_config cfg =
      if not (check_fssize cfg.fssize)
      then failed_status
      else if not (check_isize cfg.fssize cfg.isize)
      then failed_status
      else pos 0

-- Blocks of the filesystem of 2.9BSD and of 2.11BSD are of 1024 bytes, those of the disk of 512.
abbrev pub fsblk_to_dskblk : ℕ → ℕ
fsblk_to_dskblk fsblk = fsblk * (1024 / 512)

abbrev pub dskblk_to_fsblk : ℕ → ℕ
dskblk_to_fsblk dskblk = dskblk / (1024 / 512)

module _ (K : Kernel) (B : Boot K) where
  -- `none` is an initial free list that never ends.
  unfoldable pub v7_initfs : (initialized : Bool) → Config → M K.Core (Option ℤ)
  v7_initfs initialized cfg = do
    res ← v7fs_mkfs K B initialized cfg.fssize cfg.isize cfg.n cfg.m
    elim res [ none ↦ pure none | some r ↦ pure (some (as_status r)) ]

  unfoldable pub bsd29_initfs :
      (add_inodes : ℕ → M K.Core (Unit {0})) → (initialized : Bool) → Config → M K.Core (Option ℤ)
  bsd29_initfs add_inodes initialized cfg = do
    res ← bsd29fs_mkfs K B add_inodes initialized cfg.fssize cfg.isize cfg.n cfg.m
    elim res [ none ↦ pure none | some r ↦ pure (some (as_status r)) ]

  -- `none` is the access through a null pointer in the mount.
  unfoldable pub v7_mount :
      (initialized : Bool) → Config → (dsksize : ℤ) → M K.Core (Option (ℤ × Option ℤ))
  v7_mount initialized cfg dsksize = do
    res ← v7fs_init K B initialized cfg.readonly dsksize
    elim res [ none ↦ pure none | some (r, size) ↦ pure (some (as_status r, size)) ]

  unfoldable pub bsd29_mount :
      (ihinit : M K.Core (Unit {0}))
      → (initialized : Bool) → Config
      → (dsksize : ℤ) → M K.Core (Option (ℤ × Option ℤ))
  bsd29_mount ihinit initialized cfg dsksize = do
    res ← bsd29fs_init K B ihinit initialized cfg.readonly dsksize
    elim res [ none ↦ pure none | some (r, size) ↦ pure (some (as_status r, size)) ]
