-- ===== src/V6fuse.antt =====
-- src/v6fuse.c: the part of the front end that is about the filesystem of the sixth edition.
pub mod Options
pub mod Requests
pub mod Tests
use retro_fuse.Prelude.{
  ℕ, ◌+◌, ◌-◌, ◌*◌, ◌/◌, ◌%◌, ◌^◌, Bool, true, false, ◌||◌, ◌&&◌, not, Option, none, some, List, [],
  ◌∷◌, ltb, ◌==◌, if◌then◌else◌,
}
use retro_fuse.Prelude.Int.{ℤ, pos, eqb_ℤ}
use retro_fuse.FuseCommon.Scan.{
  Text, InitfsText, scan_initfs, no_number, inode_size, half, interleaved,
}
use retro_fuse.FuseCommon.{Config, failed_status}
use retro_fuse.V6fs.Kernel.{M, ◌>>=◌, pure, Kernel}
use retro_fuse.V6fs.System.{Boot, v6fs_mkfs, v6fs_init}

abbrev pub min_fs_size : ℕ
min_fs_size = 5

abbrev pub max_fs_size : ℕ
max_fs_size = 65535

abbrev pub max_itable_size : ℕ
max_itable_size = 4096

abbrev pub max_fn : ℕ
max_fn = 100

-- The bounds on the interleave where it is given.
unfoldable pub check_interleave : Config → ℤ × Config
check_interleave cfg =
    if ltb cfg.n 1 || ltb max_fn cfg.n
    then (failed_status, cfg)
    else if ltb cfg.m 1 || ltb cfg.n cfg.m
    then (failed_status, cfg)
    else (pos 0, cfg)

-- The tests on what `sscanf` matched.
unfoldable pub accept_initfs : Config → InitfsText → ℤ × Config
accept_initfs cfg (no_number ended) = (if ended then pos 0 else failed_status, cfg)
accept_initfs cfg (inode_size isize ended) =
    (if ended then pos 0 else failed_status, record cfg { isize = isize })
accept_initfs cfg (half isize n) = (failed_status, record cfg { isize = isize; n = n })
accept_initfs cfg (interleaved isize n m ended) =
    let cfg = record cfg { isize = isize; n = n; m = m } in
    if ended then check_interleave cfg else (failed_status, cfg)

unfoldable pub parse_initfs_option : Config → Text → Option (ℤ × Config)
parse_initfs_option cfg arg =
    let cfg = record cfg { initfs = true; isize = 0; n = 24; m = 3 } in
    elim (scan_initfs arg) [ none ↦ none | some t ↦ some (accept_initfs cfg t) ]

-- The sizes that may be initialised, or -1.
unfoldable pub check_fssize : (fssize : ℕ) → Bool
check_fssize fssize =
    if not (fssize == 0)
    then if ltb fssize min_fs_size then false else if ltb max_fs_size fssize then false else true
    else true

unfoldable pub check_isize : (fssize isize : ℕ) → Bool
check_isize fssize isize =
    if not (isize == 0)
    then if ltb isize 1
      then false
      else if ltb max_itable_size isize
      then false
      else if not (fssize == 0) && ltb ((fssize + 2 ^ 32 - 4) % 2 ^ 32) isize
      then false
      else true
    else true

unfoldable pub check_initfs_config : Config → ℤ
check_initfs_config cfg =
    if not (check_fssize cfg.fssize)
    then failed_status
    else if not (check_isize cfg.fssize cfg.isize)
    then failed_status
    else pos 0

-- The units of the filesystem and of the disk are both of 512 bytes.
abbrev pub fsblk_to_dskblk : ℕ → ℕ
fsblk_to_dskblk fsblk = fsblk * (512 / 512)

abbrev pub dskblk_to_fsblk : ℕ → ℕ
dskblk_to_fsblk dskblk = dskblk / (512 / 512)

-- 0 for 0, and -1 for an error number.
unfoldable pub as_status : ℤ → ℤ
as_status res = if eqb_ℤ res (pos 0) then pos 0 else failed_status

module _ (K : Kernel) (B : Boot K) where
  -- `none` is an initial free list that never ends.
  unfoldable pub initfs : Bool → Config → M K.Core (Option ℤ)
  initfs initialized cfg = do
    res ← v6fs_mkfs K B initialized (cfg.fssize % 2 ^ 16) (cfg.isize % 2 ^ 16) cfg.n cfg.m
    elim res [ none ↦ pure none | some r ↦ pure (some (as_status r)) ]

  -- `none` is the access through a null pointer in `v6fs_init`.
  unfoldable pub mount : Bool → Config → (dsksize : ℤ) → M K.Core (Option (ℤ × Option ℤ))
  mount initialized cfg dsksize = do
    res ← v6fs_init K B initialized cfg.readonly dsksize
    elim res [ none ↦ pure none | some (r, size) ↦ pure (some (as_status r, size)) ]
