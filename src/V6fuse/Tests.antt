-- ===== src/V6fuse/Tests.antt =====
-- Runs of src/v6fuse.c, and its theorems at concrete configurations and requests.
use retro_fuse.Prelude.{
  ◌<◌, ◌≤◌, ◌^◌, ◌≡◌, ◌≢◌, ◌↔◌, ◌⊎◌, refl, true, false, none, some, [], ◌∷◌, arith,
}
use retro_fuse.Prelude.Int.{pos}
use retro_fuse.IdMap.{IdMap}
use retro_fuse.IdMap.Holds.{Holds}
use retro_fuse.FuseCommon.{Config, failed_status}
use retro_fuse.V6fs.Kernel.{Sys}
use retro_fuse.V6fs.Kernel.Counts.{Moved}
use retro_fuse.V6fs.Kernel.Toy.{Toy, toy_state, missing_name}
use retro_fuse.V6fs.Kernel.ReadOnly.{ro_kernel, ro_counts, ro_names}
use retro_fuse.V6fs.Files.{v6fs_unlink}
use retro_fuse.V6fs.System.{Boot, Super, inode_blocks, v6fs_sync}
use retro_fuse.FuseCommon.Scan.{scan_initfs}
use retro_fuse.V6fuse.{
  check_fssize, check_isize, check_initfs_config, check_interleave, accept_initfs,
  parse_initfs_option,
}
use retro_fuse.V6fuse.Options.{check_initfs_config_iff}
use retro_fuse.V6fuse.Requests.{Context, unlink, flush, fsync}
use retro_fuse.V6fuse.Requests.Ids.{as_caller, in_context_lem, Requests, request_ids}
use retro_fuse.V6fuse.Requests.Balance.{unlink_step, Served, start, answered, requests-Moved}
use retro_fuse.V6fuse.Requests.Sync.{sync_always_succeeds}

abbrev ids : IdMap
ids = record {
  entries = none;
  entrycount = 0;
  maxfsid = 255;
  defaulthostid = 65534;
  defaultfsid = 255;
}

ids-Holds : Holds ids []
ids-Holds = record { count = refl; block = refl }

-- 42 blocks, with an inode table of the default size.
abbrev config : Config
config = record {
  dskfilename = some (100 ∷ []);
  fssize = 42;
  fsoffset = 0;
  mountpoint = some (109 ∷ []);
  overwrite = false;
  readonly = false;
  foreground = false;
  debug = false;
  showversion = false;
  showhelp = false;
  initfs = true;
  isize = 0;
  iratio = 0;
  m = 3;
  n = 24;
}

check_run : check_initfs_config config ≡ pos 0
unfolding check_initfs_config check_fssize check_isize
check_run = refl

refused_run : inode_blocks 42 0 ≡ none
unfolding inode_blocks
refused_run = refl

-- initfs=1:0:3 is refused for its interleave.
interleave_run :
    parse_initfs_option config
      (105 ∷ 110 ∷ 105 ∷ 116 ∷ 102 ∷ 115 ∷ 61 ∷ 49 ∷ 58 ∷ 48 ∷ 58 ∷ 51 ∷ [])
    ≡ some (failed_status, record config { isize = 1; n = 0; m = 3 })
unfolding parse_initfs_option scan_initfs accept_initfs check_interleave
interleave_run = refl

check_initfs_config_iff_example : (check_initfs_config config ≡ pos 0) ↔ (
    (42 < 2 ^ 16)
    × (0 < 2 ^ 16)
    × ((inode_blocks 42 0 ≢ none) ⊎ ((5 ≤ 42) × (42 < 43) × (config.isize ≡ 0))))
check_initfs_config_iff_example =
    check_initfs_config_iff config (omega arith) (omega arith) (omega arith)

-- A process of user 1000 and group 100.
abbrev caller : Context
caller = record { uid = 1000; gid = 100 }

abbrev super_block : Super
super_block = record {
  s_isize = 1;
  s_fsize = 6;
  s_nfree = 0;
  s_free = [];
  s_fmod = false;
  s_ronly = false;
}

abbrev disk : Boot ro_kernel
disk = record {
  clear_tables = λ c. c;
  binit = λ s. (tt, s);
  iinit = λ s. (tt, s);
  get_super = λ c. super_block;
  set_super = λ fp c. c;
  set_root = λ ip s. (tt, s);
  free = λ b s. (tt, s);
  alloc = λ s. (none, record s { error = 28 });
  bwrite = λ b bytes s. (true, s);
}

request_ids_example :
    Requests ro_kernel disk true ids ids caller toy_state
      (record toy_state { ruid = 255; uid = 255; rgid = 100; gid = 100 })
request_ids_example =
    request_ids ro_kernel true ids ids [] [] ids-Holds ids-Holds disk caller toy_state (omega arith)
      (omega arith)

abbrev called : Sys Toy
called = as_caller ro_kernel true ids ids [] [] ids-Holds ids-Holds caller toy_state

-- The removal of a name, and the state behind it.
abbrev unlinked : Sys Toy
unlinked = (v6fs_unlink ro_kernel missing_name called).1

one_request : Served ro_kernel disk true ids ids toy_state unlinked
unfolding unlink
one_request = answered start (omega arith) (omega arith) (
    unlink_step missing_name (v6fs_unlink ro_kernel missing_name called).0 (
      in_context_lem ro_kernel true ids ids [] [] ids-Holds ids-Holds caller _ toy_state
        (omega arith) (omega arith)))

requests-Moved_example : Moved (ro_counts.held toy_state.core) (ro_counts.held unlinked.core) 0 0
requests-Moved_example =
    requests-Moved ro_kernel disk true ids ids ro_counts ro_names [] [] ids-Holds ids-Holds
      toy_state unlinked one_request

sync_always_succeeds_example :
    (let t = (v6fs_sync ro_kernel disk called).1 in
      (flush ro_kernel true ids ids caller disk toy_state ≡ some (pos 0, t))
      × (fsync ro_kernel true ids ids caller disk toy_state ≡ some (pos 0, t)))
sync_always_succeeds_example =
    sync_always_succeeds ro_kernel disk true ids ids [] [] ids-Holds ids-Holds caller toy_state
      (omega arith) (omega arith)
