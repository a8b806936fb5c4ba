-- ===== src/V6fuse/Requests/Sync.antt =====
-- `retrofuse_flush` and `retrofuse_fsync` of src/v6fuse.c.
use retro_fuse.Prelude.{◌≡◌, ◌≢◌, Bool, some, List}
use retro_fuse.Prelude.Int.{pos}
use retro_fuse.IdMap.{Entry, IdMap}
use retro_fuse.IdMap.Holds.{Holds}
use retro_fuse.V6fs.Kernel.{Sys, Kernel, ◌>>=◌, pure}
use retro_fuse.V6fs.System.{Boot, v6fs_sync}
use retro_fuse.V6fuse.Requests.{Context, flush, fsync}
use retro_fuse.V6fuse.Requests.Ids.{as_caller, in_context_lem}

-- A flush and an fsync report success whatever `v6fs_sync` returns, also where blocks could not be written
-- to the disk, where the id tables hold entries and the ids of the process are not -1.
pub sync_always_succeeds :
    (K : Kernel) (B : Boot K) (signed : Bool) (u g : IdMap) (us gs : List Entry) (hu : Holds u us)
    (hg : Holds g gs) (c : Context) (s : Sys K.Core)
    → c.uid ≢ 4294967295
    → c.gid ≢ 4294967295
    → (let t = (v6fs_sync K B (as_caller K signed u g us gs hu hg c s)).1 in
        (flush K signed u g c B s ≡ some (pos 0, t)) × (fsync K signed u g c B s ≡ some (pos 0, t)))
unfolding flush fsync ◌>>=◌ pure
sync_always_succeeds K B signed u g us gs hu hg c s du dg = (
  in_context_lem K signed u g us gs hu hg c _ s du dg,
  in_context_lem K signed u g us gs hu hg c _ s du dg,
)
