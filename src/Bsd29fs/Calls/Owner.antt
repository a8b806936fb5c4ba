-- ===== src/Bsd29fs/Calls/Owner.antt =====
-- The owner that `bsd29fs_chown` of src/bsd29fs.c stores.
use retro_fuse.Prelude.{ℕ, ◌<◌, ◌≡◌, ◌≢◌, ap, some, List}
use retro_fuse.Prelude.Int.{pos}
use retro_fuse.IdMap.{Entry, IdMap}
use retro_fuse.IdMap.Holds.{Holds}
use retro_fuse.IdMap.Translation.{fs_for}
use retro_fuse.V6fs.Kernel.{FilePath, Sys, Kernel, ◌>>=◌, pure}
use retro_fuse.V6fs.Attributes.Stored.{Superuser, FoundByRoot, chown_to-Stored}
use retro_fuse.V7fs.Attributes.Ids.{map_host_id_lem, set_lem}
use retro_fuse.Bsd29fs.Calls.{map_host, bsd29fs_setreuid, bsd29fs_chown}

-- For host ids of an owner and a group that are given and whose filesystem ids are below 32768: a process
-- that runs under the owner's gets its filesystem id as its real and effective id, and a change of owner
-- and group to them by root, where the file is found, returns 0 and leaves a file with just these
-- filesystem ids.
pub bsd29fs_chown_lem :
    (K : Kernel) (u g : IdMap) (us gs : List Entry) (hu : Holds u us) (hg : Holds g gs) (ip : ℕ)
    (L : Superuser K ip) (p : FilePath) (owner group fu fg : ℕ) (s t : Sys K.Core)
    → FoundByRoot K p ip s t
    → owner ≢ 4294967295
    → group ≢ 4294967295
    → fs_for u us owner ≡ fu
    → fs_for g gs group ≡ fg
    → fu < 32768
    → fg < 32768
    → (bsd29fs_setreuid u owner owner s ≡ some (pos 0, record s { ruid = fu; uid = fu }))
      × ((v : Sys K.Core) × (bsd29fs_chown K u g p owner group s ≡ (some (pos 0), (K.iput ip v).1))
          × ((K.inode v.core ip).uid ≡ fu)
          × ((K.inode v.core ip).gid ≡ fg))
unfolding bsd29fs_setreuid bsd29fs_chown map_host ◌>>=◌ pure
bsd29fs_chown_lem K u g us gs hu hg ip L p owner group fu fg s t found given given' eu eg small
      small' =
    let (v, done, uid, gid) = chown_to-Stored K ip L owner group fu fg given given' p s t found in
    (
      set_lem u us hu owner fu s given eu small,
      (
        v,
        rw (map_host_id_lem u us hu owner fu eu small, bsd29fs_chown)
            (rw (map_host_id_lem g gs hg group fg eg small', bsd29fs_chown)
              (ap (λ r. (some r.0, r.1)) done)),
        uid,
        gid,
      ),
    )
