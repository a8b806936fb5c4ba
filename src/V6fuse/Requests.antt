-- ===== src/V6fuse/Requests.antt =====
-- The callbacks of src/v6fuse.c: each takes on the ids of the calling process and makes one call of
-- src/v6fs.c. A result `none` is the invalid access of a lookup in an id map.
pub mod Ids
pub mod Balance
pub mod Sync
use retro_fuse.Prelude.{ℕ, Bool, Option, none, some, List, [], ◌∷◌, if◌then◌else◌}
use retro_fuse.Prelude.Int.{ℤ, pos, pos_part, is_neg}
use retro_fuse.IdMap.{IdMap}
use retro_fuse.DskIo.Interface.{Host}
use retro_fuse.DskIo.{Dsk, close}
use retro_fuse.V6fs.Stat.{Stat}
use retro_fuse.V6fs.Kernel.{FilePath, Sys, M, ◌>>=◌, ◌>>◌, pure, Kernel}
use retro_fuse.V6fs.Files.{
  OpenFlags, v6fs_open, v6fs_close, v6fs_link, v6fs_unlink, v6fs_chmod, v6fs_mknod, v6fs_truncate,
  v6fs_stat, v6fs_access,
}
use retro_fuse.V6fs.Attributes.{TimeSpec, v6fs_chown, v6fs_utimens}
use retro_fuse.V6fs.Transfer.{Got, v6fs_pread, v6fs_pwrite}
use retro_fuse.V6fs.Dirs.{v6fs_mkdir}
use retro_fuse.V6fs.Listing.{Visitor, v6fs_enumdir, v6fs_rmdir}
use retro_fuse.V6fs.Rename.{v6fs_rename}
use retro_fuse.V6fs.System.{v6fs_setreuid, v6fs_setregid, v6fs_sync, v6fs_shutdown, Boot}

-- `struct fuse_context`, as far as it is read.
pub record Context : Type 0 where
  pub uid : ℕ
  pub gid : ℕ

-- What a directory is filled with: the names and attributes, in their order, as they were handed to
-- the filler, whose answer is not looked at.
abbrev pub Entries : Type 0
Entries = List (List ℕ × Stat)

unfoldable pub filldir : Visitor Entries
filldir name st entries = (pos 0, (name, st) ∷ entries)

-- The state, where the result is not looked at.
abbrev pub state_of : {C : Type 0} → Option (ℤ × Sys C) → Option (Sys C)
state_of none = none
state_of (some (_, s)) = some s

module _ (K : Kernel) (char_is_signed : Bool) (uidmap gidmap : IdMap) (context : Context) where
  unfoldable pub set_groups : Option (ℤ × Sys K.Core) → Option (Sys K.Core)
  set_groups none = none
  set_groups (some (_, s)) =
      state_of (v6fs_setregid char_is_signed gidmap context.gid context.gid s)

  unfoldable pub setfscontext : Sys K.Core → Option (Sys K.Core)
  unfolding set_groups
  setfscontext s = set_groups (v6fs_setreuid char_is_signed uidmap context.uid context.uid s)

  -- A call behind `setfscontext`.
  unfoldable pub run_in : {A : Type 0} → M K.Core A → Option (Sys K.Core) → Option (A × Sys K.Core)
  run_in m none = none
  run_in m (some s) = some (m s)

  abbrev Handler : Type 0 → Type 0
  Handler A = Sys K.Core → Option (A × Sys K.Core)

  unfoldable pub in_context : {A : Type 0} → M K.Core A → Handler A
  unfolding setfscontext run_in
  in_context m s = run_in m (setfscontext s)

  unfoldable pub getattr : FilePath → Handler (ℤ × Option Stat)
  getattr pathname = in_context (v6fs_stat K char_is_signed uidmap gidmap pathname)

  unfoldable pub access : FilePath → (r w x : Bool) → Handler ℤ
  access pathname r w x = in_context (v6fs_access K pathname r w x)

  unfoldable pub readdir : (fuel : ℕ) → FilePath → Handler (Option (ℤ × Entries))
  readdir fuel pathname =
      in_context (v6fs_enumdir K char_is_signed uidmap gidmap filldir fuel pathname [])

  -- The result, and the file handle where it is set.
  unfoldable pub open_file : FilePath → OpenFlags → Handler (ℤ × Option ℕ)
  open_file pathname flags = in_context (do
    res ← v6fs_open K pathname flags 0
    pure (if is_neg res then (res, none) else (pos 0, some (pos_part res))))

  unfoldable pub read : (fh size : ℕ) → (offset : ℤ) → Handler (Got K)
  read fh size offset = in_context (v6fs_pread K fh size offset)

  unfoldable pub write : (fh : ℕ) → (buf : List ℕ) → (size : ℕ) → (offset : ℤ) → Handler (Option ℤ)
  write fh buf size offset = in_context (v6fs_pwrite K fh buf size offset)

  unfoldable pub truncate : FilePath → (length : ℤ) → Handler ℤ
  truncate pathname length = in_context (v6fs_truncate K pathname length)

  unfoldable pub flush : Boot K → Handler ℤ
  flush B = in_context (do res ← v6fs_sync K B; pure (pos 0))

  unfoldable pub fsync : Boot K → Handler ℤ
  fsync B = in_context (do res ← v6fs_sync K B; pure (pos 0))

  unfoldable pub release : (fh : ℕ) → Handler ℤ
  release fh = in_context (v6fs_close K (pos fh))

  unfoldable pub mknod : FilePath → (mode major minor : ℕ) → Handler ℤ
  mknod pathname mode major minor = in_context (v6fs_mknod K pathname mode major minor)

  unfoldable pub mkdir : FilePath → (mode : ℕ) → Handler ℤ
  mkdir pathname mode = in_context (v6fs_mkdir K pathname mode)

  unfoldable pub rmdir : (fuel : ℕ) → FilePath → Handler (Option ℤ)
  rmdir fuel pathname = in_context (v6fs_rmdir K char_is_signed uidmap gidmap fuel pathname)

  unfoldable pub link : (oldpath newpath : FilePath) → Handler ℤ
  link oldpath newpath = in_context (v6fs_link K oldpath newpath)

  unfoldable pub unlink : FilePath → Handler ℤ
  unlink pathname = in_context (v6fs_unlink K pathname)

  unfoldable pub rename : (fuel : ℕ) → (oldpath newpath : FilePath) → Handler (Option ℤ)
  rename fuel oldpath newpath =
      in_context (v6fs_rename K char_is_signed uidmap gidmap fuel oldpath newpath)

  unfoldable pub chmod : FilePath → (mode : ℕ) → Handler ℤ
  chmod pathname mode = in_context (v6fs_chmod K pathname mode)

  unfoldable pub chown : FilePath → (uid gid : ℕ) → Handler (Option ℤ)
  chown pathname uid gid = in_context (v6fs_chown K char_is_signed uidmap gidmap pathname uid gid)

  unfoldable pub utimens : FilePath → Option (TimeSpec × TimeSpec) → Handler ℤ
  utimens pathname tv = in_context (v6fs_utimens K pathname tv)

-- `retrofuse_destroy`: the filesystem is ended, and then the disk is closed.
module _ (K : Kernel) (B : Boot K) (H : Host) where
  unfoldable pub destroy :
      (initialized : Bool) → Dsk → H.State → Sys K.Core → (Dsk × H.State) × Sys K.Core
  destroy initialized d h s = let (res, t) = v6fs_shutdown K B initialized s in (close H d h, t)
