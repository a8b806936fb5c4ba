-- ===== src/Fuse/Requests.antt =====
-- The callbacks of src/v7fuse.c, src/bsd29fuse.c and src/bsd211fuse.c: each takes on the ids of the calling
-- process and makes one call of its filesystem, of which they are given the operations. A result `none`
-- is the invalid access of a lookup in an id map, or a loop that ran out of fuel.
pub mod Ids
pub mod Instances
pub mod Tests
use retro_fuse.Prelude.{
  ℕ, ◌+◌, ◌-◌, ◌*◌, ◌%◌, ◌^◌, Bool, Option, none, some, List, [], ◌∷◌, ltb, ◌==◌, if◌then◌else◌,
  take,
}
use retro_fuse.Prelude.Int.{ℤ, pos, pos_part, is_neg}
use retro_fuse.DskIo.Interface.{Host}
use retro_fuse.DskIo.{Dsk, close}
use retro_fuse.V6fs.Kernel.{FilePath, Sys, M, ◌>>=◌, ◌>>◌, pure}
use retro_fuse.V6fs.Attributes.{TimeSpec}
use retro_fuse.V6fuse.Requests.{Context}

-- What a directory is filled with: the names and attributes, the last one first, as they were handed to
-- the filler, whose answer is not looked at.
abbrev pub Entries : Type 0 → Type 0
Entries S = List (List ℕ × S)

unfoldable pub filldir : {S : Type 0} → (name : List ℕ) → S → Entries S → ℤ × Entries S
filldir name st entries = (pos 0, (name, st) ∷ entries)

-- The operations of a filesystem over a memory `C`, with the host's attributes `S` and the flags of an
-- open call `F`. `enumdir` shows the entries to `filldir`.
pub record Calls (C S F : Type 0) : Type 0 where
  pub setreuid : (ruid euid : ℕ) → Sys C → Option (ℤ × Sys C)
  pub setregid : (rgid egid : ℕ) → Sys C → Option (ℤ × Sys C)
  pub stat : FilePath → M C (ℤ × Option S)
  pub access : FilePath → (mode : ℕ) → M C ℤ
  pub enumdir : FilePath → Entries S → M C (Option (ℤ × Entries S))
  pub open_file : FilePath → (flags : F) → (mode : ℕ) → M C ℤ
  pub pread : (fd count : ℕ) → (offset : ℤ) → M C (Option (ℤ × List ℕ))
  pub pwrite : (fd : ℕ) → (buf : List ℕ) → (count : ℕ) → (offset : ℤ) → M C (Option ℤ)
  pub truncate : FilePath → (length : ℤ) → M C ℤ
  pub sync : M C ℤ
  pub fsync : (fd : ℕ) → M C ℤ
  pub close : (fd : ℤ) → M C ℤ
  pub mknod : FilePath → (mode major minor : ℕ) → M C ℤ
  pub mkdir : FilePath → (mode : ℕ) → M C ℤ
  pub rmdir : FilePath → M C (Option ℤ)
  pub link : (oldpath newpath : FilePath) → M C ℤ
  pub unlink : FilePath → M C ℤ
  pub rename : (oldpath newpath : FilePath) → M C (Option ℤ)
  pub chmod : FilePath → (mode : ℕ) → M C ℤ
  pub chown : FilePath → (owner group : ℕ) → M C (Option ℤ)
  pub utimens : FilePath → Option (TimeSpec × TimeSpec) → M C ℤ
  pub shutdown : (initialized : Bool) → M C ℤ

module _ {C S F : Type 0} (fs : Calls C S F) (context : Context) where
  unfoldable pub set_groups : Option (ℤ × Sys C) → Option (Sys C)
  set_groups none = none
  set_groups (some (_, s)) = elim (fs.setregid context.gid context.gid s) [
    | none ↦ none
    | some (_, t) ↦ some t
  ]

  unfoldable pub setfscontext : Sys C → Option (Sys C)
  unfolding set_groups
  setfscontext s = set_groups (fs.setreuid context.uid context.uid s)

  -- A call behind `setfscontext`.
  unfoldable pub run_in : {A : Type 0} → M C A → Option (Sys C) → Option (A × Sys C)
  run_in m none = none
  run_in m (some s) = some (m s)

  abbrev pub Handler : Type 0 → Type 0
  Handler A = Sys C → Option (A × Sys C)

  unfoldable pub in_context : {A : Type 0} → M C A → Handler A
  unfolding setfscontext run_in
  in_context m s = run_in m (setfscontext s)

  unfoldable pub getattr : FilePath → Handler (ℤ × Option S)
  getattr pathname = in_context (fs.stat pathname)

  unfoldable pub access : FilePath → (mode : ℕ) → Handler ℤ
  access pathname mode = in_context (fs.access pathname mode)

  unfoldable pub readdir : FilePath → Handler (Option (ℤ × Entries S))
  readdir pathname = in_context (fs.enumdir pathname [])

  -- The result, and the file handle where it is set.
  unfoldable pub open_file : FilePath → F → Handler (ℤ × Option ℕ)
  open_file pathname flags = in_context (do
    res ← fs.open_file pathname flags 0
    pure (if is_neg res then (res, none) else (pos 0, some (pos_part res))))

  unfoldable pub read : (fh size : ℕ) → (offset : ℤ) → Handler (Option (ℤ × List ℕ))
  read fh size offset = in_context (fs.pread fh size offset)

  unfoldable pub write : (fh : ℕ) → (buf : List ℕ) → (size : ℕ) → (offset : ℤ) → Handler (Option ℤ)
  write fh buf size offset = in_context (fs.pwrite fh buf size offset)

  unfoldable pub truncate : FilePath → (length : ℤ) → Handler ℤ
  truncate pathname length = in_context (fs.truncate pathname length)

  unfoldable pub flush : Handler ℤ
  flush = in_context (do res ← fs.sync; pure (pos 0))

  unfoldable pub fsync : (fh : ℕ) → Handler ℤ
  fsync fh = in_context (do res ← fs.fsync fh; pure (pos 0))

  unfoldable pub release : (fh : ℕ) → Handler ℤ
  release fh = in_context (fs.close (pos fh))

  unfoldable pub mknod : FilePath → (mode major minor : ℕ) → Handler ℤ
  mknod pathname mode major minor = in_context (fs.mknod pathname mode major minor)

  unfoldable pub mkdir : FilePath → (mode : ℕ) → Handler ℤ
  mkdir pathname mode = in_context (fs.mkdir pathname mode)

  unfoldable pub rmdir : FilePath → Handler (Option ℤ)
  rmdir pathname = in_context (fs.rmdir pathname)

  unfoldable pub link : (oldpath newpath : FilePath) → Handler ℤ
  link oldpath newpath = in_context (fs.link oldpath newpath)

  unfoldable pub unlink : FilePath → Handler ℤ
  unlink pathname = in_context (fs.unlink pathname)

  unfoldable pub rename : (oldpath newpath : FilePath) → Handler (Option ℤ)
  rename oldpath newpath = in_context (fs.rename oldpath newpath)

  unfoldable pub chmod : FilePath → (mode : ℕ) → Handler ℤ
  chmod pathname mode = in_context (fs.chmod pathname mode)

  unfoldable pub chown : FilePath → (uid gid : ℕ) → Handler (Option ℤ)
  chown pathname uid gid = in_context (fs.chown pathname uid gid)

  unfoldable pub utimens : FilePath → Option (TimeSpec × TimeSpec) → Handler ℤ
  utimens pathname tv = in_context (fs.utimens pathname tv)

  -- The calls on symbolic links of 2.9BSD and 2.11BSD. On success the buffer holds the name up to its
  -- end, for which one byte is kept; where the buffer has no byte the end is written behind it.
  module _ (fs_readlink : FilePath → (bufsiz : ℕ) → M C (ℤ × List ℕ))
      (fs_symlink : (target linkpath : FilePath) → M C ℤ) where
    unfoldable pub readlink : FilePath → (bufsiz : ℕ) → Handler (ℤ × List ℕ)
    readlink pathname bufsiz = in_context (do
      (res, bytes) ← fs_readlink pathname bufsiz
      let room = (bufsiz + 2 ^ 64 - 1) % 2 ^ 64
      pure (
          if is_neg res
          then (res, [])
          else (pos 0, take (if ltb room (pos_part res) then room else pos_part res) bytes)))

    unfoldable pub symlink : (target linkpath : FilePath) → Handler ℤ
    symlink target linkpath = in_context (fs_symlink target linkpath)

-- `retrofuse_destroy`: the filesystem is ended, and then the disk is closed.
module _ {C S F : Type 0} (fs : Calls C S F) (H : Host) where
  unfoldable pub destroy : (initialized : Bool) → Dsk → H.State → Sys C → (Dsk × H.State) × Sys C
  destroy initialized d h s = let (res, t) = fs.shutdown initialized s in (close H d h, t)
