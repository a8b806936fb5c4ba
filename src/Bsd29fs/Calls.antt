-- ===== src/Bsd29fs/Calls.antt =====
-- The calls of src/bsd29fs.c on files and directories. Most are the code of src/v7fs.c, but for the places
-- in which the kernel is handed its arguments. `V6fs.Kernel` has the kernel's functions under the names
-- that are used here; how it fills in a `struct bsd29_stat`, finds an open file, sets the flag ICHG and
-- follows symbolic links are further parameters.
pub mod Owner
pub mod Tests
use retro_fuse.Prelude.{
  ℕ, ◌+◌, ◌/◌, ◌%◌, ◌^◌, Bool, true, false, not, ◌||◌, Option, none, some, List, [], ltb, ◌==◌,
  if◌then◌else◌, length,
}
use retro_fuse.Prelude.Int.{ℤ, pos, negsuc, neg, pos_part, is_neg}
use retro_fuse.Prelude.Words.{extend}
use retro_fuse.Errno.{ebadf, espipe}
use retro_fuse.IdMap.{IdMap}
use retro_fuse.V6fs.Kernel.{
  FilePath, Sys, M, ◌>>=◌, ◌>>◌, pure, Kernel, clear_error, get_error, last_error, read_inode,
  write_inode, begin,
}
use retro_fuse.V6fs.Files.{OpenFlags}
use retro_fuse.V6fs.Attributes.{TimeSpec, chown_to}
use retro_fuse.V6fs.Transfer.{Whence, seek_set, seek_cur}
use retro_fuse.V7fs.Attributes.{
  V7Stat, HostStat, map_host_id, map_v7_id, v7fs_setreuid, v7fs_setregid, file_type, is_chr, is_blk,
  v7fs_mknod, v7fs_utimens,
}
use retro_fuse.V7fs.Calls.{
  v7fs_isdirlinkpath, v7fs_link, v7fs_unlink, v7fs_chmod, v7fs_truncate, v7fs_access, v7fs_open,
  v7fs_close, v7fs_read, v7fs_write, v7fs_isindir, v7fs_mkdir,
}
use retro_fuse.V7fs.Seek.{V7File, seek_outcome, set_place}
use retro_fuse.V7fs.Listing.{Visitor, v7fs_stat, v7fs_failnonemptydir, v7fs_enumdir, v7fs_rmdir}
use retro_fuse.V7fs.Rename.{v7fs_reparentdir, v7fs_rename}

unfoldable pub bsd29fs_isdirlinkpath : FilePath → Bool
bsd29fs_isdirlinkpath pathname = v7fs_isdirlinkpath pathname

-- `bsd29fs_maphostuid` and `bsd29fs_maphostgid`, and the maps back.
unfoldable pub map_host : IdMap → (hostid : ℕ) → Option ℕ
map_host m hostid = map_host_id m hostid

unfoldable pub map_fs : IdMap → (fsid : ℕ) → Option ℕ
map_fs m fsid = map_v7_id m fsid

unfoldable pub bsd29fs_setreuid :
    {C : Type 0} → IdMap → (ruid euid : ℕ) → Sys C → Option (ℤ × Sys C)
bsd29fs_setreuid m ruid euid s = v7fs_setreuid m ruid euid s

unfoldable pub bsd29fs_setregid :
    {C : Type 0} → IdMap → (rgid egid : ℕ) → Sys C → Option (ℤ × Sys C)
bsd29fs_setregid m rgid egid s = v7fs_setregid m rgid egid s

-- The type bits of the host for those of 2.9BSD, where 10 is a symbolic link.
unfoldable pub host_type : ℕ → ℕ
host_type t =
    if t == 4
    then 0x4000
    else if is_chr t
    then 0x2000
    else if is_blk t
    then 0x6000
    else if t == 10
    then 0xA000
    else 0x8000

-- `st_blocks` counts blocks of 1024 bytes.
unfoldable pub converted : V7Stat → (uid gid : ℕ) → HostStat
unfolding host_type
converted v uid gid = record {
  st_dev = extend 16 64 v.dev;
  st_ino = v.ino;
  st_mode = host_type (file_type v.mode) + v.mode % 4096;
  st_nlink = extend 16 64 v.nlink;
  st_uid = uid;
  st_gid = gid;
  st_rdev =
      if is_chr (file_type v.mode) || is_blk (file_type v.mode) then extend 16 64 v.rdev else 0;
  st_size = v.size;
  st_blocks = (v.size + 1023) / 1024;
  st_atime = extend 32 64 v.atime;
  st_mtime = extend 32 64 v.mtime;
  st_ctime = extend 32 64 v.ctime;
}

unfoldable pub bsd29fs_convertstat : (uidmap gidmap : IdMap) → V7Stat → Option HostStat
unfolding converted map_fs
bsd29fs_convertstat uidmap gidmap v = elim (map_fs uidmap v.uid) [
  | none ↦ none
  | some uid ↦ elim (map_fs gidmap v.gid) [ none ↦ none | some gid ↦ some (converted v uid gid) ]
]

unfoldable pub bsd29fs_failnonemptydir : {A : Type 0} → Visitor A
unfolding v7fs_failnonemptydir
bsd29fs_failnonemptydir name st context = v7fs_failnonemptydir name st context

module _ (K : Kernel) where
  unfoldable pub bsd29fs_link : (oldpath newpath : FilePath) → M K.Core ℤ
  bsd29fs_link oldpath newpath = v7fs_link K oldpath newpath

  unfoldable pub bsd29fs_unlink : FilePath → M K.Core ℤ
  bsd29fs_unlink pathname = v7fs_unlink K pathname

  unfoldable pub bsd29fs_chmod : FilePath → (mode : ℕ) → M K.Core ℤ
  bsd29fs_chmod pathname mode = v7fs_chmod K pathname mode

  unfoldable pub bsd29fs_truncate : FilePath → (length : ℤ) → M K.Core ℤ
  bsd29fs_truncate pathname length = v7fs_truncate K pathname length

  unfoldable pub bsd29fs_access : FilePath → (r w x : Bool) → M K.Core ℤ
  bsd29fs_access pathname r w x = v7fs_access K pathname r w x

  unfoldable pub bsd29fs_open : FilePath → OpenFlags → (mode : ℕ) → M K.Core ℤ
  bsd29fs_open name f mode = v7fs_open K name f mode

  unfoldable pub bsd29fs_close : ℤ → M K.Core ℤ
  bsd29fs_close fd = v7fs_close K fd

  unfoldable pub bsd29fs_read : (fd count : ℕ) → M K.Core (Option (ℤ × List ℕ))
  bsd29fs_read fd count = v7fs_read K fd count

  unfoldable pub bsd29fs_write : (fd : ℕ) → (buf : List ℕ) → (count : ℕ) → M K.Core (Option ℤ)
  bsd29fs_write fd buf count = v7fs_write K fd buf count

  unfoldable pub bsd29fs_mknod : FilePath → (mode major minor : ℕ) → M K.Core ℤ
  bsd29fs_mknod pathname mode major minor = v7fs_mknod K pathname mode major minor

  unfoldable pub bsd29fs_isindir : FilePath → (dirnum : ℕ) → M K.Core (Option ℤ)
  bsd29fs_isindir pathname dirnum = v7fs_isindir K pathname dirnum

  -- The effective user id is kept in a `char`, here and below.
  unfoldable pub bsd29fs_mkdir : (char_is_signed : Bool) → FilePath → (mode : ℕ) → M K.Core ℤ
  bsd29fs_mkdir char_is_signed pathname mode = v7fs_mkdir K char_is_signed pathname mode

  -- The ids are kept in 16 bits. The rest is as in `v6fs_chown`.
  unfoldable pub bsd29fs_chown :
      (uidmap gidmap : IdMap) → FilePath → (owner group : ℕ) → M K.Core (Option ℤ)
  unfolding map_host
  bsd29fs_chown uidmap gidmap pathname owner group = elim (map_host uidmap owner) [
    | none ↦ pure none
    | some fsuid ↦ elim (map_host gidmap group) [
      | none ↦ pure none
      | some fsgid ↦ (do res ← chown_to K pathname owner group fsuid fsgid; pure (some res))
    ]
  ]

  module _ (clock : K.Core → ℕ) (iupdat : ℕ → (atime mtime : ℕ) → M K.Core (Unit {0})) where
    unfoldable pub bsd29fs_utimens : FilePath → Option (TimeSpec × TimeSpec) → M K.Core ℤ
    bsd29fs_utimens pathname times = v7fs_utimens K clock iupdat pathname times

  -- The kernel's routines `readlink`, which answers the bytes that it put in the buffer, and `symlink`.
  module _ (readlink : FilePath → (count : ℕ) → M K.Core (List ℕ))
      (symlink : (target linkname : FilePath) → M K.Core (Unit {0})) where
    -- A size of the buffer from 32768 on is handed on as a negative one, of 16 bits.
    unfoldable pub bsd29fs_readlink : FilePath → (bufsiz : ℕ) → M K.Core (ℤ × List ℕ)
    bsd29fs_readlink pathname bufsiz = do
      begin K
      bytes ← readlink pathname (bufsiz % 2 ^ 16)
      e ← get_error
      if e == 0 then pure (pos (length bytes), bytes) else (do res ← last_error; pure (res, bytes))

    unfoldable pub bsd29fs_symlink : (target linkpath : FilePath) → M K.Core ℤ
    bsd29fs_symlink target linkpath = do begin K; symlink target linkpath; last_error

  module _ (getf : (fd : ℕ) → M K.Core (Option V7File))
      (set_offset : (fd : ℕ) → ℤ → M K.Core (Unit {0})) where
    -- Only a pipe is refused.
    unfoldable pub seek_opened : ℕ → (offset : ℤ) → Whence → Option V7File → M K.Core ℤ
    seek_opened fd offset whence none = last_error
    seek_opened fd offset whence (some f) =
        if f.is_pipe
        then pure (neg espipe)
        else set_place K getf set_offset fd (seek_outcome f offset whence)

    unfoldable pub bsd29fs_seek : (fd : ℤ) → (offset : ℤ) → Whence → M K.Core ℤ
    unfolding seek_opened
    bsd29fs_seek (negsuc n) offset whence = do begin K; pure (neg ebadf)
    bsd29fs_seek (pos fd) offset whence = do
      begin K
      if ltb 32767 fd then pure (neg ebadf) else (do f ← getf fd; seek_opened fd offset whence f)

    unfoldable pub bsd29fs_pread : (fd count : ℕ) → (offset : ℤ) → M K.Core (Option (ℤ × List ℕ))
    unfolding bsd29fs_seek
    bsd29fs_pread fd count offset = do
      res ← bsd29fs_seek (pos fd) offset seek_set
      if is_neg res then pure (some (res, [])) else bsd29fs_read fd count

    unfoldable pub bsd29fs_pwrite :
        (fd : ℕ) → (buf : List ℕ) → (count : ℕ) → (offset : ℤ) → M K.Core (Option ℤ)
    unfolding bsd29fs_seek
    bsd29fs_pwrite fd buf count offset = do
      res ← bsd29fs_seek (pos fd) offset seek_set
      if is_neg res then pure (some res) else bsd29fs_write fd buf count

    module _ (set_changed : ℕ → M K.Core (Unit {0})) (iupdat_now : ℕ → M K.Core (Unit {0})) where
      -- Another number of links, written to disk with the current time; the flag is ICHG.
      unfoldable pub relink : ℕ → (ℕ → ℕ) → M K.Core ℤ
      relink ip change = do
        i ← read_inode K ip
        write_inode K ip (record i { nlink = change i.nlink })
        set_changed ip
        iupdat_now ip
        last_error

      unfoldable pub bsd29fs_reparentdir : (fuel : ℕ) → FilePath → M K.Core (Option ℤ)
      unfolding relink bsd29fs_seek
      bsd29fs_reparentdir fuel pathname =
          v7fs_reparentdir K (λ fd. bsd29fs_seek (pos fd) (neg 16) seek_cur) relink fuel pathname

      module _ (char_is_signed : Bool) (stat1 : ℕ → M K.Core V7Stat) (uidmap gidmap : IdMap)
          (fuel : ℕ) where
        unfoldable pub bsd29fs_rename : (oldpath newpath : FilePath) → M K.Core (Option ℤ)
        unfolding relink bsd29fs_seek
        bsd29fs_rename oldpath newpath =
            v7fs_rename K (λ fd. bsd29fs_seek (pos fd) (neg 16) seek_cur) relink char_is_signed
              stat1 (bsd29fs_convertstat uidmap gidmap) fuel oldpath newpath

  module _ (stat1 : ℕ → M K.Core V7Stat) (uidmap gidmap : IdMap) where
    unfoldable pub bsd29fs_stat : FilePath → M K.Core (ℤ × Option HostStat)
    bsd29fs_stat pathname = v7fs_stat K stat1 (bsd29fs_convertstat uidmap gidmap) pathname

    unfoldable pub bsd29fs_enumdir :
        {A : Type 0} → Visitor A → (fuel : ℕ) → FilePath → A → M K.Core (Option (ℤ × A))
    bsd29fs_enumdir visit fuel pathname context =
        v7fs_enumdir K stat1 (bsd29fs_convertstat uidmap gidmap) visit fuel pathname context

    unfoldable pub bsd29fs_rmdir :
        (char_is_signed : Bool) → (fuel : ℕ) → FilePath → M K.Core (Option ℤ)
    bsd29fs_rmdir char_is_signed fuel pathname =
        v7fs_rmdir K stat1 (bsd29fs_convertstat uidmap gidmap) char_is_signed fuel pathname
