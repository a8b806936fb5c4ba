-- ===== src/Bsd211fs/Calls.antt =====
-- The calls of src/bsd211fs.c that hand their arguments to one routine of the kernel, and the transfers,
-- which are loops over pieces of at most 65535 bytes and run on fuel, one round more than there are
-- bytes; `none` means that it ran out.
use retro_fuse.Prelude.{
  ℕ, zero, suc, ◌+◌, ◌%◌, Bool, true, false, not, ◌||◌, Option, none, some, List, [], ◌++◌, ltb,
  ◌==◌, if◌then◌else◌, length, take, drop,
}
use retro_fuse.Prelude.Int.{ℤ, pos, negsuc, neg, pos_part, ltb_ℤ, is_neg}
use retro_fuse.Prelude.Words.{low, extend}
use retro_fuse.Errno.{ebadf, einval, espipe}
use retro_fuse.IdMap.{IdMap}
use retro_fuse.V6fs.Kernel.{Sys, FilePath, M, ◌>>=◌, ◌>>◌, pure, get_error, last_error}
use retro_fuse.V6fs.Transfer.{Whence, seek_set, piece, sub64}
use retro_fuse.V7fs.Attributes.{v7fs_setreuid, v7fs_setregid, map_v7_id, file_type}
use retro_fuse.V7fs.Seek.{V7File, seek_outcome}
use retro_fuse.Bsd211fs.Kernel.{FsStat, OpenFile, Kernel, begin, call}

-- The fields of the host's structure that are set.
pub record HostStat : Type 0 where
  pub st_dev : ℕ
  pub st_ino : ℕ
  pub st_mode : ℕ
  pub st_nlink : ℕ
  pub st_uid : ℕ
  pub st_gid : ℕ
  pub st_rdev : ℕ
  pub st_size : ℕ
  pub st_blksize : ℕ
  pub st_blocks : ℕ
  pub st_atime : ℕ
  pub st_mtime : ℕ
  pub st_ctime : ℕ

unfoldable pub host_type : ℕ → ℕ
host_type t =
    if t == 4
    then 0x4000
    else if t == 2
    then 0x2000
    else if t == 6
    then 0x6000
    else if t == 10
    then 0xA000
    else 0x8000

-- Signed words are widened; the size is not negative.
unfoldable pub converted : FsStat → (uid gid : ℕ) → HostStat
unfolding host_type
converted v uid gid = record {
  st_dev = extend 16 64 v.dev;
  st_ino = v.ino;
  st_mode = host_type (file_type v.mode) + v.mode % 4096;
  st_nlink = extend 16 64 v.nlink;
  st_uid = uid;
  st_gid = gid;
  st_rdev = if file_type v.mode == 2 || file_type v.mode == 6 then extend 16 64 v.rdev else 0;
  st_size = v.size;
  st_blksize = v.blksize;
  st_blocks = v.blocks;
  st_atime = extend 32 64 v.atime;
  st_mtime = extend 32 64 v.mtime;
  st_ctime = extend 32 64 v.ctime;
}

-- `none` is the invalid access of a lookup.
unfoldable pub bsd211fs_convertstat : (uidmap gidmap : IdMap) → FsStat → Option HostStat
unfolding converted map_v7_id
bsd211fs_convertstat uidmap gidmap v = elim (map_v7_id uidmap v.uid) [
  | none ↦ none
  | some uid ↦ elim (map_v7_id gidmap v.gid) [ none ↦ none | some gid ↦ some (converted v uid gid) ]
]

abbrev pub seek_view : OpenFile → V7File
seek_view f = record {
  is_pipe = not f.is_inode;
  is_multiplexed = false;
  size = f.size;
  offset = f.offset;
}

-- The effective group id is `u_groups[0]`.
unfoldable pub bsd211fs_setreuid :
    {C : Type 0} → IdMap → (ruid euid : ℕ) → Sys C → Option (ℤ × Sys C)
bsd211fs_setreuid m ruid euid s = v7fs_setreuid m ruid euid s

unfoldable pub bsd211fs_setregid :
    {C : Type 0} → IdMap → (rgid egid : ℕ) → Sys C → Option (ℤ × Sys C)
bsd211fs_setregid m rgid egid s = v7fs_setregid m rgid egid s

-- A descriptor that fits a signed word.
unfoldable pub with_descriptor : {C : Type 0} → (errno : ℕ) → ℤ → (ℕ → M C ℤ) → M C ℤ
with_descriptor errno (negsuc n) run = pure (neg errno)
with_descriptor errno (pos fd) run = if ltb 32767 fd then pure (neg errno) else run fd

module _ (K : Kernel) where
  -- O_CREAT, O_EXCL and O_TRUNC are not passed on.
  unfoldable pub bsd211fs_open : FilePath → (accmode mode : ℕ) → M K.Core ℤ
  bsd211fs_open name accmode mode = do
    begin K
    fd ← K.open_file name accmode (mode % 4096)
    e ← get_error
    if not (e == 0) then last_error else pure (pos fd)

  unfoldable pub bsd211fs_close : ℤ → M K.Core ℤ
  unfolding with_descriptor
  bsd211fs_close fd = with_descriptor ebadf fd (λ n. call K (K.close n))

  unfoldable pub set_place : ℕ → ℤ × Bool → M K.Core ℤ
  set_place fd (res, false) = pure res
  set_place fd (res, true) = do K.set_offset fd res; pure res

  unfoldable pub seek_opened : ℕ → (offset : ℤ) → Whence → Option OpenFile → M K.Core ℤ
  unfolding set_place
  seek_opened fd offset whence none = last_error
  seek_opened fd offset whence (some f) =
      if not f.is_inode
      then pure (neg espipe)
      else set_place fd (seek_outcome (seek_view f) offset whence)

  unfoldable pub bsd211fs_seek : (fd offset : ℤ) → Whence → M K.Core ℤ
  unfolding with_descriptor seek_opened
  bsd211fs_seek fd offset whence =
      with_descriptor ebadf fd (λ n. (do f ← K.getf n; seek_opened n offset whence f))

  unfoldable pub bsd211fs_link : (oldpath newpath : FilePath) → M K.Core ℤ
  bsd211fs_link oldpath newpath = call K (K.link oldpath newpath)

  unfoldable pub bsd211fs_unlink : FilePath → M K.Core ℤ
  bsd211fs_unlink pathname = call K (K.unlink pathname)

  unfoldable pub bsd211fs_rename : (oldpath newpath : FilePath) → M K.Core ℤ
  bsd211fs_rename oldpath newpath = call K (K.rename oldpath newpath)

  unfoldable pub bsd211fs_chmod : FilePath → (mode : ℕ) → M K.Core ℤ
  bsd211fs_chmod pathname mode = call K (K.chmod pathname (mode % 4096))

  unfoldable pub bsd211fs_access : FilePath → (mode : ℕ) → M K.Core ℤ
  bsd211fs_access pathname mode = call K (K.saccess pathname (low 16 mode))

  unfoldable pub bsd211fs_symlink : (target linkpath : FilePath) → M K.Core ℤ
  bsd211fs_symlink target linkpath = call K (K.symlink target linkpath)

  unfoldable pub bsd211fs_mkdir : FilePath → (mode : ℕ) → M K.Core ℤ
  bsd211fs_mkdir pathname mode = call K (K.mkdir pathname (low 16 mode))

  unfoldable pub bsd211fs_rmdir : FilePath → M K.Core ℤ
  bsd211fs_rmdir pathname = call K (K.rmdir pathname)

  abbrev bad_length : ℤ → Bool
  bad_length n = is_neg n || ltb_ℤ (pos 2147483647) n

  unfoldable pub bsd211fs_truncate : FilePath → (length : ℤ) → M K.Core ℤ
  bsd211fs_truncate pathname length =
      if bad_length length
      then pure (neg einval)
      else call K (K.truncate pathname (pos_part length))

  unfoldable pub bsd211fs_ftruncate : (fd length : ℤ) → M K.Core ℤ
  unfolding with_descriptor
  bsd211fs_ftruncate fd length = with_descriptor einval fd (λ n.
      if bad_length length then pure (neg einval) else call K (K.ftruncate n (pos_part length)))

  unfoldable pub bsd211fs_fsync : ℤ → M K.Core ℤ
  unfolding with_descriptor
  bsd211fs_fsync fd = with_descriptor einval fd (λ n. call K (K.fsync n))

  -- The bytes of the link that the kernel has put in the buffer, and their number or an error. The
  -- count is a 16-bit word.
  unfoldable pub bsd211fs_readlink : FilePath → (bufsiz : ℕ) → M K.Core (ℤ × List ℕ)
  bsd211fs_readlink pathname bufsiz = do
    begin K
    bytes ← K.readlink pathname (low 16 bufsiz)
    e ← get_error
    if e == 0 then pure (pos (length bytes), bytes) else (do res ← last_error; pure (res, bytes))

  -- `none` is the invalid access of a lookup in an id map.
  unfoldable pub bsd211fs_stat : (uidmap gidmap : IdMap) → FilePath → M K.Core (ℤ × Option HostStat)
  bsd211fs_stat uidmap gidmap pathname = do
    begin K
    v ← K.stat1 pathname
    e ← get_error
    if not (e == 0)
        then (do res ← last_error; pure (res, none))
        else pure (pos 0, bsd211fs_convertstat uidmap gidmap v)

  abbrev pub Got : Type 0
  Got = Option (ℤ × List ℕ)

  unfoldable pub read_more : (rest : M K.Core Got) → (sofar bytes : List ℕ) → M K.Core Got
  read_more rest sofar bytes = do
    e ← get_error
    if not (e == 0)
        then (do res ← last_error; pure (some (res, sofar)))
        else if length bytes == 0
        then pure (some (pos (length sofar), sofar))
        else rest

  unfoldable pub read_loop : (fuel fd count : ℕ) → (sofar : List ℕ) → M K.Core Got
  unfolding read_more
  read_loop zero fd count sofar = pure none
  read_loop (suc k) fd count sofar =
      if count == 0 then pure (some (pos (length sofar), sofar)) else (do
        begin K
        bytes ← K.read fd (piece count)
        read_more (read_loop k fd (sub64 count (length bytes)) (sofar ++ bytes)) sofar bytes)

  unfoldable pub bsd211fs_read : (fd count : ℕ) → M K.Core Got
  unfolding read_loop
  bsd211fs_read fd count = read_loop (count + 1) fd count []

  unfoldable pub bsd211fs_pread : (fd count : ℕ) → (offset : ℤ) → M K.Core Got
  unfolding bsd211fs_read bsd211fs_seek
  bsd211fs_pread fd count offset = do
    res ← bsd211fs_seek (pos fd) offset seek_set
    if is_neg res then pure (some (res, [])) else bsd211fs_read fd count

  unfoldable pub write_more :
      (rest : M K.Core (Option ℤ)) → (total size n : ℕ) → M K.Core (Option ℤ)
  write_more rest total size n = do
    e ← get_error
    if not (e == 0)
        then (do res ← last_error; pure (some res))
        else if n == size
        then rest
        else pure (some (pos (total + n)))

  unfoldable pub write_loop :
      (fuel fd : ℕ) → (buf : List ℕ) → (count total : ℕ) → M K.Core (Option ℤ)
  unfolding write_more
  write_loop zero fd buf count total = pure none
  write_loop (suc k) fd buf count total = if count == 0 then pure (some (pos total)) else (do
    begin K
    n ← K.write fd (take (piece count) buf)
    write_more (write_loop k fd (drop n buf) (sub64 count n) (total + n)) total (piece count) n)

  unfoldable pub bsd211fs_write : (fd : ℕ) → (buf : List ℕ) → (count : ℕ) → M K.Core (Option ℤ)
  unfolding write_loop
  bsd211fs_write fd buf count = write_loop (count + 1) fd buf count 0

  unfoldable pub bsd211fs_pwrite :
      (fd : ℕ) → (buf : List ℕ) → (count : ℕ) → (offset : ℤ) → M K.Core (Option ℤ)
  unfolding bsd211fs_write bsd211fs_seek
  bsd211fs_pwrite fd buf count offset = do
    res ← bsd211fs_seek (pos fd) offset seek_set
    if is_neg res then pure (some res) else bsd211fs_write fd buf count
