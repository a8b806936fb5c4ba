-- ===== src/V6fs/Files.antt =====
-- The calls of src/v6fs.c on a single file: open, close, link, mknod, truncate, stat, unlink, chmod
-- and access, over the kernel of V6fs.Kernel. A result is the returned `int`.
pub mod Balance
pub mod Missing
pub mod Tests
use retro_fuse.Prelude.{
  ℕ, zero, suc, ◌+◌, ◌-◌, ◌*◌, ◌/◌, ◌%◌, Bool, true, false, not, ◌&&◌, ◌||◌, Option, none, some,
  List, ltb, ◌==◌, if◌then◌else◌,
}
use retro_fuse.Prelude.Int.{ℤ, pos, negsuc, neg}
use retro_fuse.Errno.{eperm, enoent, eacces, ebadf, eexist, einval}
use retro_fuse.IdMap.{IdMap}
use retro_fuse.V6fs.Stat.{
  Stat, convertstat, NodeKind, plain, special, unsupported, node_kind, node_dev,
}
use retro_fuse.V6fs.Kernel.{
  FilePath, Sys, M, ◌>>=◌, ◌>>◌, pure, Inode, Opening, existing, truncated, created, Lookup, find,
  create, Permission, iread, iwrite, iexec, Kernel, clear_error, set_error, get_error, last_error,
  get_uid, get_time, set_time, found, read_inode, write_inode, begin,
}

-- The flags of open(2); `reads` and `writes` come from O_ACCMODE.
pub record OpenFlags : Type 0 where
  pub reads : Bool
  pub writes : Bool
  pub creates : Bool
  pub exclusive : Bool
  pub truncates : Bool

-- `mode & 07777 & ~ISVTX`
abbrev pub create_mode : ℕ → ℕ
create_mode mode = mode % 512 + mode / 1024 % 4 * 1024

module _ (K : Kernel) where
  unfoldable pub finish_open : ℕ → M K.Core ℤ
  finish_open fd = do e ← get_error; if e == 0 then pure (pos fd) else last_error

  unfoldable pub open_existing : OpenFlags → ℕ → M K.Core ℤ
  open_existing f ip = if f.creates && f.exclusive then (do K.iput ip; pure (neg eexist)) else (do
    fd ← K.open1 ip f.reads f.writes (if f.truncates then truncated else existing)
    finish_open fd)

  unfoldable pub open_missing : OpenFlags → (mode : ℕ) → M K.Core ℤ
  open_missing f mode = do
    e ← get_error
    if not (e == enoent) || not f.creates then last_error else (do
      made ← K.maknode (create_mode mode)
      found made last_error (λ ip. (do fd ← K.open1 ip f.reads f.writes created; finish_open fd)))

  unfoldable pub v6fs_open : FilePath → OpenFlags → (mode : ℕ) → M K.Core ℤ
  v6fs_open name f mode = do
    begin K
    o ← K.namei name find
    found o (open_missing f mode) (open_existing f)

  unfoldable pub v6fs_close : ℤ → M K.Core ℤ
  v6fs_close (negsuc n) = do begin K; pure (neg ebadf)
  v6fs_close (pos fd) = do
    begin K
    if ltb 32767 fd then pure (neg ebadf) else (do K.close fd; pure (pos 0))

  unfoldable pub v6fs_link : (oldpath newpath : FilePath) → M K.Core ℤ
  v6fs_link oldpath newpath = do begin K; K.link oldpath newpath; last_error

  unfoldable pub v6fs_unlink : FilePath → M K.Core ℤ
  v6fs_unlink pathname = do begin K; K.unlink pathname; last_error

  unfoldable pub v6fs_chmod : FilePath → (mode : ℕ) → M K.Core ℤ
  v6fs_chmod pathname mode = do begin K; K.chmod pathname (mode % 4096); last_error

  -- The node itself, once its mode and device are known.
  unfoldable pub make_node : FilePath → (fsmode fsdev : ℕ) → M K.Core ℤ
  make_node pathname fsmode fsdev = do
    begin K
    o ← K.namei pathname create
    found o
        (do
          e ← get_error
          if not (e == 0) then last_error else (do
            made ← K.maknode fsmode
            found made last_error (λ ip. (do
              i ← read_inode K ip
              write_inode K ip (record i { addr = fsdev })
              K.iput ip
              last_error))))
        (λ ip. (do K.iput ip; pure (neg eexist)))

  unfoldable pub mknod_kind : FilePath → NodeKind → (mode major minor : ℕ) → M K.Core ℤ
  mknod_kind pathname plain mode major minor = make_node pathname (mode % 4096) 0
  mknod_kind pathname (special fsmode) mode major minor = do
    allowed ← K.suser
    if allowed
        then make_node pathname (fsmode + mode % 4096) (node_dev major minor)
        else pure (neg eperm)
  mknod_kind pathname unsupported mode major minor = pure (neg eexist)

  unfoldable pub v6fs_mknod : FilePath → (mode major minor : ℕ) → M K.Core ℤ
  v6fs_mknod pathname mode major minor = mknod_kind pathname (node_kind mode) mode major minor

  unfoldable pub v6fs_truncate : FilePath → (length : ℤ) → M K.Core ℤ
  v6fs_truncate pathname (pos zero) = do
    begin K
    o ← K.namei pathname find
    found o last_error (λ ip. (do K.itrunc ip; res ← last_error; K.iput ip; pure res))
  v6fs_truncate pathname length = do
    begin K
    o ← K.namei pathname find
    found o last_error (λ ip. (do K.iput ip; pure (neg einval)))

  -- The buffer is filled in on success only; `none` there is also the invalid access of a lookup in
  -- an id map.
  unfoldable pub v6fs_stat :
      (char_is_signed : Bool) → (uidmap gidmap : IdMap) → FilePath → M K.Core (ℤ × Option Stat)
  v6fs_stat char_is_signed uidmap gidmap pathname = do
    begin K
    o ← K.namei pathname find
    found o (do res ← last_error; pure (res, none))
        (λ ip. (do
          v ← K.stat1 ip
          e ← get_error
          K.iput ip
          if e == 0
              then pure (pos 0, convertstat char_is_signed uidmap gidmap v)
              else (do res ← last_error; pure (res, none))))

  unfoldable pub check : ℕ → (wanted : Bool) → Permission → (res : ℤ) → M K.Core ℤ
  check ip wanted p res =
      if wanted
      then (do refused ← K.access ip p; if refused then last_error else pure res)
      else pure res

  -- The modes R_OK, W_OK and X_OK; the last check that fails gives the result.
  unfoldable pub v6fs_access : FilePath → (r w x : Bool) → M K.Core ℤ
  v6fs_access pathname r w x = do
    begin K
    o ← K.namei pathname find
    found o last_error (λ ip. (do
      res ← check ip r iread (pos 0)
      res ← check ip w iwrite res
      res ← check ip x iexec res
      K.iput ip
      pure res))
