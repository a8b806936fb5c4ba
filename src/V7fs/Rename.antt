-- ===== src/V7fs/Rename.antt =====
-- `v7fs_rename` of src/v7fs.c and `v7fs_reparentdir`, which writes the entry `..` of a directory that was
-- moved. How the kernel finds an open file and how a number of links is written are parameters, which
-- the interface of 2.9BSD shares. The loops run on fuel; a result `none` means that one ran out, or the
-- invalid access of a lookup in an id map. The second test of `oldip == NULL` in the source never holds
-- and is left out.
pub mod Privilege
pub mod Tests
use retro_fuse.Prelude.{
  ℕ, ◌+◌, ◌/◌, ◌%◌, Bool, true, false, not, ◌||◌, Option, none, some, List, ltb, ◌==◌,
  if◌then◌else◌,
}
use retro_fuse.Prelude.Int.{ℤ, pos, neg, pos_part, ltb_ℤ, eqb_ℤ, is_neg}
use retro_fuse.Errno.{ebusy, eio, eisdir, enotdir, einval}
use retro_fuse.V6fs.Kernel.{
  FilePath, M, ◌>>=◌, ◌>>◌, pure, Inode, find, Kernel, last_error, get_uid, set_uid, found,
  read_inode, write_inode, begin,
}
use retro_fuse.V6fs.Transfer.{seek_cur}
use retro_fuse.V6fs.Dirs.{dirname, is_zero}
use retro_fuse.V6fs.Listing.{read_only, entry_of}
use retro_fuse.V6fs.Rename.{with_inode, find_parent, give_back}
use retro_fuse.V7fs.Attributes.{V7Stat, HostStat, in_char}
use retro_fuse.V7fs.Calls.{
  v7fs_open, v7fs_close, v7fs_link, v7fs_unlink, v7fs_read, v7fs_write, v7fs_isindir,
  v7fs_isdirlinkpath,
}
use retro_fuse.V7fs.Seek.{V7File, v7fs_seek}
use retro_fuse.V7fs.Listing.{v7fs_rmdir}

-- `i_nlink`, a 16-bit word, one less and one more.
abbrev pub one_less : ℕ → ℕ
one_less n = (n + 65535) % 65536

abbrev pub one_more : ℕ → ℕ
one_more n = (n + 1) % 65536

-- `(i_mode & IFMT) == IFDIR`
abbrev pub is_dir : Inode → Bool
is_dir i = i.mode / 4096 % 16 == 4

-- ROOTINO
abbrev pub root_number : ℕ
root_number = 2

-- Another number of links, written to disk with the current time.
unfoldable pub relink :
    (K : Kernel) → (iupdat_now : ℕ → M K.Core (Unit {0})) → ℕ → (ℕ → ℕ) → M K.Core ℤ
relink K iupdat_now ip change = do
  i ← read_inode K ip
  write_inode K ip (record i { nlink = change i.nlink; accessed = true })
  iupdat_now ip
  last_error

module _ (K : Kernel) (seek_back : (fd : ℕ) → M K.Core ℤ)
    (relinked : ℕ → (ℕ → ℕ) → M K.Core ℤ) where
  -- Behind the write of the entry.
  unfoldable pub finish_entry : (newparentip : ℕ) → Option ℤ → M K.Core (Option ℤ)
  finish_entry newparentip none = pure none
  finish_entry newparentip (some res) =
      if is_neg res
      then pure (some res)
      else if ltb_ℤ res (pos 16)
      then pure (some (neg eio))
      else (do r ← relinked newparentip one_more; pure (some r))

  unfoldable pub rewrite_entry :
      (fd newparentip number : ℕ) → List ℕ → (oldparentip : ℕ) → M K.Core (Option ℤ)
  unfolding finish_entry
  rewrite_entry fd newparentip number bytes oldparentip = do
    res ← relinked oldparentip one_less
    if not (is_zero res) then pure (some res) else (do
      res ← seek_back fd
      if is_neg res
          then pure (some res)
          else (do r ← v7fs_write K fd (with_inode number bytes) 16; finish_entry newparentip r))

  -- Behind the scan: the result, and the old parent where it was looked up.
  unfoldable pub reparent_entry :
      (fd newparentip : ℕ) → Option (ℤ × List ℕ) → M K.Core (Option ℤ × Option ℕ)
  unfolding rewrite_entry
  reparent_entry fd newparentip none = pure (none, none)
  reparent_entry fd newparentip (some (res, bytes)) =
      if not (is_zero res) then pure (some res, none) else (do
        i ← read_inode K newparentip
        if (entry_of bytes).d_inode == i.number then pure (some (pos 0), none) else (do
          o ← K.iget (entry_of bytes).d_inode
          found o (pure (some (neg eio), none)) (λ oldparentip. (do
            r ← rewrite_entry fd newparentip i.number bytes oldparentip
            pure (r, some oldparentip)))))

  unfoldable pub reparent_open : (fuel : ℕ) → FilePath → (newparentip : ℕ) → M K.Core (Option ℤ)
  unfolding reparent_entry
  reparent_open fuel pathname newparentip = do
    i ← read_inode K newparentip
    write_inode K newparentip (record i { locked = false })
    fd ← v7fs_open K pathname read_only 0
    if is_neg fd
        then (do
          if eqb_ℤ fd (neg 1) then pure tt else (do closed ← v7fs_close K fd; pure tt)
          K.iput newparentip
          pure (some fd))
        else (do
          K.allow_write (pos_part fd)
          r ← find_parent K fuel (pos_part fd)
          (res, oldparentip) ← reparent_entry (pos_part fd) newparentip r
          closed ← v7fs_close K fd
          K.iput newparentip
          give_back K oldparentip
          pure res)

  unfoldable pub v7fs_reparentdir : (fuel : ℕ) → FilePath → M K.Core (Option ℤ)
  unfolding reparent_open
  v7fs_reparentdir fuel pathname = do
    o ← K.namei (dirname pathname) find
    found o (do res ← last_error; pure (some res)) (reparent_open fuel pathname)

  module _ (char_is_signed : Bool) (stat1 : ℕ → M K.Core V7Stat)
      (convert : V7Stat → Option HostStat) (fuel : ℕ) where
    -- The new name, once it is free: a link to the file, made as root, in place of the old one.
    unfoldable pub move_link : (oldpath newpath : FilePath) → (isdir : Bool) → M K.Core (Option ℤ)
    unfolding v7fs_reparentdir
    move_link oldpath newpath isdir = do
      set_uid 0
      res ← v7fs_link K oldpath newpath
      if is_neg res then pure (some res) else (do
        res ← v7fs_unlink K oldpath
        if is_neg res
            then pure (some res)
            else if isdir
            then v7fs_reparentdir fuel newpath
            else pure (some res))

    unfoldable pub unless_negative : M K.Core (Option ℤ) → Option ℤ → M K.Core (Option ℤ)
    unless_negative rest none = pure none
    unless_negative rest (some res) = if is_neg res then pure (some res) else rest

    -- What is under the new name is removed.
    unfoldable pub replace :
        (oldpath newpath : FilePath) → (isdir rmdirnew unlinknew : Bool) → M K.Core (Option ℤ)
    unfolding move_link unless_negative v7fs_rmdir
    replace oldpath newpath isdir rmdirnew unlinknew = do
      res ←
          if rmdirnew
          then v7fs_rmdir K stat1 convert char_is_signed fuel newpath
          else pure (some (pos 0))
      unless_negative
          (do
            res ←
                if unlinknew
                then (do r ← v7fs_unlink K newpath; pure (some r))
                else pure (some (pos 0))
            unless_negative (move_link oldpath newpath isdir) res)
          res

    -- The test that a directory is not moved into itself.
    unfoldable pub behind_isindir :
        (oldip : ℕ) → (rest : M K.Core (Option ℤ)) → Option ℤ → M K.Core (Option ℤ)
    behind_isindir oldip rest none = (do K.iput oldip; pure none)
    behind_isindir oldip rest (some res) =
        if is_zero res
        then rest
        else (do K.iput oldip; pure (some (if is_neg res then res else neg einval)))

    unfoldable pub move :
        (oldpath newpath : FilePath)
        → (oldip : ℕ) → (isdir rmdirnew unlinknew : Bool) → M K.Core (Option ℤ)
    unfolding behind_isindir replace
    move oldpath newpath oldip isdir rmdirnew unlinknew = do
      old ← read_inode K oldip
      res ← if isdir then v7fs_isindir K newpath old.number else pure (some (pos 0))
      behind_isindir oldip (do K.iput oldip; replace oldpath newpath isdir rmdirnew unlinknew) res

    unfoldable pub give_up : (oldip newip : ℕ) → ℤ → M K.Core (Option ℤ)
    give_up oldip newip res = do K.iput oldip; K.iput newip; pure (some res)

    -- The new name is there.
    unfoldable pub rename_over :
        (oldpath newpath : FilePath)
        → (oldip : ℕ) → (isdir : Bool) → (newip : ℕ) → M K.Core (Option ℤ)
    unfolding give_up move
    rename_over oldpath newpath oldip isdir newip = do
      old ← read_inode K oldip
      new ← read_inode K newip
      if old.number == new.number
          then give_up oldip newip (pos 0)
          else if is_dir new
          then if not (is_dir old)
            then give_up oldip newip (neg eisdir)
            else (do K.iput newip; move oldpath newpath oldip isdir true false)
          else if isdir
          then give_up oldip newip (neg enotdir)
          else (do K.iput newip; move oldpath newpath oldip isdir false true)

    unfoldable pub rename_found : (oldpath newpath : FilePath) → (oldip : ℕ) → M K.Core (Option ℤ)
    unfolding rename_over move
    rename_found oldpath newpath oldip = do
      i ← read_inode K oldip
      write_inode K oldip (record i { locked = false })
      if i.number == root_number || v7fs_isdirlinkpath oldpath || v7fs_isdirlinkpath newpath
          then (do K.iput oldip; pure (some (neg ebusy)))
          else (do
            o ← K.namei newpath find
            found o (move oldpath newpath oldip (is_dir i) false false)
                (rename_over oldpath newpath oldip (is_dir i)))

    unfoldable pub v7fs_rename : (oldpath newpath : FilePath) → M K.Core (Option ℤ)
    unfolding rename_found in_char
    v7fs_rename oldpath newpath = do
      euid ← get_uid
      let preveuid = in_char char_is_signed euid
      begin K
      o ← K.namei oldpath find
      res ← found o (do r ← last_error; pure (some r)) (rename_found oldpath newpath)
      set_uid preveuid
      pure res
