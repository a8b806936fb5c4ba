-- ===== src/V6fs/Rename.antt =====
-- `v6fs_rename` of src/v6fs.c and `v6fs_reparentdir`, which writes the entry `..` of a directory that
-- was moved. The loops run on fuel; a result `none` means that one ran out, or the invalid access of a
-- lookup in an id map. The second test of `oldip == NULL` in the source never holds and is left out.
pub mod Balance
pub mod Privilege
pub mod Walk
pub mod Moves
pub mod Tests
use retro_fuse.Prelude.{
  ℕ, zero, suc, ◌+◌, ◌-◌, ◌*◌, ◌/◌, ◌%◌, Bool, true, false, not, ◌&&◌, ◌||◌, Option, none, some,
  List, [], ◌∷◌, ◌++◌, ltb, ◌==◌, if◌then◌else◌, length, drop,
}
use retro_fuse.Prelude.Int.{ℤ, pos, neg, pos_part, ltb_ℤ, eqb_ℤ, is_neg}
use retro_fuse.Errno.{ebusy, eio, eisdir, enotdir, einval}
use retro_fuse.IdMap.{IdMap}
use retro_fuse.V6fs.Kernel.{
  FilePath, M, ◌>>=◌, ◌>>◌, pure, Inode, find, create, Kernel, clear_error, get_error, last_error,
  get_uid, set_uid, get_time, found, read_inode, write_inode, begin,
}
use retro_fuse.V6fs.Files.{v6fs_open, v6fs_close, v6fs_link, v6fs_unlink}
use retro_fuse.V6fs.Transfer.{seek_cur, v6fs_seek, v6fs_read, v6fs_write}
use retro_fuse.V6fs.Dirs.{dirname, is_zero, v6fs_isdirlinkpath, v6fs_isindir}
use retro_fuse.V6fs.Listing.{read_only, DirEntry, entry_of, v6fs_rmdir}

-- `i_nlink`, a char, one less and one more.
abbrev pub one_less : ℕ → ℕ
one_less n = (n + 255) % 256

abbrev pub one_more : ℕ → ℕ
one_more n = (n + 1) % 256

-- Whether the bytes of an entry begin with the name `..` and its end.
unfoldable pub is_parent_entry : List ℕ → Bool
is_parent_entry (lo ∷ hi ∷ a ∷ b ∷ c ∷ name) = a == 46 && b == 46 && c == 0
is_parent_entry bytes = false

-- The bytes of an entry with another inode number.
abbrev pub with_inode : ℕ → List ℕ → List ℕ
with_inode n bytes = (n % 256) ∷ (n / 256 % 256) ∷ drop 2 bytes

-- `(i_mode & IFMT) == IFDIR`
abbrev pub is_dir : Inode → Bool
is_dir i = i.mode / 8192 % 4 == 2

module _ (K : Kernel) where
  -- The scan for the entry `..`: a result other than 0, or its bytes.
  unfoldable pub behind_entry :
      (rest : M K.Core (Option (ℤ × List ℕ))) → Option (ℤ × List ℕ) → M K.Core (Option (ℤ × List ℕ))
  behind_entry rest none = pure none
  behind_entry rest (some (res, bytes)) =
      if is_neg res
      then pure (some (res, bytes))
      else if ltb_ℤ res (pos 16)
      then pure (some (neg eio, bytes))
      else if is_parent_entry bytes
      then pure (some (pos 0, bytes))
      else rest

  pub find_parent : (fuel fd : ℕ) → M K.Core (Option (ℤ × List ℕ))
  find_parent zero fd = pure none
  find_parent (suc k) fd = do r ← v6fs_read K fd 16; behind_entry (find_parent k fd) r

  -- Another number of links, written to disk.
  unfoldable pub relink : ℕ → (ℕ → ℕ) → M K.Core ℤ
  relink ip change = do
    i ← read_inode K ip
    write_inode K ip (record i { nlink = change i.nlink; accessed = true })
    t ← get_time
    K.iupdat ip t
    last_error

  -- Behind the write of the entry.
  unfoldable pub finish_entry : (newparentip : ℕ) → Option ℤ → M K.Core (Option ℤ)
  finish_entry newparentip none = pure none
  finish_entry newparentip (some res) =
      if is_neg res
      then pure (some res)
      else if ltb_ℤ res (pos 16)
      then pure (some (neg eio))
      else (do r ← relink newparentip one_more; pure (some r))

  unfoldable pub rewrite_entry :
      (fd newparentip number : ℕ) → List ℕ → (oldparentip : ℕ) → M K.Core (Option ℤ)
  rewrite_entry fd newparentip number bytes oldparentip = do
    res ← relink oldparentip one_less
    if not (is_zero res) then pure (some res) else (do
      res ← v6fs_seek K (pos fd) (neg 16) seek_cur
      if is_neg res
          then pure (some res)
          else (do r ← v6fs_write K fd (with_inode number bytes) 16; finish_entry newparentip r))

  -- Behind the scan: the result, and the old parent where it was looked up.
  unfoldable pub reparent_entry :
      (fd newparentip : ℕ) → Option (ℤ × List ℕ) → M K.Core (Option ℤ × Option ℕ)
  reparent_entry fd newparentip none = pure (none, none)
  reparent_entry fd newparentip (some (res, bytes)) =
      if not (is_zero res) then pure (some res, none) else (do
        i ← read_inode K newparentip
        if (entry_of bytes).d_inode == i.number then pure (some (pos 0), none) else (do
          o ← K.iget (entry_of bytes).d_inode
          found o (pure (some (neg eio), none)) (λ oldparentip. (do
            r ← rewrite_entry fd newparentip i.number bytes oldparentip
            pure (r, some oldparentip)))))

  unfoldable pub give_back : Option ℕ → M K.Core (Unit {0})
  give_back none = pure tt
  give_back (some ip) = K.iput ip

  unfoldable pub reparent_open : (fuel : ℕ) → FilePath → (newparentip : ℕ) → M K.Core (Option ℤ)
  unfolding find_parent
  reparent_open fuel pathname newparentip = do
    i ← read_inode K newparentip
    write_inode K newparentip (record i { locked = false })
    fd ← v6fs_open K pathname read_only 0
    if is_neg fd
        then (do
          if eqb_ℤ fd (neg 1) then pure tt else (do closed ← v6fs_close K fd; pure tt)
          K.iput newparentip
          pure (some fd))
        else (do
          K.allow_write (pos_part fd)
          r ← find_parent fuel (pos_part fd)
          (res, oldparentip) ← reparent_entry (pos_part fd) newparentip r
          closed ← v6fs_close K fd
          K.iput newparentip
          give_back oldparentip
          pure res)

  unfoldable pub v6fs_reparentdir : (fuel : ℕ) → FilePath → M K.Core (Option ℤ)
  v6fs_reparentdir fuel pathname = do
    o ← K.namei (dirname pathname) find
    found o (do res ← last_error; pure (some res)) (reparent_open fuel pathname)

  module _ (char_is_signed : Bool) (uidmap gidmap : IdMap) (fuel : ℕ) where
    -- The new name, once it is free: a link to the file, made as root, in place of the old one.
    unfoldable pub move_link : (oldpath newpath : FilePath) → (isdir : Bool) → M K.Core (Option ℤ)
    move_link oldpath newpath isdir = do
      set_uid 0
      res ← v6fs_link K oldpath newpath
      if is_neg res then pure (some res) else (do
        res ← v6fs_unlink K oldpath
        if is_neg res
            then pure (some res)
            else if isdir
            then v6fs_reparentdir fuel newpath
            else pure (some res))

    unfoldable pub unless_negative : M K.Core (Option ℤ) → Option ℤ → M K.Core (Option ℤ)
    unless_negative rest none = pure none
    unless_negative rest (some res) = if is_neg res then pure (some res) else rest

    -- What is under the new name is removed.
    unfoldable pub replace :
        (oldpath newpath : FilePath) → (isdir rmdirnew unlinknew : Bool) → M K.Core (Option ℤ)
    replace oldpath newpath isdir rmdirnew unlinknew = do
      res ←
          if rmdirnew
          then v6fs_rmdir K char_is_signed uidmap gidmap fuel newpath
          else pure (some (pos 0))
      unless_negative
          (do
            res ←
                if unlinknew
                then (do r ← v6fs_unlink K newpath; pure (some r))
                else pure (some (pos 0))
            unless_negative (move_link oldpath newpath isdir) res)
          res

    -- The test that a directory is not moved into itself.
    unfoldable pub behind_isindir :
        (oldip : ℕ) → (rest : M K.Core (Option ℤ)) → Option ℤ → M K.Core (Option ℤ)
    behind_isindir oldip rest none = (do K.iput oldip; pure none)
    behind_isindir oldip rest (some res) =
        if is_zero res
        then rest
        else (do K.iput oldip; pure (some (if is_neg res then res else neg einval)))

    unfoldable pub move :
        (oldpath newpath : FilePath)
        → (oldip : ℕ) → (isdir rmdirnew unlinknew : Bool) → M K.Core (Option ℤ)
    move oldpath newpath oldip isdir rmdirnew unlinknew = do
      old ← read_inode K oldip
      res ← if isdir then v6fs_isindir K newpath old.number else pure (some (pos 0))
      behind_isindir oldip (do K.iput oldip; replace oldpath newpath isdir rmdirnew unlinknew) res

    unfoldable pub give_up : (oldip newip : ℕ) → ℤ → M K.Core (Option ℤ)
    give_up oldip newip res = do K.iput oldip; K.iput newip; pure (some res)

    -- The new name is there.
    unfoldable pub rename_over :
        (oldpath newpath : FilePath)
        → (oldip : ℕ) → (isdir : Bool) → (newip : ℕ) → M K.Core (Option ℤ)
    rename_over oldpath newpath oldip isdir newip = do
      old ← read_inode K oldip
      new ← read_inode K newip
      if old.number == new.number
          then give_up oldip newip (pos 0)
          else if is_dir new
          then if not (is_dir old)
            then give_up oldip newip (neg eisdir)
            else (do K.iput newip; move oldpath newpath oldip isdir true false)
          else if isdir
          then give_up oldip newip (neg enotdir)
          else (do K.iput newip; move oldpath newpath oldip isdir false true)

    unfoldable pub rename_found : (oldpath newpath : FilePath) → (oldip : ℕ) → M K.Core (Option ℤ)
    rename_found oldpath newpath oldip = do
      i ← read_inode K oldip
      write_inode K oldip (record i { locked = false })
      if i.number == 1 || v6fs_isdirlinkpath oldpath || v6fs_isdirlinkpath newpath
          then (do K.iput oldip; pure (some (neg ebusy)))
          else (do
            o ← K.namei newpath find
            found o (move oldpath newpath oldip (is_dir i) false false)
                (rename_over oldpath newpath oldip (is_dir i)))

    unfoldable pub v6fs_rename : (oldpath newpath : FilePath) → M K.Core (Option ℤ)
    v6fs_rename oldpath newpath = do
      preveuid ← get_uid
      begin K
      o ← K.namei oldpath find
      res ← found o (do r ← last_error; pure (some r)) (rename_found oldpath newpath)
      set_uid preveuid
      pure res
