-- ===== src/V7fs/Listing.antt =====
-- `v7fs_stat`, `v7fs_enumdir` and `v7fs_rmdir` of src/v7fs.c. How the kernel fills in a `struct v7_stat` and how
-- it is converted are parameters, which the interface of 2.9BSD shares. The loop over the entries runs
-- on fuel. A result `none` means that it ran out, or the invalid access of a lookup in an id map.
use retro_fuse.Prelude.{
  ℕ, zero, suc, ◌/◌, ◌%◌, Bool, not, ◌&&◌, ◌||◌, Option, none, some, List, ◌++◌, ◌==◌,
  if◌then◌else◌,
}
use retro_fuse.Prelude.Int.{ℤ, pos, neg, pos_part, leb_ℤ, ltb_ℤ, is_neg}
use retro_fuse.Errno.{ebusy, enotdir, einval, enotempty}
use retro_fuse.V6fs.Kernel.{
  FilePath, M, ◌>>=◌, ◌>>◌, pure, Kernel, find, clear_error, get_error, last_error, get_uid,
  set_uid, found, begin,
}
use retro_fuse.V6fs.Dirs.{dot, slash, is_char, is_dotdot, is_zero}
use retro_fuse.V6fs.Listing.{read_only, DirEntry, entry_of, basename}
use retro_fuse.V7fs.Attributes.{V7Stat, HostStat, in_char}
use retro_fuse.V7fs.Calls.{v7fs_open, v7fs_close, v7fs_read, v7fs_unlink}

-- The function that the entries are shown to, over a context.
abbrev pub Visitor : Type 0 → Type 0
Visitor A = (name : List ℕ) → HostStat → A → ℤ × A

unfoldable pub v7fs_failnonemptydir : {A : Type 0} → Visitor A
v7fs_failnonemptydir name st context =
    if st.st_mode / 4096 % 16 == 4 && (is_char 46 name || is_dotdot name)
    then (pos 0, context)
    else (neg enotempty, context)

module _ (K : Kernel) (stat1 : ℕ → M K.Core V7Stat) (convert : V7Stat → Option HostStat) where
  -- The buffer is filled in on success only.
  unfoldable pub v7fs_stat : FilePath → M K.Core (ℤ × Option HostStat)
  v7fs_stat pathname = do
    begin K
    o ← K.namei pathname find
    found o (do res ← last_error; pure (res, none))
        (λ ip. (do
          v ← stat1 ip
          e ← get_error
          K.iput ip
          if e == 0 then pure (pos 0, convert v) else (do res ← last_error; pure (res, none))))

  module _ {A : Type 0} (visit : Visitor A) where
    -- One entry in use. The inode is given back behind the visit, or at the end of the loop.
    unfoldable pub show_stat : (name : List ℕ) → ℕ → Option HostStat → A → M K.Core (Option (ℤ × A))
    show_stat name ip none context = do K.iput ip; pure none
    show_stat name ip (some st) context = do K.iput ip; pure (some (visit name st context))

    unfoldable pub visit_entry : DirEntry → A → M K.Core (Option (ℤ × A))
    unfolding show_stat
    visit_entry entry context = do
      clear_error
      o ← K.iget entry.d_inode
      found o (do res ← last_error; pure (some (res, context)))
          (λ ip. (do
            clear_error
            v ← stat1 ip
            e ← get_error
            if not (e == 0)
                then (do res ← last_error; K.iput ip; pure (some (res, context)))
                else show_stat entry.d_name ip (convert v) context))

    -- Behind the visit of an entry, and behind a read of the next one.
    unfoldable pub behind_visit :
        (rest : A → M K.Core (Option (ℤ × A))) → Option (ℤ × A) → M K.Core (Option (ℤ × A))
    behind_visit rest none = pure none
    behind_visit rest (some (res, context)) =
        if is_neg res then pure (some (res, context)) else rest context

    unfoldable pub behind_read :
        (rest : A → M K.Core (Option (ℤ × A))) → A → Option (ℤ × List ℕ) → M K.Core (Option (ℤ × A))
    unfolding visit_entry behind_visit
    behind_read rest context none = pure none
    behind_read rest context (some (res, bytes)) =
        if leb_ℤ res (pos 0)
        then pure (some (res, context))
        else if ltb_ℤ res (pos 16)
        then pure (some (pos 0, context))
        else if (entry_of bytes).d_inode == 0
        then rest context
        else (do r ← visit_entry (entry_of bytes) context; behind_visit rest r)

    unfoldable pub enum_loop : (fuel fd : ℕ) → A → M K.Core (Option (ℤ × A))
    unfolding behind_read
    enum_loop zero fd context = pure none
    enum_loop (suc k) fd context = do
      r ← v7fs_read K fd 16
      behind_read (λ context. enum_loop k fd context) context r

    unfoldable pub v7fs_enumdir : (fuel : ℕ) → FilePath → A → M K.Core (Option (ℤ × A))
    unfolding enum_loop
    v7fs_enumdir fuel pathname context = do
      begin K
      fd ← v7fs_open K pathname read_only 0
      if is_neg fd
          then pure (some (fd, context))
          else (do r ← enum_loop fuel (pos_part fd) context; closed ← v7fs_close K fd; pure r)

  -- The three removals, as root.
  unfoldable pub remove_entries : FilePath → M K.Core (Option ℤ)
  remove_entries pathname = do
    set_uid 0
    res ← v7fs_unlink K (pathname ++ slash ++ dot ++ dot)
    if not (is_zero res) then pure (some res) else (do
      res ← v7fs_unlink K (pathname ++ slash ++ dot)
      if not (is_zero res)
          then pure (some res)
          else (do res ← v7fs_unlink K pathname; pure (some res)))

  unfoldable pub rmdir_listed : FilePath → Option (ℤ × Unit {0}) → M K.Core (Option ℤ)
  unfolding remove_entries
  rmdir_listed pathname none = pure none
  rmdir_listed pathname (some (res, _)) =
      if is_neg res
      then pure (some res)
      else if is_char 46 (basename pathname) || is_dotdot (basename pathname)
      then pure (some (neg einval))
      else remove_entries pathname

  unfoldable pub rmdir_found : (fuel : ℕ) → FilePath → ℤ × Option HostStat → M K.Core (Option ℤ)
  unfolding rmdir_listed v7fs_enumdir v7fs_failnonemptydir
  rmdir_found fuel pathname (res, none) = pure (if is_neg res then some res else none)
  rmdir_found fuel pathname (res, some st) =
      if not (st.st_mode / 4096 % 16 == 4)
      then pure (some (neg enotdir))
      else if st.st_ino == K.rootdir_number
      then pure (some (neg ebusy))
      else (do r ← v7fs_enumdir v7fs_failnonemptydir fuel pathname tt; rmdir_listed pathname r)

  -- The effective user id is kept in a `char`.
  unfoldable pub v7fs_rmdir : (char_is_signed : Bool) → (fuel : ℕ) → FilePath → M K.Core (Option ℤ)
  unfolding rmdir_found v7fs_stat in_char
  v7fs_rmdir char_is_signed fuel pathname = do
    euid ← get_uid
    let preveuid = in_char char_is_signed euid
    r ← v7fs_stat pathname
    res ← rmdir_found fuel pathname r
    set_uid preveuid
    pure res
