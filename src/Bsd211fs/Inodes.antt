-- ===== src/Bsd211fs/Inodes.antt =====
-- The calls of src/bsd211fs.c that work on an inode themselves: `bsd211fs_chown`, `bsd211fs_utimens` and
-- `bsd211fs_mknod`.
pub mod Owner
pub mod Times
pub mod Tests
use retro_fuse.Prelude.{
  ℕ, ◌+◌, ◌*◌, ◌/◌, ◌%◌, Bool, true, false, not, ◌&&◌, ◌||◌, Option, none, some, ◌==◌,
  if◌then◌else◌,
}
use retro_fuse.Prelude.Int.{ℤ, pos, neg}
use retro_fuse.Errno.{eperm, eexist}
use retro_fuse.IdMap.{IdMap}
use retro_fuse.V6fs.Kernel.{
  FilePath, M, ◌>>=◌, ◌>>◌, pure, clear_error, get_error, last_error, get_uid, found,
}
use retro_fuse.V6fs.Attributes.{is_given, TimeSpec, now, is_now, is_omit}
use retro_fuse.V7fs.Attributes.{
  map_host_id, file_type, time_of, NodeKind, plain, special, unsupported, node_dev,
}
use retro_fuse.Bsd211fs.Kernel.{
  Inode, Lookup, find, create, Kernel, read_inode, write_inode, read_clock,
}

-- What the owner and the group are set to, where they are given.
unfoldable pub owned : (owner group fsuid fsgid : ℕ) → Inode → Inode
owned owner group fsuid fsgid i = record i {
  uid = if is_given owner then fsuid else i.uid;
  gid = if is_given group then fsgid else i.gid;
}

-- `times`, or both times now for a null pointer.
abbrev pub times_or_now : Option (TimeSpec × TimeSpec) → TimeSpec × TimeSpec
times_or_now none = (now, now)
times_or_now (some times) = times

-- The flags that are set for the new times.
unfoldable pub timed : (no_atime : Bool) → (atime mtime : TimeSpec) → Inode → Inode
timed no_atime atime mtime i = record i {
  accessed = i.accessed || not (is_omit atime) && not no_atime;
  updated = i.updated || not (is_omit mtime);
  changed = i.changed || not (is_omit mtime);
}

-- The node for a mode of the host.
unfoldable pub node_kind : (mode : ℕ) → NodeKind
node_kind mode =
    let t = file_type mode in
    if t == 8 || t == 0
    then plain
    else if t == 6
    then special 0x6000
    else if t == 2
    then special 0x2000
    else unsupported

-- The device number of a node that the kernel made a device.
unfoldable pub with_rdev : (rdev : ℕ) → Inode → Inode
with_rdev rdev i =
    if file_type i.mode == 2 || file_type i.mode == 6
    then record i { rdev = rdev; accessed = true; updated = true; changed = true }
    else i

module _ (K : Kernel) where
  -- The tests of an owner or a group that changes: whether the call is refused.
  unfoldable pub owner_refused : (owner fsuid : ℕ) → Inode → M K.Core Bool
  owner_refused owner fsuid i =
      if is_given owner && not (i.uid == fsuid)
      then (do allowed ← K.suser; pure (not allowed))
      else pure false

  unfoldable pub group_refused : (group fsgid : ℕ) → Inode → M K.Core Bool
  group_refused group fsgid i =
      if is_given group && not (i.gid == fsgid)
      then (do
        uid ← get_uid
        member ← if uid == i.uid then K.groupmember fsgid else pure false
        if member then pure false else (do allowed ← K.suser; pure (not allowed)))
      else pure false

  unfoldable pub change_owner : ℕ → (owner group fsuid fsgid : ℕ) → M K.Core (Unit {0})
  unfolding owner_refused group_refused owned
  change_owner ip owner group fsuid fsgid =
      if is_given owner || is_given group
      then (do
        i ← read_inode K ip
        refused ← owner_refused owner fsuid i
        if refused then pure tt else (do
          refused ← group_refused group fsgid i
          if refused
              then pure tt
              else (do j ← read_inode K ip; write_inode K ip (owned owner group fsuid fsgid j))))
      else pure tt

  unfoldable pub chown_to : FilePath → (owner group fsuid fsgid : ℕ) → M K.Core ℤ
  unfolding change_owner
  chown_to pathname owner group fsuid fsgid = do
    K.refreshclock
    clear_error
    o ← K.namei find false pathname
    found o last_error (λ ip. (do change_owner ip owner group fsuid fsgid; K.iput ip; last_error))

  -- `none` is the invalid access of a lookup in an id map.
  unfoldable pub bsd211fs_chown :
      (uidmap gidmap : IdMap) → FilePath → (owner group : ℕ) → M K.Core (Option ℤ)
  unfolding chown_to
  bsd211fs_chown uidmap gidmap pathname owner group = elim (map_host_id uidmap owner) [
    | none ↦ pure none
    | some fsuid ↦ elim (map_host_id gidmap group) [
      | none ↦ pure none
      | some fsgid ↦ chown_to pathname owner group fsuid fsgid >>= λ res. pure (some res)
    ]
  ]

  unfoldable pub write_times : ℕ → (atime mtime : TimeSpec) → M K.Core ℤ
  unfolding timed
  write_times ip atime mtime = do
    K.refreshclock
    clock ← read_clock K
    i ← read_inode K ip
    (λ s. write_inode K ip (timed (K.no_atime s.core) atime mtime i) s)
    K.iupdat ip (time_of atime clock) (time_of mtime clock)
    last_error

  -- The permission, and what `access` returned where it was asked: 0 stands for a permission.
  unfoldable pub times_refused : ℕ → (both_now : Bool) → M K.Core ℕ
  times_refused ip both_now = do
    uid ← get_uid
    i ← read_inode K ip
    if uid == 0 || uid == i.uid || both_now then pure 0 else K.access ip

  unfoldable pub set_times : ℕ → (atime mtime : TimeSpec) → M K.Core ℤ
  unfolding write_times times_refused
  set_times ip atime mtime = if is_omit atime && is_omit mtime then pure (pos 0) else (do
    res ← times_refused ip (is_now atime && is_now mtime)
    if res == 0 then write_times ip atime mtime else pure (pos res))

  unfoldable pub bsd211fs_utimens : FilePath → Option (TimeSpec × TimeSpec) → M K.Core ℤ
  unfolding set_times
  bsd211fs_utimens pathname times = do
    K.refreshclock
    clear_error
    o ← K.namei find true pathname
    found o last_error (λ ip. (do
      res ← set_times ip (times_or_now times).0 (times_or_now times).1
      K.iput ip
      pure res))

  unfoldable pub make_node : FilePath → (fsmode rdev : ℕ) → M K.Core ℤ
  unfolding with_rdev
  make_node pathname fsmode rdev = do
    K.refreshclock
    clear_error
    o ← K.namei create false pathname
    found o
        (do
          e ← get_error
          if not (e == 0) then last_error else (do
            made ← K.maknode fsmode
            found made last_error (λ ip. (do
              i ← read_inode K ip
              write_inode K ip (with_rdev rdev i)
              K.iput ip
              pure (pos 0)))))
        (λ ip. (do K.iput ip; pure (neg eexist)))

  unfoldable pub mknod_kind : FilePath → NodeKind → (mode major minor : ℕ) → M K.Core ℤ
  unfolding make_node
  mknod_kind pathname plain mode major minor =
      make_node pathname (0x8000 + mode % 4096) (node_dev major minor)
  mknod_kind pathname (special fsmode) mode major minor =
      make_node pathname (fsmode + mode % 4096) (node_dev major minor)
  mknod_kind pathname unsupported mode major minor = pure (neg eperm)

  unfoldable pub bsd211fs_mknod : FilePath → (mode major minor : ℕ) → M K.Core ℤ
  unfolding mknod_kind node_kind
  bsd211fs_mknod pathname mode major minor = do
    allowed ← if file_type mode == 8 then pure true else K.suser
    if allowed then mknod_kind pathname (node_kind mode) mode major minor else pure (neg eperm)
