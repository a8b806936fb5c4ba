-- ===== src/V6fs/Attributes.antt =====
-- The calls of src/v6fs.c that change the owner and the times of a file.
pub mod Balance
pub mod Stored
pub mod Times
pub mod Tests
use retro_fuse.Prelude.{
  ℕ, zero, suc, ◌/◌, ◌%◌, Bool, true, false, not, ◌&&◌, ◌||◌, Option, none, some, ◌==◌,
  if◌then◌else◌,
}
use retro_fuse.Prelude.Int.{ℤ, pos, neg}
use retro_fuse.Errno.{eperm, eacces}
use retro_fuse.IdMap.{IdMap}
use retro_fuse.V6fs.Stat.{map_host_id}
use retro_fuse.V6fs.Kernel.{
  FilePath, M, ◌>>=◌, ◌>>◌, pure, find, iwrite, Kernel, clear_error, set_error, last_error, get_uid,
  get_time, set_time, found, read_inode, write_inode, begin,
}

-- An id of the host other than -1.
abbrev pub is_given : ℕ → Bool
is_given id = not (id == 4294967295)

-- One of the two times: UTIME_NOW, UTIME_OMIT, or a 64-bit number of seconds.
pub data TimeSpec : Type 0 where
  now omit : TimeSpec
  at : (seconds : ℕ) → TimeSpec

abbrev pub is_now : TimeSpec → Bool
is_now now = true
is_now omit = false
is_now (at seconds) = false

abbrev pub is_omit : TimeSpec → Bool
is_omit now = false
is_omit omit = true
is_omit (at seconds) = false

-- The words of an explicit time, or else those of `clock`.
unfoldable pub time_words : TimeSpec → (clock : ℕ × ℕ) → ℕ × ℕ
time_words now clock = clock
time_words omit clock = clock
time_words (at seconds) clock = (seconds / 65536 % 65536, seconds % 65536)

-- The clock that passes the access time on to the kernel, and the modification time.
unfoldable pub new_times : (atime mtime : TimeSpec) → (clock : ℕ × ℕ) → (ℕ × ℕ) × (ℕ × ℕ)
unfolding time_words
new_times atime mtime clock = let set = time_words atime clock in (set, time_words mtime set)

module _ (K : Kernel) where
  -- Whether the owner may be changed, and whether the group may.
  unfoldable pub may_chown : ℕ → (owner v6uid : ℕ) → M K.Core Bool
  may_chown ip owner v6uid = do
    i ← read_inode K ip
    if is_given owner && not (i.uid == v6uid) then K.suser else pure true

  unfoldable pub may_chgrp : ℕ → (group v6gid : ℕ) → M K.Core Bool
  may_chgrp ip group v6gid = do
    i ← read_inode K ip
    if is_given group && not (i.gid == v6gid)
        then (do super ← K.suser; uid ← get_uid; pure (super || uid == i.uid))
        else pure true

  unfoldable pub change_owner : ℕ → (owner group v6uid v6gid : ℕ) → M K.Core ℤ
  change_owner ip owner group v6uid v6gid =
      if not (is_given owner || is_given group) then pure (pos 0) else (do
        owner_allowed ← may_chown ip owner v6uid
        if not owner_allowed then pure (neg eperm) else (do
          group_allowed ← may_chgrp ip group v6gid
          if not group_allowed then pure (neg eperm) else (do
            i ← read_inode K ip
            write_inode K ip (record i {
              uid = if is_given owner then v6uid else i.uid;
              gid = if is_given group then v6gid else i.gid;
              accessed = true;
            })
            pure (pos 0))))

  unfoldable pub chown_to : FilePath → (owner group v6uid v6gid : ℕ) → M K.Core ℤ
  chown_to pathname owner group v6uid v6gid = do
    begin K
    o ← K.namei pathname find
    found o last_error
        (λ ip. (do res ← change_owner ip owner group v6uid v6gid; K.iput ip; pure res))

  -- `none` is the invalid access of a lookup in an id map.
  unfoldable pub v6fs_chown :
      (char_is_signed : Bool)
      → (uidmap gidmap : IdMap) → FilePath
      → (owner group : ℕ) → M K.Core (Option ℤ)
  v6fs_chown char_is_signed uidmap gidmap pathname owner group =
      elim (map_host_id char_is_signed uidmap owner) [
        | none ↦ pure none
        | some v6uid ↦ elim (map_host_id char_is_signed gidmap group) [
          | none ↦ pure none
          | some v6gid ↦ chown_to pathname owner group v6uid v6gid >>= λ res. pure (some res)
        ]
      ]

  -- Whether the caller lacks the permission to set the times.
  unfoldable pub times_refused : ℕ → (both_now : Bool) → M K.Core Bool
  times_refused ip both_now = do
    uid ← get_uid
    i ← read_inode K ip
    if not (uid == 0) && not (uid == i.uid)
        then if not both_now then pure true else K.access ip iwrite
        else pure false

  unfoldable pub write_times : ℕ → (atime mtime : TimeSpec) → M K.Core ℤ
  write_times ip atime mtime = do
    K.refreshclock
    saved ← get_time
    let times = new_times atime mtime saved
    set_time times.0
    i ← read_inode K ip
    write_inode K ip (record i {
      accessed = i.accessed || not (is_omit atime);
      updated = i.updated || not (is_omit mtime);
    })
    clear_error
    K.iupdat ip times.1
    res ← last_error
    j ← read_inode K ip
    write_inode K ip (record j { accessed = false; updated = false })
    set_time saved
    pure res

  unfoldable pub set_times : ℕ → (atime mtime : TimeSpec) → M K.Core ℤ
  set_times ip atime mtime = if is_omit atime && is_omit mtime then pure (pos 0) else (do
    set_error (if is_now atime && is_now mtime then eacces else eperm)
    refused ← times_refused ip (is_now atime && is_now mtime)
    if refused then last_error else write_times ip atime mtime)

  -- The times, or a null pointer.
  abbrev pub times_of : Option (TimeSpec × TimeSpec) → TimeSpec × TimeSpec
  times_of none = (now, now)
  times_of (some times) = times

  unfoldable pub v6fs_utimens : FilePath → Option (TimeSpec × TimeSpec) → M K.Core ℤ
  v6fs_utimens pathname times = do
    begin K
    o ← K.namei pathname find
    found o last_error
        (λ ip. (do res ← set_times ip (times_of times).0 (times_of times).1; K.iput ip; pure res))
