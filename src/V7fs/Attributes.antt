-- ===== src/V7fs/Attributes.antt =====
-- Owners, modes and times of src/v7fs.c: `v7fs_convertstat`, the mapping functions of ids, `v7fs_setreuid`,
-- `v7fs_setregid`, `v7fs_chown`, `v7fs_mknod` and `v7fs_utimens`. The kernel's functions that the code
-- calls have the names and the use of those of the sixth edition (V6fs.Kernel), but `iupdat`, which
-- takes both times. Ids are 16-bit words; `char_is_signed` says how the compiler reads a plain `char`.
pub mod Ids
pub mod Modes
pub mod Tests
use retro_fuse.Prelude.{
  ℕ, ◌+◌, ◌*◌, ◌/◌, ◌%◌, Bool, true, false, not, ◌&&◌, ◌||◌, Option, none, some, ◌==◌,
  if◌then◌else◌,
}
use retro_fuse.Prelude.Int.{ℤ, pos, neg}
use retro_fuse.Prelude.Words.{low, extend}
use retro_fuse.Errno.{eperm, eacces, eexist}
use retro_fuse.IdMap.{IdMap, tohostid, tofsid}
use retro_fuse.V6fs.Kernel.{
  FilePath, Sys, M, ◌>>=◌, ◌>>◌, pure, find, Kernel, clear_error, set_error, get_error, last_error,
  get_uid, found, read_inode, write_inode, begin,
}
use retro_fuse.V6fs.Files.{make_node}
use retro_fuse.V6fs.Attributes.{
  is_given, TimeSpec, now, omit, at, is_now, is_omit, chown_to, times_refused, times_of,
}

-- `v7fs_maphostuid` and `v7fs_maphostgid`: the cast to `int16_t`.
unfoldable pub map_host_id : IdMap → (hostid : ℕ) → Option ℕ
map_host_id m hostid = elim (tofsid m hostid) [ none ↦ none | some id ↦ some (low 16 id) ]

-- `v7fs_mapv7uid` and `v7fs_mapv7gid`.
unfoldable pub map_v7_id : IdMap → (v7id : ℕ) → Option ℕ
map_v7_id m v7id = tohostid m (extend 16 32 v7id)

-- The real and the effective id of `v7fs_setreuid` and `v7fs_setregid`; `none` is an invalid access.
unfoldable pub new_id : IdMap → (hostid old : ℕ) → Option ℕ
unfolding map_host_id
new_id m hostid old = if is_given hostid then map_host_id m hostid else some old

unfoldable pub set_both :
    {C : Type 0} → (real effective : Option ℕ) → (ℕ → ℕ → Sys C) → Option (ℤ × Sys C)
set_both none effective set = none
set_both (some r) none set = none
set_both (some r) (some e) set = some (pos 0, set r e)

unfoldable pub v7fs_setreuid : {C : Type 0} → IdMap → (ruid euid : ℕ) → Sys C → Option (ℤ × Sys C)
unfolding new_id set_both
v7fs_setreuid m ruid euid s =
    set_both (new_id m ruid s.ruid) (new_id m euid s.uid) (λ r e. record s { ruid = r; uid = e })

unfoldable pub v7fs_setregid : {C : Type 0} → IdMap → (rgid egid : ℕ) → Sys C → Option (ℤ × Sys C)
unfolding new_id set_both
v7fs_setregid m rgid egid s =
    set_both (new_id m rgid s.rgid) (new_id m egid s.gid) (λ r e. record s { rgid = r; gid = e })

module _ (char_is_signed : Bool) where
  -- The variable of type `char` that `v7fs_chown` keeps an id in, as it is compared with and stored in
  -- a 16-bit word.
  unfoldable pub in_char : (id : ℕ) → ℕ
  in_char id = if char_is_signed then extend 8 16 (low 8 id) else low 8 id

  -- The id that `v7fs_chown` stores for a host id.
  unfoldable pub chown_id : IdMap → (hostid : ℕ) → Option ℕ
  unfolding in_char map_host_id
  chown_id m hostid = elim (map_host_id m hostid) [ none ↦ none | some id ↦ some (in_char id) ]

  -- The rest is as in `v6fs_chown`.
  unfoldable pub v7fs_chown :
      (K : Kernel) → (uidmap gidmap : IdMap) → FilePath → (owner group : ℕ) → M K.Core (Option ℤ)
  unfolding chown_id
  v7fs_chown K uidmap gidmap pathname owner group = elim (chown_id uidmap owner) [
    | none ↦ pure none
    | some v7uid ↦ elim (chown_id gidmap group) [
      | none ↦ pure none
      | some v7gid ↦ chown_to K pathname owner group v7uid v7gid >>= λ res. pure (some res)
    ]
  ]

-- The fields of `struct v7_stat`, and those of the host's structure that are set.
pub record V7Stat : Type 0 where
  pub dev : ℕ
  pub ino : ℕ
  pub mode : ℕ
  pub nlink : ℕ
  pub uid : ℕ
  pub gid : ℕ
  pub rdev : ℕ
  pub size : ℕ
  pub atime : ℕ
  pub mtime : ℕ
  pub ctime : ℕ

pub record HostStat : Type 0 where
  pub st_dev : ℕ
  pub st_ino : ℕ
  pub st_mode : ℕ
  pub st_nlink : ℕ
  pub st_uid : ℕ
  pub st_gid : ℕ
  pub st_rdev : ℕ
  pub st_size : ℕ
  pub st_blocks : ℕ
  pub st_atime : ℕ
  pub st_mtime : ℕ
  pub st_ctime : ℕ

-- The four type bits of a mode, and the host's for those of the seventh edition, where 3 and 7 are
-- multiplexed devices.
abbrev pub file_type : ℕ → ℕ
file_type mode = mode / 4096 % 16

abbrev pub is_chr : ℕ → Bool
is_chr t = t == 2 || t == 3

abbrev pub is_blk : ℕ → Bool
is_blk t = t == 6 || t == 7

unfoldable pub host_type : ℕ → ℕ
host_type t =
    if t == 4 then 0x4000 else if is_chr t then 0x2000 else if is_blk t then 0x6000 else 0x8000

unfoldable pub st_mode_of : ℕ → ℕ
unfolding host_type
st_mode_of mode = host_type (file_type mode) + mode % 4096

-- The signed words of the inode are widened; the size is not negative.
unfoldable pub converted : V7Stat → (uid gid : ℕ) → HostStat
unfolding st_mode_of
converted v uid gid = record {
  st_dev = extend 16 64 v.dev;
  st_ino = v.ino;
  st_mode = st_mode_of v.mode;
  st_nlink = extend 16 64 v.nlink;
  st_uid = uid;
  st_gid = gid;
  st_rdev =
      if is_chr (file_type v.mode) || is_blk (file_type v.mode) then extend 16 64 v.rdev else 0;
  st_size = v.size;
  st_blocks = (v.size + 511) / 512;
  st_atime = extend 32 64 v.atime;
  st_mtime = extend 32 64 v.mtime;
  st_ctime = extend 32 64 v.ctime;
}

unfoldable pub convertstat : (uidmap gidmap : IdMap) → V7Stat → Option HostStat
unfolding converted map_v7_id
convertstat uidmap gidmap v = elim (map_v7_id uidmap v.uid) [
  | none ↦ none
  | some uid ↦ elim (map_v7_id gidmap v.gid) [ none ↦ none | some gid ↦ some (converted v uid gid) ]
]

-- The node that `v7fs_mknod` makes for a mode of the host.
pub data NodeKind : Type 0 where
  plain : NodeKind
  special : (fsmode : ℕ) → NodeKind
  unsupported : NodeKind

unfoldable pub node_kind : (mode : ℕ) → NodeKind
node_kind mode =
    let t = file_type mode in
    if t == 0 || t == 8
    then plain
    else if t == 6
    then special 0x6000
    else if t == 2
    then special 0x2000
    else unsupported

unfoldable pub node_mode : NodeKind → (mode : ℕ) → Option ℕ
node_mode plain mode = some (0x8000 + mode % 4096)
node_mode (special fsmode) mode = some (fsmode + mode % 4096)
node_mode unsupported mode = none

abbrev pub node_dev : (major minor : ℕ) → ℕ
node_dev major minor = major % 256 * 256 + minor % 256

module _ (K : Kernel) where
  unfoldable pub mknod_kind : FilePath → NodeKind → (mode major minor : ℕ) → M K.Core ℤ
  mknod_kind pathname plain mode major minor = make_node K pathname (0x8000 + mode % 4096) 0
  mknod_kind pathname (special fsmode) mode major minor = do
    allowed ← K.suser
    if allowed
        then make_node K pathname (fsmode + mode % 4096) (node_dev major minor)
        else pure (neg eperm)
  mknod_kind pathname unsupported mode major minor = pure (neg eexist)

  unfoldable pub v7fs_mknod : FilePath → (mode major minor : ℕ) → M K.Core ℤ
  unfolding mknod_kind node_kind
  v7fs_mknod pathname mode major minor = mknod_kind pathname (node_kind mode) mode major minor

-- A time that is explicit, in 32 bits, or else the clock.
unfoldable pub time_of : TimeSpec → (clock : ℕ) → ℕ
time_of now clock = clock
time_of omit clock = clock
time_of (at seconds) clock = low 32 seconds

-- The clock is `v7_time`, one number of 32 bits.
module _ (K : Kernel) (clock : K.Core → ℕ)
    (iupdat : ℕ → (atime mtime : ℕ) → M K.Core (Unit {0})) where
  unfoldable pub read_clock : M K.Core ℕ
  read_clock s = (clock s.core, s)

  unfoldable pub write_times : ℕ → (atime mtime : TimeSpec) → M K.Core ℤ
  unfolding read_clock time_of
  write_times ip atime mtime = do
    K.refreshclock
    time ← read_clock
    i ← read_inode K ip
    write_inode K ip (record i {
      accessed = i.accessed || not (is_omit atime);
      updated = i.updated || not (is_omit mtime);
    })
    clear_error
    iupdat ip (time_of atime time) (time_of mtime time)
    res ← last_error
    j ← read_inode K ip
    write_inode K ip (record j { accessed = false; updated = false })
    pure res

  unfoldable pub set_times : ℕ → (atime mtime : TimeSpec) → M K.Core ℤ
  unfolding write_times
  set_times ip atime mtime = if is_omit atime && is_omit mtime then pure (pos 0) else (do
    set_error (if is_now atime && is_now mtime then eacces else eperm)
    refused ← times_refused K ip (is_now atime && is_now mtime)
    if refused then last_error else write_times ip atime mtime)

  unfoldable pub v7fs_utimens : FilePath → Option (TimeSpec × TimeSpec) → M K.Core ℤ
  unfolding set_times
  v7fs_utimens pathname times = do
    begin K
    o ← K.namei pathname find
    found o last_error (λ ip. (do
      res ← set_times ip (times_of K times).0 (times_of K times).1
      K.iput ip
      pure res))
