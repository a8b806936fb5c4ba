-- ===== src/V6fs/Stat.antt =====
-- `v6fs_convertstat` of src/v6fs.c, the id conversions there, and the file modes that `v6fs_mknod`
-- makes. Words are bit patterns; `char_is_signed` says how the compiler reads a plain `char`, which
-- C leaves open (signed on x86, unsigned on ARM under Linux).
pub mod Sizes
pub mod Ids
pub mod Modes
pub mod Tests
use retro_fuse.Prelude.{
  ℕ, ◌+◌, ◌-◌, ◌*◌, ◌/◌, ◌%◌, ◌^◌, Bool, true, false, Option, none, some, ◌==◌, ltb, if◌then◌else◌,
}
use retro_fuse.Prelude.Words.{low, extend}
use retro_fuse.IdMap.{IdMap, tohostid, tofsid}

-- The fields of `struct v6_stat` that are read; of `addr` the first.
pub record V6Stat : Type 0 where
  pub dev : ℕ
  pub inumber : ℕ
  pub mode : ℕ
  pub nlinks : ℕ
  pub uid : ℕ
  pub gid : ℕ
  pub size0 : ℕ
  pub size1 : ℕ
  pub addr : ℕ
  pub actime : ℕ × ℕ
  pub modtime : ℕ × ℕ

pub record Stat : Type 0 where
  pub st_dev : ℕ
  pub st_ino : ℕ
  pub st_mode : ℕ
  pub st_nlink : ℕ
  pub st_uid : ℕ
  pub st_gid : ℕ
  pub st_rdev : ℕ
  pub st_size : ℕ
  pub st_blocks : ℕ
  pub st_atime : ℕ
  pub st_mtime : ℕ

-- The type bits of a mode, `mode & IFMT`, in units of 020000.
pub file_type : ℕ → ℕ
file_type mode = mode / 8192 % 4

-- The host's type bits (S_IFDIR, S_IFCHR, S_IFBLK, S_IFREG) for those of a v6 mode.
pub host_type : ℕ → ℕ
host_type t =
    if t == 2 then 0x4000 else if t == 1 then 0x2000 else if t == 3 then 0x6000 else 0x8000

-- The mode that is shown: the type, and the low 12 bits.
unfoldable pub st_mode_of : ℕ → ℕ
unfolding file_type host_type
st_mode_of mode = host_type (file_type mode) + mode % 4096

is_device : ℕ → Bool
is_device t = if t == 1 then true else t == 3

-- Two 16-bit words as one number, the high word first.
abbrev pub join_words : ℕ → ℕ → ℕ
join_words hi lo = hi * 65536 + lo

module _ (char_is_signed : Bool) where
  -- A `char` converted to an unsigned type of w bits.
  pub widen_char : (w c : ℕ) → ℕ
  widen_char w c = if char_is_signed then extend 8 w c else c

  unfoldable pub st_size_of : (size0 size1 : ℕ) → ℕ
  unfolding widen_char
  st_size_of size0 size1 = join_words (widen_char 16 size0) size1

  -- `v6fs_maphostuid` and `v6fs_maphostgid`.
  unfoldable pub map_host_id : IdMap → ℕ → Option ℕ
  map_host_id m hostid = elim (tofsid m hostid) [ none ↦ none | some id ↦ some (low 8 id) ]

  -- `v6fs_mapv6uid` and `v6fs_mapv6gid`.
  unfoldable pub map_v6_id : IdMap → ℕ → Option ℕ
  unfolding widen_char
  map_v6_id m v6id = tohostid m (widen_char 32 v6id)

  -- The record once both ids are mapped.
  pub converted : V6Stat → (uid gid : ℕ) → Stat
  converted v uid gid =
      let size = st_size_of v.size0 v.size1 in
      record {
        st_dev = extend 16 64 v.dev;
        st_ino = extend 16 64 v.inumber;
        st_mode = st_mode_of v.mode;
        st_nlink = widen_char 64 v.nlinks;
        st_uid = uid;
        st_gid = gid;
        st_rdev = if is_device (file_type v.mode) then extend 16 64 v.addr else 0;
        st_size = size;
        st_blocks = (size + 511) / 512;
        st_atime = join_words v.actime.0 v.actime.1;
        st_mtime = join_words v.modtime.0 v.modtime.1;
      }

  unfoldable pub convertstat : (uidmap gidmap : IdMap) → V6Stat → Option Stat
  unfolding converted map_v6_id st_size_of st_mode_of is_device
  convertstat uidmap gidmap v = elim (map_v6_id uidmap v.uid) [
    | none ↦ none
    | some uid ↦ elim (map_v6_id gidmap v.gid) [
      | none ↦ none
      | some gid ↦ some (converted v uid gid)
    ]
  ]

-- The mode of the node that `v6fs_mknod` makes for a mode and device of the host, or none for the
-- error -EEXIST. The switch there is on `mode & IFMT`, the v6 type bits of a host mode.
pub data NodeKind : Type 0 where
  plain : NodeKind
  special : (fsmode : ℕ) → NodeKind
  unsupported : NodeKind

unfoldable pub node_kind : ℕ → NodeKind
unfolding file_type
node_kind mode =
    let t = file_type mode in
    if t == 0
    then plain
    else if t == 2
    then unsupported
    else special (if mode / 4096 % 16 == 6 then 0x6000 else 0x2000)

unfoldable pub node_mode : NodeKind → (mode : ℕ) → Option ℕ
node_mode plain mode = some (mode % 4096)
node_mode (special fsmode) mode = some (fsmode + mode % 4096)
node_mode unsupported mode = none

-- `((major & 0xFF) << 8) | (minor & 0xFF)`
unfoldable pub node_dev : (major minor : ℕ) → ℕ
node_dev major minor = major % 256 * 256 + minor % 256
