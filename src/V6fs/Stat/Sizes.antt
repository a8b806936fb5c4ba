-- ===== src/V6fs/Stat/Sizes.antt =====
-- The file size of `v6fs_convertstat` in src/v6fs.c.
use retro_fuse.Prelude.{
  ℕ, ◌+◌, ◌*◌, ◌/◌, ◌%◌, ◌≤◌, ◌<◌, ◌≡◌, refl, some, List, Bool, true, false, arith, ltb,
  if◌then◌else◌,
}
use retro_fuse.IdMap.{Entry, IdMap}
use retro_fuse.IdMap.Holds.{Holds}
use retro_fuse.IdMap.Translation.{host_for, tohostid-host_for}
use retro_fuse.V6fs.Stat.{V6Stat, Stat, st_size_of, widen_char, converted, convertstat}

-- For a file of `size` bytes, below 2 ^ 24, whose words the inode holds: the size that is shown is
-- `size`, unless `char` is signed and the size is 2 ^ 23 or more; then it is 0xFF000000 more.
pub st_size_of_lem :
    (char_is_signed : Bool) (size : ℕ)
    → size < 16777216
    → st_size_of char_is_signed (size / 65536) (size % 65536)
      ≡ (if char_is_signed then if ltb size 8388608 then size else size + 4278190080 else size)
unfolding st_size_of
st_size_of_lem true size h = ground arith
st_size_of_lem false size h = omega arith

-- Where both id tables hold entries the conversion makes no invalid access; the ids are those of the
-- tables, and the blocks are the least number of 512 bytes each that holds the size shown.
convertstat_total :
    (s : Bool) (uidmap gidmap : IdMap) (users groups : List Entry) (v : V6Stat)
    → Holds uidmap users
    → Holds gidmap groups
    → (st : Stat) × (convertstat s uidmap gidmap v ≡ some st)
      × (st.st_uid ≡ host_for uidmap users (widen_char s 32 v.uid))
      × (st.st_gid ≡ host_for gidmap groups (widen_char s 32 v.gid))
      × (st.st_size ≡ st_size_of s v.size0 v.size1)
      × (st.st_size ≤ st.st_blocks * 512)
      × (st.st_blocks * 512 < st.st_size + 512)
unfolding convertstat
convertstat_total s uidmap gidmap users groups v hu hg =
    let u : ℕ = host_for uidmap users (widen_char s 32 v.uid) in
    let g : ℕ = host_for gidmap groups (widen_char s 32 v.gid) in
    (
      converted s v u g,
      rw (tohostid-host_for uidmap users hu, convertstat, tohostid-host_for gidmap groups hg),
      refl,
      refl,
      refl,
      omega arith,
      omega arith,
    )
