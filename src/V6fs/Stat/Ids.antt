-- ===== src/V6fs/Stat/Ids.antt =====
-- User and group ids of src/v6fs.c on their way into an inode's `char` and back.
use retro_fuse.Prelude.{
  ℕ, ◌+◌, ◌%◌, ◌≤◌, ◌<◌, ◌≡◌, refl, ◌∙◌, ap, Bool, true, false, none, some, List, [], ◌∷◌, arith,
  if◌then◌else◌,
}
use retro_fuse.IdMap.{Entry, IdMap, tofsid}
use retro_fuse.IdMap.Holds.{Holds}
use retro_fuse.IdMap.Translation.{
  host_of, fs_of, Within, Distinct, tohostid-host_for, tofsid-fs_for, fs_of-host_of,
}
use retro_fuse.V6fs.Stat.{map_host_id, map_v6_id, widen_char}

host_of_beyond :
    (es : List Entry) (limit id : ℕ) → Within limit es → limit < id → host_of es id ≡ none
host_of_beyond [] limit id w far = refl
host_of_beyond (e ∷ es) limit id (p, w) far = ground (arith, host_of_beyond es limit id w far)

stored :
    (s : Bool) (m : IdMap) (hostid fsid : ℕ)
    → tofsid m hostid ≡ some fsid
    → fsid < 256
    → map_host_id s m hostid ≡ some fsid
unfolding map_host_id
stored s m hostid fsid e small =
    let whole : fsid % 256 ≡ fsid = omega arith in rw (e, map_host_id) (ap some whole)

widen_char_low : (s : Bool) (c : ℕ) → c < (if s then 128 else 256) → widen_char s 32 c ≡ c
unfolding widen_char
widen_char_low true c h = ground arith
widen_char_low false c h = refl

widen_char_high : (c : ℕ) → 128 ≤ c → widen_char true 32 c ≡ 4294967040 + c
unfolding widen_char
widen_char_high c h = ground arith

module _ (m : IdMap) (es : List Entry) (h : Holds m es) (hostid : ℕ) where
  -- The filesystem id of a host id that has an entry, stored in an inode and read back, gives the
  -- host id again: for any `char` if the filesystem id is below 128, up to 255 if it is unsigned.
  map_v6_id-map_host_id :
      (char_is_signed : Bool) (fsid : ℕ)
      → Distinct es
      → fs_of es hostid ≡ some fsid
      → fsid < (if char_is_signed then 128 else 256)
      → (map_host_id char_is_signed m hostid ≡ some fsid)
        × (map_v6_id char_is_signed m fsid ≡ some hostid)
  unfolding map_v6_id
  map_v6_id-map_host_id s fsid d e small = (
    stored s m hostid fsid (tofsid-fs_for m es h hostid ∙ ap some (rw e)) (ground arith),
    rw (widen_char_low s fsid small)
        (tohostid-host_for m es h fsid ∙ ap some (rw (fs_of-host_of es hostid fsid d e))),
  )

  -- With a signed `char` and a limit of 255, a filesystem id from 128 on that an entry within the
  -- limit gives is read back as a number above the limit: the owner is shown as the default user.
  pub map_v6_id_lost :
      (fsid : ℕ)
      → m.maxfsid ≡ 255
      → m.defaultfsid ≤ 255
      → Within 255 es
      → fs_of es hostid ≡ some fsid
      → 128 ≤ fsid
      → fsid ≤ 255
      → (map_host_id true m hostid ≡ some fsid) × (map_v6_id true m fsid ≡ some m.defaulthostid)
  unfolding map_v6_id
  map_v6_id_lost fsid limit d w e low high =
      let big : ℕ = 4294967040 + fsid in
      (
        stored true m hostid fsid (tofsid-fs_for m es h hostid ∙ ap some (rw e)) (omega arith),
        rw (widen_char_high fsid low) (
            tohostid-host_for m es h big
            ∙ ap some (ground (arith, host_of_beyond es 255 big w (omega arith)))),
      )
