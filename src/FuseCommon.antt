-- ===== src/FuseCommon.antt =====
-- src/fusecommon.c and src/fusecommon.h: the options that the filesystems' programs share. Text is a
-- list of character codes without the final 0. The options that libfuse stores itself, by a template
-- with a field, are not seen by this code; it is handed the others with a key.
pub mod Scan
pub mod Decimals
pub mod MapOption
pub mod Main
pub mod Tests
use retro_fuse.Prelude.{
  ℕ, ◌%◌, ◌^◌, Bool, true, false, ◌||◌, not, Option, none, some, List, [], ◌∷◌, ltb, ◌==◌,
  if◌then◌else◌,
}
use retro_fuse.Prelude.Int.{ℤ, pos, neg, pos_part, is_neg, ltb_ℤ, eqb_ℤ}
use retro_fuse.IdMap.{IdMap, addidmap}
use retro_fuse.FuseCommon.Scan.{Text, MapText, scan_map}

-- `struct retrofuse_config`; the pointers to the names are missing where they are NULL.
pub record Config : Type 0 where
  pub dskfilename : Option Text
  pub fssize : ℕ
  pub fsoffset : ℕ
  pub mountpoint : Option Text
  pub overwrite : Bool
  pub readonly : Bool
  pub foreground : Bool
  pub debug : Bool
  pub showversion : Bool
  pub showhelp : Bool
  pub initfs : Bool
  pub isize : ℕ
  pub iratio : ℕ
  pub m : ℕ
  pub n : ℕ

-- The id maps of the filesystem, that of the users and that of the groups.
pub record Maps : Type 0 where
  pub users : IdMap
  pub groups : IdMap

abbrev pub int32_max : ℕ
int32_max = 2147483647

-- -1, as the front end reports a failure.
abbrev pub failed_status : ℤ
failed_status = neg 1

-- What a function answers, with the tables behind it; `none` is an invalid access.
abbrev pub Parsed : Type 0 → Type 0
Parsed A = Option (ℤ × A)

-- The last step of the option: -1 in place of the error of `idmap_addidmap`.
added : (Maps → IdMap → Maps) → Maps → Option (ℤ × IdMap) → Parsed Maps
added put maps none = none
added put maps (some (res, m)) =
    if eqb_ℤ res (pos 0) then some (pos 0, put maps m) else some (failed_status, put maps m)

put_users : Maps → IdMap → Maps
put_users maps m = record maps { users = m }

put_groups : Maps → IdMap → Maps
put_groups maps m = record maps { groups = m }

module _ (maxuidgid : ℕ) (granted : Bool) where
  -- The bounds on both ids, and the call that adds the entry. `granted` says whether `realloc` finds
  -- the memory.
  unfoldable pub add_mapping : MapText → Maps → Parsed Maps
  unfolding added put_users put_groups
  add_mapping t maps =
      if is_neg t.hostid || ltb_ℤ (pos int32_max) t.hostid
      then some (failed_status, maps)
      else if is_neg t.fsid || ltb_ℤ (pos maxuidgid) t.fsid
      then some (failed_status, maps)
      else if t.idtype == 117
      then added put_users maps
          (addidmap granted maps.users (pos_part t.hostid % 2 ^ 32) (pos_part t.fsid % 2 ^ 32))
      else added put_groups maps
          (addidmap granted maps.groups (pos_part t.hostid % 2 ^ 32) (pos_part t.fsid % 2 ^ 32))

  map_scanned : Maps → Option MapText → Parsed Maps
  map_scanned maps none = some (failed_status, maps)
  map_scanned maps (some t) = add_mapping t maps

  unfoldable pub parse_map_option : (arg : Text) → Maps → Parsed Maps
  unfolding map_scanned
  parse_map_option arg maps = map_scanned maps (scan_map arg)

-- The keys that `fuse_opt_parse` hands over: FUSE_OPT_KEY_OPT, RETROFUSE_OPT_KEY_MAPID,
-- RETROFUSE_OPT_KEY_INITFS, FUSE_OPT_KEY_NONOPT, and any other.
pub data Key : Type 0 where
  opt mapid initfs_key nonopt unknown : Key

module _ (maxuidgid : ℕ) (granted : Bool)
    (parse_initfs_option : Config → Text → Option (ℤ × Config)) where
  -- An argument that is not an option names the disk, or then the mount point.
  unfoldable pub take_name : (arg : Text) → Config → ℤ × Config
  take_name arg cfg = elim cfg.dskfilename [
    | none ↦ (pos 0, record cfg { dskfilename = some arg })
    | some _ ↦ elim cfg.mountpoint [
      | none ↦ (pos 0, record cfg { mountpoint = some arg })
      | some _ ↦ (failed_status, cfg)
    ]
  ]

  unfoldable pub parse_option : Key → (arg : Text) → Config → Maps → Option (ℤ × Config × Maps)
  parse_option opt arg cfg maps = some (pos 1, cfg, maps)
  parse_option mapid arg cfg maps = elim (parse_map_option maxuidgid granted arg maps) [
    | none ↦ none
    | some (res, maps') ↦ some (res, cfg, maps')
  ]
  parse_option initfs_key arg cfg maps = elim (parse_initfs_option cfg arg) [
    | none ↦ none
    | some (res, cfg') ↦ some (res, cfg', maps)
  ]
  parse_option nonopt arg cfg maps = let (res, cfg') = take_name arg cfg in some (res, cfg', maps)
  parse_option unknown arg cfg maps = some (failed_status, cfg, maps)
