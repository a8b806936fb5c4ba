-- ===== src/FuseCommon/MapOption.antt =====
-- `retrofuse_parsemapopt` of src/fusecommon.c: the option mapuid=<host-id>:<fs-id>, from its text to
-- the table that it leaves.
use retro_fuse.Prelude.{
  ℕ, ◌^◌, ◌<◌, ◌≤◌, ◌≡◌, refl, sym, ap, ◌∙◌, Bool, true, some, List, [], inl, ◌∷◌, ◌++◌, arith,
}
use mathlib.Core.List.{append-nil}
use retro_fuse.Prelude.Int.{pos}
use retro_fuse.IdMap.{Entry, IdMap, addidmap}
use retro_fuse.IdMap.Holds.{Holds, Added, addidmap-Added}
use retro_fuse.FuseCommon.Scan.{
  Text, separator, literal, skip_space, any_char, at_end, scan_long, scan_map,
}
use retro_fuse.FuseCommon.Decimals.{Decimal, scan_long-Decimal}
use retro_fuse.FuseCommon.{
  Maps, int32_max, added, put_users, put_groups, add_mapping, map_scanned, parse_map_option,
}

-- The text of the option for users (`u`) or groups (`g`).
abbrev pub map_text : (idtype : ℕ) (host fs : Text) → Text
map_text idtype host fs = 109 ∷ 97 ∷ 112 ∷ idtype ∷ 105 ∷ 100 ∷ 61 ∷ (host ++ (58 ∷ fs))

module _ {host fs : Text} {h f : ℕ} (dh : Decimal host h) (df : Decimal fs f) where
  scan_map-map_text :
      (idtype : ℕ)
      → h < 9223372036854775808
      → f < 9223372036854775808
      → scan_map (map_text idtype host fs)
        ≡ some (record { idtype = idtype; hostid = pos h; fsid = pos f })
  unfolding scan_map separator literal skip_space any_char at_end
  scan_map-map_text idtype small_h small_f =
      let last : scan_long fs ≡ some (pos f, []) =
        ap scan_long (sym (append-nil fs)) ∙ scan_long-Decimal df small_f [] tt in
      rw (scan_long-Decimal dh small_h (58 ∷ fs) refl, last)

  module _ (maxuidgid : ℕ) (granted : Bool) (maps : Maps) where
    add_user :
        h ≤ int32_max
        → f ≤ maxuidgid
        → maxuidgid < 2 ^ 32
        → add_mapping maxuidgid granted (record { idtype = 117; hostid = pos h; fsid = pos f }) maps
          ≡ added put_users maps (addidmap granted maps.users h f)
    unfolding add_mapping
    add_user small_h small_f limit = ground arith

    add_group :
        h ≤ int32_max
        → f ≤ maxuidgid
        → maxuidgid < 2 ^ 32
        → add_mapping maxuidgid granted (record { idtype = 103; hostid = pos h; fsid = pos f }) maps
          ≡ added put_groups maps (addidmap granted maps.groups h f)
    unfolding add_mapping
    add_group small_h small_f limit = ground arith

-- For any decimal text of a host id up to 2 ^ 31 - 1 and of a filesystem id up to the limit, the options
-- mapuid=<host-id>:<fs-id> and mapgid=<host-id>:<fs-id> return 0 and append just that entry to the
-- table of the users or of the groups, and leave the other table, where memory is found for it.
pub map_option-Added :
    {host fs : Text} {h f : ℕ}
    → Decimal host h
    → Decimal fs f
    → (maxuidgid : ℕ) (maps : Maps) (us gs : List Entry) → h ≤ int32_max
    → f ≤ maxuidgid
    → maxuidgid < 2 ^ 32
    → maxuidgid ≤ maps.users.maxfsid
    → maxuidgid ≤ maps.groups.maxfsid
    → Holds maps.users us
    → Holds maps.groups gs
    → ((m : IdMap) × (parse_map_option maxuidgid true (map_text 117 host fs) maps
          ≡ some (pos 0, record maps { users = m }))
        × Added maps.users us h f m)
      × ((m : IdMap) × (parse_map_option maxuidgid true (map_text 103 host fs) maps
            ≡ some (pos 0, record maps { groups = m }))
          × Added maps.groups gs h f m)
unfolding parse_map_option map_scanned added put_users put_groups
map_option-Added {host} {fs} {h} {f} dh df maxuidgid maps us gs small_h small_f limit lu lg hu hg =
    let (m, e, a) = addidmap-Added maps.users us h f true hu (omega arith) (inl refl) in
    let (n, e', b) = addidmap-Added maps.groups gs h f true hg (omega arith) (inl refl) in
    (
      (
        m,
        ap (map_scanned maxuidgid true maps)
              (scan_map-map_text dh df 117 (omega arith) (omega arith))
            ∙ add_user dh df maxuidgid true maps small_h small_f limit
            ∙ ap (λ r. added put_users maps r) e,
        a,
      ),
      (
        n,
        ap (map_scanned maxuidgid true maps)
              (scan_map-map_text dh df 103 (omega arith) (omega arith))
            ∙ add_group dh df maxuidgid true maps small_h small_f limit
            ∙ ap (λ r. added put_groups maps r) e',
        b,
      ),
    )
