-- ===== src/Bsd211fs/Groups/Tests.antt =====
-- The groups of src/bsd211fuse.c for a caller in group 1000, served by a process in groups 4 and 27.
use retro_fuse.Prelude.{◌≡◌, refl, none, some, List, [], ◌∷◌, replicate, arith}
use retro_fuse.IdMap.{IdMap, Entry}
use retro_fuse.IdMap.Holds.{Holds}
use retro_fuse.Bsd211fs.Groups.{groups_are, bsd211fs_refreshgroups}
use retro_fuse.Bsd211fs.Groups.Caller.{refreshgroups_lem}

abbrev entries : List Entry
entries = record { hostid = 27; fsid = 9 } ∷ []

abbrev gidmap : IdMap
gidmap = record {
  entries = some (some (record { hostid = 27; fsid = 9 }) ∷ replicate 127 none);
  entrycount = 1;
  maxfsid = 32767;
  defaulthostid = 65534;
  defaultfsid = 32767;
}

gidmap-Holds : Holds gidmap entries
gidmap-Holds = record { count = refl; block = ((refl, tt), refl, omega arith) }

refreshgroups_lem_example :
    bsd211fs_refreshgroups gidmap
      (groups_are (1000 ∷ []))
      (groups_are (1000 ∷ []))
      (groups_are (4 ∷ 27 ∷ []))
      (groups_are (4 ∷ 27 ∷ []))
      (50 ∷ [])
    ≡ some (50 ∷ 4 ∷ 9 ∷ replicate 13 65535)
refreshgroups_lem_example =
    refreshgroups_lem gidmap entries gidmap-Holds (groups_are (1000 ∷ [])) (groups_are (1000 ∷ []))
      (4 ∷ 27 ∷ []) (4 ∷ 27 ∷ []) 50 []
