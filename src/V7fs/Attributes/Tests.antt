-- ===== src/V7fs/Attributes/Tests.antt =====
-- The owners and modes of src/v7fs.c at concrete ids and modes.
use retro_fuse.Prelude.{replicate, ◌<◌, ◌≡◌, refl, ◌↔◌, true, none, some, List, [], ◌∷◌, arith}
use retro_fuse.Prelude.Int.{pos}
use retro_fuse.IdMap.{Entry, IdMap, tofsid}
use retro_fuse.IdMap.Holds.{Holds}
use retro_fuse.V6fs.Kernel.{Sys, begin, clear_error, ◌>>◌, ◌>>=◌}
use retro_fuse.V6fs.Kernel.Toy.{Toy, toy_kernel, toy-Superuser, root_state, root_found_file}
use retro_fuse.V7fs.Attributes.{chown_id, v7fs_setreuid, v7fs_chown}
use retro_fuse.V7fs.Attributes.Ids.{v7fs_chown_iff}

abbrev staff : List Entry
staff = record { hostid = 1000; fsid = 7 } ∷ record { hostid = 1001; fsid = 300 } ∷ []

abbrev ids : IdMap
ids = record {
  entries = some (
      some (record { hostid = 1000; fsid = 7 })
      ∷ some (record { hostid = 1001; fsid = 300 })
      ∷ replicate 126 none);
  entrycount = 2;
  maxfsid = 32767;
  defaulthostid = 65534;
  defaultfsid = 32767;
}

ids-Holds : Holds ids staff
ids-Holds = record { count = refl; block = ((refl, (refl, tt)), refl, omega arith) }

-- The id 300 of host user 1001 becomes 44 in an inode.
chown_300 : chown_id true ids 1001 ≡ some 44
unfolding chown_id tofsid
chown_300 = refl

-- Root gives the file "f" to the host user 1001, and to the group 1000, which is 7 in the filesystem.
v7fs_chown_iff_example :
    (v7fs_setreuid ids 1001 1001 root_state
      ≡ some (pos 0, record root_state { ruid = 300; uid = 300 }))
    × ((v : Sys Toy) × (v7fs_chown true toy_kernel ids ids (102 ∷ []) 1001 1000 root_state
          ≡ (some (pos 0), (toy_kernel.iput 5 v).1))
        × (((toy_kernel.inode v.core 5).uid ≡ 300) ↔ (300 < 128))
        × (((toy_kernel.inode v.core 5).gid ≡ 7) ↔ (7 < 128)))
unfolding begin clear_error ◌>>◌ ◌>>=◌
v7fs_chown_iff_example =
    v7fs_chown_iff toy_kernel true ids ids staff staff ids-Holds ids-Holds 5 toy-Superuser
      (102 ∷ []) 1001 1000 300 7 root_state root_found_file (refl, refl) (omega arith) (omega arith)
      refl refl (omega arith) (omega arith)
