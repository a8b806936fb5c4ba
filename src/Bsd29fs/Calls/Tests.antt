-- ===== src/Bsd29fs/Calls/Tests.antt =====
-- The owner of a file of src/bsd29fs.c on a kernel with one file.
use retro_fuse.Prelude.{◌≡◌, refl, none, some, List, [], ◌∷◌, arith, replicate}
use retro_fuse.Prelude.Int.{pos}
use retro_fuse.IdMap.{Entry, IdMap}
use retro_fuse.IdMap.Holds.{Holds}
use retro_fuse.V6fs.Kernel.{Sys, begin, clear_error, ◌>>◌, ◌>>=◌}
use retro_fuse.V6fs.Kernel.Toy.{Toy, toy_kernel, toy-Superuser, root_state, root_found_file}
use retro_fuse.Bsd29fs.Calls.{bsd29fs_setreuid, bsd29fs_chown}
use retro_fuse.Bsd29fs.Calls.Owner.{bsd29fs_chown_lem}

abbrev staff : List Entry
staff = record { hostid = 1001; fsid = 300 } ∷ []

abbrev ids : IdMap
ids = record {
  entries = some (some (record { hostid = 1001; fsid = 300 }) ∷ replicate 127 none);
  entrycount = 1;
  maxfsid = 32767;
  defaulthostid = 65534;
  defaultfsid = 32767;
}

ids-Holds : Holds ids staff
ids-Holds = record { count = refl; block = ((refl, tt), refl, omega arith) }

-- Root gives the file "f" to the host user 1001, who is 300 in the filesystem, and to the group 100.
bsd29fs_chown_lem_example :
    (bsd29fs_setreuid ids 1001 1001 root_state
      ≡ some (pos 0, record root_state { ruid = 300; uid = 300 }))
    × ((v : Sys Toy) × (bsd29fs_chown toy_kernel ids ids (102 ∷ []) 1001 100 root_state
          ≡ (some (pos 0), (toy_kernel.iput 5 v).1))
        × ((toy_kernel.inode v.core 5).uid ≡ 300)
        × ((toy_kernel.inode v.core 5).gid ≡ 100))
unfolding begin clear_error ◌>>◌ ◌>>=◌
bsd29fs_chown_lem_example =
    bsd29fs_chown_lem toy_kernel ids ids staff staff ids-Holds ids-Holds 5 toy-Superuser (102 ∷ [])
      1001 100 300 100 root_state root_found_file (refl, refl) (omega arith) (omega arith) refl refl
      (omega arith) (omega arith)
