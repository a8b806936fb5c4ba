-- ===== src/V6fs/Stat/Tests.antt =====
-- Runs of `v6fs_convertstat` of src/v6fs.c, and its theorems at concrete inodes.
use retro_fuse.Prelude.{◌≡◌, refl, none, some, List, [], ◌∷◌, arith, replicate}
use retro_fuse.IdMap.{Entry, IdMap}
use retro_fuse.IdMap.Holds.{Holds}
use retro_fuse.V6fs.Stat.{V6Stat, st_mode_of}

abbrev users : List Entry
users = record { hostid = 1000; fsid = 3 } ∷ record { hostid = 1001; fsid = 200 } ∷ []

abbrev ids : IdMap
ids = record {
  entries = some (
      some (record { hostid = 1000; fsid = 3 })
      ∷ some (record { hostid = 1001; fsid = 200 })
      ∷ replicate 126 none);
  entrycount = 2;
  maxfsid = 255;
  defaulthostid = 65534;
  defaultfsid = 255;
}

ids-Holds : Holds ids users
ids-Holds = record { count = refl; block = ((refl, (refl, tt)), refl, omega arith) }

-- A directory of 9 MiB (0x900000 bytes) owned by filesystem user 200.
abbrev inode : V6Stat
inode = record {
  dev = 0;
  inumber = 7;
  mode = 0xC1ED;
  nlinks = 2;
  uid = 200;
  gid = 3;
  size0 = 0x90;
  size1 = 0;
  addr = 40;
  actime = (1, 2);
  modtime = (1, 3);
}

directory_mode : st_mode_of 0xC1ED ≡ 0x41ED
unfolding st_mode_of
directory_mode = refl
