-- ===== src/V6fs/Files/Tests.antt =====
-- The theorems on the calls of src/v6fs.c on a single file at a concrete kernel.
use retro_fuse.Prelude.{true, false, none, [], ◌∷◌}
use retro_fuse.IdMap.{IdMap}
use retro_fuse.V6fs.Kernel.{FilePath}
use retro_fuse.V6fs.Files.{OpenFlags}

-- `f`, `g` and O_RDWR | O_CREAT
abbrev there : FilePath
there = 102 ∷ []

abbrev missing : FilePath
missing = 103 ∷ []

abbrev flags : OpenFlags
flags = record { reads = true; writes = true; creates = true; exclusive = false; truncates = false }

-- `f`, opened for reading.
abbrev plain_flags : OpenFlags
plain_flags = record {
  reads = true;
  writes = false;
  creates = false;
  exclusive = false;
  truncates = false;
}

abbrev ids : IdMap
ids = record { entries = none; entrycount = 0; maxfsid = 255; defaulthostid = 0; defaultfsid = 0 }
