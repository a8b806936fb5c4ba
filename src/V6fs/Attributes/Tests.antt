-- ===== src/V6fs/Attributes/Tests.antt =====
-- The theorems on owners and times of src/v6fs.c at concrete calls.
use retro_fuse.Prelude.{none, [], ◌∷◌}
use retro_fuse.IdMap.{IdMap}
use retro_fuse.V6fs.Kernel.{FilePath}

abbrev file : FilePath
file = 102 ∷ []

abbrev ids : IdMap
ids = record { entries = none; entrycount = 0; maxfsid = 255; defaulthostid = 0; defaultfsid = 0 }
