-- ===== src/V6fs/Listing/Tests.antt =====
-- Runs of the code of src/v6fs.c on directory entries, and its theorem at a concrete kernel.
use retro_fuse.Prelude.{◌≡◌, refl, none, [], ◌∷◌}
use retro_fuse.IdMap.{IdMap}
use retro_fuse.V6fs.Kernel.{FilePath}
use retro_fuse.V6fs.Dirs.{skip_slashes, reverse_onto}
use retro_fuse.V6fs.Listing.{entry_of, basename}

abbrev root : FilePath
root = 47 ∷ []

abbrev ids : IdMap
ids = record { entries = none; entrycount = 0; maxfsid = 255; defaulthostid = 0; defaultfsid = 0 }

-- The entry `..` of inode 258.
entry_run : (entry_of (2 ∷ 1 ∷ 46 ∷ 46 ∷ 0 ∷ 0 ∷ [])).d_inode ≡ 258
unfolding entry_of
entry_run = refl

-- `/f/..//`
basename_run : basename (47 ∷ 102 ∷ 47 ∷ 46 ∷ 46 ∷ 47 ∷ 47 ∷ []) ≡ 46 ∷ 46 ∷ []
unfolding basename skip_slashes reverse_onto
basename_run = refl
