-- ===== src/V6fs/Rename/Tests.antt =====
-- The theorems on renaming of src/v6fs.c at concrete calls.
use retro_fuse.Prelude.{◌≡◌, refl, true, none, [], ◌∷◌}
use retro_fuse.IdMap.{IdMap}
use retro_fuse.V6fs.Kernel.{FilePath}
use retro_fuse.V6fs.Kernel.Toy.{toy_kernel, toy_state, missing_name}
use retro_fuse.V6fs.Kernel.ReadOnly.{ro_kernel, ro_counts, ro_names}
use retro_fuse.V6fs.Files.Balance.{Balanced}
use retro_fuse.V6fs.Dirs.{v6fs_mkdir}
use retro_fuse.V6fs.Listing.{v6fs_rmdir}
use retro_fuse.V6fs.Rename.{is_parent_entry, v6fs_rename}
use retro_fuse.V6fs.Rename.Moves.{v6fs_rename-Balanced}
use retro_fuse.V6fs.Rename.Privilege.{privilege_restored}

-- `f`, and `g`, which is missing.
abbrev old_name : FilePath
old_name = 102 ∷ []

abbrev new_name : FilePath
new_name = 103 ∷ []

abbrev ids : IdMap
ids = record { entries = none; entrycount = 0; maxfsid = 255; defaulthostid = 0; defaultfsid = 0 }

parent_entry_run : is_parent_entry (2 ∷ 0 ∷ 46 ∷ 46 ∷ 0 ∷ 0 ∷ []) ≡ true
unfolding is_parent_entry
parent_entry_run = refl

-- The directory `d` gets the name `g/h`.
v6fs_rename-Balanced_example :
    Balanced ro_kernel ro_counts (v6fs_rename ro_kernel true ids ids 9 (100 ∷ []) missing_name)
v6fs_rename-Balanced_example =
    v6fs_rename-Balanced ro_kernel ro_counts ro_names true ids ids 9 (100 ∷ []) missing_name

privilege_restored_example :
    ((v6fs_mkdir toy_kernel old_name 0x1ED toy_state).1.uid ≡ 3)
    × ((v6fs_rmdir toy_kernel true ids ids 9 old_name toy_state).1.uid ≡ 3)
    × ((v6fs_rename toy_kernel true ids ids 9 old_name new_name toy_state).1.uid ≡ 3)
privilege_restored_example =
    privilege_restored toy_kernel true ids ids 9 0x1ED old_name new_name toy_state
