-- ===== src/V6fs/Rename/Privilege.antt =====
-- The effective user id around the calls of src/v6fs.c that run a part as root.
use retro_fuse.Prelude.{ℕ, ◌≡◌, refl, Bool}
use retro_fuse.IdMap.{IdMap}
use retro_fuse.V6fs.Kernel.{FilePath, Sys, Kernel, ◌>>=◌, ◌>>◌, pure, get_uid, set_uid}
use retro_fuse.V6fs.Dirs.{v6fs_mkdir}
use retro_fuse.V6fs.Listing.{v6fs_rmdir}
use retro_fuse.V6fs.Rename.{v6fs_rename}

-- Making, removing and renaming a directory leave the effective user id as it was, on every path,
-- whatever the kernel's calls do with it.
pub privilege_restored :
    (K : Kernel) (signed : Bool) (u g : IdMap) (fuel mode : ℕ) (p q : FilePath) (s : Sys K.Core)
    → ((v6fs_mkdir K p mode s).1.uid ≡ s.uid)
      × ((v6fs_rmdir K signed u g fuel p s).1.uid ≡ s.uid)
      × ((v6fs_rename K signed u g fuel p q s).1.uid ≡ s.uid)
unfolding v6fs_mkdir v6fs_rmdir v6fs_rename ◌>>=◌ ◌>>◌ pure get_uid set_uid
privilege_restored K signed u g fuel mode p q s = (refl, refl, refl)
