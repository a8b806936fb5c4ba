-- ===== src/V7fs/Rename/Privilege.antt =====
-- The effective user id behind `v7fs_mkdir`, `v7fs_rmdir` and `v7fs_rename` of src/v7fs.c.
use retro_fuse.Prelude.{ℕ, ◌<◌, ◌≡◌, ◌↔◌, Bool, Option, if◌then◌else◌}
use retro_fuse.Prelude.Int.{ℤ}
use retro_fuse.V6fs.Kernel.{FilePath, Sys, M, Kernel, ◌>>=◌, ◌>>◌, pure, get_uid, set_uid}
use retro_fuse.V7fs.Attributes.{V7Stat, HostStat}
use retro_fuse.V7fs.Attributes.Ids.{in_char_iff}
use retro_fuse.V7fs.Calls.{v7fs_mkdir}
use retro_fuse.V7fs.Listing.{v7fs_rmdir}
use retro_fuse.V7fs.Rename.{v7fs_rename}

-- What a call leaves of an effective user id: it is as it was just where it fits a `char`.
abbrev pub Keeps : {C : Type 0} → (signed : Bool) → (s t : Sys C) → Type 0
Keeps signed s t = (t.uid ≡ s.uid) ↔ (s.uid < (if signed then 128 else 256))

-- Making a directory, removing one, and renaming anything, leave an effective user id below 32768 as it was
-- if and only if it fits a `char`: below 128 if it is signed, else below 256. This is so on every path,
-- also where a name is not found, whatever the kernel's calls do.
pub mkdir_rmdir_rename_iff :
    (K : Kernel) (signed : Bool) (stat1 : ℕ → M K.Core V7Stat) (convert : V7Stat → Option HostStat)
    (seek_back : ℕ → M K.Core ℤ) (relinked : ℕ → (ℕ → ℕ) → M K.Core ℤ) (fuel mode : ℕ)
    (p q : FilePath) (s : Sys K.Core)
    → s.uid < 32768
    → Keeps signed s (v7fs_mkdir K signed p mode s).1
      × Keeps signed s (v7fs_rmdir K stat1 convert signed fuel p s).1
      × Keeps signed s (v7fs_rename K seek_back relinked signed stat1 convert fuel p q s).1
unfolding v7fs_mkdir v7fs_rmdir v7fs_rename ◌>>=◌ ◌>>◌ pure get_uid set_uid
mkdir_rmdir_rename_iff K signed stat1 convert seek_back relinked fuel mode p q s small =
    let kept = in_char_iff signed s.uid small in (kept, kept, kept)
