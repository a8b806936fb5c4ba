-- ===== src/V7fs/Rename/Tests.antt =====
-- The calls of src/v7fs.c that run as root, on a kernel with one file.
use retro_fuse.Prelude.{ℕ, true, Option, none, List, [], ◌∷◌, arith}
use retro_fuse.Prelude.Int.{ℤ, pos}
use retro_fuse.V6fs.Kernel.{M, Sys}
use retro_fuse.V6fs.Kernel.Toy.{Toy, toy_kernel, toy_state}
use retro_fuse.V7fs.Attributes.{V7Stat, HostStat}
use retro_fuse.V7fs.Calls.{v7fs_mkdir}
use retro_fuse.V7fs.Listing.{v7fs_rmdir}
use retro_fuse.V7fs.Rename.{relink, v7fs_rename}
use retro_fuse.V7fs.Rename.Privilege.{Keeps, mkdir_rmdir_rename_iff}

abbrev file_stat : ℕ → M Toy V7Stat
file_stat ip s = (
  record {
    dev = 0;
    ino = 5;
    mode = 0x81A4;
    nlink = 1;
    uid = 3;
    gid = 1;
    rdev = 0;
    size = 0;
    atime = 0;
    mtime = 0;
    ctime = 0;
  },
  s,
)

abbrev no_ids : V7Stat → Option HostStat
no_ids v = none

abbrev seek_fails : ℕ → M Toy ℤ
seek_fails fd s = (pos 0, s)

abbrev relinked : ℕ → (ℕ → ℕ) → M Toy ℤ
relinked = relink toy_kernel (λ ip s. (tt, s))

abbrev new_name : List ℕ
new_name = 110 ∷ 101 ∷ 119 ∷ []

-- The user 300 makes, removes and renames the directory "new".
mkdir_rmdir_rename_iff_example :
    let s : Sys Toy = record toy_state { uid = 300 } in
    Keeps true s (v7fs_mkdir toy_kernel true new_name 0x1ED s).1
    × Keeps true s (v7fs_rmdir toy_kernel file_stat no_ids true 9 new_name s).1
    × Keeps true s
        (v7fs_rename toy_kernel seek_fails relinked true file_stat no_ids 9 new_name (102 ∷ []) s).1
mkdir_rmdir_rename_iff_example =
    mkdir_rmdir_rename_iff toy_kernel true file_stat no_ids seek_fails relinked 9 0x1ED new_name
      (102 ∷ []) (record toy_state { uid = 300 }) (omega arith)
