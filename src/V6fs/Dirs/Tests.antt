-- ===== src/V6fs/Dirs/Tests.antt =====
-- Runs of the path functions of src/v6fs.c, and the theorems on directories at concrete calls.
use retro_fuse.Prelude.{◌≡◌, refl, true, false, some, [], ◌∷◌}
use retro_fuse.Prelude.Int.{pos}
use retro_fuse.Errno.{enoent}
use retro_fuse.V6fs.Kernel.{FilePath, Sys}
use retro_fuse.V6fs.Kernel.Toy.{Toy, toy_kernel, toy_stops, toy_state}
use retro_fuse.V6fs.Dirs.{
  dirname, reverse_onto, skip_slashes, skip_component, v6fs_isdirlinkpath, v6fs_isindir,
}
use retro_fuse.V6fs.Dirs.Ancestors.{v6fs_isindir_stale}

-- `/f/gh/` and `/f`
abbrev deep : FilePath
deep = 47 ∷ 102 ∷ 47 ∷ 103 ∷ 104 ∷ 47 ∷ []

abbrev shallow : FilePath
shallow = 47 ∷ 102 ∷ []

-- `f/..`
abbrev link_path : FilePath
link_path = 102 ∷ 47 ∷ 46 ∷ 46 ∷ []

-- `g`
abbrev new_name : FilePath
new_name = 103 ∷ []

dirname_run : dirname deep ≡ shallow
unfolding dirname skip_slashes reverse_onto skip_component
dirname_run = refl

dirname_root : dirname shallow ≡ 47 ∷ []
unfolding dirname skip_slashes reverse_onto skip_component
dirname_root = refl

link_run : v6fs_isdirlinkpath link_path ≡ true
unfolding v6fs_isdirlinkpath
link_run = refl

plain_run : v6fs_isdirlinkpath deep ≡ false
unfolding v6fs_isdirlinkpath
plain_run = refl

-- The state behind a lookup that has found nothing.
abbrev stale_state : Sys Toy
stale_state = record toy_state { error = enoent }

-- The root directory, number 1, is an ancestor of the path.
v6fs_isindir_stale_example : (v6fs_isindir toy_kernel deep 1 stale_state).0 ≡ some (pos 0)
v6fs_isindir_stale_example = v6fs_isindir_stale toy_kernel toy_stops deep 1 stale_state refl
