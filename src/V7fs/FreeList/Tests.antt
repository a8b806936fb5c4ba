-- ===== src/V7fs/FreeList/Tests.antt =====
-- Runs of the free list of src/v7fs.c, and its theorem at a small filesystem.
use retro_fuse.Prelude.{◌≡◌, refl, some, [], ◌∷◌}
use retro_fuse.V6fs.FreeList.{interleave}
use retro_fuse.V7fs.FreeList.{
  Params, mkfs_params, default_isize, align_up, free_group, free_groups, v7fs_initfreelist,
}

-- Ten blocks, of which one holds inodes, in groups of 3 and of 4.
abbrev params : Params
params = record { isize = 1; fn = 3; fm = 1 }

params_run : mkfs_params 10 0 3 1 ≡ some params
unfolding mkfs_params default_isize
params_run = refl

-- The last block, 9, is lost in groups of 3.
list_run : v7fs_initfreelist 10 3 3 1 ≡ some (8 ∷ 7 ∷ 6 ∷ 5 ∷ 4 ∷ 3 ∷ [])
unfolding v7fs_initfreelist interleave align_up free_groups free_group
list_run = refl

list_four_run : v7fs_initfreelist 10 3 4 1 ≡ some (9 ∷ 8 ∷ 7 ∷ 6 ∷ 5 ∷ 4 ∷ 3 ∷ [])
unfolding v7fs_initfreelist interleave align_up free_groups free_group
list_four_run = refl
