-- ===== src/Bsd29fs/System/Tests.antt =====
-- The making of the smallest filesystem of src/bsd29fs.c on a kernel that has no block to give.
use retro_fuse.Prelude.{ℕ, ◌≡◌, refl, true, false, none, some, List, [], ◌∷◌, ◌++◌, count}
use retro_fuse.Prelude.Int.{pos}
use retro_fuse.V6fs.Kernel.{M}
use retro_fuse.V6fs.Kernel.Toy.{Toy, toy_kernel, toy_state}
use retro_fuse.V7fs.FreeList.Once.{freed}
use retro_fuse.V7fs.System.{Boot, Super}
use retro_fuse.Bsd29fs.System.{Params, default_isize, mkfs_params, bsd29fs_mkfs}
use retro_fuse.Bsd29fs.System.Freed.{LogsFrees}
use retro_fuse.Bsd29fs.System.Success.{bsd29fs_mkfs_lem}

abbrev skip : M Toy (Unit {0})
skip s = (tt, s)

abbrev no_super : Super
no_super = record {
  s_isize = 3;
  s_fsize = 5;
  s_nfree = 0;
  s_free = [];
  s_n = 10;
  s_m = 5;
  s_time = 0;
  s_fmod = true;
  s_ronly = false;
}

-- No block is ever given out; those that are freed are noted.
abbrev full : Boot toy_kernel
full = record {
  clock = λ c. 0;
  clear_tables = λ c. c;
  binit = skip;
  iinit = skip;
  get_super = λ c. no_super;
  set_super = λ fs c. c;
  set_rootdir = λ ip. skip;
  set_cdir = λ ip. skip;
  free = λ b s. (tt, record s { core = record s.core { before = s.core.before ++ (b ∷ []) } });
  alloc = λ s. (none, s);
  bwrite = λ b bytes s. (false, s);
}

abbrev smallest : Params
smallest = record { isize = 1; fn = 10; fm = 5 }

smallest_taken : mkfs_params 5 0 0 0 ≡ some smallest
unfolding mkfs_params default_isize
smallest_taken = refl

-- The field `before` of the kernel's memory holds the numbers of the blocks that were freed.
full-LogsFrees : LogsFrees toy_kernel full (λ n. skip)
full-LogsFrees = record {
  log = λ c. c.before;
  log_free = λ b s. refl;
  log_refreshclock = λ s. refl;
  log_clear_tables = λ c. refl;
  log_binit = λ s. refl;
  log_set_super = λ fs c. refl;
  log_alloc = λ s. refl;
  log_bwrite = λ b bytes s. refl;
  log_add_inodes = λ n s. refl;
  log_update = λ s. refl;
}

bsd29fs_mkfs_lem_example :
    let r = bsd29fs_mkfs toy_kernel full (λ n. skip) false 5 0 0 0 toy_state in
    (bs : List ℕ) × (r.1.core.before ≡ bs)
    × ((b : ℕ) → count b bs ≡ freed 5 3 10 b)
    × (r.0 ≡ some (pos 0))
unfolding full-LogsFrees
bsd29fs_mkfs_lem_example =
    bsd29fs_mkfs_lem toy_kernel full (λ n. skip) full-LogsFrees 5 0 0 0 smallest toy_state
      smallest_taken
