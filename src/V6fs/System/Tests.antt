-- ===== src/V6fs/System/Tests.antt =====
-- The making of a filesystem of src/v6fs.c on a kernel that has no free block.
use retro_fuse.Prelude.{◌≡◌, refl, true, false, none, some, []}
use retro_fuse.V6fs.Kernel.Toy.{toy_kernel}
use retro_fuse.V6fs.System.{Boot, Super, inode_blocks}

abbrev full_super : Super
full_super = record {
  s_isize = 1;
  s_fsize = 6;
  s_nfree = 0;
  s_free = [];
  s_fmod = false;
  s_ronly = false;
}

abbrev full_disk : Boot toy_kernel
full_disk = record {
  clear_tables = λ c. c;
  binit = λ s. (tt, s);
  iinit = λ s. (tt, s);
  get_super = λ c. full_super;
  set_super = λ fp c. c;
  set_root = λ ip s. (tt, s);
  free = λ b s. (tt, s);
  alloc = λ s. (none, record s { error = 28 });
  bwrite = λ b bytes s. (true, s);
}

sizes_run : inode_blocks 6 1 ≡ some 1
unfolding inode_blocks
sizes_run = refl
