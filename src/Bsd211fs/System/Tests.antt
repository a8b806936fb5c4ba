-- ===== src/Bsd211fs/System/Tests.antt =====
-- The making of a root directory of src/bsd211fs.c on a small disk.
use retro_fuse.Prelude.{
  ℕ, ◌+◌, ◌<◌, ◌≡◌, refl, ap, true, false, Option, none, some, List, [], arith, ◌==◌, if◌then◌else◌,
}
use retro_fuse.Prelude.Int.{pos}
use retro_fuse.V6fs.Kernel.{Sys, M, ◌>>=◌, ◌>>◌, pure, clear_error, get_error, last_error}
use retro_fuse.Bsd211fs.Kernel.{read_clock}
use retro_fuse.Bsd211fs.Toy.{Toy, toy_kernel, as_user}
use retro_fuse.Bsd211fs.System.{
  Super, Boot, unless_error, read_super, write_super, fill_block, new_block, put_inodes,
  write_inodes, bsd211fs_initrootdir,
}
use retro_fuse.Bsd211fs.System.Root.{Device, Made, initrootdir-Made}

abbrev skip : M Toy (Unit {0})
skip s = (tt, s)

abbrev no_super : Super
no_super = record {
  fs_isize = 3;
  fs_fsize = 20;
  fs_step = 2;
  fs_cyl = 5;
  fs_time = 0;
  fs_fmod = true;
  fs_ronly = false;
  fs_ilock = false;
  fs_flock = false;
  fs_tfree = 0;
  fs_tinode = 16;
  fs_lasti = 0;
  fs_nbehind = 0;
  fs_flags = (false, false);
}

abbrev put_block : ℕ → List ℕ → (ℕ → List ℕ) → ℕ → List ℕ
put_block b bytes blocks c = if c == b then bytes else blocks c

abbrev disk : Boot toy_kernel
disk = record {
  clear_core = λ c. c;
  ihinit = skip;
  bhinit = skip;
  binit = skip;
  nchinit = skip;
  get_super = λ c. no_super;
  set_super = λ fs c. c;
  disk_super = λ bytes. no_super;
  iunlock = λ ip. skip;
  set_rootdir = λ ip. skip;
  set_cdir = λ ip. skip;
  set_groups = λ gs. skip;
  unlimit = skip;
  free = λ b. skip;
  balloc = λ s. (some s.core.free, record s { core = record s.core { free = s.core.free + 1 } });
  bread = λ b s. ((0, s.core.blocks b), s);
  bwrite = λ b bytes s.
      (tt, record s { core = record s.core { blocks = put_block b bytes s.core.blocks } });
  ufs_sync = λ s. (0, s);
  dsk_flush = λ s. (pos 0, s);
}

abbrev content : Toy → ℕ → List ℕ
content c = c.blocks

abbrev Used : Toy → ℕ → Type 0
Used c b = b < c.free

given : Option ℕ → ℕ
given none = 0
given (some b) = b

number : (s : Sys Toy) (b : ℕ) → (disk.balloc s).0 ≡ some b → s.core.free ≡ b
unfolding given
number s b e = ap given e

is_there : Option ℕ → ℕ
is_there none = 0
is_there (some b) = 1

never_full : (s : Sys Toy) → (disk.balloc s).0 ≡ none → ⊥
unfolding is_there
never_full s e = let no : 1 ≡ 0 = ap is_there e in omega (arith, no)

disk-Device : Device toy_kernel disk content Used
disk-Device = record {
  bwrite_block = λ b bytes s h. ground arith;
  bwrite_frame = λ b c bytes s other. ground (arith, other);
  bwrite_used = λ b c bytes s h. h;
  balloc_error = λ s e. absurd (never_full s e);
  balloc_fresh = λ s b e h. omega (arith, number s b e, h);
  balloc_used = λ s b e. omega (arith, number s b e);
  balloc_kept = λ s c h. omega (arith, h);
  balloc_frame = λ s c h. refl;
  bread_block = λ b s h. refl;
  bread_frame = λ b c s. refl;
  super_frame = λ fs c core. refl;
}

abbrev fresh : Sys Toy
fresh = as_user 0 []

initrootdir-Made_example :
    Made toy_kernel disk content Used disk-Device fresh
      (bsd211fs_initrootdir toy_kernel disk fresh).1
unfolding bsd211fs_initrootdir new_block fill_block write_inodes put_inodes read_super write_super
    unless_error ◌>>=◌ ◌>>◌ pure clear_error get_error last_error read_clock
initrootdir-Made_example =
    initrootdir-Made toy_kernel disk content Used disk-Device fresh (omega arith) refl
