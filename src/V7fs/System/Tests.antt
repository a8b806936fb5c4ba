-- ===== src/V7fs/System/Tests.antt =====
-- The making of a filesystem of src/v7fs.c on kernels whose memory is the blocks of the disk.
use retro_fuse.Prelude.{
  ℕ, ◌≡◌, refl, Bool, true, false, none, List, [], ◌∷◌, arith, ◌==◌, if◌then◌else◌, take, drop,
}
use retro_fuse.Prelude.Int.{pos}
use retro_fuse.V6fs.Kernel.{Sys, Kernel, ◌>>=◌, pure, get_uid}
use retro_fuse.V6fs.Kernel.Toy.{toy_inode}
use retro_fuse.V7fs.System.{Boot, Super, write_table, time_now, get_gid}
use retro_fuse.V7fs.System.Blocks.{Device, NewTable, write_table-NewTable}

abbrev Blocks : Type 0
Blocks = ℕ → List ℕ

abbrev disk_kernel : Kernel
disk_kernel = record {
  Core = Blocks;
  refreshclock = λ s. (tt, s);
  namei = λ p l s. (none, s);
  iget = λ n s. (none, s);
  iput = λ ip s. (tt, s);
  maknode = λ m s. (none, s);
  open1 = λ ip r w o s. (0, s);
  close = λ fd s. (tt, s);
  link = λ p q s. (tt, s);
  unlink = λ p s. (tt, s);
  chmod = λ p m s. (tt, s);
  itrunc = λ ip s. (tt, s);
  stat1 = λ ip s. (
    record {
      dev = 0;
      inumber = 0;
      mode = 0;
      nlinks = 0;
      uid = 0;
      gid = 0;
      size0 = 0;
      size1 = 0;
      addr = 0;
      actime = (0, 0);
      modtime = (0, 0);
    },
    s,
  );
  iupdat = λ ip t s. (tt, s);
  access = λ ip p s. (false, s);
  suser = λ s. (true, s);
  update = λ s. (tt, s);
  flush = λ s. (pos 0, s);
  rdwr_read = λ fd n s. ([], s);
  rdwr_write = λ fd bs s. (0, s);
  getf = λ fd s. (none, s);
  set_offset = λ fd w s. (tt, s);
  allow_write = λ fd s. (tt, s);
  rootdir_number = 2;
  inode = λ c ip. toy_inode ip;
  set_inode = λ ip i c. c;
}

abbrev no_super : Super
no_super = record {
  s_isize = 3;
  s_fsize = 10;
  s_nfree = 0;
  s_free = [];
  s_n = 3;
  s_m = 1;
  s_time = 0;
  s_fmod = false;
  s_ronly = false;
}

abbrev put : ℕ → List ℕ → Blocks → Blocks
put b bytes c = λ x. if x == b then bytes else c x

-- A device without a free block, on which a write works just where `works` says so.
abbrev device : (works : Bool) → Boot disk_kernel
device works = record {
  clock = λ c. 65537;
  clear_tables = λ c. c;
  binit = λ s. (tt, s);
  iinit = λ s. (tt, s);
  get_super = λ c. no_super;
  set_super = λ fp c. c;
  set_rootdir = λ ip s. (tt, s);
  set_cdir = λ ip s. (tt, s);
  free = λ b s. (tt, s);
  alloc = λ s. (none, record s { error = 28 });
  bwrite = λ b bytes s. (if works then false else true, record s { core = put b bytes s.core });
}

sound-Device : Device disk_kernel (device true) (λ c. c)
sound-Device = record {
  bwrite_block = λ b bytes s h. ground arith;
  bwrite_frame = λ b c bytes s d. ground (arith, d);
  bwrite_uid = λ b bytes s. refl;
  bwrite_gid = λ b bytes s. refl;
  bwrite_clock = λ b bytes s. refl;
}

abbrev blank : Sys Blocks
blank = record { error = 0; uid = 0; gid = 0; ruid = 0; rgid = 0; time = (0, 0); core = λ b. [] }

-- The mode, links, ids, size and first address of the root directory, whose entries are in block 7.
root_run :
    take 19 (drop 64 ((write_table disk_kernel (device true) 2 0 7 blank).1.core 2))
    ≡ 255 ∷ 65 ∷ 2 ∷ 0 ∷ 0 ∷ 0 ∷ 0 ∷ 0 ∷ 0 ∷ 0 ∷ 32 ∷ 0 ∷ 0 ∷ 7 ∷ 0 ∷ 0 ∷ 0 ∷ 0 ∷ 0 ∷ []
unfolding write_table ◌>>=◌ pure get_uid get_gid time_now
root_run = refl

write_table-NewTable_example :
    NewTable 0 0 7 65537 2 (λ b. []) (write_table disk_kernel (device true) 2 0 7 blank).1.core
unfolding write_table ◌>>=◌ pure get_uid get_gid time_now
write_table-NewTable_example =
    write_table-NewTable disk_kernel (device true) (λ c. c) sound-Device 2 7 blank refl
