-- ===== src/Bsd211fs/Toy.antt =====
-- A small kernel of 2.11BSD with one file, number 5, owned by user 3 and found under every name. Its
-- memory is the file's inode, a directory's bytes that are still to be read, the blocks of the disk, and
-- the first of them that is free.
use retro_fuse.Prelude.{ℕ, true, false, none, some, List, [], take, drop, ◌==◌, if◌then◌else◌}
use retro_fuse.Prelude.Int.{pos}
use retro_fuse.V6fs.Kernel.{Sys, M}
use retro_fuse.Bsd211fs.Kernel.{Inode, FsStat, Kernel}

pub record Toy : Type 0 where
  pub file : Inode
  pub unread : List ℕ
  pub blocks : ℕ → List ℕ
  pub free : ℕ

abbrev pub old_file : Inode
old_file = record {
  mode = 0x81A4;
  uid = 3;
  gid = 1;
  rdev = 0;
  accessed = false;
  updated = false;
  changed = false;
}

abbrev toy_stat : FsStat
toy_stat = record {
  dev = 0;
  ino = 5;
  mode = 0x81A4;
  nlink = 1;
  uid = 3;
  gid = 1;
  rdev = 0;
  size = 0;
  blksize = 1024;
  blocks = 0;
  atime = 0;
  mtime = 0;
  ctime = 0;
}

abbrev skip : M Toy (Unit {0})
skip s = (tt, s)

-- Root may do everything, and others may not write to the file.
abbrev pub toy_kernel : Kernel
toy_kernel = record {
  Core = Toy;
  refreshclock = skip;
  namei = λ l f p s. (some 5, s);
  iget = λ n s. (some n, s);
  iput = λ ip. skip;
  maknode = λ mode s. (some 5, s);
  ino_stat = λ ip s. ((pos 0, toy_stat), s);
  iupdat = λ ip a m. skip;
  access = λ ip s. (1, record s { error = 13 });
  suser = λ s. (if s.uid == 0 then true else false, s);
  groupmember = λ g s. (false, s);
  open_file = λ p m c s. (0, s);
  close = λ fd. skip;
  link = λ p q. skip;
  unlink = λ p. skip;
  rename = λ p q. skip;
  chmod = λ p m. skip;
  truncate = λ p n. skip;
  ftruncate = λ fd n. skip;
  stat1 = λ p s. (toy_stat, s);
  saccess = λ p m. skip;
  readlink = λ p n s. ([], s);
  symlink = λ p q. skip;
  mkdir = λ p m. skip;
  rmdir = λ p. skip;
  fsync = λ fd. skip;
  read = λ fd n s.
      (take n s.core.unread, record s { core = record s.core { unread = drop n s.core.unread } });
  write = λ fd bytes s. (0, s);
  getf = λ fd s. (none, s);
  set_offset = λ fd n. skip;
  inode = λ c ip. c.file;
  set_inode = λ ip i c. record c { file = i };
  clock = λ c. 100;
  no_atime = λ c. false;
}

abbrev pub as_user : (uid : ℕ) → (unread : List ℕ) → Sys Toy
as_user uid unread = record {
  error = 0;
  uid = uid;
  gid = 1;
  ruid = uid;
  rgid = 1;
  time = (0, 0);
  core = record { file = old_file; unread = unread; blocks = λ b. []; free = 3 };
}
