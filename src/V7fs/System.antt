-- ===== src/V7fs/System.antt =====
-- Making, mounting and ending a filesystem of the seventh edition: `v7fs_mkfs`, `v7fs_init`, `v7fs_sync`
-- and `v7fs_shutdown` of src/v7fs.c, with `v7_zerocore` of src/v7adapt.c. `v7fs_initialized` and the size
-- of the virtual disk are passed explicitly; the kernel's functions are those of V6fs.Kernel and Boot.
pub mod Blocks
pub mod Success
pub mod Tests
use retro_fuse.Prelude.{
  ℕ, zero, suc, ◌+◌, ◌-◌, ◌/◌, ◌%◌, Bool, true, false, not, ◌||◌, Option, none, some, List, [], ◌∷◌,
  ◌++◌, ◌==◌, if◌then◌else◌, replicate, take,
}
use retro_fuse.Prelude.Int.{ℤ, pos, neg, ltb_ℤ, eqb_ℤ}
use retro_fuse.Errno.{ebusy, einval}
use retro_fuse.V6fs.Kernel.{
  Sys, M, ◌>>=◌, ◌>>◌, pure, Kernel, clear_error, get_error, last_error, get_uid, read_inode,
  write_inode, begin,
}
use retro_fuse.V6fs.System.{word}
use retro_fuse.V7fs.FreeList.{Params, mkfs_params, v7fs_initfreelist}
use retro_fuse.V7fs.Statfs.{nicfree}

-- The fields of the superblock in memory that are set. `s_tfree` and `s_tinode` are 0.
pub record Super : Type 0 where
  pub s_isize : ℕ
  pub s_fsize : ℕ
  pub s_nfree : ℕ
  pub s_free : List ℕ
  pub s_n : ℕ
  pub s_m : ℕ
  pub s_time : ℕ
  pub s_fmod : Bool
  pub s_ronly : Bool

-- More of the kernel: its clock `v7_time`, clearing its tables, the buffer pool, the mount of the root,
-- the superblock, the root and the current directory, and blocks. `bwrite` writes a whole block and
-- answers whether the buffer's error flag is set.
pub record Boot (K : Kernel) : Type 0 where
  pub clock : K.Core → ℕ
  pub clear_tables : K.Core → K.Core
  pub binit : M K.Core (Unit {0})
  pub iinit : M K.Core (Unit {0})
  pub get_super : K.Core → Super
  pub set_super : Super → K.Core → K.Core
  pub set_rootdir : ℕ → M K.Core (Unit {0})
  pub set_cdir : ℕ → M K.Core (Unit {0})
  pub free : ℕ → M K.Core (Unit {0})
  pub alloc : M K.Core (Option ℕ)
  pub bwrite : (blkno : ℕ) → List ℕ → M K.Core Bool

-- A 32-bit number on disk: the high word first.
abbrev pub long : ℕ → List ℕ
long n = word (n / 65536 % 65536) ++ word (n % 65536)

-- ROOTINO
abbrev pub root_number : ℕ
root_number = 2

-- The block of the root directory: the entries `.` and `..`.
abbrev pub root_entries : List ℕ
root_entries =
    (word root_number ++ 46 ∷ replicate 13 0)
    ++ (word root_number ++ 46 ∷ 46 ∷ replicate 12 0)
    ++ replicate 480 0

-- `struct v7_dinode`: mode, links, ids, size, addresses and three times.
abbrev pub disk_inode : (mode nlink uid gid size : ℕ) → (addr : List ℕ) → (time : ℕ) → List ℕ
disk_inode mode nlink uid gid size addr time =
    word mode
    ++ word nlink
    ++ word uid
    ++ word gid
    ++ long size
    ++ addr
    ++ long time
    ++ long time
    ++ long time

-- The first block number in `di_addr`: the high byte, the low one, the one between them.
abbrev pub block_address : ℕ → List ℕ
block_address b = (b / 65536 % 256) ∷ (b % 256) ∷ (b / 256 % 256) ∷ replicate 37 0

-- The first block of the inode table: the file of bad blocks and the root directory.
abbrev pub first_inodes : (uid gid rootdirblkno time : ℕ) → List ℕ
first_inodes uid gid rootdirblkno time =
    disk_inode 0x8000 0 0 0 0 (replicate 40 0) time
    ++ disk_inode 0x41FF 2 uid gid 32 (block_address rootdirblkno) time
    ++ replicate 384 0

abbrev pub table_block : (uid gid rootdirblkno time : ℕ) → (iblk : ℕ) → List ℕ
table_block uid gid rootdirblkno time iblk =
    if iblk == 0 then first_inodes uid gid rootdirblkno time else replicate 512 0

module _ (K : Kernel) (B : Boot K) where
  unfoldable pub v7_zerocore : M K.Core (Unit {0})
  v7_zerocore s = (
    tt,
    record {
      error = 0;
      uid = 0;
      gid = 0;
      ruid = 0;
      rgid = 0;
      time = (0, 0);
      core = B.clear_tables s.core;
    },
  )

  unfoldable pub read_super : M K.Core Super
  read_super s = (B.get_super s.core, s)

  unfoldable pub write_super : Super → M K.Core (Unit {0})
  write_super fp s = (tt, record s { core = B.set_super fp s.core })

  unfoldable pub time_now : M K.Core ℕ
  time_now s = (B.clock s.core, s)

  unfoldable pub free_all : List ℕ → M K.Core (Unit {0})
  free_all [] = pure tt
  free_all (b ∷ bs) = do B.free b; free_all bs

  unfoldable pub get_gid : M K.Core ℕ
  get_gid s = (s.gid, s)

  -- The blocks of the inode table from the one behind `iblk`; whether one failed.
  unfoldable pub write_table : (left iblk : ℕ) → (rootdirblkno : ℕ) → M K.Core Bool
  unfolding time_now get_gid
  write_table zero iblk rootdirblkno = pure false
  write_table (suc k) iblk rootdirblkno = do
    uid ← get_uid
    gid ← get_gid
    time ← time_now
    failed ← B.bwrite (iblk + 2) (table_block uid gid rootdirblkno time iblk)
    if failed then pure true else write_table k (iblk + 1) rootdirblkno

  -- Behind the free list, up to the label `exit`.
  unfoldable pub fill_root : (isize : ℕ) → (rootdirblkno : ℕ) → M K.Core (Unit {0})
  unfolding write_table read_super write_super
  fill_root isize rootdirblkno = do
    failed ← B.bwrite rootdirblkno root_entries
    if failed then pure tt else (do
      failed ← write_table isize 0 rootdirblkno
      if failed then pure tt else (do
        fp ← read_super
        write_super
            (record fp { s_free = take fp.s_nfree fp.s_free ++ replicate (nicfree - fp.s_nfree) 0 })
        K.update))

  unfoldable pub make_root : (isize : ℕ) → M K.Core (Unit {0})
  unfolding fill_root
  make_root isize = do
    e ← get_error
    if not (e == 0) then pure tt else (do
      o ← B.alloc
      elim o [ none ↦ pure tt | some rootdirblkno ↦ fill_root isize rootdirblkno ])

  -- `none` is an initial free list that never ends.
  unfoldable pub make_filesystem : (fssize : ℕ) → Params → M K.Core (Option ℤ)
  unfolding free_all make_root v7_zerocore
  make_filesystem fssize p = do
    K.refreshclock
    v7_zerocore
    B.binit
    clear_error
    time ← time_now
    write_super (record {
      s_isize = p.isize + 2;
      s_fsize = fssize;
      s_nfree = 0;
      s_free = replicate nicfree 0;
      s_n = p.fn;
      s_m = p.fm;
      s_time = time;
      s_fmod = true;
      s_ronly = false;
    })
    elim (v7fs_initfreelist fssize (p.isize + 2) p.fn p.fm) [
      | none ↦ pure none
      | some blocks ↦ (do
        free_all blocks
        make_root p.isize
        v7_zerocore
        res ← last_error
        pure (some res))
    ]

  unfoldable pub v7fs_mkfs : (initialized : Bool) → (fssize isize n m : ℕ) → M K.Core (Option ℤ)
  unfolding make_filesystem
  v7fs_mkfs true fssize isize n m = pure (some (neg ebusy))
  v7fs_mkfs false fssize isize n m = elim (mkfs_params fssize isize n m) [
    | none ↦ pure (some (neg einval))
    | some p ↦ make_filesystem fssize p
  ]

  -- An inode of the root, unlocked; `none` is the access through a null pointer.
  unfoldable pub root_dir : M K.Core (Option ℕ)
  root_dir = do
    o ← K.iget root_number
    elim o [
      | none ↦ pure none
      | some ip ↦ (do
        i ← read_inode K ip
        write_inode K ip (record i { locked = false })
        pure (some ip))
    ]

  unfoldable pub set_dirs : (ip : ℕ) → (size : Option ℤ) → M K.Core (Option (ℤ × Option ℤ))
  unfolding root_dir
  set_dirs ip size = do
    B.set_rootdir ip
    o ← root_dir
    elim o [ none ↦ pure none | some jp ↦ (do B.set_cdir jp; pure (some (pos 0, size))) ]

  -- The virtual disk's size is given, and the size to set it to, if any, is part of the result.
  unfoldable pub mount_root : (readonly : Bool) → (dsksize : ℤ) → M K.Core (Option (ℤ × Option ℤ))
  unfolding set_dirs
  mount_root readonly dsksize = do
    fs ← read_super
    let fsize = pos fs.s_fsize
    write_super (record fs { s_ronly = fs.s_ronly || readonly })
    o ← root_dir
    elim o [
      | none ↦ pure none
      | some ip ↦
          set_dirs ip (if eqb_ℤ dsksize (pos 0) || ltb_ℤ fsize dsksize then some fsize else none)
    ]

  unfoldable pub v7fs_init :
      (initialized readonly : Bool) → (dsksize : ℤ) → M K.Core (Option (ℤ × Option ℤ))
  unfolding mount_root
  v7fs_init true readonly dsksize = pure (some (neg ebusy, none))
  v7fs_init false readonly dsksize = do
    v7_zerocore
    clear_error
    B.binit
    e ← get_error
    if not (e == 0) then (do res ← last_error; pure (some (res, none))) else (do
      B.iinit
      e ← get_error
      if not (e == 0)
          then (do res ← last_error; pure (some (res, none)))
          else mount_root readonly dsksize)

  unfoldable pub v7fs_sync : M K.Core ℤ
  v7fs_sync = do
    begin K
    K.update
    res ← K.flush
    e ← get_error
    if not (e == 0) then last_error else pure res

  unfoldable pub v7fs_shutdown : (initialized : Bool) → M K.Core ℤ
  unfolding v7fs_sync
  v7fs_shutdown false = pure (pos 0)
  v7fs_shutdown true = do res ← v7fs_sync; v7_zerocore; pure res
