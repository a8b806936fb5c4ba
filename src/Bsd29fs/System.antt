-- ===== src/Bsd29fs/System.antt =====
-- Making, mounting, syncing and ending a filesystem of 2.9BSD, and its free list and statistics, of
-- src/bsd29fs.c, with `bsd29_zerocore` of src/bsd29adapt.c. The kernel's functions are those of
-- V7fs.System; a block has 1024 bytes. The kernel is configured with UCB_IHASH and UCB_NKB, and a
-- cluster has two blocks.
pub mod Freed
pub mod Success
pub mod Tests
use retro_fuse.Prelude.{
  ℕ, zero, suc, ◌+◌, ◌-◌, ◌*◌, ◌/◌, ◌%◌, ◌^◌, Bool, true, false, not, ◌||◌, Option, none, some,
  List, [], ◌∷◌, ◌++◌, ltb, leb, ◌==◌, if◌then◌else◌, replicate,
}
use retro_fuse.Prelude.Int.{ℤ, pos, neg, ltb_ℤ, eqb_ℤ}
use retro_fuse.Errno.{ebusy, einval}
use retro_fuse.V6fs.Kernel.{
  Sys, M, ◌>>=◌, ◌>>◌, pure, Kernel, clear_error, get_error, last_error, get_uid,
}
use retro_fuse.V6fs.System.{word}
use retro_fuse.V7fs.FreeList.{v7fs_initfreelist}
use retro_fuse.V7fs.Statfs.{nicfree, Group, Read, Answer, ended, filled, v7fs_statfs}
use retro_fuse.V7fs.System.{
  Boot, disk_inode, root_dir, set_dirs, read_super, write_super, time_now, get_gid, free_all,
  v7_zerocore, v7fs_sync, v7fs_shutdown,
}

abbrev pub min_fs_size : ℕ
min_fs_size = 5

abbrev pub max_fs_size : ℕ
max_fs_size = 16777215

abbrev pub max_itable_size : ℕ
max_itable_size = 65500 / 16

abbrev pub max_fn : ℕ
max_fn = 500

-- The inode table and the interleave that `bsd29fs_mkfs` goes on with, or none for -EINVAL.
pub record Params : Type 0 where
  pub isize : ℕ
  pub fn : ℕ
  pub fm : ℕ

unfoldable pub default_isize : (fssize : ℕ) → ℕ
default_isize fssize =
    let n = if leb fssize (5000 / 2) then fssize / 50 else fssize / 25 in
    let n' = if n == 0 then 1 else n in if ltb max_itable_size n' then max_itable_size else n'

abbrev pub adjust_fn : ℕ → ℕ
adjust_fn n = if n == 0 then 10 else if leb max_fn n then max_fn else n

abbrev pub adjust_fm : (n m : ℕ) → ℕ
adjust_fm n m =
    let m' = if n == 0 then 5 else m in if m' == 0 || ltb (adjust_fn n) m' then 3 else m'

unfoldable pub mkfs_params : (fssize isize n m : ℕ) → Option Params
unfolding default_isize
mkfs_params fssize isize n m =
    let size = if isize == 0 then default_isize fssize else isize in
    if ltb fssize min_fs_size || ltb max_fs_size fssize
    then none
    else if ltb size 1 || ltb max_itable_size size || ltb (fssize - 4) size
    then none
    else some (record { isize = size; fn = adjust_fn n; fm = adjust_fm n m })

-- The blocks in the order in which `bsd29_free` is called for them, by the loops of `v7fs_initfreelist`.
unfoldable pub bsd29fs_initfreelist : (fsize isize n m : ℕ) → Option (List ℕ)
bsd29fs_initfreelist fsize isize n m = v7fs_initfreelist fsize isize n m

-- ROOTINO and LOSTFOUNDINO.
abbrev pub root_number : ℕ
root_number = 2

abbrev pub lost_found_number : ℕ
lost_found_number = 3

-- The first block of lost+found and the block of the root directory: entries of 16 bytes.
abbrev pub dot_entries : (ino : ℕ) → List ℕ
dot_entries ino =
    (word ino ++ 46 ∷ replicate 13 0) ++ (word root_number ++ 46 ∷ 46 ∷ replicate 12 0)

abbrev pub lost_found_block : (i : ℕ) → List ℕ
lost_found_block i =
    if i == 0 then dot_entries lost_found_number ++ replicate 992 0 else replicate 1024 0

-- "lost+found"
abbrev pub lost_found_name : List ℕ
lost_found_name = 108 ∷ 111 ∷ 115 ∷ 116 ∷ 43 ∷ 102 ∷ 111 ∷ 117 ∷ 110 ∷ 100 ∷ []

abbrev pub root_block : List ℕ
root_block =
    dot_entries root_number
    ++ (word lost_found_number ++ lost_found_name ++ replicate 4 0)
    ++ replicate 976 0

-- A block number in `di_addr`: the high byte, the low one, the one between them.
abbrev pub addresses : List ℕ → List ℕ
addresses [] = []
addresses (b ∷ bs) = (b / 65536 % 256) ∷ (b % 256) ∷ (b / 256 % 256) ∷ addresses bs

-- The first block of the inode table: the file of bad blocks, the root directory and lost+found, which has
-- the sticky bit and the size of four blocks.
abbrev pub first_inodes : (uid gid : ℕ) → (rootblk : ℕ) → (lfblks : List ℕ) → (time : ℕ) → List ℕ
first_inodes uid gid rootblk lfblks time =
    disk_inode 0x8000 0 0 0 0 (replicate 40 0) time
    ++ disk_inode 0x41FF 3 uid gid 48 (addresses (rootblk ∷ []) ++ replicate 37 0) time
    ++ disk_inode 0x43FF 2 uid gid 4096 (addresses lfblks ++ replicate 25 0) time
    ++ replicate 832 0

module _ (K : Kernel) (B : Boot K) where
  unfoldable pub bsd29_zerocore : M K.Core (Unit {0})
  bsd29_zerocore = v7_zerocore K B

  -- The blocks of lost+found from the i-th on; `none` where one is not there or cannot be written.
  unfoldable pub more_blocks :
      (next : M K.Core (Option (List ℕ))) → (i : ℕ) → Option ℕ → M K.Core (Option (List ℕ))
  more_blocks next i none = pure none
  more_blocks next i (some bn) = do
    failed ← B.bwrite bn (lost_found_block i)
    if failed
        then pure none
        else (do o ← next; elim o [ none ↦ pure none | some bs ↦ pure (some (bn ∷ bs)) ])

  unfoldable pub lost_found_blocks : (left i : ℕ) → M K.Core (Option (List ℕ))
  unfolding more_blocks
  lost_found_blocks zero i = pure (some [])
  lost_found_blocks (suc k) i = do o ← B.alloc; more_blocks (lost_found_blocks k (i + 1)) i o

  -- The blocks of the inode table from the one behind `iblk`; whether one failed. `add_inodes` adds to
  -- the count of free inodes of the superblock in memory.
  module _ (add_inodes : ℕ → M K.Core (Unit {0})) where
    unfoldable pub write_table : (left iblk : ℕ) → (first : List ℕ) → M K.Core Bool
    write_table zero iblk first = pure false
    write_table (suc k) iblk first = do
      add_inodes (if iblk == 0 then 13 else 16)
      failed ← B.bwrite (iblk + 2) (if iblk == 0 then first else replicate 1024 0)
      if failed then pure true else write_table k (iblk + 1) first

    -- Behind the blocks of lost+found, up to the label `exit`.
    unfoldable pub fill_root : (isize : ℕ) → (lfblks : List ℕ) → (rootblk : ℕ) → M K.Core (Unit {0})
    unfolding write_table time_now get_gid
    fill_root isize lfblks rootblk = do
      failed ← B.bwrite rootblk root_block
      if failed then pure tt else (do
        uid ← get_uid
        gid ← get_gid K B
        time ← time_now K B
        failed ← write_table isize 0 (first_inodes uid gid rootblk lfblks time)
        if failed then pure tt else K.update)

    unfoldable pub make_root : (isize : ℕ) → (lfblks : List ℕ) → M K.Core (Unit {0})
    unfolding fill_root
    make_root isize lfblks = do
      o ← B.alloc
      elim o [ none ↦ pure tt | some rootblk ↦ fill_root isize lfblks rootblk ]

    unfoldable pub make_directories : (isize : ℕ) → M K.Core (Unit {0})
    unfolding lost_found_blocks make_root
    make_directories isize = do
      e ← get_error
      if not (e == 0) then pure tt else (do
        o ← lost_found_blocks 5 0
        elim o [ none ↦ pure tt | some lfblks ↦ make_root isize lfblks ])

    -- `none` is an initial free list that never ends.
    unfoldable pub make_filesystem : (fssize : ℕ) → Params → M K.Core (Option ℤ)
    unfolding make_directories bsd29_zerocore bsd29fs_initfreelist
    make_filesystem fssize p = do
      K.refreshclock
      bsd29_zerocore
      B.binit
      clear_error
      time ← time_now K B
      write_super K B (record {
        s_isize = p.isize + 2;
        s_fsize = fssize;
        s_nfree = 0;
        s_free = replicate nicfree 0;
        s_n = p.fn;
        s_m = p.fm;
        s_time = time;
        s_fmod = true;
        s_ronly = false;
      })
      elim (bsd29fs_initfreelist fssize (p.isize + 2) p.fn p.fm) [
        | none ↦ pure none
        | some blocks ↦ (do
          free_all K B blocks
          make_directories p.isize
          bsd29_zerocore
          res ← last_error
          pure (some res))
      ]

    unfoldable pub bsd29fs_mkfs :
        (initialized : Bool) → (fssize isize n m : ℕ) → M K.Core (Option ℤ)
    unfolding make_filesystem
    bsd29fs_mkfs true fssize isize n m = pure (some (neg ebusy))
    bsd29fs_mkfs false fssize isize n m = elim (mkfs_params fssize isize n m) [
      | none ↦ pure (some (neg einval))
      | some p ↦ make_filesystem fssize p
    ]

  -- The virtual disk has blocks of 512 bytes. Its size is given, and the size to set it to, if any, is
  -- part of the result.
  unfoldable pub mount_root : (readonly : Bool) → (dsksize : ℤ) → M K.Core (Option (ℤ × Option ℤ))
  unfolding read_super write_super root_dir set_dirs
  mount_root readonly dsksize = do
    fs ← read_super K B
    let fsize = pos (fs.s_fsize * 2)
    write_super K B (record fs { s_ronly = fs.s_ronly || readonly })
    o ← root_dir K B
    elim o [
      | none ↦ pure none
      | some ip ↦
          set_dirs K B ip
            (if eqb_ℤ dsksize (pos 0) || ltb_ℤ fsize dsksize then some fsize else none)
    ]

  -- `ihinit` sets up the kernel's hash of inodes.
  unfoldable pub bsd29fs_init :
      (ihinit : M K.Core (Unit {0}))
      → (initialized readonly : Bool) → (dsksize : ℤ) → M K.Core (Option (ℤ × Option ℤ))
  unfolding mount_root bsd29_zerocore
  bsd29fs_init ihinit true readonly dsksize = pure (some (neg ebusy, none))
  bsd29fs_init ihinit false readonly dsksize = do
    bsd29_zerocore
    clear_error
    ihinit
    B.binit
    e ← get_error
    if not (e == 0) then (do res ← last_error; pure (some (res, none))) else (do
      B.iinit
      e ← get_error
      if not (e == 0)
          then (do res ← last_error; pure (some (res, none)))
          else mount_root readonly dsksize)

  unfoldable pub bsd29fs_sync : M K.Core ℤ
  bsd29fs_sync = v7fs_sync K B

  unfoldable pub bsd29fs_shutdown : (initialized : Bool) → M K.Core ℤ
  bsd29fs_shutdown initialized = v7fs_shutdown K B initialized

-- As in `v7fs_statfs`, with 16 inodes to a block.
abbrev pub sixteen_to_block : (isize : ℕ) → Answer → Answer
sixteen_to_block isize (ended res) = ended res
sixteen_to_block isize (filled st) =
    filled (record st { f_files = (isize + (2 ^ 64 - 2)) * 16 % 2 ^ 64 })

unfoldable pub bsd29fs_statfs :
    (badblock : ℤ → Bool)
    → (bread : ℤ → Read Group) → (bread_inodes : ℕ → Read (List ℕ)) → (fsize : ℤ) → (isize : ℕ)
    → Group
    → Option Answer
bsd29fs_statfs badblock bread bread_inodes fsize isize g =
    elim (v7fs_statfs badblock bread bread_inodes fsize isize g) [
      | none ↦ none
      | some a ↦ some (sixteen_to_block isize a)
    ]
