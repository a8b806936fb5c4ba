-- ===== src/V6fs/System.antt =====
-- Making, mounting and ending a filesystem, and the ids of the caller: src/v6fs.c, with `v6_zerocore`
-- of src/v6adapt.c. `v6fs_initialized` and the size of the virtual disk are passed explicitly.
pub mod Mkfs
pub mod Tests
use retro_fuse.Prelude.{
  ℕ, zero, suc, ◌+◌, ◌-◌, ◌*◌, ◌/◌, ◌%◌, Bool, true, false, not, ◌&&◌, ◌||◌, Option, none, some,
  List, [], ◌∷◌, ◌++◌, ltb, ◌==◌, if◌then◌else◌, replicate, take,
}
use retro_fuse.Prelude.Int.{ℤ, pos, neg, ltb_ℤ, eqb_ℤ}
use retro_fuse.Errno.{ebusy, einval}
use retro_fuse.IdMap.{IdMap, addidmap}
use retro_fuse.V6fs.Stat.{map_host_id}
use retro_fuse.V6fs.FreeList.{initfreelist}
use retro_fuse.V6fs.Kernel.{
  Sys, M, ◌>>=◌, ◌>>◌, pure, Kernel, clear_error, get_error, last_error, get_uid, get_time,
  read_inode, write_inode, begin,
}
use retro_fuse.V6fs.Attributes.{is_given}

-- The superblock in memory.
pub record Super : Type 0 where
  pub s_isize : ℕ
  pub s_fsize : ℕ
  pub s_nfree : ℕ
  pub s_free : List ℕ
  pub s_fmod : Bool
  pub s_ronly : Bool

-- More of the kernel: clearing its tables, the buffer pool, the mount of the root, the superblock, and
-- blocks. `bwrite` writes a whole block and answers whether the buffer's error flag is set.
pub record Boot (K : Kernel) : Type 0 where
  pub clear_tables : K.Core → K.Core
  pub binit : M K.Core (Unit {0})
  pub iinit : M K.Core (Unit {0})
  pub get_super : K.Core → Super
  pub set_super : Super → K.Core → K.Core
  pub set_root : ℕ → M K.Core (Unit {0})
  pub free : ℕ → M K.Core (Unit {0})
  pub alloc : M K.Core (Option ℕ)
  pub bwrite : (blkno : ℕ) → List ℕ → M K.Core Bool

abbrev pub word : ℕ → List ℕ
word n = (n % 256) ∷ (n / 256 % 256) ∷ []

-- The first block of the root directory: the entries `..` and `.` of inode 1.
abbrev pub root_entries : List ℕ
root_entries =
    (word 1 ++ 46 ∷ 46 ∷ replicate 12 0) ++ (word 1 ++ 46 ∷ replicate 13 0) ++ replicate 480 0

-- The first block of the inode table: the root directory, with its mode, links, ids, size, block and
-- times.
abbrev pub root_inode : (uid gid blkno : ℕ) → ℕ × ℕ → List ℕ
root_inode uid gid blkno t =
    word 0xC1FF
    ++ (2 ∷ uid ∷ gid ∷ 0 ∷ [])
    ++ word 32
    ++ word blkno
    ++ replicate 14 0
    ++ word t.0
    ++ word t.1
    ++ word t.0
    ++ word t.1
    ++ replicate 480 0

-- The sizes of a new filesystem, or none for -EINVAL.
unfoldable pub inode_blocks : (fssize isize : ℕ) → Option ℕ
inode_blocks fssize isize =
    let n = if isize == 0 then fssize / (43 + fssize / 1000) else isize in
    if ltb fssize 5 || ltb 65535 fssize
    then none
    else if ltb n 1 || ltb 4096 n || ltb (fssize - 4) n
    then none
    else some n

module _ (K : Kernel) (B : Boot K) where
  unfoldable pub zerocore : M K.Core (Unit {0})
  zerocore s = (
    tt,
    record {
      error = 0;
      uid = 0;
      gid = 0;
      ruid = 0;
      rgid = 0;
      time = (0, 0);
      core = B.clear_tables s.core;
    },
  )

  unfoldable pub read_super : M K.Core Super
  read_super s = (B.get_super s.core, s)

  unfoldable pub write_super : Super → M K.Core (Unit {0})
  write_super fp s = (tt, record s { core = B.set_super fp s.core })

  unfoldable pub get_gid : M K.Core ℕ
  get_gid s = (s.gid, s)

  pub free_all : List ℕ → M K.Core (Unit {0})
  free_all [] = pure tt
  free_all (b ∷ bs) = do B.free b; free_all bs

  -- The blocks of the inode table from the one behind `i`; whether one failed.
  pub write_table : (left i : ℕ) → (rootdirblkno : ℕ) → M K.Core Bool
  write_table zero i rootdirblkno = pure false
  write_table (suc k) i rootdirblkno = do
    uid ← get_uid
    gid ← get_gid
    t ← get_time
    failed ←
        B.bwrite (i + 2) (if i == 0 then root_inode uid gid rootdirblkno t else replicate 512 0)
    if failed then pure true else write_table k (i + 1) rootdirblkno

  -- Behind the free list, up to the label `exit`.
  unfoldable pub fill_root : (isize : ℕ) → (rootdirblkno : ℕ) → M K.Core (Unit {0})
  unfolding write_table
  fill_root isize rootdirblkno = do
    failed ← B.bwrite rootdirblkno root_entries
    if failed then pure tt else (do
      failed ← write_table isize 0 rootdirblkno
      if failed then pure tt else (do
        fp ← read_super
        write_super
            (record fp { s_free = take fp.s_nfree fp.s_free ++ replicate (100 - fp.s_nfree) 0 })
        K.update))

  unfoldable pub make_root : (isize : ℕ) → M K.Core (Unit {0})
  make_root isize = do
    e ← get_error
    if not (e == 0) then pure tt else (do
      o ← B.alloc
      elim o [ none ↦ pure tt | some rootdirblkno ↦ fill_root isize rootdirblkno ])

  -- `none` is an initial free list that never ends.
  unfoldable pub make_filesystem : (fssize isize n m : ℕ) → M K.Core (Option ℤ)
  unfolding free_all
  make_filesystem fssize isize n m = do
    K.refreshclock
    zerocore
    B.binit
    clear_error
    write_super (record {
      s_isize = isize;
      s_fsize = fssize;
      s_nfree = 0;
      s_free = replicate 100 0;
      s_fmod = true;
      s_ronly = false;
    })
    elim (initfreelist fssize isize n m) [
      | none ↦ pure none
      | some blocks ↦ (do
        free_all blocks
        make_root isize
        zerocore
        res ← last_error
        pure (some res))
    ]

  unfoldable pub v6fs_mkfs : (initialized : Bool) → (fssize isize n m : ℕ) → M K.Core (Option ℤ)
  v6fs_mkfs true fssize isize n m = pure (some (neg ebusy))
  v6fs_mkfs false fssize isize n m = elim (inode_blocks fssize isize) [
    | none ↦ pure (some (neg einval))
    | some blocks ↦ make_filesystem fssize blocks n m
  ]

  -- The virtual disk's size is given, and the size to set it to, if any, is part of the result, which
  -- is `none` for the access through a null pointer where the root's inode is not there.
  unfoldable pub mount_root : (readonly : Bool) → (dsksize : ℤ) → M K.Core (Option (ℤ × Option ℤ))
  mount_root readonly dsksize = do
    fs ← read_super
    let fsize = pos fs.s_fsize
    write_super (record fs { s_ronly = fs.s_ronly || readonly })
    o ← K.iget 1
    elim o [
      | none ↦ pure none
      | some ip ↦ (do
        i ← read_inode K ip
        write_inode K ip (record i { locked = false })
        B.set_root ip
        pure (
            some
              (pos 0, if eqb_ℤ dsksize (pos 0) || ltb_ℤ fsize dsksize then some fsize else none)))
    ]

  unfoldable pub v6fs_init :
      (initialized readonly : Bool) → (dsksize : ℤ) → M K.Core (Option (ℤ × Option ℤ))
  v6fs_init true readonly dsksize = pure (some (neg ebusy, none))
  v6fs_init false readonly dsksize = do
    zerocore
    clear_error
    B.binit
    e ← get_error
    if not (e == 0) then (do res ← last_error; pure (some (res, none))) else (do
      B.iinit
      e ← get_error
      if not (e == 0)
          then (do res ← last_error; pure (some (res, none)))
          else mount_root readonly dsksize)

  unfoldable pub v6fs_sync : M K.Core ℤ
  v6fs_sync = do
    begin K
    K.update
    res ← K.flush
    e ← get_error
    if not (e == 0) then last_error else pure res

  unfoldable pub v6fs_shutdown : (initialized : Bool) → M K.Core ℤ
  v6fs_shutdown false = pure (pos 0)
  v6fs_shutdown true = do res ← v6fs_sync; zerocore; pure res

-- The new value of an id: the old one for -1. `none` is the invalid access of a lookup.
unfoldable pub new_id : (char_is_signed : Bool) → IdMap → (hostid old : ℕ) → Option ℕ
new_id char_is_signed map hostid old =
    if is_given hostid then map_host_id char_is_signed map hostid else some old

-- Both ids, once they are mapped.
unfoldable pub set_uids : {C : Type 0} → Option ℕ → Option ℕ → Sys C → Option (ℤ × Sys C)
set_uids none e s = none
set_uids (some r) none s = none
set_uids (some r) (some e) s = some (pos 0, record s { ruid = r; uid = e })

unfoldable pub set_gids : {C : Type 0} → Option ℕ → Option ℕ → Sys C → Option (ℤ × Sys C)
set_gids none e s = none
set_gids (some r) none s = none
set_gids (some r) (some e) s = some (pos 0, record s { rgid = r; gid = e })

unfoldable pub v6fs_setreuid :
    {C : Type 0} → (char_is_signed : Bool) → IdMap → (ruid euid : ℕ) → Sys C → Option (ℤ × Sys C)
unfolding set_uids
v6fs_setreuid char_is_signed map ruid euid s =
    set_uids (new_id char_is_signed map ruid s.ruid) (new_id char_is_signed map euid s.uid) s

unfoldable pub v6fs_setregid :
    {C : Type 0} → (char_is_signed : Bool) → IdMap → (rgid egid : ℕ) → Sys C → Option (ℤ × Sys C)
unfolding set_gids
v6fs_setregid char_is_signed map rgid egid s =
    set_gids (new_id char_is_signed map rgid s.rgid) (new_id char_is_signed map egid s.gid) s
