-- ===== src/V6fs/Kernel.antt =====
-- The ancient kernel as src/v6fs.c calls it. Its memory is an unknown state `Core`; the fields of
-- the structure `v6_u` that the interface reads or writes, and the clock `v6_time`, are the record
-- `Sys` around it. A call of the kernel takes the state and returns its result and the new state.
pub mod Counts
pub mod Balance
pub mod Toy
pub mod ReadOnly
use retro_fuse.Prelude.{ℕ, ◌+◌, Bool, true, false, Option, none, some, List, if◌then◌else◌, ◌==◌}
use retro_fuse.Prelude.Int.{ℤ, pos, neg}
use retro_fuse.V6fs.Stat.{V6Stat}

abbrev pub FilePath : Type 0
FilePath = List ℕ

-- `u_error`, the effective and real ids, and the two words of the clock.
pub record Sys (C : Type 0) : Type 0 where
  pub error : ℕ
  pub uid : ℕ
  pub gid : ℕ
  pub ruid : ℕ
  pub rgid : ℕ
  pub time : ℕ × ℕ
  pub core : C

abbrev pub M : Type 0 → Type 0 → Type 0
M C A = Sys C → A × Sys C

infixl 5 ◌>>=◌ ◌>>◌
unfoldable pub ◌>>=◌ : {C A B : Type 0} → M C A → (A → M C B) → M C B
◌>>=◌ m f s = let (a, t) = m s in f a t

unfoldable pub ◌>>◌ : {C B : Type 0} → M C (Unit {0}) → M C B → M C B
unfolding ◌>>=◌
m >> k = m >>= λ _. k

unfoldable pub pure : {C A : Type 0} → A → M C A
pure a s = (a, s)

-- The fields of an inode that the interface reads or writes; flags as truth values.
pub record Inode : Type 0 where
  pub number : ℕ
  pub mode : ℕ
  pub uid : ℕ
  pub gid : ℕ
  pub nlink : ℕ
  pub addr : ℕ
  pub locked : Bool
  pub accessed : Bool
  pub updated : Bool

-- An open file: whether it is a pipe, the words of its inode's size and of its offset.
pub record OpenFile : Type 0 where
  pub is_pipe : Bool
  pub size0 : ℕ
  pub size1 : ℕ
  pub offset : ℕ × ℕ

-- The third argument of `v6_open1`: an existing file, one to truncate, one just created.
pub data Opening : Type 0 where
  existing truncated created : Opening

-- The second argument of `v6_namei`.
pub data Lookup : Type 0 where
  find create : Lookup

-- The permission that `v6_access` checks.
pub data Permission : Type 0 where
  iread iwrite iexec : Permission

-- An inode is named by its place in the kernel's table. `v6_access` answers whether it refuses.
pub record Kernel : Type 1 where
  pub Core : Type 0
  pub refreshclock : M Core (Unit {0})
  pub namei : FilePath → Lookup → M Core (Option ℕ)
  pub iget : (inumber : ℕ) → M Core (Option ℕ)
  pub iput : ℕ → M Core (Unit {0})
  pub maknode : (mode : ℕ) → M Core (Option ℕ)
  pub open1 : ℕ → (reads writes : Bool) → Opening → M Core ℕ
  pub close : (fd : ℕ) → M Core (Unit {0})
  pub link : (oldpath newpath : FilePath) → M Core (Unit {0})
  pub unlink : FilePath → M Core (Unit {0})
  pub chmod : FilePath → (mode : ℕ) → M Core (Unit {0})
  pub itrunc : ℕ → M Core (Unit {0})
  pub stat1 : ℕ → M Core V6Stat
  pub iupdat : ℕ → (mtime : ℕ × ℕ) → M Core (Unit {0})
  pub access : ℕ → Permission → M Core Bool
  pub suser : M Core Bool
  pub update : M Core (Unit {0})
  pub flush : M Core ℤ
  pub rdwr_read : (fd count : ℕ) → M Core (List ℕ)
  pub rdwr_write : (fd : ℕ) → List ℕ → M Core ℕ
  pub getf : (fd : ℕ) → M Core (Option OpenFile)
  pub set_offset : (fd : ℕ) → (words : ℕ × ℕ) → M Core (Unit {0})
  pub allow_write : (fd : ℕ) → M Core (Unit {0})
  pub rootdir_number : ℕ
  pub inode : Core → ℕ → Inode
  pub set_inode : ℕ → Inode → Core → Core

module _ {C : Type 0} where
  unfoldable pub clear_error : M C (Unit {0})
  clear_error s = (tt, record s { error = 0 })

  unfoldable pub set_error : ℕ → M C (Unit {0})
  set_error e s = (tt, record s { error = e })

  unfoldable pub get_error : M C ℕ
  get_error s = (s.error, s)

  -- `return -v6_u.u_error`
  unfoldable pub last_error : M C ℤ
  last_error s = (neg s.error, s)

  unfoldable pub get_uid : M C ℕ
  get_uid s = (s.uid, s)

  unfoldable pub set_uid : ℕ → M C (Unit {0})
  set_uid u s = (tt, record s { uid = u })

  unfoldable pub get_ruid : M C ℕ
  get_ruid s = (s.ruid, s)

  unfoldable pub get_time : M C (ℕ × ℕ)
  get_time s = (s.time, s)

  unfoldable pub set_time : ℕ × ℕ → M C (Unit {0})
  set_time t s = (tt, record s { time = t })

  -- What is done where no inode was found, and where one was.
  unfoldable pub found : {A : Type 0} → Option ℕ → M C A → (ℕ → M C A) → M C A
  found none missing there = missing
  found (some ip) missing there = there ip

module _ (K : Kernel) where
  unfoldable pub read_inode : ℕ → M K.Core Inode
  read_inode ip s = (K.inode s.core ip, s)

  unfoldable pub write_inode : ℕ → Inode → M K.Core (Unit {0})
  write_inode ip i s = (tt, record s { core = K.set_inode ip i s.core })

  -- How every call begins.
  unfoldable pub begin : M K.Core (Unit {0})
  unfolding clear_error ◌>>◌
  begin = K.refreshclock >> clear_error
