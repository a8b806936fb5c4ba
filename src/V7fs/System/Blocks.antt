-- ===== src/V7fs/System/Blocks.antt =====
-- The inode table that `v7fs_mkfs` of src/v7fs.c writes, on a device whose blocks hold what was written.
use retro_fuse.Prelude.{
  ℕ_discrete, ℕ, zero, suc, ◌+◌, ◌*◌, ◌%◌, ◌^◌, ◌<◌, ◌≤◌, ◌≡◌, refl, ◌≢◌, ◌∙◌, ap, sym, take, drop,
  get_or, replicate, Bool, true, false, ◌&&◌, List, ltb, leb, if◌then◌else◌, arith,
}
use mathlib.Core.Path.{subst}
use retro_fuse.V6fs.Kernel.{Sys, M, Kernel, ◌>>=◌, pure, get_uid}
use retro_fuse.V7fs.System.{Boot, first_inodes, table_block, time_now, get_gid, write_table}

-- What the buffer cache shows of the blocks: a write without an error puts the block there, no write
-- changes another block, and none changes the caller's ids or the clock.
pub record Device (K : Kernel) (B : Boot K) (content : K.Core → ℕ → List ℕ) : Type 0 where
  pub bwrite_block :
      (b : ℕ) (bytes : List ℕ) (s : Sys K.Core)
      → (B.bwrite b bytes s).0 ≡ false
      → content (B.bwrite b bytes s).1.core b ≡ bytes
  pub bwrite_frame :
      (b c : ℕ) (bytes : List ℕ) (s : Sys K.Core)
      → c ≢ b
      → content (B.bwrite b bytes s).1.core c ≡ content s.core c
  pub bwrite_uid : (b : ℕ) (bytes : List ℕ) (s : Sys K.Core) → (B.bwrite b bytes s).1.uid ≡ s.uid
  pub bwrite_gid : (b : ℕ) (bytes : List ℕ) (s : Sys K.Core) → (B.bwrite b bytes s).1.gid ≡ s.gid
  pub bwrite_clock :
      (b : ℕ) (bytes : List ℕ) (s : Sys K.Core)
      → B.clock (B.bwrite b bytes s).1.core ≡ B.clock s.core

went_on :
    {C : Type 0} (f : Bool) (m : M C Bool) (t : Sys C)
    → ((if f then pure true else m) t).0 ≡ false
    → (f ≡ false) × ((m t).0 ≡ false) × (((if f then pure true else m) t).1 ≡ (m t).1)
unfolding pure
went_on true m t h = cc
went_on false m t h = (refl, h, refl)

-- The blocks from one of the table on are as wanted, and the others are as they were.
abbrev Written : (wanted : ℕ → List ℕ) → (left iblk : ℕ) → (old new : ℕ → List ℕ) → Type 0
Written wanted left iblk old new =
    (b : ℕ) → new (b + 2) ≡ (if leb iblk b && ltb b (iblk + left) then wanted b else old (b + 2))

first_block :
    (wanted : ℕ → List ℕ) (left iblk : ℕ) (old mid new : ℕ → List ℕ)
    → mid (iblk + 2) ≡ wanted iblk
    → ((b : ℕ) → b ≢ iblk → mid (b + 2) ≡ old (b + 2))
    → Written wanted left (iblk + 1) mid new
    → Written wanted (suc left) iblk old new
first_block wanted left iblk old mid new here others rest b = elim (ℕ_discrete b iblk) [
  | yes e ↦ ground (arith, e, here, rest b, ap (λ n. mid (n + 2)) e, ap wanted e)
  | no d ↦ ground (arith, others b d, rest b, d)
]

module _ (K : Kernel) (B : Boot K) (content : K.Core → ℕ → List ℕ) (D : Device K B content)
    (rootdirblkno uid gid time : ℕ) where
  abbrev Holds : Sys K.Core → Type 0
  Holds s = (s.uid ≡ uid) × (s.gid ≡ gid) × (B.clock s.core ≡ time)

  table_filled :
      (left iblk : ℕ) (s : Sys K.Core)
      → Holds s
      → (write_table K B left iblk rootdirblkno s).0 ≡ false
      → Written
          (table_block uid gid rootdirblkno time)
          left
          iblk
          (content s.core)
          (content (write_table K B left iblk rootdirblkno s).1.core)
  unfolding write_table ◌>>=◌ pure get_uid get_gid time_now
  table_filled zero iblk s w h = λ b. ground arith
  table_filled (suc left) iblk s (u, g, c) h =
      let bytes = table_block s.uid s.gid rootdirblkno (B.clock s.core) iblk in
      let same : bytes ≡ table_block uid gid rootdirblkno time iblk =
        ap (λ x. table_block x s.gid rootdirblkno (B.clock s.core) iblk) u
        ∙ ap (λ x. table_block uid x rootdirblkno (B.clock s.core) iblk) g
        ∙ ap (λ x. table_block uid gid rootdirblkno x iblk) c in
      let t = (B.bwrite (iblk + 2) bytes s).1 in
      let (fine, fine', e) =
        went_on (B.bwrite (iblk + 2) bytes s).0 (write_table K B left (iblk + 1) rootdirblkno) t
          h in
      let kept : Holds t = (
        D.bwrite_uid (iblk + 2) bytes s ∙ u,
        D.bwrite_gid (iblk + 2) bytes s ∙ g,
        D.bwrite_clock (iblk + 2) bytes s ∙ c,
      ) in
      let rest = table_filled left (iblk + 1) t kept fine' in
      let all =
        first_block (table_block uid gid rootdirblkno time) left iblk (content s.core)
          (content t.core) (content (write_table K B left (iblk + 1) rootdirblkno t).1.core)
          (D.bwrite_block (iblk + 2) bytes s fine ∙ same)
          (λ b d. D.bwrite_frame (iblk + 2) (b + 2) bytes s (λ z. d (omega arith))) rest in
      λ b. ap (λ x. content x.core (b + 2)) e ∙ all b

-- A little-endian word at a place of a block, a number of 32 bits with its high word first, and a block
-- address, with the high byte first and then the low one.
abbrev pub word_at : ℕ → List ℕ → ℕ
word_at n bytes = get_or bytes n 0 + 256 * get_or bytes (n + 1) 0

abbrev pub long_at : ℕ → List ℕ → ℕ
long_at n bytes = word_at n bytes * 65536 + word_at (n + 2) bytes

abbrev pub address_at : ℕ → List ℕ → ℕ
address_at n bytes =
    get_or bytes n 0 * 65536 + get_or bytes (n + 1) 0 + get_or bytes (n + 2) 0 * 256

-- The first block of a new inode table: the inode 1, of 64 bytes, is an empty file without links; the
-- inode 2 behind it is a directory with the mode 0777, two links, 32
-- bytes, the owner, the group, the one block and the times; and behind it there are zeros.
pub record FirstBlock (uid gid rootdirblkno time : ℕ) (bytes : List ℕ) : Type 0 where
  pub bad_blocks : (word_at 0 bytes ≡ 0x8000) × (word_at 2 bytes ≡ 0) × (long_at 8 bytes ≡ 0)
  pub bad_blocks_owner : (word_at 4 bytes ≡ 0) × (word_at 6 bytes ≡ 0)
  pub bad_blocks_addresses : take 40 (drop 12 bytes) ≡ replicate 40 0
  pub root_mode : word_at 64 bytes ≡ 0x41FF
  pub root_links : word_at 66 bytes ≡ 2
  pub root_owner : (word_at 68 bytes ≡ uid % 2 ^ 16) × (word_at 70 bytes ≡ gid % 2 ^ 16)
  pub root_size : long_at 72 bytes ≡ 32
  pub root_address : address_at 76 bytes ≡ rootdirblkno % 2 ^ 24
  pub root_addresses : take 37 (drop 79 bytes) ≡ replicate 37 0
  pub root_times :
      (long_at 116 bytes ≡ time % 2 ^ 32)
      × (long_at 120 bytes ≡ time % 2 ^ 32)
      × (long_at 124 bytes ≡ time % 2 ^ 32)
  pub others : drop 128 bytes ≡ replicate 384 0

first_inodes-FirstBlock :
    (uid gid rootdirblkno time : ℕ)
    → FirstBlock uid gid rootdirblkno time (first_inodes uid gid rootdirblkno time)
first_inodes-FirstBlock uid gid rootdirblkno time = record {
  bad_blocks = (refl, refl, refl);
  bad_blocks_owner = (refl, refl);
  bad_blocks_addresses = refl;
  root_mode = refl;
  root_links = refl;
  root_owner = (omega arith, omega arith);
  root_size = refl;
  root_address = omega arith;
  root_addresses = refl;
  root_times = (omega arith, omega arith, omega arith);
  others = refl;
}

-- The blocks from 2 on, as many as the inode table has, and those behind them.
pub record NewTable (uid gid rootdirblkno time isize : ℕ) (old new : ℕ → List ℕ) : Type 0 where
  pub first : 0 < isize → FirstBlock uid gid rootdirblkno time (new 2)
  pub empty : (b : ℕ) → 0 < b → b < isize → new (b + 2) ≡ replicate 512 0
  pub behind : (b : ℕ) → isize ≤ b → new (b + 2) ≡ old (b + 2)

new_table :
    (uid gid rootdirblkno time isize : ℕ) (old new : ℕ → List ℕ)
    → Written (table_block uid gid rootdirblkno time) isize 0 old new
    → NewTable uid gid rootdirblkno time isize old new
new_table uid gid rootdirblkno time isize old new w = record {
  first = λ some_blocks.
      subst (FirstBlock uid gid rootdirblkno time) (sym (w 0 ∙ ground (arith, some_blocks)))
        (first_inodes-FirstBlock uid gid rootdirblkno time);
  empty = λ b later inside. w b ∙ ground (arith, later, inside);
  behind = λ b outside. w b ∙ ground (arith, outside);
}

module _ (K : Kernel) (B : Boot K) (content : K.Core → ℕ → List ℕ) (D : Device K B content) where
  -- Where no block failed to be written, the blocks from 2 on, as many as the inode table has, hold it. The
  -- first of them has the file of bad blocks, and the root directory with the caller's ids, two links, 32
  -- bytes, the number of the block of its entries and the time, each field at its place in the inode and
  -- cut to its width, and zeros behind them; the others hold 512 zeros. The blocks behind the table are
  -- as before.
  pub write_table-NewTable :
      (isize rootdirblkno : ℕ) (s : Sys K.Core)
      → (write_table K B isize 0 rootdirblkno s).0 ≡ false
      → NewTable s.uid s.gid rootdirblkno
          (B.clock s.core)
          isize
          (content s.core)
          (content (write_table K B isize 0 rootdirblkno s).1.core)
  write_table-NewTable isize rootdirblkno s h =
      new_table s.uid s.gid rootdirblkno (B.clock s.core) isize (content s.core)
        (content (write_table K B isize 0 rootdirblkno s).1.core)
        (table_filled K B content D rootdirblkno s.uid s.gid (B.clock s.core) isize 0 s
          (refl, refl, refl) h)
