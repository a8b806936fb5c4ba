-- ===== src/V6fs/Statfs.antt =====
-- `v6fs_statfs` of src/v6fs.c: the counts of free blocks and free inodes. What the kernel's buffer
-- cache answers (`v6_bread` with `v6_geterror`, after `v6_update`) and `v6_badblock` are
-- parameters. Block numbers and counts on disk are 16-bit words; `s_isize` is signed.
pub mod FreeBlocks
pub mod FreeInodes
pub mod Tests
use retro_fuse.Prelude.{
  ℕ, zero, suc, ◌+◌, ◌-◌, ◌*◌, ◌/◌, ◌%◌, ◌^◌, Bool, true, false, ◌&&◌, Option, none, some, List, [],
  ◌∷◌, ltb, leb, ◌==◌, if◌then◌else◌, get_or,
}
use retro_fuse.Prelude.Int.{ℤ, pos, neg}
use retro_fuse.Prelude.Words.{extend}
use retro_fuse.Errno.{eio}

-- A group of the free list: the superblock's part, or an index block. `nfree` is a signed word.
pub record Group : Type 0 where
  pub nfree : ℕ
  pub tab : List ℕ

-- What a read of a block gives: its contents, or the error number.
pub data Read {ℓ} (A : Type ℓ) : Type ℓ where
  contents : A → Read A
  failure : ℕ → Read A

-- The end of a loop: its count, or the return value of the function; `busy` counts the buffers that
-- are still held then. A loop without end uses up its fuel.
pub data Tally : Type 0 where
  counted : ℕ → Tally
  fails : ℤ → (busy : ℕ) → Tally
  out_of_fuel : Tally

abbrev pub add_tally : ℕ → Tally → Tally
add_tally n (counted k) = counted (n + k)
add_tally n (fails e b) = fails e b
add_tally n out_of_fuel = out_of_fuel

-- `*nfree > 0`
abbrev pub is_positive : ℕ → Bool
is_positive w = ltb 0 w && ltb w 32768

abbrev pub next_index : Group → ℕ
next_index g = if is_positive g.nfree then get_or g.tab 0 0 else 0

-- What a group adds to the count of free blocks.
abbrev pub group_free : Group → ℕ
group_free g =
    if is_positive g.nfree then (if get_or g.tab 0 0 == 0 then g.nfree - 1 else g.nfree) else 0

-- One round of the loop over the groups: its end, or the next group and the counter.
pub data Round : Type 0 where
  stop : Tally → Round
  next : Group → ℕ → Round

module _ (badblock : ℕ → Bool) (bread : ℕ → Read Group) (fsize : ℕ) where
  pub read_group : ℕ → ℕ → Round
  read_group b c = elim (bread b) [
    | failure errno ↦ stop (fails (neg errno) 1)
    | contents g ↦ next g c
  ]

  -- `idxblkcount` is a 16-bit word. The buffer of the group is released before the next is read.
  pub round : Group → (idxblkcount : ℕ) → Round
  unfolding read_group
  round g c =
      let c' = (c + 1) % 65536 in
      if next_index g == 0
      then stop (counted (group_free g))
      else if ltb fsize c'
      then stop (fails (neg eio) 0)
      else if badblock (next_index g)
      then stop (fails (neg eio) 0)
      else read_group (next_index g) c'

  pub count_blocks : (fuel : ℕ) → Group → (idxblkcount : ℕ) → Tally
  count_blocks zero g c = out_of_fuel
  count_blocks (suc k) g c = elim (round g c) [
    | stop t ↦ t
    | next g' c' ↦ add_tally (group_free g) (count_blocks k g' c')
  ]

-- The bit IALLOC of a mode.
abbrev pub is_allocated : ℕ → Bool
is_allocated mode = (mode / 32768) % 2 == 1

pub inodes_per_block : ℕ
inodes_per_block = 16

-- The free inodes among the first `k` of a block, by their mode words.
pub free_in_block : ℕ → List ℕ → ℕ
free_in_block zero modes = 0
free_in_block (suc k) [] = 0
free_in_block (suc k) (mode ∷ modes) = (if is_allocated mode then 0 else 1) + free_in_block k modes

-- `blk < s_isize + 2` for two signed words, given as patterns of 16 bits.
abbrev pub in_table : (isize blk : ℕ) → Bool
in_table isize blk = ltb ((blk + 32768) % 65536) ((isize + 32768) % 65536 + 2)

-- The loop over the blocks of the inode table from the word `blk` on, which wraps. It runs on fuel; behind
-- 65536 rounds all blocks have been read, and it never ends.
pub count_inodes : (bread : ℕ → Read (List ℕ)) → (isize fuel blk : ℕ) → Tally
unfolding free_in_block inodes_per_block
count_inodes bread isize zero blk = out_of_fuel
count_inodes bread isize (suc n) blk =
    let rest = count_inodes bread isize n ((blk + 1) % 65536) in
    if in_table isize blk
    then elim (bread blk) [
      | failure errno ↦ fails (neg errno) 1
      | contents modes ↦ add_tally (free_in_block inodes_per_block modes) rest
    ]
    else counted 0

pub record StatVfs : Type 0 where
  pub bsize : ℕ
  pub frsize : ℕ
  pub blocks : ℕ
  pub files : ℕ
  pub namemax : ℕ
  pub bfree : ℕ
  pub bavail : ℕ
  pub ffree : ℕ

pub record FilSys : Type 0 where
  pub fsize : ℕ
  pub isize : ℕ
  pub free : Group

-- `ended` is the return value with the buffers still held, and what was filled in where it is 0.
pub data Statfs : Type 0 where
  filled : StatVfs → Statfs
  ended : ℤ → (busy : ℕ) → Statfs
  never : Statfs

finish : FilSys → (bfree : ℕ) → Tally → Statfs
finish fs bfree out_of_fuel = never
finish fs bfree (fails e busy) = ended e busy
finish fs bfree (counted ffree) = filled (record {
  bsize = 512;
  frsize = 512;
  blocks = fs.fsize;
  files = extend 16 64 fs.isize * 16 % 2 ^ 64;
  namemax = 14;
  bfree = bfree;
  bavail = bfree;
  ffree = ffree;
})

after_blocks : (ℕ → Read (List ℕ)) → FilSys → Tally → Statfs
after_blocks bread_inodes fs out_of_fuel = never
after_blocks bread_inodes fs (fails e busy) = ended e busy
after_blocks bread_inodes fs (counted bfree) =
    finish fs bfree (count_inodes bread_inodes fs.isize 65537 2)

-- The fuel lets the first loop run once more than the code's own limit on it, and the second over all
-- numbers of blocks.
unfoldable pub statfs : (ℕ → Bool) → (ℕ → Read Group) → (ℕ → Read (List ℕ)) → FilSys → Statfs
unfolding after_blocks finish count_inodes count_blocks round
statfs badblock bread bread_inodes fs =
    after_blocks bread_inodes fs (count_blocks badblock bread fs.fsize (fs.fsize + 2) fs.free 0)
