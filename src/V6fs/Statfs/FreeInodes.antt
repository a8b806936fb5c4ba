-- ===== src/V6fs/Statfs/FreeInodes.antt =====
-- `v6fs_statfs` of src/v6fs.c as a whole: both counts, and the buffer that a failed read leaves held.
use retro_fuse.Prelude.{
  ℕ, zero, suc, ◌+◌, ◌*◌, ◌%◌, ◌^◌, ◌≤◌, ◌<◌, ◌≡◌, refl, ap, Bool, true, false, List, [], ◌∷◌, ◌++◌,
  arith, if◌then◌else◌, length,
}
use retro_fuse.Prelude.Int.{neg}
use retro_fuse.Prelude.Words.{extend}
use retro_fuse.V6fs.Statfs.{
  Group, Read, contents, failure, counted, fails, is_allocated, free_in_block, in_table,
  count_inodes, FilSys, filled, ended, statfs, after_blocks, finish,
}
use retro_fuse.V6fs.Statfs.FreeBlocks.{Chain, count_blocks-Chain}

-- The modes of the inode table from block `blk` on, block after block, all of them read.
pub data Table (bread : ℕ → Read (List ℕ)) : ℕ → ℕ → List ℕ → Type 0 where
  done : {blk : ℕ} → Table bread 0 blk []
  block :
      {n blk : ℕ} {modes rest : List ℕ}
      → bread blk ≡ contents modes
      → length modes ≡ 16
      → Table bread n (suc blk) rest
      → Table bread (suc n) blk (modes ++ rest)

-- The free inodes of a list of modes.
abbrev pub free_inodes : List ℕ → ℕ
free_inodes [] = 0
free_inodes (mode ∷ modes) = (if is_allocated mode then 0 else 1) + free_inodes modes

free_inodes-append : (xs ys : List ℕ) → free_inodes (xs ++ ys) ≡ free_inodes xs + free_inodes ys
free_inodes-append [] ys = omega arith
free_inodes-append (x ∷ xs) ys = omega (arith, free_inodes-append xs ys)

free_in_block-free_inodes :
    (k : ℕ) (modes : List ℕ) → length modes ≡ k → free_in_block k modes ≡ free_inodes modes
unfolding free_in_block
free_in_block-free_inodes zero [] h = refl
free_in_block-free_inodes zero (m ∷ modes) h = absurd (omega arith)
free_in_block-free_inodes (suc k) [] h = refl
free_in_block-free_inodes (suc k) (m ∷ modes) h =
    omega (arith, free_in_block-free_inodes k modes (omega arith))

-- The end of the loop, and what it still has to go through, below the greatest signed word.
count_inodes-Table :
    (bread : ℕ → Read (List ℕ)) (isize fuel : ℕ) {n blk : ℕ} {modes : List ℕ}
    → Table bread n blk modes
    → isize < 32766
    → blk + n ≡ isize + 2
    → n < fuel
    → count_inodes bread isize fuel blk ≡ counted (free_inodes modes)
unfolding count_inodes
count_inodes-Table bread isize zero t small e h = absurd (omega arith)
count_inodes-Table bread isize (suc fuel) {blk = blk} done small e h =
    let ended : in_table isize blk ≡ false = ground arith in rw (ended, count_inodes) refl
count_inodes-Table bread isize (suc fuel) (block {n} {blk} {modes} {rest} e full t) small at h =
    let inside : in_table isize blk ≡ true = ground arith in
    let up : (blk + 1) % 65536 ≡ suc blk = omega arith in
    rw
      (
        inside,
        e,
        count_inodes,
        up,
        count_inodes-Table bread isize fuel t small (omega arith) (omega arith),
      )
      (ap counted
        (omega (arith, free_inodes-append modes rest, free_in_block-free_inodes 16 modes full)))

count_inodes_failure :
    (bread : ℕ → Read (List ℕ)) (isize fuel errno : ℕ)
    → 0 < isize
    → isize < 32768
    → bread 2 ≡ failure errno
    → count_inodes bread isize (suc fuel) 2 ≡ fails (neg errno) 1
unfolding count_inodes
count_inodes_failure bread isize fuel errno h small e =
    let inside : in_table isize 2 ≡ true = ground arith in rw (inside, e, count_inodes) refl

module _ (badblock : ℕ → Bool) (bread : ℕ → Read Group) (bread_inodes : ℕ → Read (List ℕ))
    (fs : FilSys) {d : ℕ} {bs : List ℕ} (chain : Chain badblock bread fs.free d bs)
    (short : d ≤ fs.fsize) (word : fs.fsize < 65536) (table : fs.isize < 32766) where
  number_of_files : extend 16 64 fs.isize * 16 % 2 ^ 64 ≡ fs.isize * 16
  number_of_files = ground (arith, table)

  -- On a sound free list and a readable inode table of fewer than 32766 blocks the call fills in the sizes, the number of the
  -- blocks on the free list and the number of the inodes whose mode lacks the bit IALLOC.
  pub statfs_lem :
      {modes : List ℕ}
      → Table bread_inodes fs.isize 2 modes
      → statfs badblock bread bread_inodes fs
        ≡ filled (record {
          bsize = 512;
          frsize = 512;
          blocks = fs.fsize;
          files = fs.isize * 16;
          namemax = 14;
          bfree = length bs;
          bavail = length bs;
          ffree = free_inodes modes;
        })
  unfolding statfs finish
  statfs_lem {modes} t =
      rw
        (
          count_blocks-Chain badblock bread fs.fsize (fs.fsize + 2) 0 chain (omega arith)
              (omega arith) word,
          after_blocks,
          count_inodes-Table bread_inodes fs.isize 65537 t table (omega arith) (omega arith),
        )
        (ap
          (λ n. filled (record {
            bsize = 512;
            frsize = 512;
            blocks = fs.fsize;
            files = n;
            namemax = 14;
            bfree = length bs;
            bavail = length bs;
            ffree = free_inodes modes;
          }))
          number_of_files)

  -- Where a block of the inode table cannot be read, the call returns the error, and one buffer is
  -- still held: the one of the failed read.
  statfs_read_failure :
      (errno : ℕ)
      → 0 < fs.isize
      → bread_inodes 2 ≡ failure errno
      → statfs badblock bread bread_inodes fs ≡ ended (neg errno) 1
  unfolding statfs
  statfs_read_failure errno some_inodes bad = rw (
    count_blocks-Chain badblock bread fs.fsize (fs.fsize + 2) 0 chain (omega arith) (omega arith)
        word,
    after_blocks,
    count_inodes_failure bread_inodes fs.isize 65536 errno some_inodes (omega (arith, table)) bad,
  )
