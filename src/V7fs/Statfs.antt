-- ===== src/V7fs/Statfs.antt =====
-- `v7fs_statfs` of src/v7fs.c: the counts of free blocks and free inodes. What the kernel's buffer cache
-- answers (`v7_bread` with `v7_geterror`, after `v7_update`) and `v7_badblock` are parameters. Numbers on
-- disk are signed words, read as integers. The loop over the free list runs on fuel.
pub mod Counts
pub mod Tests
use retro_fuse.Prelude.{
  ℕ, zero, suc, ◌+◌, ◌-◌, ◌*◌, ◌%◌, ◌^◌, Bool, ◌||◌, Option, none, some, List, [], ◌∷◌, ltb, ◌==◌,
  if◌then◌else◌,
}
use retro_fuse.Prelude.Int.{ℤ, pos, neg, pos_part, ltb_ℤ, eqb_ℤ, is_neg}
use retro_fuse.Errno.{eio}

-- NICFREE, and INOPB.
abbrev pub nicfree : ℕ
nicfree = 50

abbrev pub inopb : ℕ
inopb = 8

-- The head of a table of free blocks: `s_nfree` and `s_free[0]`, or `df_nfree` and `df_free[0]`.
pub record Group : Type 0 where
  pub nfree : ℤ
  pub nextfblk : ℤ

-- What the read of a block answers: the head of a table, or the modes of the inodes, or an error.
pub data Read (A : Type 0) : Type 0 where
  gave : A → Read A
  failed : (errno : ℕ) → Read A

-- The fields of `struct statvfs` that are set and not constant.
pub record StatVfs : Type 0 where
  pub f_blocks : ℤ
  pub f_bfree : ℕ
  pub f_bavail : ℕ
  pub f_files : ℕ
  pub f_ffree : ℕ

-- The result of a part: a count, or the error to return.
pub data Counted : Type 0 where
  counted : ℕ → Counted
  refused : (res : ℤ) → Counted

unfoldable pub group_free : Group → ℕ
group_free g =
    if ltb_ℤ (pos 0) g.nfree
    then if eqb_ℤ g.nextfblk (pos 0) then pos_part g.nfree - 1 else pos_part g.nfree
    else 0

module _ (fsize : ℤ) (badblock : ℤ → Bool) (bread : ℤ → Read Group) where
  unfoldable pub follow : (rest : Group → Option Counted) → (len : ℕ) → (next : ℤ) → Option Counted
  follow rest len next =
      if ltb_ℤ fsize (pos len)
      then some (refused (neg eio))
      else if badblock next
      then some (refused (neg eio))
      else elim (bread next) [ gave g ↦ rest g | failed errno ↦ some (refused (neg errno)) ]

  unfoldable pub count_blocks : (fuel : ℕ) → Group → (freelistlen f_bfree : ℕ) → Option Counted
  unfolding follow group_free
  count_blocks zero g len n = none
  count_blocks (suc k) g len n =
      let rest =
        follow (λ g'. count_blocks k g' (len + 1) (n + group_free g)) (len + 1) g.nextfblk in
      if is_neg g.nfree || ltb_ℤ (pos nicfree) g.nfree
      then some (refused (neg eio))
      else if eqb_ℤ g.nfree (pos 0) || eqb_ℤ g.nextfblk (pos 0)
      then some (counted (n + group_free g))
      else rest

unfoldable pub free_in_block : (modes : List ℕ) → ℕ
free_in_block [] = 0
free_in_block (mode ∷ modes) = (if mode == 0 then 1 else 0) + free_in_block modes

module _ (bread_inodes : ℕ → Read (List ℕ)) where
  -- The blocks from `blk` on, as many as are left.
  unfoldable pub count_inodes : (left blk f_ffree : ℕ) → Counted
  unfolding free_in_block
  count_inodes zero blk n = counted n
  count_inodes (suc k) blk n = elim (bread_inodes blk) [
    | gave modes ↦ count_inodes k (blk + 1) (n + free_in_block modes)
    | failed errno ↦ refused (neg errno)
  ]

-- The answer of the call: the result, and the statistics where it is 0.
pub data Answer : Type 0 where
  ended : (res : ℤ) → Answer
  filled : StatVfs → Answer

unfoldable pub finish : (fsize : ℤ) → (isize f_bfree : ℕ) → Counted → Answer
finish fsize isize free (refused res) = ended res
finish fsize isize free (counted n) = filled (record {
  f_blocks = fsize;
  f_bfree = free;
  f_bavail = free;
  f_files = (isize + (2 ^ 64 - 2)) * inopb % 2 ^ 64;
  f_ffree = n;
})

module _ (badblock : ℤ → Bool) (bread : ℤ → Read Group) (bread_inodes : ℕ → Read (List ℕ)) where
  unfoldable pub after_blocks : (fsize : ℤ) → (isize : ℕ) → Option Counted → Option Answer
  unfolding count_inodes finish
  after_blocks fsize isize none = none
  after_blocks fsize isize (some (refused res)) = some (ended res)
  after_blocks fsize isize (some (counted n)) =
      some (finish fsize isize n (count_inodes bread_inodes (isize - 2) 2 0))

  -- `isize` is `s_isize`, the first block behind the inode table. The fuel is two rounds more than the
  -- filesystem has blocks.
  unfoldable pub v7fs_statfs : (fsize : ℤ) → (isize : ℕ) → Group → Option Answer
  unfolding count_blocks after_blocks
  v7fs_statfs fsize isize g =
      after_blocks fsize isize (count_blocks fsize badblock bread (pos_part fsize + 2) g 0 0)
