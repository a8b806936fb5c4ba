-- ===== src/V7fs/Statfs/Counts.antt =====
-- `v7fs_statfs` of src/v7fs.c: it ends on every disk, and what it counts on a sound one.
use retro_fuse.Prelude.{
  ℕ, zero, suc, ◌+◌, ◌-◌, ◌*◌, ◌%◌, ◌^◌, ◌≤◌, ◌<◌, ◌≡◌, ◌≢◌, refl, Bool, true, false, ◌||◌, Option,
  none, some, List, [], ◌∷◌, arith, if◌then◌else◌, count, ap, ◌∙◌,
}
use retro_fuse.Prelude.Int.{ℤ, pos, neg, pos_part, ◌≤ℤ◌, ltb_ℤ, eqb_ℤ, is_neg}
use retro_fuse.V7fs.Statfs.{
  nicfree, Group, Read, gave, failed, Counted, counted, refused, group_free, follow, count_blocks,
  free_in_block, count_inodes, filled, finish, after_blocks, v7fs_statfs,
}

some_answer : {A : Type 0} (a : A) → some a ≢ none
some_answer a h = ground arith

either :
    {A : Type 0} (b : Bool) (x y : Option A)
    → x ≢ none
    → (b ≡ false → y ≢ none)
    → (if b then x else y) ≢ none
either true x y h k = h
either false x y h k = k refl

module _ (fsize : ℤ) (badblock : ℤ → Bool) (bread : ℤ → Read Group) where
  read_ends :
      (rest : Group → Option Counted) (r : Read Group)
      → ((g : Group) → rest g ≢ none)
      → elim r [ gave g ↦ rest g | failed errno ↦ some (refused (neg errno)) ] ≢ none
  read_ends rest (gave g) h = h g
  read_ends rest (failed errno) h = some_answer _

  follow_ends :
      (rest : Group → Option Counted) (len : ℕ) (next : ℤ)
      → (len ≤ pos_part fsize → (g : Group) → rest g ≢ none)
      → follow fsize badblock bread rest len next ≢ none
  unfolding follow
  follow_ends rest len next h = either (ltb_ℤ fsize (pos len)) _ _ (some_answer _) (λ fits.
      either (badblock next) _ _ (some_answer _)
        (λ _. read_ends rest (bread next) (h (ground (arith, fits)))))

  -- The loop over the free list ends within two more rounds than the filesystem has blocks.
  count_blocks_ends :
      (fuel : ℕ) (g : Group) (len n : ℕ)
      → len ≤ pos_part fsize
      → pos_part fsize + 1 < fuel + len
      → count_blocks fsize badblock bread fuel g len n ≢ none
  unfolding count_blocks
  count_blocks_ends zero g len n fits h = absurd (omega arith)
  count_blocks_ends (suc k) g len n fits h =
      either (is_neg g.nfree || ltb_ℤ (pos nicfree) g.nfree) _ _ (some_answer _) (λ _.
        either (eqb_ℤ g.nfree (pos 0) || eqb_ℤ g.nextfblk (pos 0)) _ _ (some_answer _) (λ _.
          follow_ends _ (len + 1) g.nextfblk
            (λ fits' g'. count_blocks_ends k g' (len + 1) _ fits' (omega arith))))

  -- A sound free list: how many blocks are on it, and how many tables it has behind the first.
  pub data Chain : Group → (total tables : ℕ) → Type 0 where
    no_blocks : {next : ℤ} → Chain (record { nfree = pos 0; nextfblk = next }) 0 0
    last_table :
        {n : ℕ} → suc n ≤ nicfree → Chain (record { nfree = pos (suc n); nextfblk = pos 0 }) n 0
    table :
        {n b total tables : ℕ} {g : Group}
        → suc n ≤ nicfree
        → badblock (pos (suc b)) ≡ false
        → bread (pos (suc b)) ≡ gave g
        → Chain g total tables
        → Chain
            (record { nfree = pos (suc n); nextfblk = pos (suc b) })
            (suc n + total)
            (suc tables)

  group_free_full :
      (m b : ℕ) → group_free (record { nfree = pos (suc m); nextfblk = pos (suc b) }) ≡ suc m
  unfolding group_free
  group_free_full m b = ground arith

  count_blocks-Chain :
      (fuel : ℕ) (g : Group) (len n total tables : ℕ)
      → Chain g total tables
      → pos (len + tables) ≤ℤ fsize
      → tables < fuel
      → count_blocks fsize badblock bread fuel g len n ≡ some (counted (n + total))
  unfolding count_blocks follow
  count_blocks-Chain zero g len n total tables c fits h = absurd (omega arith)
  count_blocks-Chain (suc k) _ len n _ _ no_blocks fits h = ground arith
  count_blocks-Chain (suc k) _ len n _ _ (last_table small) fits h = ground arith
  count_blocks-Chain (suc k) _ len n _ _ (table {n = m} {b} {total} {tables} {g} small good read c)
        fits h =
      ground (
        arith,
        small,
        good,
        read,
        group_free_full m b,
        count_blocks-Chain k g (len + 1) (n + suc m) total tables c (omega arith) (omega arith),
      )

free_in_block-count : (modes : List ℕ) → free_in_block modes ≡ count 0 modes
unfolding free_in_block
free_in_block-count [] = refl
free_in_block-count (mode ∷ modes) = ground (arith, free_in_block-count modes)

module _ (bread_inodes : ℕ → Read (List ℕ)) where
  -- A readable inode table from a block on, and how many of its inodes have the mode 0.
  pub data Table : (left blk total : ℕ) → Type 0 where
    no_more : {blk : ℕ} → Table 0 blk 0
    block :
        {left blk total : ℕ} {modes : List ℕ}
        → bread_inodes blk ≡ gave modes
        → Table left (blk + 1) total
        → Table (suc left) blk (count 0 modes + total)

  count_inodes-Table :
      (left blk n total : ℕ)
      → Table left blk total
      → count_inodes bread_inodes left blk n ≡ counted (n + total)
  unfolding count_inodes
  count_inodes-Table _ blk n _ no_more = ground arith
  count_inodes-Table _ blk n _ (block {left} {total} {modes} read rest) = ground (
    arith,
    read,
    free_in_block-count modes,
    count_inodes-Table left (blk + 1) (n + count 0 modes) total rest,
  )

module _ (badblock : ℤ → Bool) (bread : ℤ → Read Group) (bread_inodes : ℕ → Read (List ℕ))
    (fsize : ℤ) (isize : ℕ) (g : Group) where
  after_blocks_ends :
      (r : Option Counted)
      → r ≢ none
      → after_blocks badblock bread bread_inodes fsize isize r ≢ none
  unfolding after_blocks
  after_blocks_ends none h = absurd (h refl)
  after_blocks_ends (some (refused res)) h = some_answer _
  after_blocks_ends (some (counted n)) h = some_answer _

  -- The call ends, whatever the disk holds and whatever its blocks answer to a read, for any size below
  -- 2 ^ 31 - 1, where the counter of the tables does not overflow.
  pub v7fs_statfs_ends :
      ltb_ℤ fsize (pos 2147483647) ≡ true
      → v7fs_statfs badblock bread bread_inodes fsize isize g ≢ none
  unfolding v7fs_statfs
  v7fs_statfs_ends small = after_blocks_ends _ (
      count_blocks_ends fsize badblock bread (pos_part fsize + 2) g 0 0 (omega arith) (omega arith))

  -- On a sound free list, of at most as many tables as the filesystem has blocks, and a readable inode
  -- table the call fills in the size, the number of the blocks on the free list, the number of the
  -- inodes, eight times two less than `s_isize` modulo 2 ^ 64, and the number of those with the mode 0.
  pub v7fs_statfs_lem :
      (total tables inodes : ℕ)
      → Chain fsize badblock bread g total tables
      → pos tables ≤ℤ fsize
      → Table bread_inodes (isize - 2) 2 inodes
      → v7fs_statfs badblock bread bread_inodes fsize isize g
        ≡ some (
            filled (record {
              f_blocks = fsize;
              f_bfree = total;
              f_bavail = total;
              f_files = (isize + (2 ^ 64 - 2)) * 8 % 2 ^ 64;
              f_ffree = inodes;
            }))
  unfolding v7fs_statfs after_blocks finish
  v7fs_statfs_lem total tables inodes c fits t =
      let from_zero : (n : ℕ) → 0 + n ≡ n = λ n. omega arith in
      ap (after_blocks badblock bread bread_inodes fsize isize) (
        count_blocks-Chain fsize badblock bread (pos_part fsize + 2) g 0 0 total tables c
          (omega arith) (omega arith)
        ∙ ap (λ n. some (counted n)) (from_zero total))
      ∙ ap (λ r. some (finish fsize isize total r))
          (count_inodes-Table bread_inodes (isize - 2) 2 0 inodes t ∙ ap counted (from_zero inodes))
