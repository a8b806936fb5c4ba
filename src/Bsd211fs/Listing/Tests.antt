-- ===== src/Bsd211fs/Listing/Tests.antt =====
-- The loop of `bsd211fs_enumdir` of src/bsd211fs.c over the root directory of a new filesystem.
use retro_fuse.Prelude.{ℕ, zero, suc, ◌<◌, ◌≡◌, refl, true, false, List, [], arith, replicate}
use retro_fuse.Prelude.Int.{ℤ, pos, ltb_ℤ}
use retro_fuse.V6fs.Kernel.{Sys, M, ◌>>=◌, ◌>>◌, get_error, pure}
use retro_fuse.Bsd211fs.Kernel.{begin}
use retro_fuse.Bsd211fs.Calls.{bsd211fs_read}
use retro_fuse.Bsd211fs.Toy.{toy_kernel, as_user}
use retro_fuse.Bsd211fs.Listing.{listed, out_of_fuel, word_at, enum_loop, read_block}
use retro_fuse.Bsd211fs.Listing.Blocks.{dir_block, root_entries, Fit}
use retro_fuse.Bsd211fs.Listing.Shown.{collect, OneBlock, enum_loop-dir_block}
use retro_fuse.Bsd211fs.Listing.Ends.{
  Records, past, at, Shrinks, Ended, enum_loop_endless, enum_loop-Ended,
}

abbrev root_dir : List ℕ
root_dir = dir_block root_entries 512

root_dir_read :
    OneBlock (read_block toy_kernel 3) root_dir (as_user 0 root_dir) (as_user 0 []) (as_user 0 [])
unfolding read_block ◌>>=◌ bsd211fs_read ◌>>◌ get_error begin pure
root_dir_read = record { first_read = refl; last_read = refl }

root_entries-Fit : Fit root_entries 512
root_entries-Fit = (
  (omega arith, omega arith, (omega arith, tt)),
  omega arith,
  (
    (omega arith, omega arith, (omega arith, (omega arith, tt))),
    omega arith,
    (
      (
        omega arith,
        omega arith,
        (
          omega arith,
          (
            omega arith,
            (
              omega arith,
              (
                omega arith,
                (
                  omega arith,
                  (omega arith, (omega arith, (omega arith, (omega arith, (omega arith, tt))))),
                ),
              ),
            ),
          ),
        ),
      ),
      omega arith,
    ),
  ),
)

enum_loop-dir_block_example :
    enum_loop (read_block toy_kernel 3) collect 9 512 [] [] (as_user 0 root_dir)
    ≡ (listed (pos 0) root_entries, as_user 0 [])
enum_loop-dir_block_example =
    enum_loop-dir_block (read_block toy_kernel 3) root_entries 9 (as_user 0 root_dir) (as_user 0 [])
      (as_user 0 []) root_entries-Fit root_dir_read (omega arith)

abbrev empty_block : List ℕ
empty_block = replicate 512 0

enum_loop_endless_example :
    enum_loop (read_block toy_kernel 3) collect 40 0 empty_block [] (as_user 0 [])
    ≡ (out_of_fuel, as_user 0 [])
unfolding word_at
enum_loop_endless_example =
    enum_loop_endless (read_block toy_kernel 3) collect 40 0 empty_block [] (as_user 0 [])
      (omega arith) refl refl

-- A directory of so many blocks, each that of a new root directory.
abbrev blocks_left : Sys ℕ → ℕ
blocks_left s = s.core

abbrev give_block : M ℕ (ℤ × List ℕ)
give_block s = elim s.core [
  | zero ↦ ((pos 0, []), s)
  | suc n ↦ ((pos 512, root_dir), record s { core = n })
]

root_dir-Records : Records root_dir 0
unfolding word_at
root_dir-Records =
    at 8 refl (omega arith)
      (at 12 refl (omega arith) (at 492 refl (omega arith) (past (omega arith))))

no_read : (s : Sys ℕ) → s.core ≡ 0 → ltb_ℤ (give_block s).0.0 (pos 512) ≡ true
no_read s e = rw e refl

nothing_left :
    (n : ℕ) (s : Sys ℕ)
    → s.core ≡ n
    → ltb_ℤ (give_block s).0.0 (pos 512) ≡ false
    → (blocks_left (give_block s).1 < blocks_left s) × Records (give_block s).0.1 0
nothing_left zero s e h = absurd (ground (arith, no_read s e, h))
nothing_left (suc n) s e h = rw e (omega arith, root_dir-Records)

give_block-Shrinks : Shrinks give_block collect blocks_left
give_block-Shrinks = record {
  read_left = λ s h. (nothing_left s.core s refl h).0;
  read_sound = λ s h. (nothing_left s.core s refl h).1;
  show_left = λ ino name c s. omega arith;
}

abbrev three_blocks : Sys ℕ
three_blocks = record { error = 0; uid = 0; gid = 0; ruid = 0; rgid = 0; time = (0, 0); core = 3 }

enum_loop-Ended_example :
    Ended give_block collect (enum_loop give_block collect 2053 512 [] [] three_blocks)
enum_loop-Ended_example =
    enum_loop-Ended give_block collect blocks_left give_block-Shrinks 2053 512 [] [] three_blocks
      (past (omega arith)) (omega arith)
