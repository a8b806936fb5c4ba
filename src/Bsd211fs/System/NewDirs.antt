-- ===== src/Bsd211fs/System/NewDirs.antt =====
-- What the blocks and the inodes of a new root directory and a new lost+found of src/bsd211fs.c hold.
use retro_fuse.Prelude.{
  ℕ, ◌+◌, ◌%◌, ◌^◌, ◌<◌, ◌≡◌, refl, List, [], ◌∷◌, ◌++◌, arith, replicate, take, drop,
}
use retro_fuse.Prelude.Int.{ℤ, pos}
use retro_fuse.V6fs.Kernel.{Sys, M}
use retro_fuse.V7fs.System.Blocks.{word_at, long_at}
use retro_fuse.Bsd211fs.Listing.Blocks.{
  DirEntry, root_entries, lost_found_entries, root_block, lost_found_block,
}
use retro_fuse.Bsd211fs.Listing.{listed, enum_loop}
use retro_fuse.Bsd211fs.Listing.Shown.{collect, OneBlock, enum_loop-dir_block}
use retro_fuse.Bsd211fs.System.{first_inodes}

abbrev pub entry : (ino : ℕ) → (name : List ℕ) → DirEntry
entry ino name = record { d_ino = ino; d_name = name }

-- An inode of a new directory in a block of the inode table: its place, and what its fields hold, each cut
-- to its width, with 36 zeros between the address of its block and the times.
pub record DirInode (at nlink size addr time : ℕ) (bytes : List ℕ) : Type 0 where
  pub mode : word_at at bytes ≡ 0x41FF
  pub links : word_at (at + 2) bytes ≡ nlink
  pub owner : (word_at (at + 4) bytes ≡ 0) × (word_at (at + 6) bytes ≡ 0)
  pub length : long_at (at + 8) bytes ≡ size
  pub address : long_at (at + 12) bytes ≡ addr % 2 ^ 32
  pub unused : take 36 (drop (at + 16) bytes) ≡ replicate 36 0
  pub times :
      (long_at (at + 52) bytes ≡ time % 2 ^ 32)
      × (long_at (at + 56) bytes ≡ time % 2 ^ 32)
      × (long_at (at + 60) bytes ≡ time % 2 ^ 32)

-- The first block of the inode table, of which the bytes were `old`: the inode 1 is a reserved file with
-- no links, no address and no times, the inodes 2 and 3 are the root directory, with three links, and
-- lost+found, with two; the rest is as it was.
pub record FirstInodes (root lf time lftime : ℕ) (old bytes : List ℕ) : Type 0 where
  pub reserved : take 64 bytes ≡ 0 ∷ 0x80 ∷ replicate 62 0
  pub root_inode : DirInode 64 3 512 root time bytes
  pub lost_found_inode : DirInode 128 2 1024 lf lftime bytes
  pub others : drop 192 bytes ≡ drop 192 old

pub first_inodes-FirstInodes :
    (root lf time lftime : ℕ) (old : List ℕ)
    → FirstInodes root lf time lftime old (first_inodes root lf time lftime ++ drop 192 old)
first_inodes-FirstInodes root lf time lftime old = record {
  reserved = refl;
  root_inode = record {
    mode = refl;
    links = refl;
    owner = (refl, refl);
    length = refl;
    address = omega arith;
    unused = refl;
    times = (omega arith, omega arith, omega arith);
  };
  lost_found_inode = record {
    mode = refl;
    links = refl;
    owner = (refl, refl);
    length = refl;
    address = omega arith;
    unused = refl;
    times = (omega arith, omega arith, omega arith);
  };
  others = refl;
}

-- A listing of the first half of a block, by any reads that give it and then nothing, shows just the
-- entries, in this order.
abbrev pub ListsAs : (C : Type 0) → List DirEntry → List ℕ → Type 0
ListsAs C es block =
    (dirread : M C (ℤ × List ℕ)) (fuel : ℕ) (s t u : Sys C)
    → OneBlock dirread (take 512 block) s t u
    → 5 < fuel
    → enum_loop dirread collect fuel 512 [] [] s ≡ (listed (pos 0) es, u)

pub root_block-ListsAs :
    (C : Type 0)
    → ListsAs C
        (entry 2 (46 ∷ [])
          ∷ entry 2 (46 ∷ 46 ∷ [])
          ∷ entry 3 (108 ∷ 111 ∷ 115 ∷ 116 ∷ 43 ∷ 102 ∷ 111 ∷ 117 ∷ 110 ∷ 100 ∷ [])
          ∷ [])
        root_block
root_block-ListsAs C dirread fuel s t u D h =
    enum_loop-dir_block dirread root_entries fuel s t u
      (
        (omega arith, omega arith, (omega arith, tt)),
        omega arith,
        (
          (omega arith, omega arith, (omega arith, (omega arith, tt))),
          omega arith,
          (
            (
              omega arith,
              omega arith,
              (
                omega arith,
                (
                  omega arith,
                  (
                    omega arith,
                    (
                      omega arith,
                      (
                        omega arith,
                        (
                          omega arith,
                          (omega arith, (omega arith, (omega arith, (omega arith, tt)))),
                        ),
                      ),
                    ),
                  ),
                ),
              ),
            ),
            omega arith,
          ),
        ),
      )
      D (omega arith)

pub lost_found_block-ListsAs :
    (C : Type 0) → ListsAs C (entry 3 (46 ∷ []) ∷ entry 2 (46 ∷ 46 ∷ []) ∷ []) lost_found_block
lost_found_block-ListsAs C dirread fuel s t u D h =
    enum_loop-dir_block dirread lost_found_entries fuel s t u
      (
        (omega arith, omega arith, (omega arith, tt)),
        omega arith,
        ((omega arith, omega arith, (omega arith, (omega arith, tt))), omega arith),
      )
      D (omega arith)
