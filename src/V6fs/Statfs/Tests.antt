-- ===== src/V6fs/Statfs/Tests.antt =====
-- Runs of `v6fs_statfs` of src/v6fs.c on a small filesystem, and its theorems there.
use retro_fuse.Prelude.{
  ℕ, ◌≡◌, ◌≢◌, refl, Bool, false, List, [], ◌∷◌, arith, ◌==◌, if◌then◌else◌, replicate,
}
use retro_fuse.Errno.{eio}
use retro_fuse.V6fs.Statfs.{
  Group, Read, contents, failure, counted, out_of_fuel, count_blocks, FilSys, filled, statfs,
}
use retro_fuse.V6fs.Statfs.FreeBlocks.{
  Chain, last, link, count_blocks-Chain, count_blocks_ends, count_blocks_endless,
}
use retro_fuse.V6fs.Statfs.FreeInodes.{Table, done, block, statfs_lem}

-- The superblock names two blocks, of which 9 is an index block with blocks 5 and 6.
abbrev super : Group
super = record { nfree = 2; tab = 9 ∷ 7 ∷ [] }

abbrev index : Group
index = record { nfree = 3; tab = 0 ∷ 5 ∷ 6 ∷ [] }

abbrev fs : FilSys
fs = record { fsize = 10; isize = 1; free = super }

abbrev disk : ℕ → Read Group
disk b = if b == 9 then contents index else failure eio

abbrev modes : List ℕ
modes = 32768 ∷ 49663 ∷ replicate 14 0

abbrev inode_blocks : ℕ → Read (List ℕ)
inode_blocks blk = contents modes

abbrev fine : ℕ → Bool
fine b = false

super-Chain : Chain fine disk super 1 (9 ∷ 7 ∷ 5 ∷ 6 ∷ [])
super-Chain =
    link {g = super} {g' = index} {b = 9} (λ e. omega arith) refl (omega arith) refl refl
      (last (λ e. omega arith) refl)

modes-Table : Table inode_blocks 1 2 modes
modes-Table = block {modes = modes} refl refl done

count_blocks-Chain_example : count_blocks fine disk 10 12 super 0 ≡ counted 4
count_blocks-Chain_example =
    count_blocks-Chain fine disk 10 12 0 super-Chain (omega arith) (omega arith) (omega arith)

-- Block 9 is its own next index block.
abbrev loop : Group
loop = record { nfree = 1; tab = 9 ∷ [] }

abbrev loop_disk : ℕ → Read Group
loop_disk b = contents loop

count_blocks_endless_example : count_blocks fine loop_disk 65535 1000000 loop 0 ≡ out_of_fuel
count_blocks_endless_example =
    count_blocks_endless fine loop_disk loop 9 1000000 0 refl (omega arith) refl refl

small_loop : count_blocks fine loop_disk 10 12 loop 0 ≢ out_of_fuel
small_loop = count_blocks_ends fine loop_disk 10 12 0 loop (omega arith) (omega arith) (omega arith)

statfs_lem_example :
    statfs fine disk inode_blocks fs
    ≡ filled (record {
      bsize = 512;
      frsize = 512;
      blocks = 10;
      files = 16;
      namemax = 14;
      bfree = 4;
      bavail = 4;
      ffree = 14;
    })
statfs_lem_example =
    statfs_lem fine disk inode_blocks fs super-Chain (omega arith) (omega arith) (omega arith)
      modes-Table
