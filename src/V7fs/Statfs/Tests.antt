-- ===== src/V7fs/Statfs/Tests.antt =====
-- The statistics of src/v7fs.c on small disks.
use retro_fuse.Prelude.{ℕ, ◌≡◌, refl, Bool, false, some, List, [], ◌∷◌, arith, ◌==◌, if◌then◌else◌}
use retro_fuse.Prelude.Int.{ℤ, pos, neg, pos_part}
use retro_fuse.Errno.{eio}
use retro_fuse.V7fs.Statfs.{
  Group, Read, gave, failed, ended, filled, follow, count_blocks, after_blocks, v7fs_statfs,
}
use retro_fuse.V7fs.Statfs.Counts.{last_table, table, no_more, block, v7fs_statfs_lem}

-- Twenty blocks: the superblock names three free blocks, of which block 7 names two more.
abbrev first_group : Group
first_group = record { nfree = pos 3; nextfblk = pos 7 }

abbrev second_group : Group
second_group = record { nfree = pos 3; nextfblk = pos 0 }

abbrev disk : ℤ → Read Group
disk n = if pos_part n == 7 then gave second_group else failed eio

-- A disk on which every table names the block 7 again.
abbrev loop_disk : ℤ → Read Group
loop_disk n = gave first_group

abbrev sound_blocks : ℤ → Bool
sound_blocks n = false

abbrev inodes : ℕ → Read (List ℕ)
inodes blk = gave (0x41FF ∷ 0 ∷ 0x81A4 ∷ 0 ∷ 0 ∷ 0 ∷ 0 ∷ 0 ∷ [])

loop_run : v7fs_statfs sound_blocks loop_disk inodes (pos 20) 3 first_group ≡ some (ended (neg eio))
unfolding v7fs_statfs count_blocks follow after_blocks
loop_run = refl

v7fs_statfs_lem_example :
    v7fs_statfs sound_blocks disk inodes (pos 20) 3 first_group
    ≡ some
        (filled (record { f_blocks = pos 20; f_bfree = 5; f_bavail = 5; f_files = 8; f_ffree = 6 }))
v7fs_statfs_lem_example =
    v7fs_statfs_lem sound_blocks disk inodes (pos 20) 3 first_group 5 1 6
      (table (omega arith) refl refl (last_table (omega arith))) (omega arith) (block refl no_more)
