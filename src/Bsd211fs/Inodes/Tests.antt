-- ===== src/Bsd211fs/Inodes/Tests.antt =====
-- The calls of src/bsd211fs.c on the inode of a file of user 3.
use retro_fuse.Prelude.{◌≡◌, refl, none, [], ◌∷◌}
use retro_fuse.V6fs.Kernel.{clear_error}
use retro_fuse.Prelude.Int.{pos}
use retro_fuse.Bsd211fs.Toy.{toy_kernel, old_file, as_user}
use retro_fuse.Bsd211fs.Inodes.{bsd211fs_utimens, change_owner}
use retro_fuse.Bsd211fs.Inodes.Owner.{KeepsInodes, SameButOwner, change_owner_lem}
use retro_fuse.Bsd211fs.Inodes.Times.{marked, bsd211fs_utimens_now}

-- The user 8 sets both times to the current one.
bsd211fs_utimens_now_example :
    bsd211fs_utimens toy_kernel (97 ∷ []) none (as_user 8 [])
    ≡ (pos 0, marked toy_kernel 5 (as_user 8 []))
unfolding clear_error
bsd211fs_utimens_now_example =
    bsd211fs_utimens_now toy_kernel (97 ∷ []) 5 (as_user 8 []) (as_user 8 []) refl

toy-KeepsInodes : KeepsInodes toy_kernel
toy-KeepsInodes = record {
  inode-set = λ ip i c. refl;
  suser_inode = λ ip s. refl;
  groupmember_inode = λ ip g s. refl;
}

-- Root gives the file to user 9.
change_owner_lem_example :
    SameButOwner old_file (change_owner toy_kernel 5 9 1 9 1 (as_user 0 [])).1.core.file
change_owner_lem_example = change_owner_lem toy_kernel toy-KeepsInodes 5 9 1 9 1 (as_user 0 [])
