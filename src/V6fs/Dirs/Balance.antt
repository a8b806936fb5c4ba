-- ===== src/V6fs/Dirs/Balance.antt =====
-- Counts of the inodes that `v6fs_mkdir` of src/v6fs.c holds.
use retro_fuse.Prelude.{ℕ, not, ◌&&◌, ◌==◌, ◌%◌}
use retro_fuse.Prelude.Int.{is_neg}
use retro_fuse.V6fs.Kernel.{FilePath, Kernel}
use retro_fuse.V6fs.Kernel.Counts.{CountsInodes}
use retro_fuse.V6fs.Kernel.Balance.{
  Keeps, bind, next, choose, return, found-Keeps, create-Keeps, begin-Keeps, last_error-Keeps,
  clear_error-Keeps, get_error-Keeps, get_uid-Keeps, set_uid-Keeps, get_ruid-Keeps,
  read_inode-Keeps, write_inode-Keeps, namei-Keeps, maknode-Keeps, iput-Keeps,
}
use retro_fuse.V6fs.Files.Balance.{Balanced, v6fs_link-Keeps, v6fs_unlink-Keeps, v6fs_chmod-Keeps}
use retro_fuse.V6fs.Dirs.{is_zero, own_dir, fill_dir, create_dir, remove_dir, v6fs_mkdir, dirname}

module _ (K : Kernel) (L : CountsInodes K) where
  own_dir-Keeps : (p : FilePath) (mode ip : ℕ) → Keeps L.held 1 (own_dir K p mode ip) (λ _. 0)
  unfolding own_dir
  own_dir-Keeps p mode ip = bind get_ruid-Keeps λ ruid. bind (read_inode-Keeps K L ip) λ i.
      next (write_inode-Keeps K L ip _) (
        next (iput-Keeps K L ip) (
          bind get_error-Keeps
            λ e. choose (not (e == 0)) last_error-Keeps (v6fs_chmod-Keeps K L p (mode % 4096))))

  fill_dir-Keeps : (p : FilePath) (mode : ℕ) → Balanced K L (fill_dir K p mode)
  unfolding fill_dir
  fill_dir-Keeps p mode = bind get_error-Keeps λ e. choose (not (e == 0)) last_error-Keeps (
      bind (v6fs_link-Keeps K L p _) λ r. choose (is_neg r) (return r) (
        bind (v6fs_link-Keeps K L (dirname p) _) λ q. choose (is_neg q) (return q) (
          next clear_error-Keeps
            (bind (namei-Keeps K L p) λ o. found-Keeps o last_error-Keeps (own_dir-Keeps p mode)))))

  create_dir-Keeps : (p : FilePath) (mode : ℕ) → Balanced K L (create_dir K p mode)
  unfolding create_dir
  create_dir-Keeps p mode =
      create-Keeps K L p (bind last_error-Keeps λ r. return _)
        (next (set_uid-Keeps 0) (
          bind (maknode-Keeps K L 0x41C0) λ made.
            found-Keeps made (bind last_error-Keeps λ r. return _)
              λ ip. next (iput-Keeps K L ip) (bind (fill_dir-Keeps p mode) λ r. return _)))
        (λ ip. next (iput-Keeps K L ip) (return _))

  remove_dir-Keeps : (p : FilePath) → Balanced K L (remove_dir K p)
  unfolding remove_dir
  remove_dir-Keeps p =
      bind (v6fs_unlink-Keeps K L _)
        λ a. bind (v6fs_unlink-Keeps K L _) λ b. bind (v6fs_unlink-Keeps K L p) λ c. return tt

  -- Making a directory gives back each inode that it looked up or made, on every path, where each call
  -- of the kernel hands out and takes the references that it documents.
  pub v6fs_mkdir-Balanced : (p : FilePath) (mode : ℕ) → Balanced K L (v6fs_mkdir K p mode)
  unfolding v6fs_mkdir
  v6fs_mkdir-Balanced p mode = bind get_uid-Keeps λ preveuid. next (begin-Keeps K L) (
      bind (create_dir-Keeps p mode) λ r.
        next (choose (not (is_zero r.0) && r.1) (remove_dir-Keeps p) (return tt))
          (next (set_uid-Keeps preveuid) (return r.0)))
