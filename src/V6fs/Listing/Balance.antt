-- ===== src/V6fs/Listing/Balance.antt =====
-- Counts of the inodes that `v6fs_enumdir` and `v6fs_rmdir` of src/v6fs.c hold.
use retro_fuse.Prelude.{
  ℕ, zero, suc, ◌/◌, ◌%◌, refl, Bool, not, ◌||◌, Option, none, some, List, ◌==◌,
}
use retro_fuse.Prelude.Int.{ℤ, pos, pos_part, leb_ℤ, ltb_ℤ, is_neg}
use retro_fuse.IdMap.{IdMap}
use retro_fuse.V6fs.Stat.{Stat, convertstat}
use retro_fuse.V6fs.Kernel.{FilePath, M, Kernel}
use retro_fuse.V6fs.Kernel.Counts.{CountsInodes}
use retro_fuse.V6fs.Kernel.Balance.{
  Keeps, bind, next, choose, return, neutral, found-Keeps, begin-Keeps, last_error-Keeps,
  clear_error-Keeps, get_error-Keeps, get_uid-Keeps, set_uid-Keeps, iget-Keeps, iput-Keeps,
}
use retro_fuse.V6fs.Files.Balance.{
  Balanced, v6fs_open-Keeps, v6fs_close-Keeps, v6fs_stat-Keeps, v6fs_unlink-Keeps,
}
use retro_fuse.V6fs.Transfer.Balance.{v6fs_read-Keeps}
use retro_fuse.V6fs.Dirs.{is_char, is_dotdot, is_zero}
use retro_fuse.V6fs.Listing.{
  read_only, DirEntry, entry_of, Visitor, v6fs_failnonemptydir, basename, show_stat, visit_entry,
  behind_visit, behind_read, enum_loop, v6fs_enumdir, remove_entries, rmdir_listed, rmdir_found,
  v6fs_rmdir,
}

module _ (K : Kernel) (L : CountsInodes K) where
  module _ (signed : Bool) (u g : IdMap) where
    module _ {A : Type 0} (visit : Visitor A) where
      show_stat-Keeps :
          (name : List ℕ) (ip : ℕ) (o : Option Stat) (context : A)
          → Keeps L.held 1 (show_stat K signed u g visit name ip o context) (λ _. 0)
      unfolding show_stat
      show_stat-Keeps name ip none context = next (iput-Keeps K L ip) (return _)
      show_stat-Keeps name ip (some st) context = next (iput-Keeps K L ip) (return _)

      visit_entry-Keeps :
          (e : DirEntry) (context : A) → Balanced K L (visit_entry K signed u g visit e context)
      unfolding visit_entry
      visit_entry-Keeps e context = next clear_error-Keeps (
          bind (iget-Keeps K L e.d_inode) λ o.
            found-Keeps o (bind last_error-Keeps λ res. return _) λ ip. next clear_error-Keeps (
              bind (neutral (K.stat1 ip) (L.held_stat1 ip)) λ v. bind get_error-Keeps λ err.
                choose (not (err == 0))
                  (bind last_error-Keeps λ res. next (iput-Keeps K L ip) (return _))
                  (show_stat-Keeps e.d_name ip (convertstat signed u g v) context)))

      behind_visit-Keeps :
          (rest : A → M K.Core (Option (ℤ × A))) (r : Option (ℤ × A))
          → ((context : A) → Balanced K L (rest context))
          → Balanced K L (behind_visit K signed u g visit rest r)
      unfolding behind_visit
      behind_visit-Keeps rest none h = return _
      behind_visit-Keeps rest (some (res, context)) h = choose (is_neg res) (return _) (h context)

      behind_read-Keeps :
          (rest : A → M K.Core (Option (ℤ × A))) (context : A) (r : Option (ℤ × List ℕ))
          → ((context : A) → Balanced K L (rest context))
          → Balanced K L (behind_read K signed u g visit rest context r)
      unfolding behind_read
      behind_read-Keeps rest context none h = return _
      behind_read-Keeps rest context (some (res, bytes)) h = choose (leb_ℤ res (pos 0)) (return _) (
          choose (ltb_ℤ res (pos 16)) (return _) (
            choose ((entry_of bytes).d_inode == 0) (h context)
              (bind (visit_entry-Keeps (entry_of bytes) context) λ r. behind_visit-Keeps rest r h)))

      enum_loop-Keeps :
          (fuel fd : ℕ) (context : A) → Balanced K L (enum_loop K signed u g visit fuel fd context)
      unfolding enum_loop
      enum_loop-Keeps zero fd context = return _
      enum_loop-Keeps (suc k) fd context =
          bind (v6fs_read-Keeps K L fd 16)
            λ r. behind_read-Keeps _ context r λ context. enum_loop-Keeps k fd context

      pub v6fs_enumdir-Keeps :
          (fuel : ℕ) (p : FilePath) (context : A)
          → Balanced K L (v6fs_enumdir K signed u g visit fuel p context)
      unfolding v6fs_enumdir
      v6fs_enumdir-Keeps fuel p context = next (begin-Keeps K L) (
          bind (v6fs_open-Keeps K L p read_only 0 refl) λ fd. choose (is_neg fd) (return _) (
            bind (enum_loop-Keeps fuel (pos_part fd) context)
              λ r. bind (v6fs_close-Keeps K L fd) λ closed. return r))

    remove_entries-Keeps : (p : FilePath) → Balanced K L (remove_entries K signed u g p)
    unfolding remove_entries
    remove_entries-Keeps p = next (set_uid-Keeps 0) (
        bind (v6fs_unlink-Keeps K L _) λ a. choose (not (is_zero a)) (return _) (
          bind (v6fs_unlink-Keeps K L _) λ b.
            choose (not (is_zero b)) (return _) (bind (v6fs_unlink-Keeps K L p) λ c. return _)))

    rmdir_listed-Keeps :
        (p : FilePath) (r : Option (ℤ × Unit {0})) → Balanced K L (rmdir_listed K signed u g p r)
    unfolding rmdir_listed
    rmdir_listed-Keeps p none = return _
    rmdir_listed-Keeps p (some (res, _)) = choose (is_neg res) (return _) (
        choose (is_char 46 (basename p) || is_dotdot (basename p)) (return _)
          (remove_entries-Keeps p))

    rmdir_found-Keeps :
        (fuel : ℕ) (p : FilePath) (r : ℤ × Option Stat)
        → Balanced K L (rmdir_found K signed u g fuel p r)
    unfolding rmdir_found
    rmdir_found-Keeps fuel p (res, none) = return _
    rmdir_found-Keeps fuel p (res, some st) =
        choose (not (st.st_mode / 4096 % 16 == 4)) (return _) (
          choose (st.st_ino == K.rootdir_number) (return _)
            (bind (v6fs_enumdir-Keeps v6fs_failnonemptydir fuel p tt) λ r. rmdir_listed-Keeps p r))

    pub v6fs_rmdir-Keeps : (fuel : ℕ) (p : FilePath) → Balanced K L (v6fs_rmdir K signed u g fuel p)
    unfolding v6fs_rmdir
    v6fs_rmdir-Keeps fuel p = bind get_uid-Keeps λ preveuid.
        bind (v6fs_stat-Keeps K L signed u g p)
          λ r. bind (rmdir_found-Keeps fuel p r) λ res. next (set_uid-Keeps preveuid) (return res)

-- Listing a directory, for any function that the entries are shown to, and removing one give back each
-- inode that they looked up, on every path, where each call of the kernel hands out and takes the
-- references that it documents.
listing-Balanced :
    {A : Type 0} (K : Kernel) (L : CountsInodes K) (signed : Bool) (u g : IdMap) (visit : Visitor A)
    (fuel : ℕ) (p : FilePath) (context : A)
    → Balanced K L (v6fs_enumdir K signed u g visit fuel p context)
      × Balanced K L (v6fs_rmdir K signed u g fuel p)
listing-Balanced K L signed u g visit fuel p context =
    (v6fs_enumdir-Keeps K L signed u g visit fuel p context, v6fs_rmdir-Keeps K L signed u g fuel p)
