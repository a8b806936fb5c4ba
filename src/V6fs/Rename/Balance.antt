-- ===== src/V6fs/Rename/Balance.antt =====
-- Counts of the inodes that `v6fs_reparentdir` of src/v6fs.c holds.
use retro_fuse.Prelude.{ℕ, zero, suc, refl, not, Option, none, some, List, ◌==◌}
use retro_fuse.Prelude.Int.{ℤ, pos, neg, pos_part, ltb_ℤ, eqb_ℤ, is_neg}
use retro_fuse.Errno.{eio}
use retro_fuse.V6fs.Kernel.{FilePath, M, Kernel}
use retro_fuse.V6fs.Kernel.Counts.{CountsInodes, with_refs}
use retro_fuse.V6fs.Kernel.Balance.{
  Keeps, bind, next, choose, return, returned, frame, neutral, found-Keeps, last_error-Keeps,
  get_time-Keeps, read_inode-Keeps, write_inode-Keeps, namei-Keeps, iget-Keeps, iput-Keeps,
}
use retro_fuse.V6fs.Files.Balance.{Balanced, v6fs_open-Keeps, v6fs_close-Keeps}
use retro_fuse.V6fs.Files.{v6fs_close}
use retro_fuse.V6fs.Transfer.{seek_cur}
use retro_fuse.V6fs.Transfer.Balance.{v6fs_read-Keeps, v6fs_write-Keeps, v6fs_seek-Keeps}
use retro_fuse.V6fs.Dirs.{dirname, is_zero}
use retro_fuse.V6fs.Listing.{read_only, entry_of}
use retro_fuse.V6fs.Rename.{
  one_less, one_more, is_parent_entry, behind_entry, find_parent, relink, finish_entry,
  rewrite_entry, reparent_entry, give_back, reparent_open, v6fs_reparentdir,
}

module _ (K : Kernel) (L : CountsInodes K) where
  behind_entry-Keeps :
      (rest : M K.Core (Option (ℤ × List ℕ))) (r : Option (ℤ × List ℕ))
      → Balanced K L rest
      → Balanced K L (behind_entry K rest r)
  unfolding behind_entry
  behind_entry-Keeps rest none h = return _
  behind_entry-Keeps rest (some (res, bytes)) h =
      choose (is_neg res) (return _)
        (choose (ltb_ℤ res (pos 16)) (return _) (choose (is_parent_entry bytes) (return _) h))

  find_parent-Keeps : (fuel fd : ℕ) → Balanced K L (find_parent K fuel fd)
  unfolding find_parent
  find_parent-Keeps zero fd = return _
  find_parent-Keeps (suc k) fd =
      bind (v6fs_read-Keeps K L fd 16) λ r. behind_entry-Keeps _ r (find_parent-Keeps k fd)

  relink-Keeps : (ip : ℕ) (change : ℕ → ℕ) → Balanced K L (relink K ip change)
  unfolding relink
  relink-Keeps ip change = bind (read_inode-Keeps K L ip) λ i. next (write_inode-Keeps K L ip _) (
      bind get_time-Keeps λ t. next (neutral (K.iupdat ip t) (L.held_iupdat ip t)) last_error-Keeps)

  finish_entry-Keeps : (np : ℕ) (r : Option ℤ) → Balanced K L (finish_entry K np r)
  unfolding finish_entry
  finish_entry-Keeps np none = return _
  finish_entry-Keeps np (some res) =
      choose (is_neg res) (return _)
        (choose (ltb_ℤ res (pos 16)) (return _) (bind (relink-Keeps np one_more) λ r. return _))

  rewrite_entry-Keeps :
      (fd np number : ℕ) (bytes : List ℕ) (op : ℕ)
      → Balanced K L (rewrite_entry K fd np number bytes op)
  unfolding rewrite_entry
  rewrite_entry-Keeps fd np number bytes op = bind (relink-Keeps op one_less) λ a.
      choose (not (is_zero a)) (return _) (
        bind (v6fs_seek-Keeps K L (pos fd) (neg 16) seek_cur) λ b.
          choose (is_neg b) (return _)
            (bind (v6fs_write-Keeps K L fd _ 16) λ r. finish_entry-Keeps np r))

  -- The old parent comes with a reference.
  reparent_entry-Keeps :
      (fd np : ℕ) (r : Option (ℤ × List ℕ))
      → Keeps L.held 0 (reparent_entry K fd np r) (λ q. with_refs q.1 0)
  unfolding reparent_entry
  reparent_entry-Keeps fd np none = returned (none, none)
  reparent_entry-Keeps fd np (some (res, bytes)) =
      choose (not (is_zero res)) (returned (some res, none)) (
        bind (read_inode-Keeps K L np) λ i.
          choose ((entry_of bytes).d_inode == i.number) (returned (some (pos 0), none)) (
            bind (iget-Keeps K L (entry_of bytes).d_inode) λ o.
              found-Keeps o (returned (some (neg eio), none)) λ op.
                bind (frame (rewrite_entry-Keeps fd np i.number bytes op))
                  λ r. returned (r, some op)))

  give_back-Keeps : (o : Option ℕ) → Keeps L.held (with_refs o 0) (give_back K o) (λ _. 0)
  unfolding give_back
  give_back-Keeps none = return tt
  give_back-Keeps (some ip) = iput-Keeps K L ip

  reparent_open-Keeps :
      (fuel : ℕ) (p : FilePath) (np : ℕ) → Keeps L.held 1 (reparent_open K fuel p np) (λ _. 0)
  unfolding reparent_open
  reparent_open-Keeps fuel p np = bind (read_inode-Keeps K L np) λ i.
      next (write_inode-Keeps K L np _) (
        bind (frame (v6fs_open-Keeps K L p read_only 0 refl)) λ fd.
          choose (is_neg fd)
            (next
              (choose (eqb_ℤ fd (neg 1)) (return tt)
                (bind (frame (v6fs_close-Keeps K L fd)) λ closed. return tt))
              (next (iput-Keeps K L np) (return _)))
            (next (neutral (K.allow_write (pos_part fd)) (L.held_allow_write (pos_part fd))) (
              bind (frame (find_parent-Keeps fuel (pos_part fd))) λ r.
                bind (frame (reparent_entry-Keeps (pos_part fd) np r)) λ q.
                  bind (close_later fd (with_refs q.1 0))
                    λ closed. next (iput-Keeps K L np) (next (give_back-Keeps q.1) (return q.0)))))
    where
      close_later : (fd : ℤ) (n : ℕ) → Keeps L.held (suc n) (v6fs_close K fd) (λ _. suc n)
      close_later fd zero = frame (v6fs_close-Keeps K L fd)
      close_later fd (suc n) = frame (close_later fd n)

-- The rewriting of the entry `..` of a moved directory gives back the inodes of both its parents on every
-- path, where each call of the kernel hands out and takes the references that it documents.
pub v6fs_reparentdir-Balanced :
    (K : Kernel) (L : CountsInodes K) (fuel : ℕ) (p : FilePath)
    → Balanced K L (v6fs_reparentdir K fuel p)
unfolding v6fs_reparentdir
v6fs_reparentdir-Balanced K L fuel p =
    bind (namei-Keeps K L (dirname p))
      λ o. found-Keeps o (bind last_error-Keeps λ r. return _) (reparent_open-Keeps K L fuel p)
