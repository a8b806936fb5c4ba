-- ===== src/V6fs/Transfer/Balance.antt =====
-- Counts of the inodes that the calls on an open file of src/v6fs.c hold.
use retro_fuse.Prelude.{
  ℕ, zero, suc, ◌+◌, Bool, true, false, not, Option, none, some, List, [], ◌==◌, ltb, length,
}
use retro_fuse.Prelude.Int.{ℤ, pos, negsuc, is_neg}
use retro_fuse.V6fs.Kernel.{M, Kernel, OpenFile}
use retro_fuse.V6fs.Kernel.Counts.{CountsInodes}
use retro_fuse.V6fs.Kernel.Balance.{
  bind, next, choose, return, neutral, begin-Keeps, last_error-Keeps, clear_error-Keeps,
  get_error-Keeps,
}
use retro_fuse.V6fs.Files.Balance.{Balanced}
use retro_fuse.V6fs.Transfer.{
  Whence, seek_set, seek_result, piece, read_more, read_loop, v6fs_read, v6fs_pread, write_more,
  write_loop, v6fs_write, v6fs_pwrite, set_position, seek_file, v6fs_seek,
}

module _ (K : Kernel) (L : CountsInodes K) where
  read_more-Keeps :
      (rest : M K.Core (Option (ℤ × List ℕ))) (sofar bytes : List ℕ)
      → Balanced K L rest
      → Balanced K L (read_more K rest sofar bytes)
  unfolding read_more
  read_more-Keeps rest sofar bytes h = bind get_error-Keeps λ e.
      choose (not (e == 0)) (bind last_error-Keeps λ res. return _)
        (choose (length bytes == 0) (return _) h)

  read_loop-Keeps :
      (fuel fd count : ℕ) (sofar : List ℕ) → Balanced K L (read_loop K fuel fd count sofar)
  unfolding read_loop
  read_loop-Keeps zero fd count sofar = return _
  read_loop-Keeps (suc k) fd count sofar = choose (count == 0) (return _) (
      next clear_error-Keeps (
        bind (neutral (K.rdwr_read fd _) (L.held_rdwr_read fd _))
          λ bytes. read_more-Keeps _ sofar bytes (read_loop-Keeps k fd _ _)))

  pub v6fs_read-Keeps : (fd count : ℕ) → Balanced K L (v6fs_read K fd count)
  unfolding v6fs_read
  v6fs_read-Keeps fd count =
      next (neutral K.refreshclock L.held_refreshclock) (read_loop-Keeps (count + 1) fd count [])

  set_position-Keeps : (fd : ℕ) (r : ℤ × Bool) → Balanced K L (set_position K fd r)
  unfolding set_position
  set_position-Keeps fd (res, false) = return res
  set_position-Keeps fd (res, true) =
      next (neutral (K.set_offset fd _) (L.held_set_offset fd _)) (return res)

  seek_file-Keeps :
      (fd : ℕ) (offset : ℤ) (w : Whence) (o : Option OpenFile)
      → Balanced K L (seek_file K fd offset w o)
  unfolding seek_file
  seek_file-Keeps fd offset w none = last_error-Keeps
  seek_file-Keeps fd offset w (some f) =
      choose f.is_pipe (return _) (set_position-Keeps fd (seek_result f offset w))

  pub v6fs_seek-Keeps : (fd offset : ℤ) (w : Whence) → Balanced K L (v6fs_seek K fd offset w)
  unfolding v6fs_seek
  v6fs_seek-Keeps (negsuc n) offset w = next (begin-Keeps K L) (return _)
  v6fs_seek-Keeps (pos fd) offset w = next (begin-Keeps K L) (
      choose (ltb 32767 fd) (return _)
        (bind (neutral (K.getf fd) (L.held_getf fd)) λ f. seek_file-Keeps fd offset w f))

  write_more-Keeps :
      (rest : M K.Core (Option ℤ)) (total size n : ℕ)
      → Balanced K L rest
      → Balanced K L (write_more K rest total size n)
  unfolding write_more
  write_more-Keeps rest total size n h = bind get_error-Keeps λ e.
      choose (not (e == 0)) (bind last_error-Keeps λ res. return _)
        (choose (n == size) h (return _))

  write_loop-Keeps :
      (fuel fd : ℕ) (buf : List ℕ) (count total : ℕ)
      → Balanced K L (write_loop K fuel fd buf count total)
  unfolding write_loop
  write_loop-Keeps zero fd buf count total = return _
  write_loop-Keeps (suc k) fd buf count total = choose (count == 0) (return _) (
      next clear_error-Keeps (
        bind (neutral (K.rdwr_write fd _) (L.held_rdwr_write fd _))
          λ n. write_more-Keeps _ total (piece count) n (write_loop-Keeps k fd _ _ _)))

  pub v6fs_write-Keeps :
      (fd : ℕ) (buf : List ℕ) (count : ℕ) → Balanced K L (v6fs_write K fd buf count)
  unfolding v6fs_write
  v6fs_write-Keeps fd buf count =
      next (neutral K.refreshclock L.held_refreshclock)
        (write_loop-Keeps (count + 1) fd buf count 0)

  pub v6fs_pread-Keeps : (fd count : ℕ) (offset : ℤ) → Balanced K L (v6fs_pread K fd count offset)
  unfolding v6fs_pread
  v6fs_pread-Keeps fd count offset =
      bind (v6fs_seek-Keeps (pos fd) offset seek_set)
        λ res. choose (is_neg res) (return _) (v6fs_read-Keeps fd count)

  pub v6fs_pwrite-Keeps :
      (fd : ℕ) (buf : List ℕ) (count : ℕ) (offset : ℤ)
      → Balanced K L (v6fs_pwrite K fd buf count offset)
  unfolding v6fs_pwrite
  v6fs_pwrite-Keeps fd buf count offset =
      bind (v6fs_seek-Keeps (pos fd) offset seek_set)
        λ res. choose (is_neg res) (return _) (v6fs_write-Keeps fd buf count)
