-- ===== src/V7fs/Seek.antt =====
-- `v7fs_seek`, `v7fs_pread` and `v7fs_pwrite` of src/v7fs.c. The size and the offset of a file are signed
-- 32-bit numbers here; how the kernel finds an open file and sets its offset is a parameter.
pub mod Range
use retro_fuse.Prelude.{
  ℕ, Bool, true, false, not, ◌||◌, Option, none, some, List, [], ltb, if◌then◌else◌,
}
use retro_fuse.Prelude.Int.{ℤ, pos, negsuc, neg, pos_part, ◌+ℤ◌, leb_ℤ, ltb_ℤ, is_neg}
use retro_fuse.Errno.{ebadf, einval, enxio, espipe}
use retro_fuse.V6fs.Kernel.{M, ◌>>=◌, ◌>>◌, pure, Kernel, last_error, begin}
use retro_fuse.V6fs.Transfer.{
  Whence, seek_set, seek_cur, seek_end, seek_data, seek_hole, seek_other,
}
use retro_fuse.V7fs.Calls.{v7fs_read, v7fs_write}

-- An open file: the flags FPIPE and FMP, the size and the offset.
pub record V7File : Type 0 where
  pub is_pipe : Bool
  pub is_multiplexed : Bool
  pub size : ℤ
  pub offset : ℤ

-- The new offset before the range check, or a negative error.
unfoldable pub seek_goal : V7File → (offset : ℤ) → Whence → ℤ × Bool
seek_goal f offset seek_set = (offset, true)
seek_goal f offset seek_cur = (offset +ℤ f.offset, true)
seek_goal f offset seek_end = (offset +ℤ f.size, true)
seek_goal f offset seek_data = if leb_ℤ f.size offset then (neg enxio, false) else (offset, true)
seek_goal f offset seek_hole = if leb_ℤ f.size offset then (neg enxio, false) else (f.size, true)
seek_goal f offset seek_other = (neg einval, false)

-- The result of the call and whether it sets the offset.
unfoldable pub seek_outcome : V7File → (offset : ℤ) → Whence → ℤ × Bool
unfolding seek_goal
seek_outcome f offset whence =
    let (target, valid) = seek_goal f offset whence in
    if not valid
    then (target, false)
    else if is_neg target || ltb_ℤ (pos 2147483647) target
    then (neg einval, false)
    else (target, true)

module _ (K : Kernel) (getf : (fd : ℕ) → M K.Core (Option V7File))
    (set_offset : (fd : ℕ) → ℤ → M K.Core (Unit {0})) where
  unfoldable pub set_place : ℕ → ℤ × Bool → M K.Core ℤ
  set_place fd (res, false) = pure res
  set_place fd (res, true) = do set_offset fd res; pure res

  unfoldable pub seek_opened : ℕ → (offset : ℤ) → Whence → Option V7File → M K.Core ℤ
  unfolding set_place seek_outcome
  seek_opened fd offset whence none = last_error
  seek_opened fd offset whence (some f) =
      if f.is_pipe || f.is_multiplexed
      then pure (neg espipe)
      else set_place fd (seek_outcome f offset whence)

  unfoldable pub v7fs_seek : (fd : ℤ) → (offset : ℤ) → Whence → M K.Core ℤ
  unfolding seek_opened
  v7fs_seek (negsuc n) offset whence = do begin K; pure (neg ebadf)
  v7fs_seek (pos fd) offset whence = do
    begin K
    if ltb 32767 fd then pure (neg ebadf) else (do f ← getf fd; seek_opened fd offset whence f)

  unfoldable pub v7fs_pread : (fd count : ℕ) → (offset : ℤ) → M K.Core (Option (ℤ × List ℕ))
  unfolding v7fs_seek
  v7fs_pread fd count offset = do
    res ← v7fs_seek (pos fd) offset seek_set
    if is_neg res then pure (some (res, [])) else v7fs_read K fd count

  unfoldable pub v7fs_pwrite :
      (fd : ℕ) → (buf : List ℕ) → (count : ℕ) → (offset : ℤ) → M K.Core (Option ℤ)
  unfolding v7fs_seek
  v7fs_pwrite fd buf count offset = do
    res ← v7fs_seek (pos fd) offset seek_set
    if is_neg res then pure (some res) else v7fs_write K fd buf count
