-- ===== src/V7fs/Seek/Range.antt =====
-- What `v7fs_seek` of src/v7fs.c answers, beside `v6fs_seek` of src/v6fs.c.
use retro_fuse.Prelude.{◌≡◌, refl, ap, ◌||◌, if◌then◌else◌, true, false, not}
use retro_fuse.Prelude.Int.{ℤ, pos, ◌+ℤ◌, leb_ℤ, ltb_ℤ, is_neg, neg}
use retro_fuse.Errno.{enxio, einval}
use retro_fuse.V6fs.Kernel.{OpenFile}
use retro_fuse.V6fs.Transfer.{
  Whence, seek_set, seek_cur, seek_end, seek_data, seek_hole, seek_other, cur_size, cur_pos,
  seek_target, seek_result,
}
use retro_fuse.V7fs.Seek.{V7File, seek_goal, seek_outcome}

module _ (old : OpenFile) (f : V7File) (offset : ℤ) where
  same_goal :
      (whence : Whence)
      → f.size ≡ pos (cur_size old)
      → f.offset ≡ pos (cur_pos old)
      → seek_goal f offset whence ≡ seek_target old offset whence
  unfolding seek_goal seek_target
  same_goal seek_set e g = refl
  same_goal seek_cur e g = ap (λ p. (offset +ℤ p, true)) g
  same_goal seek_end e g = ap (λ p. (offset +ℤ p, true)) e
  same_goal seek_data e g =
      ap (λ p. if leb_ℤ p offset then (neg enxio, false) else (offset, true)) e
  same_goal seek_hole e g = ap (λ p. if leb_ℤ p offset then (neg enxio, false) else (p, true)) e
  same_goal seek_other e g = refl

  -- On a file of the same size and at the same offset both editions seek to the same place, or refuse
  -- with the same error.
  same_seek :
      (whence : Whence)
      → f.size ≡ pos (cur_size old)
      → f.offset ≡ pos (cur_pos old)
      → seek_outcome f offset whence ≡ seek_result old offset whence
  unfolding seek_outcome seek_result
  same_seek whence e g =
      ap
        (λ r.
          if not r.1
          then (r.0, false)
          else if is_neg r.0 || ltb_ℤ (pos 2147483647) r.0
          then (neg einval, false)
          else (r.0, true))
        (same_goal whence e g)
