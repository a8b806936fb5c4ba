-- ===== src/V6fs/Transfer.antt =====
-- The calls of src/v6fs.c on an open file: seek, read, pread, write and pwrite. The kernel moves at
-- most 65535 bytes in one call, so the two transfers are loops over such pieces. They run on fuel,
-- one round more than there are bytes; `none` means that it ran out.
pub mod Seek
pub mod Read
pub mod Write
pub mod Balance
pub mod Place
pub mod Tests
use retro_fuse.Prelude.{
  ℕ, zero, suc, ◌+◌, ◌-◌, ◌*◌, ◌/◌, ◌%◌, ◌^◌, Bool, true, false, not, ◌||◌, Option, none, some,
  List, [], ◌∷◌, ◌++◌, ltb, ◌==◌, if◌then◌else◌, length, take, drop,
}
use retro_fuse.Prelude.Int.{ℤ, pos, negsuc, neg, pos_part, ◌+ℤ◌, ltb_ℤ, leb_ℤ, is_neg}
use retro_fuse.Errno.{ebadf, einval, enxio, espipe}
use retro_fuse.V6fs.Kernel.{
  Sys, M, ◌>>=◌, ◌>>◌, pure, OpenFile, Kernel, clear_error, get_error, last_error, begin,
}

pub data Whence : Type 0 where
  seek_set seek_cur seek_end seek_data seek_hole seek_other : Whence

abbrev pub cur_size : OpenFile → ℕ
cur_size f = f.size0 % 256 * 65536 + f.size1

abbrev pub cur_pos : OpenFile → ℕ
cur_pos f = f.offset.0 * 65536 + f.offset.1

-- The new offset before the range check, or a negative error.
unfoldable pub seek_target : OpenFile → (offset : ℤ) → Whence → ℤ × Bool
seek_target f offset seek_set = (offset, true)
seek_target f offset seek_cur = (offset +ℤ pos (cur_pos f), true)
seek_target f offset seek_end = (offset +ℤ pos (cur_size f), true)
seek_target f offset seek_data =
    if leb_ℤ (pos (cur_size f)) offset then (neg enxio, false) else (offset, true)
seek_target f offset seek_hole =
    if leb_ℤ (pos (cur_size f)) offset then (neg enxio, false) else (pos (cur_size f), true)
seek_target f offset seek_other = (neg einval, false)

-- The result of the call and whether it sets the offset.
unfoldable pub seek_result : OpenFile → (offset : ℤ) → Whence → ℤ × Bool
unfolding seek_target
seek_result f offset whence =
    let (target, valid) = seek_target f offset whence in
    if not valid
    then (target, false)
    else if is_neg target || ltb_ℤ (pos 2147483647) target
    then (neg einval, false)
    else (target, true)

-- `f_offset[0]` and `f_offset[1]`
abbrev pub offset_words : ℕ → ℕ × ℕ
offset_words n = (n / 65536 % 65536, n % 65536)

-- The length of the piece for `count` bytes.
abbrev pub piece : ℕ → ℕ
piece count = if ltb 65535 count then 65535 else count

-- `count -= n` of a 64-bit size_t.
abbrev pub sub64 : ℕ → ℕ → ℕ
sub64 count n = (count + 2 ^ 64 - n) % 2 ^ 64

module _ (K : Kernel) where
  unfoldable pub set_position : ℕ → ℤ × Bool → M K.Core ℤ
  set_position fd (res, false) = pure res
  set_position fd (res, true) = do K.set_offset fd (offset_words (pos_part res)); pure res

  unfoldable pub seek_file : ℕ → (offset : ℤ) → Whence → Option OpenFile → M K.Core ℤ
  seek_file fd offset whence none = last_error
  seek_file fd offset whence (some f) =
      if f.is_pipe then pure (neg espipe) else set_position fd (seek_result f offset whence)

  unfoldable pub v6fs_seek : (fd : ℤ) → (offset : ℤ) → Whence → M K.Core ℤ
  v6fs_seek (negsuc n) offset whence = do begin K; pure (neg ebadf)
  v6fs_seek (pos fd) offset whence = do
    begin K
    if ltb 32767 fd then pure (neg ebadf) else (do f ← K.getf fd; seek_file fd offset whence f)

  -- A transfer's return value and the bytes that it has put in the buffer.
  abbrev pub Got : Type 0
  Got = Option (ℤ × List ℕ)

  -- The rest of a round, behind the kernel's call.
  unfoldable pub read_more : (rest : M K.Core Got) → (sofar bytes : List ℕ) → M K.Core Got
  read_more rest sofar bytes = do
    e ← get_error
    if not (e == 0)
        then (do res ← last_error; pure (some (res, sofar)))
        else if length bytes == 0
        then pure (some (pos (length sofar), sofar))
        else rest

  pub read_loop : (fuel fd count : ℕ) → (sofar : List ℕ) → M K.Core Got
  read_loop zero fd count sofar = pure none
  read_loop (suc k) fd count sofar =
      if count == 0 then pure (some (pos (length sofar), sofar)) else (do
        clear_error
        bytes ← K.rdwr_read fd (piece count)
        read_more (read_loop k fd (sub64 count (length bytes)) (sofar ++ bytes)) sofar bytes)

  unfoldable pub v6fs_read : (fd count : ℕ) → M K.Core Got
  unfolding read_loop
  v6fs_read fd count = do K.refreshclock; read_loop (count + 1) fd count []

  unfoldable pub v6fs_pread : (fd count : ℕ) → (offset : ℤ) → M K.Core Got
  v6fs_pread fd count offset = do
    res ← v6fs_seek (pos fd) offset seek_set
    if is_neg res then pure (some (res, [])) else v6fs_read fd count

  unfoldable pub write_more :
      (rest : M K.Core (Option ℤ)) → (total size n : ℕ) → M K.Core (Option ℤ)
  write_more rest total size n = do
    e ← get_error
    if not (e == 0)
        then (do res ← last_error; pure (some res))
        else if n == size
        then rest
        else pure (some (pos (total + n)))

  pub write_loop : (fuel fd : ℕ) → (buf : List ℕ) → (count total : ℕ) → M K.Core (Option ℤ)
  write_loop zero fd buf count total = pure none
  write_loop (suc k) fd buf count total = if count == 0 then pure (some (pos total)) else (do
    clear_error
    n ← K.rdwr_write fd (take (piece count) buf)
    write_more (write_loop k fd (drop n buf) (sub64 count n) (total + n)) total (piece count) n)

  unfoldable pub v6fs_write : (fd : ℕ) → (buf : List ℕ) → (count : ℕ) → M K.Core (Option ℤ)
  unfolding write_loop
  v6fs_write fd buf count = do K.refreshclock; write_loop (count + 1) fd buf count 0

  unfoldable pub v6fs_pwrite :
      (fd : ℕ) → (buf : List ℕ) → (count : ℕ) → (offset : ℤ) → M K.Core (Option ℤ)
  v6fs_pwrite fd buf count offset = do
    res ← v6fs_seek (pos fd) offset seek_set
    if is_neg res then pure (some res) else v6fs_write fd buf count
