-- ===== src/V7fs/Calls.antt =====
-- The calls of src/v7fs.c whose code is that of src/v6fs.c, but for the places in which the kernel is
-- handed its arguments, and `v7fs_mkdir`, which keeps the effective user id, a 16-bit word here, in a
-- variable of type `char`. `char_is_signed` says how the compiler reads one.
use retro_fuse.Prelude.{ℕ, Bool, Option, List, not, ◌&&◌, if◌then◌else◌}
use retro_fuse.Prelude.Int.{ℤ}
use retro_fuse.V6fs.Kernel.{FilePath, M, ◌>>=◌, ◌>>◌, pure, Kernel, get_uid, set_uid, begin}
use retro_fuse.V6fs.Files.{
  v6fs_link, v6fs_unlink, v6fs_chmod, v6fs_truncate, v6fs_access, v6fs_open, v6fs_close, OpenFlags,
}
use retro_fuse.V6fs.Transfer.{v6fs_read, v6fs_write}
use retro_fuse.V6fs.Dirs.{v6fs_isdirlinkpath, v6fs_isindir, is_zero, create_dir, remove_dir}
use retro_fuse.V7fs.Attributes.{in_char}

unfoldable pub v7fs_isdirlinkpath : FilePath → Bool
v7fs_isdirlinkpath pathname = v6fs_isdirlinkpath pathname

module _ (K : Kernel) where
  unfoldable pub v7fs_link : (oldpath newpath : FilePath) → M K.Core ℤ
  v7fs_link oldpath newpath = v6fs_link K oldpath newpath

  unfoldable pub v7fs_unlink : FilePath → M K.Core ℤ
  v7fs_unlink pathname = v6fs_unlink K pathname

  unfoldable pub v7fs_chmod : FilePath → (mode : ℕ) → M K.Core ℤ
  v7fs_chmod pathname mode = v6fs_chmod K pathname mode

  unfoldable pub v7fs_truncate : FilePath → (length : ℤ) → M K.Core ℤ
  v7fs_truncate pathname length = v6fs_truncate K pathname length

  unfoldable pub v7fs_access : FilePath → (r w x : Bool) → M K.Core ℤ
  v7fs_access pathname r w x = v6fs_access K pathname r w x

  unfoldable pub v7fs_open : FilePath → OpenFlags → (mode : ℕ) → M K.Core ℤ
  v7fs_open name f mode = v6fs_open K name f mode

  unfoldable pub v7fs_close : ℤ → M K.Core ℤ
  v7fs_close fd = v6fs_close K fd

  -- A read and a write on fuel, as in V6fs.Transfer; `none` means that it ran out.
  unfoldable pub v7fs_read : (fd count : ℕ) → M K.Core (Option (ℤ × List ℕ))
  v7fs_read fd count = v6fs_read K fd count

  unfoldable pub v7fs_write : (fd : ℕ) → (buf : List ℕ) → (count : ℕ) → M K.Core (Option ℤ)
  v7fs_write fd buf count = v6fs_write K fd buf count

  unfoldable pub v7fs_isindir : FilePath → (dirnum : ℕ) → M K.Core (Option ℤ)
  v7fs_isindir pathname dirnum = v6fs_isindir K pathname dirnum

  -- `create_dir` and `remove_dir` of V6fs.Dirs are the same code in both files.
  unfoldable pub v7fs_mkdir : (char_is_signed : Bool) → FilePath → (mode : ℕ) → M K.Core ℤ
  unfolding in_char
  v7fs_mkdir char_is_signed pathname mode = do
    euid ← get_uid
    let preveuid = in_char char_is_signed euid
    begin K
    r ← create_dir K pathname mode
    if not (is_zero r.0) && r.1 then remove_dir K pathname else pure tt
    set_uid preveuid
    pure r.0
