-- ===== src/V6fs/Dirs.antt =====
-- Making a directory, and the tests on paths of src/v6fs.c. Paths are lists of characters; 46 is a dot
-- and 47 a slash.
pub mod Balance
pub mod Ancestors
pub mod Tests
use retro_fuse.Prelude.{
  ℕ, zero, suc, ◌+◌, ◌%◌, Bool, true, false, not, ◌&&◌, ◌||◌, Option, none, some, List, [], ◌∷◌,
  ◌++◌, ◌==◌, if◌then◌else◌, length,
}
use retro_fuse.Prelude.Int.{ℤ, pos, negsuc, neg, is_neg}
use retro_fuse.Errno.{eexist, enoent}
use retro_fuse.V6fs.Kernel.{
  FilePath, M, ◌>>=◌, ◌>>◌, pure, find, create, Kernel, clear_error, get_error, last_error, get_uid,
  set_uid, get_ruid, found, read_inode, write_inode, begin,
}
use retro_fuse.V6fs.Files.{v6fs_link, v6fs_unlink, v6fs_chmod}

abbrev pub dot : FilePath
dot = 46 ∷ []

abbrev pub slash : FilePath
slash = 47 ∷ []

-- Whether a path is the one of a single character, and whether it is `..`.
unfoldable pub is_char : ℕ → FilePath → Bool
is_char c [] = false
is_char c (d ∷ []) = c == d
is_char c (d ∷ e ∷ p) = false

unfoldable pub is_dotdot : FilePath → Bool
is_dotdot [] = false
is_dotdot (c ∷ []) = false
is_dotdot (c ∷ d ∷ []) = c == 46 && d == 46
is_dotdot (c ∷ d ∷ e ∷ p) = false

unfoldable pub reverse_onto : (sofar : FilePath) → FilePath → FilePath
reverse_onto sofar [] = sofar
reverse_onto sofar (c ∷ p) = reverse_onto (c ∷ sofar) p

-- dirname(3), on the reversed path: without the slashes at the front, and what follows a component.
unfoldable pub skip_slashes : FilePath → FilePath
skip_slashes [] = []
skip_slashes (c ∷ p) = if c == 47 then skip_slashes p else c ∷ p

unfoldable pub skip_component : FilePath → FilePath
skip_component [] = []
skip_component (c ∷ p) = if c == 47 then c ∷ p else skip_component p

-- The directory, where the reversed path has no component, where it has no slash before the last one,
-- and where it has one.
unfoldable pub parent_of : FilePath → FilePath
parent_of [] = dot
parent_of (c ∷ r) = elim (skip_slashes (c ∷ r)) [ [] ↦ slash | d ∷ q ↦ reverse_onto [] (d ∷ q) ]

unfoldable pub dirname : FilePath → FilePath
unfolding parent_of
dirname [] = dot
dirname (c ∷ p) = elim (skip_slashes (reverse_onto [] (c ∷ p))) [
  | [] ↦ slash
  | d ∷ q ↦ parent_of (skip_component (d ∷ q))
]

-- The part behind the last slash.
pub last_component : (sofar : FilePath) → FilePath → FilePath
last_component sofar [] = sofar
last_component sofar (c ∷ p) = if c == 47 then last_component p p else last_component sofar p

unfoldable pub v6fs_isdirlinkpath : FilePath → Bool
unfolding last_component is_char is_dotdot
v6fs_isdirlinkpath pathname =
    let p = last_component pathname pathname in is_char 46 p || is_dotdot p

unfoldable pub is_zero : ℤ → Bool
is_zero (pos n) = n == 0
is_zero (negsuc n) = false

module _ (K : Kernel) where
  -- What one lookup of an ancestor answers: its number is the one sought, or an error.
  unfoldable pub is_ancestor : FilePath → (dirnum : ℕ) → M K.Core ℤ
  is_ancestor p dirnum = do
    o ← K.namei p create
    found o (do e ← get_error; if not (e == enoent) then last_error else pure (pos 0))
        (λ ip. (do
          i ← read_inode K ip
          K.iput ip
          pure (if i.number == dirnum then pos 1 else pos 0)))

  -- The loop, on fuel; `none` means that it ran out.
  unfoldable pub isindir_loop : (fuel : ℕ) → FilePath → (dirnum : ℕ) → M K.Core (Option ℤ)
  isindir_loop zero p dirnum = pure none
  isindir_loop (suc k) p dirnum = do
    res ← is_ancestor (dirname p) dirnum
    if is_zero res && not (is_char 47 (dirname p)) && not (is_char 46 (dirname p))
        then isindir_loop k (dirname p) dirnum
        else pure (some res)

  unfoldable pub v6fs_isindir : FilePath → (dirnum : ℕ) → M K.Core (Option ℤ)
  unfolding isindir_loop
  v6fs_isindir pathname dirnum = isindir_loop (length pathname + 1) pathname dirnum

  -- The owner and the permissions of a new directory.
  unfoldable pub own_dir : FilePath → (mode : ℕ) → ℕ → M K.Core ℤ
  own_dir pathname mode ip = do
    ruid ← get_ruid
    i ← read_inode K ip
    write_inode K ip (record i { uid = ruid; updated = true })
    K.iput ip
    e ← get_error
    if not (e == 0) then last_error else v6fs_chmod K pathname (mode % 4096)

  -- Its two entries, and what follows.
  unfoldable pub fill_dir : FilePath → (mode : ℕ) → M K.Core ℤ
  fill_dir pathname mode = do
    e ← get_error
    if not (e == 0) then last_error else (do
      res ← v6fs_link K pathname (pathname ++ slash ++ dot)
      if is_neg res then pure res else (do
        res ← v6fs_link K (dirname pathname) (pathname ++ slash ++ dot ++ dot)
        if is_neg res then pure res else (do
          clear_error
          o ← K.namei pathname find
          found o last_error (own_dir pathname mode))))

  -- The result, and whether the node was made, the variable `dircreated`.
  unfoldable pub create_dir : FilePath → (mode : ℕ) → M K.Core (ℤ × Bool)
  create_dir pathname mode = do
    o ← K.namei pathname create
    found o
        (do
          e ← get_error
          if not (e == 0) then (do res ← last_error; pure (res, false)) else (do
            set_uid 0
            made ← K.maknode 0x41C0
            found made (do res ← last_error; pure (res, false))
                (λ ip. (do K.iput ip; res ← fill_dir pathname mode; pure (res, true)))))
        (λ ip. (do K.iput ip; pure (neg eexist, false)))

  unfoldable pub remove_dir : FilePath → M K.Core (Unit {0})
  remove_dir pathname = do
    res ← v6fs_unlink K (pathname ++ slash ++ dot ++ dot)
    res ← v6fs_unlink K (pathname ++ slash ++ dot)
    res ← v6fs_unlink K pathname
    pure tt

  unfoldable pub v6fs_mkdir : FilePath → (mode : ℕ) → M K.Core ℤ
  v6fs_mkdir pathname mode = do
    preveuid ← get_uid
    begin K
    r ← create_dir pathname mode
    if not (is_zero r.0) && r.1 then remove_dir pathname else pure tt
    set_uid preveuid
    pure r.0
