-- ===== src/V6fs/Listing.antt =====
-- `v6fs_enumdir` of src/v6fs.c, which shows the entries of a directory to a function, and `v6fs_rmdir`,
-- which uses it to see that a directory is empty. The loop over the entries runs on fuel. A result
-- `none` means that it ran out, or the invalid access of a lookup in an id map.
pub mod Balance
pub mod Tests
use retro_fuse.Prelude.{
  ℕ, zero, suc, ◌+◌, ◌*◌, ◌/◌, ◌%◌, Bool, true, false, not, ◌&&◌, ◌||◌, Option, none, some, List,
  [], ◌∷◌, ◌++◌, ltb, ◌==◌, if◌then◌else◌, length, drop,
}
use retro_fuse.Prelude.Int.{ℤ, pos, neg, pos_part, leb_ℤ, ltb_ℤ, is_neg}
use retro_fuse.Errno.{ebusy, enotdir, einval, enotempty}
use retro_fuse.IdMap.{IdMap}
use retro_fuse.V6fs.Stat.{V6Stat, Stat, convertstat}
use retro_fuse.V6fs.Kernel.{
  FilePath, M, ◌>>=◌, ◌>>◌, pure, Kernel, clear_error, get_error, last_error, get_uid, set_uid,
  found, begin,
}
use retro_fuse.V6fs.Files.{OpenFlags, v6fs_open, v6fs_close, v6fs_stat, v6fs_unlink}
use retro_fuse.V6fs.Transfer.{v6fs_read}
use retro_fuse.V6fs.Dirs.{dot, slash, is_char, is_dotdot, is_zero, reverse_onto, skip_slashes}

-- O_RDONLY
abbrev pub read_only : OpenFlags
read_only = record {
  reads = true;
  writes = false;
  creates = false;
  exclusive = false;
  truncates = false;
}

-- The string at the start of a buffer.
pub c_string : List ℕ → List ℕ
c_string [] = []
c_string (c ∷ bytes) = let rest = c_string bytes in if c == 0 then [] else c ∷ rest

-- `struct v6_direntry`, 16 bytes of a little-endian machine.
pub record DirEntry : Type 0 where
  pub d_inode : ℕ
  pub d_name : List ℕ

unfoldable pub entry_of : List ℕ → DirEntry
unfolding c_string
entry_of [] = record { d_inode = 0; d_name = [] }
entry_of (lo ∷ []) = record { d_inode = lo; d_name = [] }
entry_of (lo ∷ hi ∷ name) = record { d_inode = lo + hi * 256; d_name = c_string name }

-- The function that the entries are shown to, over a context.
abbrev pub Visitor : Type 0 → Type 0
Visitor A = (name : List ℕ) → Stat → A → ℤ × A

unfoldable pub v6fs_failnonemptydir : {A : Type 0} → Visitor A
v6fs_failnonemptydir name st context =
    if st.st_mode / 4096 % 16 == 4 && (is_char 46 name || is_dotdot name)
    then (pos 0, context)
    else (neg enotempty, context)

-- basename(3): on the reversed path, the part up to the next slash.
pub take_component : (sofar : FilePath) → FilePath → FilePath
take_component sofar [] = sofar
take_component sofar (c ∷ p) = if c == 47 then sofar else take_component (c ∷ sofar) p

unfoldable pub basename : FilePath → FilePath
unfolding take_component skip_slashes reverse_onto
basename [] = dot
basename (c ∷ p) = elim (skip_slashes (reverse_onto [] (c ∷ p))) [
  | [] ↦ slash
  | d ∷ q ↦ take_component [] (d ∷ q)
]

module _ (K : Kernel) (char_is_signed : Bool) (uidmap gidmap : IdMap) where
  module _ {A : Type 0} (visit : Visitor A) where
    -- One entry in use. The inode is given back behind the visit, or at the end of the loop.
    unfoldable pub show_stat : (name : List ℕ) → ℕ → Option Stat → A → M K.Core (Option (ℤ × A))
    show_stat name ip none context = do K.iput ip; pure none
    show_stat name ip (some st) context = do K.iput ip; pure (some (visit name st context))

    unfoldable pub visit_entry : DirEntry → A → M K.Core (Option (ℤ × A))
    visit_entry entry context = do
      clear_error
      o ← K.iget entry.d_inode
      found o (do res ← last_error; pure (some (res, context)))
          (λ ip. (do
            clear_error
            v ← K.stat1 ip
            e ← get_error
            if not (e == 0)
                then (do res ← last_error; K.iput ip; pure (some (res, context)))
                else show_stat entry.d_name ip (convertstat char_is_signed uidmap gidmap v)
                    context))

    -- Behind the visit of an entry, and behind a read of the next one.
    unfoldable pub behind_visit :
        (rest : A → M K.Core (Option (ℤ × A))) → Option (ℤ × A) → M K.Core (Option (ℤ × A))
    behind_visit rest none = pure none
    behind_visit rest (some (res, context)) =
        if is_neg res then pure (some (res, context)) else rest context

    unfoldable pub behind_read :
        (rest : A → M K.Core (Option (ℤ × A))) → A → Option (ℤ × List ℕ) → M K.Core (Option (ℤ × A))
    behind_read rest context none = pure none
    behind_read rest context (some (res, bytes)) =
        if leb_ℤ res (pos 0)
        then pure (some (res, context))
        else if ltb_ℤ res (pos 16)
        then pure (some (pos 0, context))
        else if (entry_of bytes).d_inode == 0
        then rest context
        else (do r ← visit_entry (entry_of bytes) context; behind_visit rest r)

    pub enum_loop : (fuel fd : ℕ) → A → M K.Core (Option (ℤ × A))
    enum_loop zero fd context = pure none
    enum_loop (suc k) fd context = do
      r ← v6fs_read K fd 16
      behind_read (λ context. enum_loop k fd context) context r

    unfoldable pub v6fs_enumdir : (fuel : ℕ) → FilePath → A → M K.Core (Option (ℤ × A))
    unfolding enum_loop
    v6fs_enumdir fuel pathname context = do
      begin K
      fd ← v6fs_open K pathname read_only 0
      if is_neg fd
          then pure (some (fd, context))
          else (do r ← enum_loop fuel (pos_part fd) context; closed ← v6fs_close K fd; pure r)

  -- The three removals, as root.
  unfoldable pub remove_entries : FilePath → M K.Core (Option ℤ)
  remove_entries pathname = do
    set_uid 0
    res ← v6fs_unlink K (pathname ++ slash ++ dot ++ dot)
    if not (is_zero res) then pure (some res) else (do
      res ← v6fs_unlink K (pathname ++ slash ++ dot)
      if not (is_zero res)
          then pure (some res)
          else (do res ← v6fs_unlink K pathname; pure (some res)))

  unfoldable pub rmdir_listed : FilePath → Option (ℤ × Unit {0}) → M K.Core (Option ℤ)
  rmdir_listed pathname none = pure none
  rmdir_listed pathname (some (res, _)) =
      if is_neg res
      then pure (some res)
      else if is_char 46 (basename pathname) || is_dotdot (basename pathname)
      then pure (some (neg einval))
      else remove_entries pathname

  unfoldable pub rmdir_found : (fuel : ℕ) → FilePath → ℤ × Option Stat → M K.Core (Option ℤ)
  rmdir_found fuel pathname (res, none) = pure (if is_neg res then some res else none)
  rmdir_found fuel pathname (res, some st) =
      if not (st.st_mode / 4096 % 16 == 4)
      then pure (some (neg enotdir))
      else if st.st_ino == K.rootdir_number
      then pure (some (neg ebusy))
      else (do r ← v6fs_enumdir v6fs_failnonemptydir fuel pathname tt; rmdir_listed pathname r)

  unfoldable pub v6fs_rmdir : (fuel : ℕ) → FilePath → M K.Core (Option ℤ)
  v6fs_rmdir fuel pathname = do
    preveuid ← get_uid
    r ← v6fs_stat K char_is_signed uidmap gidmap pathname
    res ← rmdir_found fuel pathname r
    set_uid preveuid
    pure res
