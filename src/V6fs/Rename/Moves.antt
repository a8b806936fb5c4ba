-- ===== src/V6fs/Rename/Moves.antt =====
-- Counts of the inodes that `v6fs_rename` of src/v6fs.c holds.
use retro_fuse.Prelude.{
  ℕ, ◌+◌, ◌≡◌, refl, ◌≢◌, inl, Bool, true, false, not, ◌||◌, Option, none, some, arith, ◌==◌,
  if◌then◌else◌, length,
}
use retro_fuse.Prelude.Int.{ℤ, pos, is_neg}
use retro_fuse.IdMap.{IdMap}
use retro_fuse.V6fs.Kernel.{FilePath, Sys, M, ◌>>=◌, pure, find, found, read_inode, Kernel}
use retro_fuse.V6fs.Kernel.Counts.{CountsInodes, Moved, refs_of}
use retro_fuse.V6fs.Kernel.Balance.{
  Keeps, bind, next, choose, return, found-Keeps, begin-Keeps, last_error-Keeps, get_uid-Keeps,
  set_uid-Keeps, read_inode-Keeps, write_inode-Keeps, namei-Keeps, iput-Keeps,
}
use retro_fuse.V6fs.Files.Balance.{Balanced, v6fs_link-Keeps, v6fs_unlink-Keeps}
use retro_fuse.V6fs.Dirs.{is_zero, v6fs_isindir, v6fs_isdirlinkpath}
use retro_fuse.V6fs.Listing.Balance.{v6fs_rmdir-Keeps}
use retro_fuse.V6fs.Rename.Balance.{v6fs_reparentdir-Balanced}
use retro_fuse.V6fs.Rename.{
  is_dir, move_link, unless_negative, replace, behind_isindir, move, give_up, rename_over,
  rename_found, v6fs_rename,
}
use retro_fuse.V6fs.Rename.Walk.{
  FindsNames, Known, Known-parent, isindir_loop-Moved, From, FromThere, choose_there, iput_there,
}

module _ (K : Kernel) (L : CountsInodes K) (N : FindsNames K) where
  module _ (signed : Bool) (u g : IdMap) (fuel : ℕ) where
    move_link-Keeps :
        (p q : FilePath) (isdir : Bool) → Balanced K L (move_link K signed u g fuel p q isdir)
    unfolding move_link
    move_link-Keeps p q isdir = next (set_uid-Keeps 0) (
        bind (v6fs_link-Keeps K L p q) λ a. choose (is_neg a) (return _) (
          bind (v6fs_unlink-Keeps K L p) λ b.
            choose (is_neg b) (return _)
              (choose isdir (v6fs_reparentdir-Balanced K L fuel q) (return _))))

    unless_negative-Keeps :
        (rest : M K.Core (Option ℤ)) (r : Option ℤ)
        → Balanced K L rest
        → Balanced K L (unless_negative K signed u g fuel rest r)
    unfolding unless_negative
    unless_negative-Keeps rest none h = return _
    unless_negative-Keeps rest (some res) h = choose (is_neg res) (return _) h

    replace-Keeps :
        (p q : FilePath) (isdir rmdirnew unlinknew : Bool)
        → Balanced K L (replace K signed u g fuel p q isdir rmdirnew unlinknew)
    unfolding replace
    replace-Keeps p q isdir rmdirnew unlinknew =
        bind (choose rmdirnew (v6fs_rmdir-Keeps K L signed u g fuel q) (return _)) λ a.
          unless_negative-Keeps _ a (
            bind (choose unlinknew (bind (v6fs_unlink-Keeps K L q) λ r. return _) (return _))
              λ b. unless_negative-Keeps _ b (move_link-Keeps p q isdir))

    behind_isindir-Keeps :
        (oldip : ℕ) (rest : M K.Core (Option ℤ)) (r : Option ℤ)
        → Keeps L.held 1 rest (λ _. 0)
        → Keeps L.held 1 (behind_isindir K signed u g fuel oldip rest r) (λ _. 0)
    unfolding behind_isindir
    behind_isindir-Keeps oldip rest none h = next (iput-Keeps K L oldip) (return _)
    behind_isindir-Keeps oldip rest (some res) h =
        choose (is_zero res) h (next (iput-Keeps K L oldip) (return _))

    isindir_from :
        (q : FilePath) (isdir : Bool) (dirnum : ℕ) (s : Sys K.Core)
        → Known K L N q s
        → Moved
            (L.held s.core)
            (L.held ((if isdir then v6fs_isindir K q dirnum else pure (some (pos 0))) s).1.core)
            0
            0
    unfolding v6fs_isindir pure
    isindir_from q true dirnum s k =
        isindir_loop-Moved K L N (length q + 1) q dirnum s (Known-parent K L N q s k)
    isindir_from q false dirnum s k = omega arith

    move-From :
        (p q : FilePath) (oldip : ℕ) (isdir rmdirnew unlinknew : Bool)
        → From K L N q 1 (move K signed u g fuel p q oldip isdir rmdirnew unlinknew)
    unfolding move ◌>>=◌ read_inode
    move-From p q oldip isdir rmdirnew unlinknew = λ s k.
        let n = (K.inode s.core oldip).number in
        let r = (if isdir then v6fs_isindir K q n else pure (some (pos 0))) s in
        let rest =
          behind_isindir-Keeps oldip _ r.0
            (next (iput-Keeps K L oldip) (replace-Keeps p q isdir rmdirnew unlinknew)) in
        omega (arith, isindir_from q isdir n s k, rest.keeps r.1)

    give_up-Keeps :
        (oldip newip : ℕ) (res : ℤ)
        → Keeps L.held 2 (give_up K signed u g fuel oldip newip res) (λ _. 0)
    unfolding give_up
    give_up-Keeps oldip newip res =
        next (iput-Keeps K L oldip) (next (iput-Keeps K L newip) (return _))

    give_up_there :
        (q : FilePath) (oldip newip : ℕ) (res : ℤ)
        → FromThere K L N q 2 (give_up K signed u g fuel oldip newip res)
    give_up_there q oldip newip res = record {
      run = λ s there. (give_up-Keeps oldip newip res).keeps s;
    }

    rename_over_there :
        (p q : FilePath) (oldip : ℕ) (isdir : Bool) (newip : ℕ)
        → FromThere K L N q 2 (rename_over K signed u g fuel p q oldip isdir newip)
    unfolding rename_over ◌>>=◌ read_inode
    rename_over_there p q oldip isdir newip = record {
      run = λ s there.
          let old = K.inode s.core oldip in
          let new = K.inode s.core newip in
          (choose_there K L N (old.number == new.number) (give_up_there q oldip newip _) (
              choose_there K L N (is_dir new)
                (choose_there K L N (not (is_dir old)) (give_up_there q oldip newip _)
                  (iput_there K L N q 1 _ newip (move-From p q oldip isdir true false)))
                (choose_there K L N isdir (give_up_there q oldip newip _)
                  (iput_there K L N q 1 _ newip (move-From p q oldip isdir false true))))).run
            s there;
    }

    -- Behind the lookup of the new name.
    renamed :
        (p q : FilePath) (oldip : ℕ) (isdir : Bool)
        → Keeps L.held 1
            (K.namei q find >>= λ o.
              found o
                (move K signed u g fuel p q oldip isdir false false)
                (rename_over K signed u g fuel p q oldip isdir))
            (λ _. 0)
    unfolding ◌>>=◌ found
    renamed p q oldip isdir = record {
      keeps = λ s.
          cases s (K.namei q find s) (L.held_find q s) (N.find_error q s)
            (λ ip. N.there_found q ip s);
    }
      where
        cases :
            (s : Sys K.Core) (r : Option ℕ × Sys K.Core)
            → Moved (L.held s.core) (L.held r.1.core) (refs_of r.0) 0
            → (r.0 ≡ none → r.1.error ≢ 0)
            → ((ip : ℕ) → r.0 ≡ some ip → N.is_there r.1.core q)
            → (let t =
                  found r.0
                    (move K signed u g fuel p q oldip isdir false false)
                    (rename_over K signed u g fuel p q oldip isdir)
                    r.1 in
                Moved (L.held s.core) (L.held t.1.core) 0 1)
        cases s (none, t) m e f =
            omega (arith, m, move-From p q oldip isdir false false t (inl (e refl)))
        cases s (some ip, t) m e f =
            omega (arith, m, (rename_over_there p q oldip isdir ip).run t (f ip refl))

    rename_found-Keeps :
        (p q : FilePath) (oldip : ℕ)
        → Keeps L.held 1 (rename_found K signed u g fuel p q oldip) (λ _. 0)
    unfolding rename_found
    rename_found-Keeps p q oldip = bind (read_inode-Keeps K L oldip) λ i.
        next (write_inode-Keeps K L oldip _) (
          choose (i.number == 1 || v6fs_isdirlinkpath p || v6fs_isdirlinkpath q)
            (next (iput-Keeps K L oldip) (return _)) (renamed p q oldip (is_dir i)))

-- A renaming gives back each inode that it looked up or made, for any two names and on every path, that of
-- a directory that it moves and of its old and new parent included: the walk over the directories above
-- the new name gives back each of them. This is so where each call of the kernel hands out and takes the
-- references that it documents, and where its lookups agree with each other: a directory above a name
-- that was found is found or leaves an error, and a lookup that starts with an error leaves one.
pub v6fs_rename-Balanced :
    (K : Kernel) (L : CountsInodes K) (N : FindsNames K) (signed : Bool) (u g : IdMap) (fuel : ℕ)
    (p q : FilePath)
    → Balanced K L (v6fs_rename K signed u g fuel p q)
unfolding v6fs_rename
v6fs_rename-Balanced K L N signed u g fuel p q = bind get_uid-Keeps λ preveuid.
    next (begin-Keeps K L) (
      bind (namei-Keeps K L p) λ o.
        bind
          (found-Keeps o (bind last_error-Keeps λ r. return _)
            (λ ip. rename_found-Keeps K L N signed u g fuel p q ip))
          λ res. next (set_uid-Keeps preveuid) (return res))
