-- ===== src/V6fs/Kernel/Counts.antt =====
-- Counting the inodes that the code of src/v6fs.c holds: which calls of the kernel hand out a reference,
-- and which take one.
use retro_fuse.Prelude.{
  ℕ, suc, ◌+◌, ◌≡◌, Bool, Option, none, some, List, arith, ◌==◌, if◌then◌else◌,
}
use retro_fuse.V6fs.Kernel.{FilePath, Sys, Inode, Opening, find, create, Permission, Kernel}

-- The references that an answer of the kernel hands to the caller.
abbrev pub refs_of : Option ℕ → ℕ
refs_of none = 0
refs_of (some ip) = 1

-- Those of `v6_namei` where a name is to be created: without an error, a missing name leaves the
-- inode of its directory, `u_pdir`, with the caller.
abbrev pub refs_made : Option ℕ → (error : ℕ) → ℕ
refs_made none e = if e == 0 then 1 else 0
refs_made (some ip) e = 1

-- As many references as before, and one more where there is an answer.
abbrev pub with_refs : Option ℕ → ℕ → ℕ
with_refs none k = k
with_refs (some ip) k = suc k

-- Between two counts, each of the references handed out and of those given back, `out` more were
-- handed out and `back` more were given back, or as many more of both.
abbrev pub Moved : (old new : ℕ × ℕ) (out back : ℕ) → Type 0
Moved old new out back = new.0 + old.1 + back ≡ old.0 + new.1 + out

pub with_refs-refs_of : (o : Option ℕ) (n : ℕ) → with_refs o n ≡ refs_of o + n
with_refs-refs_of none n = omega arith
with_refs-refs_of (some ip) n = omega arith

-- What the interface relies on: which calls hand out a reference, and which take one. `v6_open1`
-- takes it: the file table keeps it, or it is given back on an error. `v6_maknode` takes `u_pdir`.
pub record CountsInodes (K : Kernel) : Type 0 where
  pub held : K.Core → ℕ × ℕ
  pub held_refreshclock :
      (s : Sys K.Core) → Moved (held s.core) (held (K.refreshclock s).1.core) 0 0
  pub held_find :
      (p : FilePath) (s : Sys K.Core)
      → Moved (held s.core) (held (K.namei p find s).1.core) (refs_of (K.namei p find s).0) 0
  pub held_create :
      (p : FilePath) (s : Sys K.Core)
      → (let (o, t) = K.namei p create s in
          Moved (held s.core) (held t.core) (refs_made o t.error) 0)
  pub held_iget :
      (n : ℕ) (s : Sys K.Core)
      → Moved (held s.core) (held (K.iget n s).1.core) (refs_of (K.iget n s).0) 0
  pub held_iput : (ip : ℕ) (s : Sys K.Core) → Moved (held s.core) (held (K.iput ip s).1.core) 0 1
  pub held_maknode :
      (mode : ℕ) (s : Sys K.Core)
      → Moved (held s.core) (held (K.maknode mode s).1.core) (refs_of (K.maknode mode s).0) 1
  pub held_open1 :
      (ip : ℕ) (r w : Bool) (o : Opening) (s : Sys K.Core)
      → Moved (held s.core) (held (K.open1 ip r w o s).1.core) 0 1
  pub held_close : (fd : ℕ) (s : Sys K.Core) → Moved (held s.core) (held (K.close fd s).1.core) 0 0
  pub held_link :
      (p q : FilePath) (s : Sys K.Core) → Moved (held s.core) (held (K.link p q s).1.core) 0 0
  pub held_unlink :
      (p : FilePath) (s : Sys K.Core) → Moved (held s.core) (held (K.unlink p s).1.core) 0 0
  pub held_chmod :
      (p : FilePath) (m : ℕ) (s : Sys K.Core)
      → Moved (held s.core) (held (K.chmod p m s).1.core) 0 0
  pub held_itrunc :
      (ip : ℕ) (s : Sys K.Core) → Moved (held s.core) (held (K.itrunc ip s).1.core) 0 0
  pub held_stat1 : (ip : ℕ) (s : Sys K.Core) → Moved (held s.core) (held (K.stat1 ip s).1.core) 0 0
  pub held_iupdat :
      (ip : ℕ) (t : ℕ × ℕ) (s : Sys K.Core)
      → Moved (held s.core) (held (K.iupdat ip t s).1.core) 0 0
  pub held_access :
      (ip : ℕ) (p : Permission) (s : Sys K.Core)
      → Moved (held s.core) (held (K.access ip p s).1.core) 0 0
  pub held_suser : (s : Sys K.Core) → Moved (held s.core) (held (K.suser s).1.core) 0 0
  pub held_update : (s : Sys K.Core) → Moved (held s.core) (held (K.update s).1.core) 0 0
  pub held_flush : (s : Sys K.Core) → Moved (held s.core) (held (K.flush s).1.core) 0 0
  pub held_rdwr_read :
      (fd n : ℕ) (s : Sys K.Core) → Moved (held s.core) (held (K.rdwr_read fd n s).1.core) 0 0
  pub held_rdwr_write :
      (fd : ℕ) (bs : List ℕ) (s : Sys K.Core)
      → Moved (held s.core) (held (K.rdwr_write fd bs s).1.core) 0 0
  pub held_getf : (fd : ℕ) (s : Sys K.Core) → Moved (held s.core) (held (K.getf fd s).1.core) 0 0
  pub held_set_offset :
      (fd : ℕ) (w : ℕ × ℕ) (s : Sys K.Core)
      → Moved (held s.core) (held (K.set_offset fd w s).1.core) 0 0
  pub held_allow_write :
      (fd : ℕ) (s : Sys K.Core) → Moved (held s.core) (held (K.allow_write fd s).1.core) 0 0
  pub held_set_inode :
      (ip : ℕ) (i : Inode) (c : K.Core) → Moved (held c) (held (K.set_inode ip i c)) 0 0
