-- ===== src/V6fs/Files/Balance.antt =====
-- Counts of the inodes that the calls of src/v6fs.c on a single file hold.
use retro_fuse.Prelude.{◌≡◌, false, arith, ℕ, zero, suc, Bool, ltb, ◌==◌, not, ◌&&◌, ◌||◌}
use retro_fuse.Prelude.Int.{ℤ, pos, negsuc, neg}
use retro_fuse.Errno.{enoent, einval}
use retro_fuse.IdMap.{IdMap}
use retro_fuse.V6fs.Stat.{node_kind, NodeKind, plain, special, unsupported}
use retro_fuse.V6fs.Kernel.{FilePath, Kernel, M, ◌>>◌, pure, Permission, iread, iwrite, iexec}
use retro_fuse.V6fs.Kernel.Counts.{CountsInodes}
use retro_fuse.V6fs.Kernel.Balance.{
  Keeps, bind, next, choose, return, neutral, chosen, found-Keeps, create-Keeps, begin-Keeps,
  last_error-Keeps, get_error-Keeps, read_inode-Keeps, write_inode-Keeps, namei-Keeps,
  maknode-Keeps, iput-Keeps, open1-Keeps,
}
use retro_fuse.V6fs.Files.{
  OpenFlags, finish_open, open_existing, open_missing, v6fs_open, v6fs_close, v6fs_link,
  v6fs_unlink, v6fs_chmod, make_node, mknod_kind, v6fs_mknod, v6fs_truncate, v6fs_stat, check,
  v6fs_access,
}

module _ (K : Kernel) (L : CountsInodes K) where
  -- What a call that holds no inode before and after it satisfies.
  abbrev pub Balanced : {A : Type 0} → M K.Core A → Type 0
  Balanced m = Keeps L.held 0 m (λ _. 0)

  check-Keeps :
      {n : ℕ} (ip : ℕ) (wanted : Bool) (p : Permission) (res : ℤ)
      → Keeps L.held n (check K ip wanted p res) (λ _. n)
  unfolding check
  check-Keeps ip wanted p res =
      choose wanted
        (bind (neutral (K.access ip p) (L.held_access ip p))
          λ refused. choose refused last_error-Keeps (return res))
        (return res)

  pub v6fs_access-Keeps :
      (p : FilePath) (r w x : Bool) → Keeps L.held 0 (v6fs_access K p r w x) (λ _. 0)
  unfolding v6fs_access
  v6fs_access-Keeps p r w x = next (begin-Keeps K L) (
      bind (namei-Keeps K L p) λ o. found-Keeps o last_error-Keeps λ ip.
        bind (check-Keeps ip r iread _) λ a.
          bind (check-Keeps ip w iwrite a)
            λ b. bind (check-Keeps ip x iexec b) λ c. next (iput-Keeps K L ip) (return c))

  finish_open-Keeps : (fd : ℕ) → Balanced (finish_open K fd)
  unfolding finish_open
  finish_open-Keeps fd = bind get_error-Keeps λ e. choose (e == 0) (return _) last_error-Keeps

  open_existing-Keeps : (f : OpenFlags) (ip : ℕ) → Keeps L.held 1 (open_existing K f ip) (λ _. 0)
  unfolding open_existing
  open_existing-Keeps f ip =
      choose (f.creates && f.exclusive) (next (iput-Keeps K L ip) (return _))
        (bind (open1-Keeps K L ip f.reads f.writes _) finish_open-Keeps)

  open_missing-Keeps :
      (f : OpenFlags) (mode : ℕ) → f.creates ≡ false → Balanced (open_missing K f mode)
  unfolding open_missing
  open_missing-Keeps f mode plain_open = bind get_error-Keeps λ e.
      chosen _ (not (e == enoent) || not f.creates) (ground (arith, plain_open)) last_error-Keeps

  pub v6fs_open-Keeps :
      (p : FilePath) (f : OpenFlags) (mode : ℕ)
      → f.creates ≡ false
      → Balanced (v6fs_open K p f mode)
  unfolding v6fs_open
  v6fs_open-Keeps p f mode plain_open = next (begin-Keeps K L) (
      bind (namei-Keeps K L p)
        λ o. found-Keeps o (open_missing-Keeps f mode plain_open) (open_existing-Keeps f))

  pub v6fs_close-Keeps : (fd : ℤ) → Balanced (v6fs_close K fd)
  unfolding v6fs_close
  v6fs_close-Keeps (negsuc n) = next (begin-Keeps K L) (return _)
  v6fs_close-Keeps (pos fd) =
      next (begin-Keeps K L) (
        choose (ltb 32767 fd) (return _) (next (neutral (K.close fd) (L.held_close fd)) (return _)))

  pub v6fs_link-Keeps : (p q : FilePath) → Balanced (v6fs_link K p q)
  unfolding v6fs_link
  v6fs_link-Keeps p q =
      next (begin-Keeps K L) (next (neutral (K.link p q) (L.held_link p q)) last_error-Keeps)

  pub v6fs_unlink-Keeps : (p : FilePath) → Balanced (v6fs_unlink K p)
  unfolding v6fs_unlink
  v6fs_unlink-Keeps p =
      next (begin-Keeps K L) (next (neutral (K.unlink p) (L.held_unlink p)) last_error-Keeps)

  pub v6fs_chmod-Keeps : (p : FilePath) (mode : ℕ) → Balanced (v6fs_chmod K p mode)
  unfolding v6fs_chmod
  v6fs_chmod-Keeps p mode =
      next (begin-Keeps K L) (next (neutral (K.chmod p _) (L.held_chmod p _)) last_error-Keeps)

  make_node-Keeps : (p : FilePath) (fsmode fsdev : ℕ) → Balanced (make_node K p fsmode fsdev)
  unfolding make_node
  make_node-Keeps p fsmode fsdev = next (begin-Keeps K L) (
      create-Keeps K L p last_error-Keeps
        (bind (maknode-Keeps K L fsmode) λ made. found-Keeps made last_error-Keeps λ ip.
          bind (read_inode-Keeps K L ip)
            λ i. next (write_inode-Keeps K L ip _) (next (iput-Keeps K L ip) last_error-Keeps))
        λ ip. next (iput-Keeps K L ip) (return _))

  mknod_kind-Keeps :
      (p : FilePath) (k : NodeKind) (mode major minor : ℕ)
      → Balanced (mknod_kind K p k mode major minor)
  unfolding mknod_kind
  mknod_kind-Keeps p plain mode major minor = make_node-Keeps p _ _
  mknod_kind-Keeps p (special fsmode) mode major minor =
      bind (neutral K.suser L.held_suser)
        λ allowed. choose allowed (make_node-Keeps p _ _) (return _)
  mknod_kind-Keeps p unsupported mode major minor = return _

  pub v6fs_mknod-Keeps :
      (p : FilePath) (mode major minor : ℕ) → Balanced (v6fs_mknod K p mode major minor)
  unfolding v6fs_mknod
  v6fs_mknod-Keeps p mode major minor = mknod_kind-Keeps p (node_kind mode) mode major minor

  refuse_length-Keeps : (ip : ℕ) → Keeps L.held 1 (K.iput ip >> pure (neg einval)) (λ _. 0)
  refuse_length-Keeps ip = next (iput-Keeps K L ip) (return _)

  pub v6fs_truncate-Keeps : (p : FilePath) (length : ℤ) → Balanced (v6fs_truncate K p length)
  unfolding v6fs_truncate
  v6fs_truncate-Keeps p (pos zero) = next (begin-Keeps K L) (
      bind (namei-Keeps K L p) λ o. found-Keeps o last_error-Keeps λ ip.
        next (neutral (K.itrunc ip) (L.held_itrunc ip))
          (bind last_error-Keeps λ res. next (iput-Keeps K L ip) (return res)))
  v6fs_truncate-Keeps p (pos (suc n)) =
      next (begin-Keeps K L)
        (bind (namei-Keeps K L p) λ o. found-Keeps o last_error-Keeps refuse_length-Keeps)
  v6fs_truncate-Keeps p (negsuc n) =
      next (begin-Keeps K L)
        (bind (namei-Keeps K L p) λ o. found-Keeps o last_error-Keeps refuse_length-Keeps)

  pub v6fs_stat-Keeps :
      (signed : Bool) (u g : IdMap) (p : FilePath) → Balanced (v6fs_stat K signed u g p)
  unfolding v6fs_stat
  v6fs_stat-Keeps signed u g p = next (begin-Keeps K L) (
      bind (namei-Keeps K L p) λ o. found-Keeps o (bind last_error-Keeps λ res. return _) λ ip.
        bind (neutral (K.stat1 ip) (L.held_stat1 ip)) λ v. bind get_error-Keeps λ e.
          next (iput-Keeps K L ip)
            (choose (e == 0) (return _) (bind last_error-Keeps λ res. return _)))

-- Every call on a single file gives back each inode that it looked up or made, whatever the kernel
-- answers to its calls, errors included: open without O_CREAT, close, link, unlink, chmod, mknod,
-- truncate, stat and access, where each call of the kernel hands out and takes the references that it
-- documents.
files-Balanced :
    (K : Kernel) (L : CountsInodes K) (p q : FilePath) (n length : ℤ) (f : OpenFlags)
    (mode major minor : ℕ) (r w x : Bool) (signed : Bool) (u g : IdMap)
    → f.creates ≡ false
    → Balanced K L (v6fs_open K p f mode)
      × Balanced K L (v6fs_close K n)
      × Balanced K L (v6fs_link K p q)
      × Balanced K L (v6fs_unlink K p)
      × Balanced K L (v6fs_chmod K p mode)
      × Balanced K L (v6fs_mknod K p mode major minor)
      × Balanced K L (v6fs_truncate K p length)
      × Balanced K L (v6fs_stat K signed u g p)
      × Balanced K L (v6fs_access K p r w x)
files-Balanced K L p q n length f mode major minor r w x signed u g plain_open = (
  v6fs_open-Keeps K L p f mode plain_open,
  v6fs_close-Keeps K L n,
  v6fs_link-Keeps K L p q,
  v6fs_unlink-Keeps K L p,
  v6fs_chmod-Keeps K L p mode,
  v6fs_mknod-Keeps K L p mode major minor,
  v6fs_truncate-Keeps K L p length,
  v6fs_stat-Keeps K L signed u g p,
  v6fs_access-Keeps K L p r w x,
)
