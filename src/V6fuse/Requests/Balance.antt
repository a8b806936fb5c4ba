-- ===== src/V6fuse/Requests/Balance.antt =====
-- Sequences of requests that src/v6fuse.c serves, as a step relation on the state, and the inodes that
-- are held behind them.
use retro_fuse.Prelude.{
  ℕ, ◌≡◌, ◌≢◌, sym, ap, ◌∙◌, Bool, false, not, Option, none, some, List, [], ◌==◌, arith,
}
use mathlib.Core.Path.{subst}
use retro_fuse.Prelude.Int.{ℤ, pos}
use retro_fuse.IdMap.{Entry, IdMap}
use retro_fuse.IdMap.Holds.{Holds}
use retro_fuse.V6fs.Stat.{Stat}
use retro_fuse.V6fs.Kernel.{FilePath, Sys, M, Kernel}
use retro_fuse.V6fs.Kernel.Counts.{CountsInodes, Moved}
use retro_fuse.V6fs.Kernel.Balance.{
  bind, next, choose, return, neutral, begin-Keeps, last_error-Keeps, get_error-Keeps,
}
use retro_fuse.V6fs.Files.{OpenFlags}
use retro_fuse.V6fs.Files.Balance.{
  Balanced, v6fs_open-Keeps, v6fs_close-Keeps, v6fs_link-Keeps, v6fs_unlink-Keeps, v6fs_chmod-Keeps,
  v6fs_mknod-Keeps, v6fs_truncate-Keeps, v6fs_stat-Keeps, v6fs_access-Keeps,
}
use retro_fuse.V6fs.Attributes.{TimeSpec}
use retro_fuse.V6fs.Attributes.Balance.{v6fs_chown-Keeps, v6fs_utimens-Keeps}
use retro_fuse.V6fs.Transfer.{Got}
use retro_fuse.V6fs.Transfer.Balance.{v6fs_pread-Keeps, v6fs_pwrite-Keeps}
use retro_fuse.V6fs.Dirs.Balance.{v6fs_mkdir-Balanced}
use retro_fuse.V6fs.Listing.Balance.{v6fs_enumdir-Keeps, v6fs_rmdir-Keeps}
use retro_fuse.V6fs.Rename.Walk.{FindsNames}
use retro_fuse.V6fs.Rename.Moves.{v6fs_rename-Balanced}
use retro_fuse.V6fs.System.{Boot, v6fs_sync}
use retro_fuse.V6fuse.Requests.Ids.{as_caller, in_context_lem}
use retro_fuse.V6fuse.Requests.{
  Context, Entries, filldir, in_context, getattr, access, readdir, open_file, read, write, truncate,
  flush, fsync, release, mknod, mkdir, rmdir, link, unlink, rename, chmod, chown, utimens,
}

state_behind : {A C : Type 0} → Sys C → Option (A × Sys C) → Sys C
state_behind s none = s
state_behind s (some (a, t)) = t

module _ (K : Kernel) (B : Boot K) (signed : Bool) (u g : IdMap) where
  -- A request that is answered. An open comes without O_CREAT, as the host makes a file by `mknod`
  -- before it opens it.
  pub data Step (c : Context) (s t : Sys K.Core) : Type 0 where
    getattr_step :
        (p : FilePath) (r : ℤ × Option Stat) → getattr K signed u g c p s ≡ some (r, t) → Step c s t
    access_step :
        (p : FilePath) (r w x : Bool) (a : ℤ)
        → access K signed u g c p r w x s ≡ some (a, t)
        → Step c s t
    readdir_step :
        (fuel : ℕ) (p : FilePath) (r : Option (ℤ × Entries))
        → readdir K signed u g c fuel p s ≡ some (r, t)
        → Step c s t
    open_step :
        (p : FilePath) (f : OpenFlags) (r : ℤ × Option ℕ)
        → f.creates ≡ false
        → open_file K signed u g c p f s ≡ some (r, t)
        → Step c s t
    read_step :
        (fh size : ℕ) (offset : ℤ) (r : Got K)
        → read K signed u g c fh size offset s ≡ some (r, t)
        → Step c s t
    write_step :
        (fh size : ℕ) (buf : List ℕ) (offset : ℤ) (r : Option ℤ)
        → write K signed u g c fh buf size offset s ≡ some (r, t)
        → Step c s t
    truncate_step :
        (p : FilePath) (length r : ℤ)
        → truncate K signed u g c p length s ≡ some (r, t)
        → Step c s t
    flush_step : (r : ℤ) → flush K signed u g c B s ≡ some (r, t) → Step c s t
    fsync_step : (r : ℤ) → fsync K signed u g c B s ≡ some (r, t) → Step c s t
    release_step : (fh : ℕ) (r : ℤ) → release K signed u g c fh s ≡ some (r, t) → Step c s t
    mknod_step :
        (p : FilePath) (mode major minor : ℕ) (r : ℤ)
        → mknod K signed u g c p mode major minor s ≡ some (r, t)
        → Step c s t
    mkdir_step :
        (p : FilePath) (mode : ℕ) (r : ℤ) → mkdir K signed u g c p mode s ≡ some (r, t) → Step c s t
    rmdir_step :
        (fuel : ℕ) (p : FilePath) (r : Option ℤ)
        → rmdir K signed u g c fuel p s ≡ some (r, t)
        → Step c s t
    link_step : (p q : FilePath) (r : ℤ) → link K signed u g c p q s ≡ some (r, t) → Step c s t
    unlink_step : (p : FilePath) (r : ℤ) → unlink K signed u g c p s ≡ some (r, t) → Step c s t
    rename_step :
        (fuel : ℕ) (p q : FilePath) (r : Option ℤ)
        → rename K signed u g c fuel p q s ≡ some (r, t)
        → Step c s t
    chmod_step :
        (p : FilePath) (mode : ℕ) (r : ℤ) → chmod K signed u g c p mode s ≡ some (r, t) → Step c s t
    chown_step :
        (p : FilePath) (uid gid : ℕ) (r : Option ℤ)
        → chown K signed u g c p uid gid s ≡ some (r, t)
        → Step c s t
    utimens_step :
        (p : FilePath) (tv : Option (TimeSpec × TimeSpec)) (r : ℤ)
        → utimens K signed u g c p tv s ≡ some (r, t)
        → Step c s t

  -- Any number of answered requests, of processes with ids other than -1.
  pub data Served : Sys K.Core → Sys K.Core → Type 0 where
    start : {s : Sys K.Core} → Served s s
    answered :
        {s t v : Sys K.Core} {c : Context}
        → Served s t
        → c.uid ≢ 4294967295
        → c.gid ≢ 4294967295
        → Step c t v
        → Served s v

  module _ (L : CountsInodes K) (N : FindsNames K) (us gs : List Entry) (hu : Holds u us)
      (hg : Holds g gs) where
    v6fs_sync-Keeps : Balanced K L (v6fs_sync K B)
    unfolding v6fs_sync
    v6fs_sync-Keeps = next (begin-Keeps K L) (
        next (neutral K.update L.held_update) (
          bind (neutral K.flush L.held_flush)
            λ res. bind get_error-Keeps λ e. choose (not (e == 0)) last_error-Keeps (return res)))

    answer-Moved :
        {A : Type 0} (c : Context) (m : M K.Core A) (s t : Sys K.Core) (a : A)
        → c.uid ≢ 4294967295
        → c.gid ≢ 4294967295
        → Balanced K L m
        → in_context K signed u g c m s ≡ some (a, t)
        → Moved (L.held s.core) (L.held t.core) 0 0
    unfolding state_behind
    answer-Moved c m s t a du dg h e =
        subst (λ v. Moved (L.held s.core) (L.held v.core) 0 0)
          (ap (state_behind s) (sym (in_context_lem K signed u g us gs hu hg c m s du dg) ∙ e))
          (h.keeps (as_caller K signed u g us gs hu hg c s))

    Step-Moved :
        (c : Context) (s t : Sys K.Core)
        → c.uid ≢ 4294967295
        → c.gid ≢ 4294967295
        → Step c s t
        → Moved (L.held s.core) (L.held t.core) 0 0
    unfolding getattr access readdir open_file read write truncate flush fsync release mknod mkdir
        rmdir link unlink rename chmod chown utimens
    Step-Moved c s t du dg (getattr_step p r e) =
        answer-Moved c _ s t r du dg (v6fs_stat-Keeps K L signed u g p) e
    Step-Moved c s t du dg (access_step p r w x a e) =
        answer-Moved c _ s t a du dg (v6fs_access-Keeps K L p r w x) e
    Step-Moved c s t du dg (readdir_step fuel p r e) =
        answer-Moved c _ s t r du dg (v6fs_enumdir-Keeps K L signed u g filldir fuel p []) e
    Step-Moved c s t du dg (open_step p f r plain e) =
        answer-Moved c _ s t r du dg (bind (v6fs_open-Keeps K L p f 0 plain) λ res. return _) e
    Step-Moved c s t du dg (read_step fh size offset r e) =
        answer-Moved c _ s t r du dg (v6fs_pread-Keeps K L fh size offset) e
    Step-Moved c s t du dg (write_step fh size buf offset r e) =
        answer-Moved c _ s t r du dg (v6fs_pwrite-Keeps K L fh buf size offset) e
    Step-Moved c s t du dg (truncate_step p length r e) =
        answer-Moved c _ s t r du dg (v6fs_truncate-Keeps K L p length) e
    Step-Moved c s t du dg (flush_step r e) =
        answer-Moved c _ s t r du dg (bind v6fs_sync-Keeps λ res. return _) e
    Step-Moved c s t du dg (fsync_step r e) =
        answer-Moved c _ s t r du dg (bind v6fs_sync-Keeps λ res. return _) e
    Step-Moved c s t du dg (release_step fh r e) =
        answer-Moved c _ s t r du dg (v6fs_close-Keeps K L (pos fh)) e
    Step-Moved c s t du dg (mknod_step p mode major minor r e) =
        answer-Moved c _ s t r du dg (v6fs_mknod-Keeps K L p mode major minor) e
    Step-Moved c s t du dg (mkdir_step p mode r e) =
        answer-Moved c _ s t r du dg (v6fs_mkdir-Balanced K L p mode) e
    Step-Moved c s t du dg (rmdir_step fuel p r e) =
        answer-Moved c _ s t r du dg (v6fs_rmdir-Keeps K L signed u g fuel p) e
    Step-Moved c s t du dg (link_step p q r e) =
        answer-Moved c _ s t r du dg (v6fs_link-Keeps K L p q) e
    Step-Moved c s t du dg (unlink_step p r e) =
        answer-Moved c _ s t r du dg (v6fs_unlink-Keeps K L p) e
    Step-Moved c s t du dg (rename_step fuel p q r e) =
        answer-Moved c _ s t r du dg (v6fs_rename-Balanced K L N signed u g fuel p q) e
    Step-Moved c s t du dg (chmod_step p mode r e) =
        answer-Moved c _ s t r du dg (v6fs_chmod-Keeps K L p mode) e
    Step-Moved c s t du dg (chown_step p uid gid r e) =
        answer-Moved c _ s t r du dg (v6fs_chown-Keeps K L signed u g p uid gid) e
    Step-Moved c s t du dg (utimens_step p tv r e) =
        answer-Moved c _ s t r du dg (v6fs_utimens-Keeps K L p tv) e

    -- Any number of requests, of any processes with ids other than -1, leave as many inodes held as
    -- before, where the id tables hold entries, an open comes without O_CREAT, each call of the kernel
    -- hands out and takes the references that it documents, and its lookups agree with each other: a
    -- directory above a name that was found is found or leaves an error, and a lookup that starts with an
    -- error leaves one.
    pub requests-Moved : (s t : Sys K.Core) → Served s t → Moved (L.held s.core) (L.held t.core) 0 0
    requests-Moved s t start = omega arith
    requests-Moved s t (answered {t = v} {c} before du dg one) =
        omega (arith, requests-Moved s v before, Step-Moved c v t du dg one)
