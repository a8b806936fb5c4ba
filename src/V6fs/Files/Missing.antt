-- ===== src/V6fs/Files/Missing.antt =====
-- `v6fs_open` of src/v6fs.c on a name that is missing.
use retro_fuse.Prelude.{ℕ, ◌≡◌, ◌≢◌, Bool, not, ◌||◌, Option, none, some, arith, ◌==◌}
use retro_fuse.Prelude.Int.{ℤ, pos, ◌<ℤ◌}
use retro_fuse.Prelude.Slices.{branch}
use retro_fuse.Errno.{enoent}
use retro_fuse.V6fs.Kernel.{
  FilePath, Sys, ◌>>=◌, ◌>>◌, pure, Opening, created, find, Kernel, get_error, last_error, found,
  begin,
}
use retro_fuse.V6fs.Files.{
  OpenFlags, create_mode, finish_open, open_missing, open_existing, v6fs_open,
}

-- No call of the kernel clears `u_error`, and a lookup that finds nothing sets it.
pub record ErrorsStay (K : Kernel) : Type 0 where
  pub find_error :
      (p : FilePath) (s : Sys K.Core) → (K.namei p find s).0 ≡ none → (K.namei p find s).1.error ≢ 0
  pub maknode_error : (mode : ℕ) (s : Sys K.Core) → s.error ≢ 0 → (K.maknode mode s).1.error ≢ 0
  pub open1_error :
      (ip : ℕ) (r w : Bool) (o : Opening) (s : Sys K.Core)
      → s.error ≢ 0
      → (K.open1 ip r w o s).1.error ≢ 0

module _ (K : Kernel) (E : ErrorsStay K) where
  abbrev Fails : ℤ × Sys K.Core → Type 0
  Fails r = r.0 <ℤ pos 0

  last_error_failed : (s : Sys K.Core) → s.error ≢ 0 → Fails (last_error s)
  unfolding last_error
  last_error_failed s h = ground (arith, h)

  finish_open_failed : (fd : ℕ) (s : Sys K.Core) → s.error ≢ 0 → Fails (finish_open K fd s)
  unfolding finish_open ◌>>=◌ get_error
  finish_open_failed fd s h =
      branch Fails (pure (pos fd)) last_error (s.error == 0) s (λ e. absurd (ground (arith, e, h)))
        (λ e. last_error_failed s h)

  -- Behind `v6_maknode`.
  made_failed :
      (f : OpenFlags) (o : Option ℕ) (s : Sys K.Core)
      → s.error ≢ 0
      → Fails (
          found o last_error
            (λ ip. (do fd ← K.open1 ip f.reads f.writes created; finish_open K fd))
            s)
  unfolding found ◌>>=◌
  made_failed f none s h = last_error_failed s h
  made_failed f (some ip) s h =
      let r = K.open1 ip f.reads f.writes created s in
      finish_open_failed r.0 r.1 (E.open1_error ip f.reads f.writes created s h)

  open_missing_failed :
      (f : OpenFlags) (mode : ℕ) (s : Sys K.Core) → s.error ≢ 0 → Fails (open_missing K f mode s)
  unfolding open_missing ◌>>=◌ get_error
  open_missing_failed f mode s h =
      branch Fails last_error
        (do
          made ← K.maknode (create_mode mode)
          found made last_error
              (λ ip. (do fd ← K.open1 ip f.reads f.writes created; finish_open K fd)))
        (not (s.error == enoent) || not f.creates) s (λ e. last_error_failed s h)
        (λ e.
          let r = K.maknode (create_mode mode) s in
          made_failed f r.0 r.1 (E.maknode_error (create_mode mode) s h))

-- An open of a name that is missing always fails, even with O_CREAT: the lookup leaves its error in
-- `u_error`, nothing clears it, and the open reports it, after it has made the node.
pub v6fs_open_missing :
    (K : Kernel) (E : ErrorsStay K) (name : FilePath) (f : OpenFlags) (mode : ℕ) (s : Sys K.Core)
    → (K.namei name find (begin K s).1).0 ≡ none
    → (v6fs_open K name f mode s).0 <ℤ pos 0
unfolding v6fs_open ◌>>◌ ◌>>=◌ found
v6fs_open_missing K E name f mode s e =
    rest (K.namei name find (begin K s).1) e (E.find_error name (begin K s).1 e)
  where
    rest :
        (r : Option ℕ × Sys K.Core)
        → r.0 ≡ none
        → r.1.error ≢ 0
        → (found r.0 (open_missing K f mode) (open_existing K f) r.1).0 <ℤ pos 0
    rest (none, t) e h = open_missing_failed K E f mode t h
    rest (some ip, t) e h = absurd (ground (arith, e))
