-- ===== src/Bsd211fs/Inodes/Times.antt =====
-- Who may set the times of a file by `bsd211fs_utimens` of src/bsd211fs.c.
use retro_fuse.Prelude.{
  ℕ, ◌≡◌, ◌≢◌, refl, ap, ◌∙◌, Bool, true, false, not, ◌&&◌, ◌||◌, Option, none, some, arith, ◌==◌,
  if◌then◌else◌,
}
use retro_fuse.Prelude.Int.{ℤ, pos, neg}
use retro_fuse.Prelude.Slices.{apply_else}
use retro_fuse.V6fs.Kernel.{
  FilePath, Sys, ◌>>=◌, ◌>>◌, pure, clear_error, get_uid, found, last_error,
}
use retro_fuse.V7fs.Attributes.{time_of}
use retro_fuse.V6fs.Attributes.{TimeSpec, now, is_now, is_omit}
use retro_fuse.Bsd211fs.Kernel.{Kernel, find, read_inode, write_inode, read_clock}
use retro_fuse.Bsd211fs.Inodes.{
  timed, write_times, times_refused, set_times, bsd211fs_utimens, times_or_now,
}

module _ (K : Kernel) where
  -- Where the lookup at the start finds an inode.
  abbrev pub Finds : FilePath → (s : Sys K.Core) → ℕ → (t : Sys K.Core) → Type 0
  Finds p s ip t = K.namei find true p (clear_error (K.refreshclock s).1).1 ≡ (some ip, t)

  found_times :
      (p : FilePath) (times : Option (TimeSpec × TimeSpec)) (ip : ℕ) (s t : Sys K.Core)
      → Finds p s ip t
      → bsd211fs_utimens K p times s ≡ (
          let (res, u) = set_times K ip (times_or_now times).0 (times_or_now times).1 t in
          (res, (K.iput ip u).1))
  unfolding bsd211fs_utimens ◌>>=◌ ◌>>◌ pure found
  found_times p times ip s t e =
      ap
        (λ r.
          found r.0 last_error
            (λ ip. (do
              res ← set_times K ip (times_or_now times).0 (times_or_now times).1
              K.iput ip
              pure res))
            r.1)
        e

  not_asked : (ip : ℕ) (t : Sys K.Core) → times_refused K ip true t ≡ (0, t)
  unfolding times_refused ◌>>=◌ pure get_uid read_inode
  not_asked ip t =
      let c : (t.uid == 0 || t.uid == (K.inode t.core ip).uid || true) ≡ true = ground arith in
      ap (λ b. (if b then pure 0 else K.access ip) t) c

  asked :
      (ip : ℕ) (t : Sys K.Core) (both_now : Bool)
      → both_now ≡ false
      → t.uid ≢ 0
      → t.uid ≢ (K.inode t.core ip).uid
      → times_refused K ip both_now t ≡ K.access ip t
  unfolding times_refused ◌>>=◌ pure get_uid read_inode
  asked ip t both_now b not_root not_owner =
      let c : (t.uid == 0 || t.uid == (K.inode t.core ip).uid || both_now) ≡ false =
        ground (arith, b, not_root, not_owner) in
      ap (λ b. (if b then pure 0 else K.access ip) t) c

  -- What `set_times` does behind the answer about the permission.
  behind : (ip : ℕ) (atime mtime : TimeSpec) → ℕ × Sys K.Core → ℤ × Sys K.Core
  behind ip atime mtime r = (if r.0 == 0 then write_times K ip atime mtime else pure (pos r.0)) r.1

  set_times_behind :
      (ip : ℕ) (atime mtime : TimeSpec) (t : Sys K.Core)
      → (is_omit atime && is_omit mtime) ≡ false
      → set_times K ip atime mtime t
        ≡ behind ip atime mtime (times_refused K ip (is_now atime && is_now mtime) t)
  unfolding set_times ◌>>=◌ behind
  set_times_behind ip atime mtime t e = apply_else _ _ (is_omit atime && is_omit mtime) t e

  -- The state with the file marked for an update of its times.
  abbrev pub marked : ℕ → Sys K.Core → Sys K.Core
  marked ip u =
      let i = K.inode u.core ip in
      record u {
        core =
            K.set_inode ip
              (record i {
                accessed = if K.no_atime u.core then i.accessed else true;
                updated = true;
                changed = true;
              })
              u.core;
      }

  marked_now :
      (ip : ℕ) (u : Sys K.Core)
      → (write_inode K ip (timed (K.no_atime u.core) now now (K.inode u.core ip)) u).1 ≡ marked ip u
  unfolding write_inode timed
  marked_now ip u =
      let i = K.inode u.core ip in
      ap (λ b. with_flags b (i.updated || true) (i.changed || true))
        (flag i.accessed (K.no_atime u.core))
      ∙ ap (λ b. with_flags (accessed_flag i.accessed) b (i.changed || true)) (set i.updated)
      ∙ ap (λ b. with_flags (accessed_flag i.accessed) true b) (set i.changed)
    where
      with_flags : (a b c : Bool) → Sys K.Core
      with_flags a b c = record u {
        core =
            K.set_inode ip (record (K.inode u.core ip) { accessed = a; updated = b; changed = c })
              u.core;
      }

      accessed_flag : Bool → Bool
      accessed_flag a = if K.no_atime u.core then a else true

      flag : (a b : Bool) → (a || true && not b) ≡ (if b then a else true)
      flag a b = ground arith

      set : (a : Bool) → (a || true) ≡ true
      set a = ground arith

  -- Where the file is found, both times are set to the current time for every caller, with no regard to
  -- who owns the file and what its permissions are: behind a refresh of the clock the inode has the flags
  -- for a modification and a change, and that for an access unless the filesystem has MNT_NOATIME; the
  -- kernel's `iupdat` is called with the clock as both times; the call returns the error number that this
  -- leaves, negated, and gives the inode back.
  pub bsd211fs_utimens_now :
      (p : FilePath) (ip : ℕ) (s t : Sys K.Core)
      → Finds p s ip t
      → bsd211fs_utimens K p none s ≡ (
          let u = (K.refreshclock t).1 in
          let v = (K.iupdat ip (K.clock u.core) (K.clock u.core) (marked ip u)).1 in
          (neg v.error, (K.iput ip v).1))
  unfolding behind pure write_times ◌>>=◌ ◌>>◌ read_clock read_inode write_inode time_of last_error
  bsd211fs_utimens_now p ip s t e =
      let u = (K.refreshclock t).1 in
      found_times p none ip s t e
      ∙ ap (λ r. (r.0, (K.iput ip r.1).1))
          (set_times_behind ip now now t refl
            ∙ ap (behind ip now now) (not_asked ip t)
            ∙ ap
                (λ w.
                  let v = (K.iupdat ip (K.clock u.core) (K.clock u.core) w).1 in (neg v.error, v))
                (marked_now ip u))

  -- Where the file is there, and the caller is neither root nor its owner, and times that are not both
  -- the current time are refused: the call returns the positive number that `access` returned, no error
  -- number, and does nothing but give the inode back.
  pub bsd211fs_utimens_refused :
      (p : FilePath) (atime mtime : TimeSpec) (ip : ℕ) (s t : Sys K.Core)
      → Finds p s ip t
      → (is_omit atime && is_omit mtime) ≡ false
      → (is_now atime && is_now mtime) ≡ false
      → t.uid ≢ 0
      → t.uid ≢ (K.inode t.core ip).uid
      → (K.access ip t).0 ≢ 0
      → bsd211fs_utimens K p (some (atime, mtime)) s
        ≡ (pos (K.access ip t).0, (K.iput ip (K.access ip t).1).1)
  unfolding behind pure
  bsd211fs_utimens_refused p atime mtime ip s t e some_time not_both not_root not_owner refused =
      let c : ((K.access ip t).0 == 0) ≡ false = ground (arith, refused) in
      found_times p (some (atime, mtime)) ip s t e
      ∙ ap (λ r. (r.0, (K.iput ip r.1).1))
          (set_times_behind ip atime mtime t some_time
            ∙ ap (behind ip atime mtime)
                (asked ip t (is_now atime && is_now mtime) not_both not_root not_owner)
            ∙ apply_else _ _ ((K.access ip t).0 == 0) (K.access ip t).1 c)
