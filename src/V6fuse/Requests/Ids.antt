-- ===== src/V6fuse/Requests/Ids.antt =====
-- The ids under which the callbacks of src/v6fuse.c run.
use retro_fuse.Prelude.{
  ℕ, ◌≡◌, ◌≢◌, ap, ◌∙◌, Bool, Option, none, some, List, [], arith, if◌then◌else◌,
}
use retro_fuse.Prelude.Int.{ℤ, pos, pos_part, is_neg}
use retro_fuse.Prelude.Words.{low}
use retro_fuse.IdMap.{Entry, IdMap}
use retro_fuse.IdMap.Holds.{Holds}
use retro_fuse.IdMap.Translation.{fs_for, tofsid-fs_for}
use retro_fuse.V6fs.Stat.{map_host_id}
use retro_fuse.V6fs.Kernel.{FilePath, Sys, M, ◌>>=◌, pure, Kernel}
use retro_fuse.V6fs.System.{
  Boot, v6fs_sync, new_id, set_uids, set_gids, v6fs_setreuid, v6fs_setregid,
}
use retro_fuse.V6fs.Files.{
  OpenFlags, v6fs_open, v6fs_stat, v6fs_access, v6fs_truncate, v6fs_close, v6fs_mknod, v6fs_link,
  v6fs_unlink, v6fs_chmod,
}
use retro_fuse.V6fs.Attributes.{TimeSpec, v6fs_chown, v6fs_utimens}
use retro_fuse.V6fs.Transfer.{v6fs_pread, v6fs_pwrite}
use retro_fuse.V6fs.Dirs.{v6fs_mkdir}
use retro_fuse.V6fs.Listing.{v6fs_enumdir, v6fs_rmdir}
use retro_fuse.V6fs.Rename.{v6fs_rename}
use retro_fuse.V6fuse.Requests.{
  Context, state_of, set_groups, setfscontext, run_in, in_context, filldir, getattr, access,
  readdir, read, write, truncate, release, mknod, mkdir, rmdir, link, unlink, rename, chmod, chown,
  utimens, open_file, flush, fsync,
}

-- The state with both ids of the user and of the group set.
abbrev pub with_ids : {C : Type 0} → (uid gid : ℕ) → Sys C → Sys C
with_ids uid gid s = record s { ruid = uid; uid = uid; rgid = gid; gid = gid }

new_id_lem :
    (signed : Bool) (m : IdMap) (es : List Entry) (hostid old : ℕ)
    → Holds m es
    → hostid ≢ 4294967295
    → new_id signed m hostid old ≡ some (low 8 (fs_for m es hostid))
unfolding new_id map_host_id
new_id_lem signed m es hostid old h given = ground (arith, given, tofsid-fs_for m es h hostid)

-- Each callback of the process `c` is the call of the filesystem that it names, made from the state `t`;
-- an open and the two syncs answer as said.
pub record Requests (K : Kernel) (B : Boot K) (signed : Bool) (u g : IdMap) (c : Context)
    (s t : Sys K.Core) : Type 0 where
  pub getattr_as : (p : FilePath) → getattr K signed u g c p s ≡ some (v6fs_stat K signed u g p t)
  pub access_as :
      (p : FilePath) (r w x : Bool)
      → access K signed u g c p r w x s ≡ some (v6fs_access K p r w x t)
  pub readdir_as :
      (fuel : ℕ) (p : FilePath)
      → readdir K signed u g c fuel p s ≡ some (v6fs_enumdir K signed u g filldir fuel p [] t)
  pub read_as :
      (fh size : ℕ) (offset : ℤ)
      → read K signed u g c fh size offset s ≡ some (v6fs_pread K fh size offset t)
  pub write_as :
      (fh : ℕ) (buf : List ℕ) (size : ℕ) (offset : ℤ)
      → write K signed u g c fh buf size offset s ≡ some (v6fs_pwrite K fh buf size offset t)
  pub truncate_as :
      (p : FilePath) (length : ℤ)
      → truncate K signed u g c p length s ≡ some (v6fs_truncate K p length t)
  pub release_as : (fh : ℕ) → release K signed u g c fh s ≡ some (v6fs_close K (pos fh) t)
  pub mknod_as :
      (p : FilePath) (mode major minor : ℕ)
      → mknod K signed u g c p mode major minor s ≡ some (v6fs_mknod K p mode major minor t)
  pub mkdir_as :
      (p : FilePath) (mode : ℕ) → mkdir K signed u g c p mode s ≡ some (v6fs_mkdir K p mode t)
  pub rmdir_as :
      (fuel : ℕ) (p : FilePath)
      → rmdir K signed u g c fuel p s ≡ some (v6fs_rmdir K signed u g fuel p t)
  pub link_as : (p q : FilePath) → link K signed u g c p q s ≡ some (v6fs_link K p q t)
  pub unlink_as : (p : FilePath) → unlink K signed u g c p s ≡ some (v6fs_unlink K p t)
  pub rename_as :
      (fuel : ℕ) (p q : FilePath)
      → rename K signed u g c fuel p q s ≡ some (v6fs_rename K signed u g fuel p q t)
  pub chmod_as :
      (p : FilePath) (mode : ℕ) → chmod K signed u g c p mode s ≡ some (v6fs_chmod K p mode t)
  pub chown_as :
      (p : FilePath) (uid gid : ℕ)
      → chown K signed u g c p uid gid s ≡ some (v6fs_chown K signed u g p uid gid t)
  pub utimens_as :
      (p : FilePath) (tv : Option (TimeSpec × TimeSpec))
      → utimens K signed u g c p tv s ≡ some (v6fs_utimens K p tv t)
  pub open_as :
      (p : FilePath) (flags : OpenFlags)
      → (let (res, v) = v6fs_open K p flags 0 t in
          open_file K signed u g c p flags s
          ≡ some ((if is_neg res then (res, none) else (pos 0, some (pos_part res))), v))
  pub flush_as : flush K signed u g c B s ≡ some (pos 0, (v6fs_sync K B t).1)
  pub fsync_as : fsync K signed u g c B s ≡ some (pos 0, (v6fs_sync K B t).1)

module _ (K : Kernel) (signed : Bool) (u g : IdMap) (us gs : List Entry) (hu : Holds u us)
    (hg : Holds g gs) where
  -- The ids of the calling process, as the tables map them.
  abbrev pub as_caller : Context → Sys K.Core → Sys K.Core
  as_caller c s = with_ids (low 8 (fs_for u us c.uid)) (low 8 (fs_for g gs c.gid)) s

  setfscontext_lem :
      (c : Context) (s : Sys K.Core)
      → c.uid ≢ 4294967295
      → c.gid ≢ 4294967295
      → setfscontext K signed u g c s ≡ some (as_caller c s)
  unfolding setfscontext set_groups v6fs_setreuid v6fs_setregid set_uids set_gids
  setfscontext_lem c s du dg =
      ap (λ r. set_groups K signed u g c (set_uids r (new_id signed u c.uid s.uid) s))
        (new_id_lem signed u us c.uid s.ruid hu du)
      ∙ ap (λ r. set_groups K signed u g c (set_uids (some (low 8 (fs_for u us c.uid))) r s))
          (new_id_lem signed u us c.uid s.uid hu du)
      ∙ ap (λ r. state_of (set_gids r (new_id signed g c.gid s.gid) (with_user s)))
          (new_id_lem signed g gs c.gid s.rgid hg dg)
      ∙ ap (λ r. state_of (set_gids (some (low 8 (fs_for g gs c.gid))) r (with_user s)))
          (new_id_lem signed g gs c.gid s.gid hg dg)
    where
      with_user : Sys K.Core → Sys K.Core
      with_user s = record s { ruid = low 8 (fs_for u us c.uid); uid = low 8 (fs_for u us c.uid) }

  -- A call that a callback makes.
  pub in_context_lem :
      {A : Type 0} (c : Context) (m : M K.Core A) (s : Sys K.Core)
      → c.uid ≢ 4294967295
      → c.gid ≢ 4294967295
      → in_context K signed u g c m s ≡ some (m (as_caller c s))
  unfolding in_context run_in
  in_context_lem c m s du dg = ap (run_in K signed u g c m) (setfscontext_lem c s du dg)

  -- Where the tables hold entries and the ids of the process are not -1, each of the callbacks getattr,
  -- access, readdir, open, read, write, truncate, flush, fsync, release, mknod, mkdir, rmdir, link,
  -- unlink, rename, chmod, chown and utimens is the call of the filesystem for it, made with the real and
  -- the effective ids that the tables give for the process.
  pub request_ids :
      (B : Boot K) (c : Context) (s : Sys K.Core)
      → c.uid ≢ 4294967295
      → c.gid ≢ 4294967295
      → Requests K B signed u g c s (as_caller c s)
  unfolding getattr access readdir read write truncate release mknod mkdir rmdir link unlink rename
      chmod chown utimens open_file flush fsync ◌>>=◌ pure
  request_ids B c s du dg = record {
    getattr_as = λ p. run (v6fs_stat K signed u g p);
    access_as = λ p r w x. run (v6fs_access K p r w x);
    readdir_as = λ fuel p. run (v6fs_enumdir K signed u g filldir fuel p []);
    read_as = λ fh size offset. run (v6fs_pread K fh size offset);
    write_as = λ fh buf size offset. run (v6fs_pwrite K fh buf size offset);
    truncate_as = λ p length. run (v6fs_truncate K p length);
    release_as = λ fh. run (v6fs_close K (pos fh));
    mknod_as = λ p mode major minor. run (v6fs_mknod K p mode major minor);
    mkdir_as = λ p mode. run (v6fs_mkdir K p mode);
    rmdir_as = λ fuel p. run (v6fs_rmdir K signed u g fuel p);
    link_as = λ p q. run (v6fs_link K p q);
    unlink_as = λ p. run (v6fs_unlink K p);
    rename_as = λ fuel p q. run (v6fs_rename K signed u g fuel p q);
    chmod_as = λ p mode. run (v6fs_chmod K p mode);
    chown_as = λ p uid gid. run (v6fs_chown K signed u g p uid gid);
    utimens_as = λ p tv. run (v6fs_utimens K p tv);
    open_as = λ p flags. run (do
      res ← v6fs_open K p flags 0
      pure (if is_neg res then (res, none) else (pos 0, some (pos_part res))));
    flush_as = run (do res ← v6fs_sync K B; pure (pos 0));
    fsync_as = run (do res ← v6fs_sync K B; pure (pos 0));
  }
    where
      run : {A : Type 0} (m : M K.Core A) → in_context K signed u g c m s ≡ some (m (as_caller c s))
      run m = in_context_lem c m s du dg
