-- ===== src/Fuse/Requests/Ids.antt =====
-- The ids under which the callbacks of src/v7fuse.c, src/bsd29fuse.c and src/bsd211fuse.c run.
use retro_fuse.Prelude.{
  ℕ, ◌≡◌, ◌≢◌, ◌<◌, refl, ap, ◌∙◌, Option, none, some, List, [], if◌then◌else◌,
}
use retro_fuse.Prelude.Int.{ℤ, pos, pos_part, is_neg}
use retro_fuse.IdMap.{Entry, IdMap}
use retro_fuse.IdMap.Holds.{Holds}
use retro_fuse.IdMap.Translation.{fs_for}
use retro_fuse.V6fs.Kernel.{FilePath, Sys, M, ◌>>=◌, pure}
use retro_fuse.V6fs.Attributes.{TimeSpec}
use retro_fuse.V7fs.Attributes.{new_id, set_both, v7fs_setreuid, v7fs_setregid}
use retro_fuse.V7fs.Attributes.Ids.{new_id_lem, set_lem}
use retro_fuse.V6fuse.Requests.{Context}
use retro_fuse.Fuse.Requests.{
  Calls, set_groups, setfscontext, run_in, in_context, filldir, getattr, access, readdir, read,
  write, truncate, release, mknod, mkdir, rmdir, link, unlink, rename, chmod, chown, utimens,
  open_file, flush, fsync,
}

-- The filesystem sets its ids by these tables, as `v7fs_setreuid` and `v7fs_setregid` do.
pub record SetsIds {C S F : Type 0} (fs : Calls C S F) (u g : IdMap) : Type 0 where
  pub sets_users : (r e : ℕ) (s : Sys C) → fs.setreuid r e s ≡ v7fs_setreuid u r e s
  pub sets_groups : (r e : ℕ) (s : Sys C) → fs.setregid r e s ≡ v7fs_setregid g r e s

-- Each callback of the process `c` is the call of the filesystem that it names, made with `fu` as the real
-- and the effective user id and `fg` as the group ids; an open and the two syncs answer as said.
pub record Requests {C S F : Type 0} (fs : Calls C S F) (c : Context) (fu fg : ℕ) (s : Sys C)
    : Type 0 where
  pub getattr_as :
      (p : FilePath)
      → getattr fs c p s ≡ some (fs.stat p (record s { ruid = fu; uid = fu; rgid = fg; gid = fg }))
  pub access_as :
      (p : FilePath) (mode : ℕ)
      → access fs c p mode s
        ≡ some (fs.access p mode (record s { ruid = fu; uid = fu; rgid = fg; gid = fg }))
  pub readdir_as :
      (p : FilePath)
      → readdir fs c p s
        ≡ some (fs.enumdir p [] (record s { ruid = fu; uid = fu; rgid = fg; gid = fg }))
  pub read_as :
      (fh size : ℕ) (offset : ℤ)
      → read fs c fh size offset s
        ≡ some (fs.pread fh size offset (record s { ruid = fu; uid = fu; rgid = fg; gid = fg }))
  pub write_as :
      (fh : ℕ) (buf : List ℕ) (size : ℕ) (offset : ℤ)
      → write fs c fh buf size offset s
        ≡ some
            (fs.pwrite fh buf size offset (record s { ruid = fu; uid = fu; rgid = fg; gid = fg }))
  pub truncate_as :
      (p : FilePath) (length : ℤ)
      → truncate fs c p length s
        ≡ some (fs.truncate p length (record s { ruid = fu; uid = fu; rgid = fg; gid = fg }))
  pub release_as :
      (fh : ℕ)
      → release fs c fh s
        ≡ some (fs.close (pos fh) (record s { ruid = fu; uid = fu; rgid = fg; gid = fg }))
  pub mknod_as :
      (p : FilePath) (mode major minor : ℕ)
      → mknod fs c p mode major minor s
        ≡ some (fs.mknod p mode major minor (record s { ruid = fu; uid = fu; rgid = fg; gid = fg }))
  pub mkdir_as :
      (p : FilePath) (mode : ℕ)
      → mkdir fs c p mode s
        ≡ some (fs.mkdir p mode (record s { ruid = fu; uid = fu; rgid = fg; gid = fg }))
  pub rmdir_as :
      (p : FilePath)
      → rmdir fs c p s ≡ some (fs.rmdir p (record s { ruid = fu; uid = fu; rgid = fg; gid = fg }))
  pub link_as :
      (p q : FilePath)
      → link fs c p q s ≡ some (fs.link p q (record s { ruid = fu; uid = fu; rgid = fg; gid = fg }))
  pub unlink_as :
      (p : FilePath)
      → unlink fs c p s ≡ some (fs.unlink p (record s { ruid = fu; uid = fu; rgid = fg; gid = fg }))
  pub rename_as :
      (p q : FilePath)
      → rename fs c p q s
        ≡ some (fs.rename p q (record s { ruid = fu; uid = fu; rgid = fg; gid = fg }))
  pub chmod_as :
      (p : FilePath) (mode : ℕ)
      → chmod fs c p mode s
        ≡ some (fs.chmod p mode (record s { ruid = fu; uid = fu; rgid = fg; gid = fg }))
  pub chown_as :
      (p : FilePath) (uid gid : ℕ)
      → chown fs c p uid gid s
        ≡ some (fs.chown p uid gid (record s { ruid = fu; uid = fu; rgid = fg; gid = fg }))
  pub utimens_as :
      (p : FilePath) (tv : Option (TimeSpec × TimeSpec))
      → utimens fs c p tv s
        ≡ some (fs.utimens p tv (record s { ruid = fu; uid = fu; rgid = fg; gid = fg }))
  pub open_as :
      (p : FilePath) (flags : F)
      → (let (res, t) =
            fs.open_file p flags 0 (record s { ruid = fu; uid = fu; rgid = fg; gid = fg }) in
          open_file fs c p flags s
          ≡ some ((if is_neg res then (res, none) else (pos 0, some (pos_part res))), t))
  pub flush_as :
      flush fs c s
      ≡ some (pos 0, (fs.sync (record s { ruid = fu; uid = fu; rgid = fg; gid = fg })).1)
  pub fsync_as :
      (fh : ℕ)
      → fsync fs c fh s
        ≡ some (pos 0, (fs.fsync fh (record s { ruid = fu; uid = fu; rgid = fg; gid = fg })).1)

module _ {C S F : Type 0} (fs : Calls C S F) (u g : IdMap) (I : SetsIds fs u g) (us gs : List Entry)
    (hu : Holds u us) (hg : Holds g gs) where
  group_set :
      (hostid f : ℕ) (s : Sys C)
      → hostid ≢ 4294967295
      → fs_for g gs hostid ≡ f
      → f < 32768
      → v7fs_setregid g hostid hostid s ≡ some (pos 0, record s { rgid = f; gid = f })
  unfolding v7fs_setregid set_both
  group_set hostid f s given e small =
      rw (new_id_lem g gs hg hostid s.rgid f given e small, new_id)
        (rw (new_id_lem g gs hg hostid s.gid f given e small, new_id) refl)

  -- A call that a callback makes.
  in_context-Caller :
      {A : Type 0} (c : Context) (m : M C A) (fu fg : ℕ) (s : Sys C)
      → c.uid ≢ 4294967295
      → c.gid ≢ 4294967295
      → fs_for u us c.uid ≡ fu
      → fs_for g gs c.gid ≡ fg
      → fu < 32768
      → fg < 32768
      → in_context fs c m s ≡ some (m (record s { ruid = fu; uid = fu; rgid = fg; gid = fg }))
  unfolding in_context setfscontext set_groups run_in
  in_context-Caller c m fu fg s du dg eu eg su sg =
      let t : Sys C = record s { ruid = fu; uid = fu } in
      ap (λ r. run_in fs c m (set_groups fs c r))
        (I.sets_users c.uid c.uid s ∙ set_lem u us hu c.uid fu s du eu su)
      ∙ ap (λ r. run_in fs c m (elim r [ none ↦ none | some (_, t) ↦ some t ]))
          (I.sets_groups c.gid c.gid t ∙ group_set c.gid fg t dg eg sg)

  -- Where the tables hold entries, the ids of the process are not -1, and the filesystem ids that they are
  -- mapped to are below 32768, each of the callbacks getattr, access, readdir, open, read, write, truncate,
  -- flush, fsync, release, mknod, mkdir, rmdir, link, unlink, rename, chmod, chown and utimens is the call
  -- of the filesystem for it, made with these as the real and the effective ids.
  pub request-Caller :
      (c : Context) (fu fg : ℕ) (s : Sys C)
      → c.uid ≢ 4294967295
      → c.gid ≢ 4294967295
      → fs_for u us c.uid ≡ fu
      → fs_for g gs c.gid ≡ fg
      → fu < 32768
      → fg < 32768
      → Requests fs c fu fg s
  unfolding filldir getattr access readdir read write truncate release mknod mkdir rmdir link unlink
      rename chmod chown utimens open_file flush fsync ◌>>=◌ pure
  request-Caller c fu fg s du dg eu eg su sg = record {
    getattr_as = λ p. run (fs.stat p);
    access_as = λ p mode. run (fs.access p mode);
    readdir_as = λ p. run (fs.enumdir p []);
    read_as = λ fh size offset. run (fs.pread fh size offset);
    write_as = λ fh buf size offset. run (fs.pwrite fh buf size offset);
    truncate_as = λ p length. run (fs.truncate p length);
    release_as = λ fh. run (fs.close (pos fh));
    mknod_as = λ p mode major minor. run (fs.mknod p mode major minor);
    mkdir_as = λ p mode. run (fs.mkdir p mode);
    rmdir_as = λ p. run (fs.rmdir p);
    link_as = λ p q. run (fs.link p q);
    unlink_as = λ p. run (fs.unlink p);
    rename_as = λ p q. run (fs.rename p q);
    chmod_as = λ p mode. run (fs.chmod p mode);
    chown_as = λ p uid gid. run (fs.chown p uid gid);
    utimens_as = λ p tv. run (fs.utimens p tv);
    open_as = λ p flags. run (do
      res ← fs.open_file p flags 0
      pure (if is_neg res then (res, none) else (pos 0, some (pos_part res))));
    flush_as = run (do res ← fs.sync; pure (pos 0));
    fsync_as = λ fh. run (do res ← fs.fsync fh; pure (pos 0));
  }
    where
      run :
          {A : Type 0} (m : M C A)
          → in_context fs c m s ≡ some (m (record s { ruid = fu; uid = fu; rgid = fg; gid = fg }))
      run m = in_context-Caller c m fu fg s du dg eu eg su sg
