-- ===== src/V7fs/Attributes/Ids.antt =====
-- The ids of src/v7fs.c: what a process runs under, what `v7fs_chown` stores, and what is shown.
use retro_fuse.Prelude.{
  ℕ, ◌%◌, ◌<◌, ◌≡◌, refl, ◌≢◌, ◌↔◌, ap, sym, ◌∙◌, Bool, true, false, some, List, arith,
  if◌then◌else◌,
}
use retro_fuse.Prelude.Int.{pos}
use retro_fuse.Prelude.Words.{extend}
use retro_fuse.IdMap.{Entry, IdMap}
use retro_fuse.IdMap.Holds.{Holds}
use retro_fuse.IdMap.Translation.{
  fs_of, fs_for, Distinct, tohostid-host_for, tofsid-fs_for, fs_of-host_of,
}
use retro_fuse.V6fs.Kernel.{FilePath, Sys, Kernel, ◌>>=◌, pure}
use retro_fuse.V6fs.Attributes.Stored.{Superuser, FoundByRoot, chown_to-Stored}
use retro_fuse.V7fs.Attributes.{
  map_host_id, map_v7_id, new_id, set_both, v7fs_setreuid, in_char, chown_id, v7fs_chown,
}

pub in_char_iff :
    (signed : Bool) (f : ℕ)
    → f < 32768
    → (in_char signed f ≡ f) ↔ (f < (if signed then 128 else 256))
unfolding in_char
in_char_iff true f small = ground arith
in_char_iff false f small = ground arith

module _ (m : IdMap) (es : List Entry) (h : Holds m es) (hostid : ℕ) where
  pub map_host_id_lem : (f : ℕ) → fs_for m es hostid ≡ f → f < 32768 → map_host_id m hostid ≡ some f
  unfolding map_host_id
  map_host_id_lem f e small =
      let whole : f % 65536 ≡ f = omega arith in
      rw (tofsid-fs_for m es h hostid ∙ ap some e, map_host_id) (ap some whole)

  pub new_id_lem :
      (old f : ℕ)
      → hostid ≢ 4294967295
      → fs_for m es hostid ≡ f
      → f < 32768
      → new_id m hostid old ≡ some f
  unfolding new_id
  new_id_lem old f given e small = ground (arith, given, map_host_id_lem f e small)

  pub set_lem :
      {C : Type 0} (f : ℕ) (s : Sys C)
      → hostid ≢ 4294967295
      → fs_for m es hostid ≡ f
      → f < 32768
      → v7fs_setreuid m hostid hostid s ≡ some (pos 0, record s { ruid = f; uid = f })
  unfolding v7fs_setreuid set_both
  set_lem f s given e small =
      rw (new_id_lem s.ruid f given e small, new_id)
        (rw (new_id_lem s.uid f given e small, new_id) refl)

  -- A `char` of the filesystem id is what a change of owner to the host id stores.
  chown_id_lem :
      (signed : Bool) (f : ℕ)
      → fs_for m es hostid ≡ f
      → f < 32768
      → chown_id signed m hostid ≡ some (in_char signed f)
  unfolding chown_id
  chown_id_lem signed f e small = rw (map_host_id_lem f e small, chown_id) refl

  -- In an id map where no host id has two entries with different filesystem ids, nor a filesystem id
  -- two host ids: the filesystem id of a host id's entry, if it is below 32768, is what the host id is
  -- mapped to, and it is mapped back to the host id.
  map_v7_id-map_host_id :
      (f : ℕ)
      → Distinct es
      → fs_of es hostid ≡ some f
      → f < 32768
      → (map_host_id m hostid ≡ some f) × (map_v7_id m f ≡ some hostid)
  unfolding map_v7_id
  map_v7_id-map_host_id f d e small =
      let same : extend 16 32 f ≡ f = ground arith in
      (
        map_host_id_lem f (rw e) small,
        rw same (tohostid-host_for m es h f ∙ ap some (rw (fs_of-host_of es hostid f d e))),
      )

module _ (K : Kernel) (signed : Bool) (u g : IdMap) (us gs : List Entry) (hu : Holds u us)
    (hg : Holds g gs) (ip : ℕ) (L : Superuser K ip) where
  -- For host ids of an owner and a group that are given and whose filesystem ids are below 32768: a process
  -- that runs under the owner's gets its filesystem id as its real and effective id, while a change of
  -- owner and group to them by root, where the file is found, returns 0 and leaves a file with that owner
  -- if and only if the filesystem id fits a `char`: below 128 if it is signed, else below 256; and so for
  -- the group.
  pub v7fs_chown_iff :
      (p : FilePath) (owner group fu fg : ℕ) (s t : Sys K.Core)
      → FoundByRoot K p ip s t
      → owner ≢ 4294967295
      → group ≢ 4294967295
      → fs_for u us owner ≡ fu
      → fs_for g gs group ≡ fg
      → fu < 32768
      → fg < 32768
      → (v7fs_setreuid u owner owner s ≡ some (pos 0, record s { ruid = fu; uid = fu }))
        × ((v : Sys K.Core) × (v7fs_chown signed K u g p owner group s
              ≡ (some (pos 0), (K.iput ip v).1))
            × (((K.inode v.core ip).uid ≡ fu) ↔ (fu < (if signed then 128 else 256)))
            × (((K.inode v.core ip).gid ≡ fg) ↔ (fg < (if signed then 128 else 256))))
  unfolding v7fs_chown ◌>>=◌ pure
  v7fs_chown_iff p owner group fu fg s t found given given' eu eg small small' =
      let (v, done, uid, gid) =
        chown_to-Stored K ip L owner group (in_char signed fu) (in_char signed fg) given given' p s
          t found in
      let (to, from) = in_char_iff signed fu small in
      let (to', from') = in_char_iff signed fg small' in
      (
        set_lem u us hu owner fu s given eu small,
        (
          v,
          rw
              (
                chown_id_lem u us hu owner signed fu eu small,
                v7fs_chown,
                chown_id_lem g gs hg group signed fg eg small',
              )
              (ap (λ r. (some r.0, r.1)) done),
          (λ e. to (sym uid ∙ e), λ h. uid ∙ from h),
          (λ e. to' (sym gid ∙ e), λ h. gid ∙ from' h),
        ),
      )
