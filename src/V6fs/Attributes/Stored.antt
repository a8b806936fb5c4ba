-- ===== src/V6fs/Attributes/Stored.antt =====
-- What a change of owner and group in src/v6fs.c, and in src/v7fs.c and src/bsd29fs.c, which repeat it,
-- stores in the inode.
use mathlib.Core.Path.{subst}
use retro_fuse.Prelude.{
  ℕ, ◌≡◌, refl, ◌≢◌, ap, sym, ◌∙◌, Bool, true, false, not, ◌&&◌, ◌||◌, some, arith, ◌==◌,
  if◌then◌else◌,
}
use retro_fuse.Prelude.Int.{ℤ, pos}
use retro_fuse.Prelude.Slices.{apply_else}
use retro_fuse.V6fs.Kernel.{
  FilePath, Sys, ◌>>=◌, ◌>>◌, pure, Inode, find, Kernel, found, last_error, get_uid, read_inode,
  write_inode, begin,
}
use retro_fuse.V6fs.Attributes.{is_given, may_chown, may_chgrp, change_owner, chown_to}

-- The kernel's superuser is the user 0, its test leaves the user id as it is, and a field of an inode that
-- was written is there.
pub record Superuser (K : Kernel) (ip : ℕ) : Type 0 where
  pub suser_root : (s : Sys K.Core) → s.uid ≡ 0 → (K.suser s).0 ≡ true
  pub suser_uid : (s : Sys K.Core) → (K.suser s).1.uid ≡ s.uid
  pub inode_set : (i : Inode) (c : K.Core) → K.inode (K.set_inode ip i c) ip ≡ i

-- The lookup at the start of a call finds the inode, and the caller is root then.
abbrev pub FoundByRoot : (K : Kernel) → FilePath → (ip : ℕ) → (s t : Sys K.Core) → Type 0
FoundByRoot K p ip s t = (K.namei p find (begin K s).1 ≡ (some ip, t)) × (t.uid ≡ 0)

module _ (K : Kernel) (ip : ℕ) (L : Superuser K ip) (owner group uid gid : ℕ)
    (given : owner ≢ 4294967295) (given' : group ≢ 4294967295) where
  abbrev Allowed : Bool × Sys K.Core → Type 0
  Allowed r = (r.0 ≡ true) × (r.1.uid ≡ 0)

  may_chown-Allowed : (t : Sys K.Core) → t.uid ≡ 0 → Allowed (may_chown K ip owner uid t)
  unfolding may_chown ◌>>=◌ read_inode pure
  may_chown-Allowed t root = asked (is_given owner && not ((K.inode t.core ip).uid == uid))
    where
      asked : (b : Bool) → Allowed ((if b then K.suser else pure true) t)
      asked true = (L.suser_root t root, L.suser_uid t ∙ root)
      asked false = (refl, root)

  may_chgrp-Allowed : (t : Sys K.Core) → t.uid ≡ 0 → Allowed (may_chgrp K ip group gid t)
  unfolding may_chgrp ◌>>=◌ read_inode get_uid pure
  may_chgrp-Allowed t root = asked (is_given group && not ((K.inode t.core ip).gid == gid))
    where
      asked :
          (b : Bool)
          → Allowed (
              (if b
                  then (do
                    super ← K.suser
                    uid ← get_uid
                    pure (super || uid == (K.inode t.core ip).uid))
                  else pure true)
                t)
      asked true = (
        ap (λ b. b || (K.suser t).1.uid == (K.inode t.core ip).uid) (L.suser_root t root),
        L.suser_uid t ∙ root,
      )
      asked false = (refl, root)

  -- The result 0, and the owner and the group in the inode.
  abbrev Stored : ℤ × Sys K.Core → Type 0
  Stored r = (r.0 ≡ pos 0) × ((K.inode r.1.core ip).uid ≡ uid) × ((K.inode r.1.core ip).gid ≡ gid)

  change_owner-Stored :
      (t : Sys K.Core) → t.uid ≡ 0 → Stored (change_owner K ip owner group uid gid t)
  unfolding change_owner ◌>>=◌ ◌>>◌ pure read_inode write_inode
  change_owner-Stored t root =
      let some_id : not (is_given owner || is_given group) ≡ false = ground (arith, given) in
      let one = may_chown-Allowed t root in
      let u = (may_chown K ip owner uid t).1 in
      let two = may_chgrp-Allowed u one.1 in
      let v = (may_chgrp K ip group gid u).1 in
      let i = K.inode v.core ip in
      let new = record i {
        uid = if is_given owner then uid else i.uid;
        gid = if is_given group then gid else i.gid;
        accessed = true;
      } in
      subst Stored
        (sym (
          apply_else _ _ (not (is_given owner || is_given group)) t some_id
          ∙ apply_else _ _ (not (may_chown K ip owner uid t).0) u (ap not one.0)
          ∙ apply_else _ _ (not (may_chgrp K ip group gid u).0) v (ap not two.0)))
        (
          refl,
          ap (λ (i : Inode). i.uid) (L.inode_set new v.core) ∙ ground (arith, given),
          ap (λ (i : Inode). i.gid) (L.inode_set new v.core) ∙ ground (arith, given'),
        )

  -- The call returns 0, and it gives the inode back when that has the owner and the group.
  pub chown_to-Stored :
      (p : FilePath) (s t : Sys K.Core)
      → FoundByRoot K p ip s t
      → (v : Sys K.Core) × (chown_to K p owner group uid gid s ≡ (pos 0, (K.iput ip v).1))
        × ((K.inode v.core ip).uid ≡ uid)
        × ((K.inode v.core ip).gid ≡ gid)
  unfolding chown_to ◌>>=◌ ◌>>◌ pure found
  chown_to-Stored p s t (e, root) =
      let (fine, new_uid, new_gid) = change_owner-Stored t root in
      (
        (change_owner K ip owner group uid gid t).1,
        ap
              (λ r.
                found r.0 last_error
                  (λ ip. (do res ← change_owner K ip owner group uid gid; K.iput ip; pure res)) r.1)
              e
            ∙ ap (λ n. (n, (K.iput ip (change_owner K ip owner group uid gid t).1).1)) fine,
        new_uid,
        new_gid,
      )
