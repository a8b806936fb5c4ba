-- ===== src/Bsd211fs/Inodes/Owner.antt =====
-- What `bsd211fs_chown` of src/bsd211fs.c changes in an inode.
use retro_fuse.Prelude.{ℕ, ◌≡◌, refl, ap, ◌∙◌, false, ◌&&◌, ◌||◌, not, ◌==◌, if◌then◌else◌}
use retro_fuse.Prelude.Slices.{branch}
use retro_fuse.V6fs.Kernel.{Sys, ◌>>=◌, pure, get_uid}
use retro_fuse.V6fs.Attributes.{is_given}
use retro_fuse.Bsd211fs.Kernel.{Inode, Kernel, read_inode, write_inode}
use retro_fuse.Bsd211fs.Inodes.{owned, owner_refused, group_refused, change_owner}

-- An inode that is written is read back, and the tests of privileges leave inodes alone.
pub record KeepsInodes (K : Kernel) : Type 0 where
  pub inode-set : (ip : ℕ) (i : Inode) (c : K.Core) → K.inode (K.set_inode ip i c) ip ≡ i
  pub suser_inode : (ip : ℕ) (s : Sys K.Core) → K.inode (K.suser s).1.core ip ≡ K.inode s.core ip
  pub groupmember_inode :
      (ip g : ℕ) (s : Sys K.Core) → K.inode (K.groupmember g s).1.core ip ≡ K.inode s.core ip

-- Nothing but the owner and the group differs.
abbrev pub SameButOwner : (old new : Inode) → Type 0
SameButOwner old new = record new { uid = old.uid; gid = old.gid } ≡ old

module _ (K : Kernel) (L : KeepsInodes K) (ip : ℕ) where
  abbrev Kept : {A : Type 0} → (s : Sys K.Core) → A × Sys K.Core → Type 0
  Kept s r = K.inode r.1.core ip ≡ K.inode s.core ip

  owner-Kept :
      (owner fsuid : ℕ) (i : Inode) (s : Sys K.Core) → Kept s (owner_refused K owner fsuid i s)
  unfolding owner_refused ◌>>=◌ pure
  owner-Kept owner fsuid i s =
      branch (Kept s) _ _ (is_given owner && not (i.uid == fsuid)) s (λ c. L.suser_inode ip s)
        (λ c. refl)

  group-Kept :
      (group fsgid : ℕ) (i : Inode) (s : Sys K.Core) → Kept s (group_refused K group fsgid i s)
  unfolding group_refused ◌>>=◌ pure get_uid
  group-Kept group fsgid i s =
      branch (Kept s) _ _ (is_given group && not (i.gid == fsgid)) s
        (λ c.
          let r = (if s.uid == i.uid then K.groupmember fsgid else pure false) s in
          let asked : Kept s r =
            branch (Kept s) _ _ (s.uid == i.uid) s (λ c. L.groupmember_inode ip fsgid s)
              (λ c. refl) in
          branch (Kept s) _ _ r.0 r.1 (λ c. asked) (λ c. L.suser_inode ip r.1 ∙ asked))
        (λ c. refl)

  -- A change of the owner changes nothing but the owner and the group in the inode: it sets none of the
  -- flags by which the kernel knows that an inode has to be written to the disk.
  pub change_owner_lem :
      (owner group fsuid fsgid : ℕ) (s : Sys K.Core)
      → SameButOwner
          (K.inode s.core ip)
          (K.inode (change_owner K ip owner group fsuid fsgid s).1.core ip)
  unfolding change_owner owned ◌>>=◌ pure read_inode write_inode
  change_owner_lem owner group fsuid fsgid s =
      let i : Inode = K.inode s.core ip in
      let r = owner_refused K owner fsuid i s in
      let q = group_refused K group fsgid i r.1 in
      let kept = owner-Kept owner fsuid i s in
      let kept' = group-Kept group fsgid i r.1 ∙ kept in
      branch After _ _ (is_given owner || is_given group) s
        (λ c.
          branch After _ _ r.0 r.1 (λ c. same kept)
            (λ c.
              branch After _ _ q.0 q.1 (λ c. same kept')
                (λ c. same_owned (
                  L.inode-set ip (owned owner group fsuid fsgid (K.inode q.1.core ip)) q.1.core
                  ∙ ap (owned owner group fsuid fsgid) kept'))))
        (λ c. refl)
    where
      After : {A : Type 0} → A × Sys K.Core → Type 0
      After r = SameButOwner (K.inode s.core ip) (K.inode r.1.core ip)

      old : Inode
      old = K.inode s.core ip

      same : {j : Inode} → j ≡ old → SameButOwner old j
      same e = ap (λ (j : Inode). record j { uid = old.uid; gid = old.gid }) e

      same_owned : {j : Inode} → j ≡ owned owner group fsuid fsgid old → SameButOwner old j
      same_owned e = ap (λ (j : Inode). record j { uid = old.uid; gid = old.gid }) e
