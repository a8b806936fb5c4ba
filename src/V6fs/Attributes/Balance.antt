-- ===== src/V6fs/Attributes/Balance.antt =====
-- Counts of the inodes that `v6fs_chown` and `v6fs_utimens` of src/v6fs.c hold.
use retro_fuse.Prelude.{ℕ, Bool, Option, none, some, not, ◌&&◌, ◌||◌, ◌==◌}
use retro_fuse.IdMap.{IdMap}
use retro_fuse.V6fs.Stat.{map_host_id}
use retro_fuse.V6fs.Kernel.{FilePath, Kernel, iwrite, ◌>>=◌, pure}
use retro_fuse.V6fs.Kernel.Counts.{CountsInodes}
use retro_fuse.V6fs.Kernel.Balance.{
  Keeps, bind, next, choose, return, neutral, found-Keeps, begin-Keeps, last_error-Keeps,
  clear_error-Keeps, set_error-Keeps, get_uid-Keeps, get_time-Keeps, set_time-Keeps,
  read_inode-Keeps, write_inode-Keeps, namei-Keeps, iput-Keeps,
}
use retro_fuse.V6fs.Files.Balance.{Balanced}
use retro_fuse.V6fs.Attributes.{
  TimeSpec, is_given, is_now, is_omit, may_chown, may_chgrp, change_owner, chown_to, v6fs_chown,
  times_refused, write_times, set_times, v6fs_utimens,
}

module _ (K : Kernel) (L : CountsInodes K) where
  may_chown-Keeps :
      {n : ℕ} (ip owner v6uid : ℕ) → Keeps L.held n (may_chown K ip owner v6uid) (λ _. n)
  unfolding may_chown
  may_chown-Keeps ip owner v6uid =
      bind (read_inode-Keeps K L ip) λ i.
        choose (is_given owner && not (i.uid == v6uid)) (neutral K.suser L.held_suser) (return _)

  may_chgrp-Keeps :
      {n : ℕ} (ip group v6gid : ℕ) → Keeps L.held n (may_chgrp K ip group v6gid) (λ _. n)
  unfolding may_chgrp
  may_chgrp-Keeps ip group v6gid = bind (read_inode-Keeps K L ip) λ i.
      choose (is_given group && not (i.gid == v6gid))
        (bind (neutral K.suser L.held_suser) λ super. bind get_uid-Keeps λ uid. return _) (return _)

  change_owner-Keeps :
      {n : ℕ} (ip owner group v6uid v6gid : ℕ)
      → Keeps L.held n (change_owner K ip owner group v6uid v6gid) (λ _. n)
  unfolding change_owner
  change_owner-Keeps ip owner group v6uid v6gid =
      choose (not (is_given owner || is_given group)) (return _) (
        bind (may_chown-Keeps ip owner v6uid) λ a. choose (not a) (return _) (
          bind (may_chgrp-Keeps ip group v6gid) λ b.
            choose (not b) (return _)
              (bind (read_inode-Keeps K L ip) λ i. next (write_inode-Keeps K L ip _) (return _))))

  chown_to-Keeps :
      (p : FilePath) (owner group v6uid v6gid : ℕ)
      → Balanced K L (chown_to K p owner group v6uid v6gid)
  unfolding chown_to
  chown_to-Keeps p owner group v6uid v6gid = next (begin-Keeps K L) (
      bind (namei-Keeps K L p) λ o. found-Keeps o last_error-Keeps λ ip.
        bind (change_owner-Keeps ip owner group v6uid v6gid)
          λ res. next (iput-Keeps K L ip) (return res))

  pub v6fs_chown-Keeps :
      (signed : Bool) (u g : IdMap) (p : FilePath) (owner group : ℕ)
      → Balanced K L (v6fs_chown K signed u g p owner group)
  unfolding v6fs_chown
  v6fs_chown-Keeps signed u g p owner group =
      elim (map_host_id signed u owner)
        as (λ a. Balanced K L (elim a [
          | none ↦ pure none
          | some v6uid ↦ elim (map_host_id signed g group) [
            | none ↦ pure none
            | some v6gid ↦ chown_to K p owner group v6uid v6gid >>= λ res. pure (some res)
          ]
        ])) [
          | none ↦ return _
          | some v6uid ↦
              elim (map_host_id signed g group)
                as (λ b. Balanced K L (elim b [
                  | none ↦ pure none
                  | some v6gid ↦ chown_to K p owner group v6uid v6gid >>= λ res. pure (some res)
                ])) [
                  | none ↦ return _
                  | some v6gid ↦ bind (chown_to-Keeps p owner group v6uid v6gid) λ res. return _
                ]
        ]

  times_refused-Keeps :
      {n : ℕ} (ip : ℕ) (both_now : Bool) → Keeps L.held n (times_refused K ip both_now) (λ _. n)
  unfolding times_refused
  times_refused-Keeps ip both_now = bind get_uid-Keeps λ uid. bind (read_inode-Keeps K L ip) λ i.
      choose (not (uid == 0) && not (uid == i.uid))
        (choose (not both_now) (return _) (neutral (K.access ip iwrite) (L.held_access ip iwrite)))
        (return _)

  write_times-Keeps :
      {n : ℕ} (ip : ℕ) (a m : TimeSpec) → Keeps L.held n (write_times K ip a m) (λ _. n)
  unfolding write_times
  write_times-Keeps ip a m = next (neutral K.refreshclock L.held_refreshclock) (
      bind get_time-Keeps λ saved. next (set_time-Keeps _) (
        bind (read_inode-Keeps K L ip) λ i. next (write_inode-Keeps K L ip _) (
          next clear_error-Keeps (
            next (neutral (K.iupdat ip _) (L.held_iupdat ip _)) (
              bind last_error-Keeps λ res. bind (read_inode-Keeps K L ip) λ j.
                next (write_inode-Keeps K L ip _) (next (set_time-Keeps saved) (return res)))))))

  set_times-Keeps : {n : ℕ} (ip : ℕ) (a m : TimeSpec) → Keeps L.held n (set_times K ip a m) (λ _. n)
  unfolding set_times
  set_times-Keeps ip a m = choose (is_omit a && is_omit m) (return _) (
      next (set_error-Keeps _) (
        bind (times_refused-Keeps ip (is_now a && is_now m))
          λ refused. choose refused last_error-Keeps (write_times-Keeps ip a m)))

  pub v6fs_utimens-Keeps :
      (p : FilePath) (t : Option (TimeSpec × TimeSpec)) → Balanced K L (v6fs_utimens K p t)
  unfolding v6fs_utimens
  v6fs_utimens-Keeps p t = next (begin-Keeps K L) (
      bind (namei-Keeps K L p) λ o.
        found-Keeps o last_error-Keeps
          λ ip. bind (set_times-Keeps ip _ _) λ res. next (iput-Keeps K L ip) (return res))

-- A change of the owner and one of the times give back the inode that they looked up, on every path,
-- where each call of the kernel hands out and takes the references that it documents.
attributes-Balanced :
    (K : Kernel) (L : CountsInodes K) (signed : Bool) (u g : IdMap) (p : FilePath) (owner group : ℕ)
    (t : Option (TimeSpec × TimeSpec))
    → Balanced K L (v6fs_chown K signed u g p owner group) × Balanced K L (v6fs_utimens K p t)
attributes-Balanced K L signed u g p owner group t =
    (v6fs_chown-Keeps K L signed u g p owner group, v6fs_utimens-Keeps K L p t)
