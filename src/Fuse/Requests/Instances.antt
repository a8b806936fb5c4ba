-- ===== src/Fuse/Requests/Instances.antt =====
-- The filesystems of src/v7fs.c, src/bsd29fs.c and src/bsd211fs.c as the front ends call them.
use retro_fuse.Prelude.{ℕ, ◌/◌, ◌%◌, Bool, Option, none, some, refl, ◌==◌}
use retro_fuse.Prelude.Int.{ℤ, pos, neg}
use retro_fuse.IdMap.{IdMap}
use retro_fuse.V6fs.Kernel.{FilePath, M, ◌>>=◌, pure, Kernel}
use retro_fuse.V6fs.Files.{OpenFlags}
use retro_fuse.V6fs.Transfer.{seek_cur}
use retro_fuse.V7fs.Attributes.{
  V7Stat, HostStat, convertstat, v7fs_setreuid, v7fs_setregid, v7fs_chown, v7fs_mknod, v7fs_utimens,
}
use retro_fuse.V7fs.Calls.{
  v7fs_link, v7fs_unlink, v7fs_chmod, v7fs_truncate, v7fs_access, v7fs_open, v7fs_close, v7fs_mkdir,
}
use retro_fuse.V7fs.Seek.{V7File, v7fs_seek, v7fs_pread, v7fs_pwrite}
use retro_fuse.V7fs.Listing.{v7fs_stat, v7fs_enumdir, v7fs_rmdir}
use retro_fuse.V7fs.Rename.{relink, v7fs_rename}
use retro_fuse.V7fs.System.{Boot, v7fs_sync, v7fs_shutdown}
use retro_fuse.Bsd29fs.Calls.{
  bsd29fs_setreuid, bsd29fs_setregid, bsd29fs_link, bsd29fs_unlink, bsd29fs_chmod, bsd29fs_truncate,
  bsd29fs_access, bsd29fs_open, bsd29fs_close, bsd29fs_mknod, bsd29fs_mkdir, bsd29fs_chown,
  bsd29fs_utimens, bsd29fs_pread, bsd29fs_pwrite, bsd29fs_rename, bsd29fs_stat, bsd29fs_enumdir,
  bsd29fs_rmdir,
}
use retro_fuse.Bsd29fs.System.{bsd29fs_sync, bsd29fs_shutdown}
use retro_fuse.Bsd211fs.Kernel.{Kernel as Bsd211Kernel}
use retro_fuse.Bsd211fs.Calls.{HostStat as Bsd211Stat}
use retro_fuse.Bsd211fs.Calls.{
  bsd211fs_setreuid, bsd211fs_setregid, bsd211fs_open, bsd211fs_close, bsd211fs_link,
  bsd211fs_unlink, bsd211fs_rename, bsd211fs_chmod, bsd211fs_access, bsd211fs_mkdir, bsd211fs_rmdir,
  bsd211fs_truncate, bsd211fs_fsync, bsd211fs_stat, bsd211fs_pread, bsd211fs_pwrite,
}
use retro_fuse.Bsd211fs.Inodes.{bsd211fs_chown, bsd211fs_utimens, bsd211fs_mknod}
use retro_fuse.Bsd211fs.Listing.{Listed, listed, overrun, unmapped, out_of_fuel, bsd211fs_enumdir}
use retro_fuse.Bsd211fs.System.{Boot as Bsd211Boot, bsd211fs_sync, bsd211fs_shutdown}
use retro_fuse.Fuse.Requests.{Entries, filldir, Calls}
use retro_fuse.Fuse.Requests.Ids.{SetsIds}

-- A mode of access(2): R_OK is 4, W_OK 2 and X_OK 1.
abbrev asks : (bit mode : ℕ) → Bool
asks bit mode = mode / bit % 2 == 1

-- What the kernels of the seventh edition and of 2.9BSD have more than V6fs.Kernel.
pub record More (K : Kernel) : Type 0 where
  pub stat1 : ℕ → M K.Core V7Stat
  pub getf : (fd : ℕ) → M K.Core (Option V7File)
  pub set_offset : (fd : ℕ) → ℤ → M K.Core (Unit {0})
  pub clock : K.Core → ℕ
  pub iupdat : ℕ → (atime mtime : ℕ) → M K.Core (Unit {0})
  pub iupdat_now : ℕ → M K.Core (Unit {0})
  pub set_changed : ℕ → M K.Core (Unit {0})

module _ (K : Kernel) (B : Boot K) (N : More K) (char_is_signed : Bool) (u g : IdMap)
    (fuel : ℕ) where
  unfoldable pub v7_calls : Calls K.Core HostStat OpenFlags
  v7_calls = record {
    setreuid = λ r e s. v7fs_setreuid u r e s;
    setregid = λ r e s. v7fs_setregid g r e s;
    stat = v7fs_stat K N.stat1 (convertstat u g);
    access = λ p mode. v7fs_access K p (asks 4 mode) (asks 2 mode) (asks 1 mode);
    enumdir = v7fs_enumdir K N.stat1 (convertstat u g) filldir fuel;
    open_file = v7fs_open K;
    pread = v7fs_pread K N.getf N.set_offset;
    pwrite = v7fs_pwrite K N.getf N.set_offset;
    truncate = v7fs_truncate K;
    sync = v7fs_sync K B;
    fsync = λ fd. v7fs_sync K B;
    close = v7fs_close K;
    mknod = v7fs_mknod K;
    mkdir = v7fs_mkdir K char_is_signed;
    rmdir = v7fs_rmdir K N.stat1 (convertstat u g) char_is_signed fuel;
    link = v7fs_link K;
    unlink = v7fs_unlink K;
    rename =
        v7fs_rename K (λ fd. v7fs_seek K N.getf N.set_offset (pos fd) (neg 16) seek_cur)
          (relink K N.iupdat_now) char_is_signed N.stat1 (convertstat u g) fuel;
    chmod = v7fs_chmod K;
    chown = v7fs_chown char_is_signed K u g;
    utimens = v7fs_utimens K N.clock N.iupdat;
    shutdown = v7fs_shutdown K B;
  }

  unfoldable pub bsd29_calls : Calls K.Core HostStat OpenFlags
  bsd29_calls = record {
    setreuid = λ r e s. bsd29fs_setreuid u r e s;
    setregid = λ r e s. bsd29fs_setregid g r e s;
    stat = bsd29fs_stat K N.stat1 u g;
    access = λ p mode. bsd29fs_access K p (asks 4 mode) (asks 2 mode) (asks 1 mode);
    enumdir = bsd29fs_enumdir K N.stat1 u g filldir fuel;
    open_file = bsd29fs_open K;
    pread = bsd29fs_pread K N.getf N.set_offset;
    pwrite = bsd29fs_pwrite K N.getf N.set_offset;
    truncate = bsd29fs_truncate K;
    sync = bsd29fs_sync K B;
    fsync = λ fd. bsd29fs_sync K B;
    close = bsd29fs_close K;
    mknod = bsd29fs_mknod K;
    mkdir = bsd29fs_mkdir K char_is_signed;
    rmdir = bsd29fs_rmdir K N.stat1 u g char_is_signed fuel;
    link = bsd29fs_link K;
    unlink = bsd29fs_unlink K;
    rename =
        bsd29fs_rename K N.getf N.set_offset N.set_changed N.iupdat_now char_is_signed N.stat1 u g
          fuel;
    chmod = bsd29fs_chmod K;
    chown = bsd29fs_chown K u g;
    utimens = bsd29fs_utimens K N.clock N.iupdat;
    shutdown = bsd29fs_shutdown K B;
  }

  pub v7_calls-SetsIds : SetsIds v7_calls u g
  unfolding v7_calls
  v7_calls-SetsIds = record { sets_users = λ r e s. refl; sets_groups = λ r e s. refl }

  pub bsd29_calls-SetsIds : SetsIds bsd29_calls u g
  unfolding bsd29_calls bsd29fs_setreuid bsd29fs_setregid
  bsd29_calls-SetsIds = record { sets_users = λ r e s. refl; sets_groups = λ r e s. refl }

-- A listing of 2.11BSD with a result; the others are the invalid accesses and the end of the fuel.
unfoldable pub answered : {A : Type 0} → Listed A → Option (ℤ × A)
answered (listed res context) = some (res, context)
answered overrun = none
answered unmapped = none
answered out_of_fuel = none

module _ (K : Bsd211Kernel) (B : Bsd211Boot K) (u g : IdMap) (fuel : ℕ) where
  unfoldable pub list_entries :
      FilePath → Entries Bsd211Stat → M K.Core (Option (ℤ × Entries Bsd211Stat))
  unfolding answered
  list_entries pathname entries = do
    answer ← bsd211fs_enumdir K u g filldir fuel pathname entries
    pure (answered answer)

  -- The flags of an open call are a number here, of which O_ACCMODE is passed on.
  unfoldable pub bsd211_calls : Calls K.Core Bsd211Stat ℕ
  unfolding list_entries
  bsd211_calls = record {
    setreuid = λ r e s. bsd211fs_setreuid u r e s;
    setregid = λ r e s. bsd211fs_setregid g r e s;
    stat = bsd211fs_stat K u g;
    access = bsd211fs_access K;
    enumdir = list_entries;
    open_file = λ p flags. bsd211fs_open K p (flags % 4);
    pread = bsd211fs_pread K;
    pwrite = bsd211fs_pwrite K;
    truncate = bsd211fs_truncate K;
    sync = bsd211fs_sync K B;
    fsync = λ fd. bsd211fs_fsync K (pos fd);
    close = bsd211fs_close K;
    mknod = bsd211fs_mknod K;
    mkdir = bsd211fs_mkdir K;
    rmdir = λ p. (do res ← bsd211fs_rmdir K p; pure (some res));
    link = bsd211fs_link K;
    unlink = bsd211fs_unlink K;
    rename = λ p q. (do res ← bsd211fs_rename K p q; pure (some res));
    chmod = bsd211fs_chmod K;
    chown = bsd211fs_chown K u g;
    utimens = bsd211fs_utimens K;
    shutdown = bsd211fs_shutdown K B;
  }

  pub bsd211_calls-SetsIds : SetsIds bsd211_calls u g
  unfolding bsd211_calls bsd211fs_setreuid bsd211fs_setregid
  bsd211_calls-SetsIds = record { sets_users = λ r e s. refl; sets_groups = λ r e s. refl }
