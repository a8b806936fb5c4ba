-- ===== src/FuseCommon/Main/Cleanup.antt =====
-- What `main` of src/fusecommon.c holds while it runs, as a step relation on its calls.
use retro_fuse.Prelude.{Bool, true, false, Option, none, some, List, [], ◌∷◌, ◌==◌, if◌then◌else◌}
use retro_fuse.Prelude.Int.{ℤ, pos, eqb_ℤ}
use retro_fuse.FuseCommon.Scan.{Text}
use retro_fuse.DskIo.{OpenArgs}
use retro_fuse.FuseCommon.{Config}
use retro_fuse.FuseCommon.Main.{
  Answers, Call, Run, show_help, show_version, dsk_open, dsk_close, initfs, access, fuse_mount,
  fuse_new, mount, daemonize, set_signal_handlers, fuse_loop, remove_signal_handlers, fuse_unmount,
  fuse_destroy, free_args, leave, serve, handle_signals, run_background, mount_filesystem,
  open_disk, start_fuse, make_channel, verify_access, init_filesystem, check_again, derive_size,
  create_disk, run_names, run_config, check_names, run_parsed, main,
}

-- The disk is open, the mount point is in use, the connection and the signal handlers are there.
pub record Held : Type 0 where
  pub disk : Bool
  pub chan : Bool
  pub fuse : Bool
  pub signals : Bool

abbrev pub holding : (disk chan fuse signals : Bool) → Held
holding disk chan fuse signals = record { disk = disk; chan = chan; fuse = fuse; signals = signals }

abbrev pub idle : Held
idle = holding false false false false

-- Which calls may be made while what is held, and what is held then. A disk is opened once at a time;
-- requests are served with everything there; and each part is given back only where it is held, the
-- signal handlers first and the connection behind its mount point.
pub data Step : Call → Held → Held → Type 0 where
  helps : {h : Held} → Step show_help h h
  tells_version : {h : Held} → Step show_version h h
  opens :
      {n : Text} {a : OpenArgs} {res : ℤ} {c f s : Bool}
      → Step (dsk_open n a res) (holding false c f s) (holding (eqb_ℤ res (pos 0)) c f s)
  closes : {c f s : Bool} → Step dsk_close (holding true c f s) (holding false c f s)
  makes :
      {cfg : Config} {res : ℤ} {c f s : Bool}
      → Step (initfs cfg res) (holding true c f s) (holding true c f s)
  accesses : {n : Text} {ro ok : Bool} {h : Held} → Step (access n ro ok) h h
  mounts :
      {n : Text} {d ok : Bool}
      → Step (fuse_mount n ok) (holding d false false false) (holding d ok false false)
  connects :
      {d ok : Bool} → Step (fuse_new ok) (holding d true false false) (holding d true ok false)
  mounts_filesystem :
      {cfg : Config} {res : ℤ} {c f s : Bool}
      → Step (mount cfg res) (holding true c f s) (holding true c f s)
  leaves_foreground : {fg ok : Bool} {h : Held} → Step (daemonize fg ok) h h
  handles :
      {d ok : Bool}
      → Step (set_signal_handlers ok) (holding d true true false) (holding d true true ok)
  loops :
      {ok : Bool} → Step (fuse_loop ok) (holding true true true true) (holding true true true true)
  removes : {d c f : Bool} → Step remove_signal_handlers (holding d c f true) (holding d c f false)
  unmounts : {d f : Bool} → Step fuse_unmount (holding d true f false) (holding d false f false)
  destroys :
      {d : Bool} → Step fuse_destroy (holding d false true false) (holding d false false false)
  frees : {d : Bool} → Step free_args (holding d false false false) (holding d false false false)

-- A sequence of calls, from what is held to what is held.
pub data Runs : List Call → Held → Held → Type 0 where
  stop : {h : Held} → Runs [] h h
  step : {c : Call} {cs : List Call} {h k l : Held} → Step c h k → Runs cs k l → Runs (c ∷ cs) h l

-- Nothing but perhaps the disk is held behind the calls.
abbrev pub Clean : List Call → Held → Type 0
Clean cs h = (disk : Bool) × Runs cs h (holding disk false false false)

then-Clean : {c : Call} {cs : List Call} {h k : Held} → Step c h k → Clean cs k → Clean (c ∷ cs) h
then-Clean s (disk, r) = (disk, step s r)

leave-Clean :
    (res : ℤ) (disk chan fuse signals : Bool)
    → Clean (leave res signals chan fuse).calls (holding disk chan fuse signals)
unfolding leave
leave-Clean res disk true true true =
    (disk, step removes (step unmounts (step destroys (step frees stop))))
leave-Clean res disk true false true = (disk, step removes (step unmounts (step frees stop)))
leave-Clean res disk true true false = (disk, step unmounts (step destroys (step frees stop)))
leave-Clean res disk true false false = (disk, step unmounts (step frees stop))
leave-Clean res disk false true true = (disk, step removes (step destroys (step frees stop)))
leave-Clean res disk false false true = (disk, step removes (step frees stop))
leave-Clean res disk false true false = (disk, step destroys (step frees stop))
leave-Clean res disk false false false = (disk, step frees stop)

either :
    (held : Bool → Held) (b : Bool) (x y : Run)
    → Clean x.calls (held true)
    → Clean y.calls (held false)
    → Clean (if b then x else y).calls (held b)
either held true x y h k = h
either held false x y h k = k

module _ (check : Config → ℤ) (to_disk to_fs : ℤ → ℤ) (a : Answers) (cfg : Config)
    (disk mountpoint : Text) where
  serve-Clean :
      (res : ℤ) → Clean (serve check to_disk to_fs a res).calls (holding true true true true)
  unfolding serve
  serve-Clean res = then-Clean loops (
      either (λ _. holding true true true true) a.looped _ _ (leave-Clean _ true true true true)
        (leave-Clean _ true true true true))

  handle_signals-Clean :
      (res : ℤ)
      → Clean (handle_signals check to_disk to_fs a res).calls (holding true true true false)
  unfolding handle_signals
  handle_signals-Clean res = then-Clean handles (
      either (λ ok. holding true true true ok) a.signals _ _ (serve-Clean res)
        (leave-Clean _ true true true false))

  run_background-Clean :
      (res : ℤ)
      → Clean (run_background check to_disk to_fs a cfg res).calls (holding true true true false)
  unfolding run_background
  run_background-Clean res = then-Clean leaves_foreground (
      either (λ _. holding true true true false) a.daemonized _ _ (handle_signals-Clean res)
        (leave-Clean _ true true true false))

  mount_filesystem-Clean :
      (res : ℤ)
      → Clean (mount_filesystem check to_disk to_fs a cfg res).calls (holding true true true false)
  unfolding mount_filesystem
  mount_filesystem-Clean res = then-Clean mounts_filesystem (
      either (λ _. holding true true true false) (eqb_ℤ a.mounted (pos 0)) _ _
        (run_background-Clean res) (leave-Clean _ true true true false))

  open_disk-Clean :
      (res : ℤ)
      → Clean
          (open_disk check to_disk to_fs a cfg disk mountpoint res).calls
          (holding false true true false)
  unfolding open_disk
  open_disk-Clean res = then-Clean opens (
      either (λ ok. holding ok true true false) (eqb_ℤ a.opened (pos 0)) _ _
        (mount_filesystem-Clean res) (leave-Clean _ false true true false))

  start_fuse-Clean :
      (res : ℤ)
      → Clean
          (start_fuse check to_disk to_fs a cfg disk mountpoint res).calls
          (holding false true false false)
  unfolding start_fuse
  start_fuse-Clean res = then-Clean connects (
      either (λ ok. holding false true ok false) a.fuse _ _ (open_disk-Clean res)
        (leave-Clean _ false true false false))

  make_channel-Clean :
      (res : ℤ) → Clean (make_channel check to_disk to_fs a cfg disk mountpoint res).calls idle
  unfolding make_channel
  make_channel-Clean res = then-Clean mounts (
      either (λ ok. holding false ok false false) a.channel _ _ (start_fuse-Clean res)
        (leave-Clean _ false false false false))

  verify_access-Clean :
      (res : ℤ) → Clean (verify_access check to_disk to_fs a cfg disk mountpoint res).calls idle
  unfolding verify_access
  verify_access-Clean res = then-Clean accesses (
      either (λ _. idle) a.accessible _ _ (make_channel-Clean res)
        (leave-Clean _ false false false false))

  init_filesystem-Clean :
      (res : ℤ)
      → Clean
          (init_filesystem check to_disk to_fs a cfg disk mountpoint res).calls
          (holding true false false false)
  unfolding init_filesystem
  init_filesystem-Clean res = then-Clean makes (
      either (λ _. holding true false false false) (eqb_ℤ a.initialized (pos 0)) _ _
        (then-Clean closes (verify_access-Clean res)) (leave-Clean _ true false false false))

module _ (check : Config → ℤ) (to_disk to_fs : ℤ → ℤ) (a : Answers) (disk mountpoint : Text) where
  check_again-Clean :
      (cfg : Config) (res : ℤ)
      → Clean
          (check_again check to_disk to_fs a cfg disk mountpoint res).calls
          (holding true false false false)
  unfolding check_again
  check_again-Clean cfg res =
      either (λ _. holding true false false false) (eqb_ℤ (check cfg) (pos 0)) _ _
        (init_filesystem-Clean check to_disk to_fs a cfg disk mountpoint res)
        (leave-Clean _ true false false false)

  derive_size-Clean :
      (cfg : Config) (res : ℤ)
      → Clean
          (derive_size check to_disk to_fs a cfg disk mountpoint res).calls
          (holding true false false false)
  unfolding derive_size
  derive_size-Clean cfg res =
      either (λ _. holding true false false false) (cfg.fssize == 0) _ _ (check_again-Clean _ res)
        (init_filesystem-Clean check to_disk to_fs a cfg disk mountpoint res)

  create_disk-Clean :
      (cfg : Config) → Clean (create_disk check to_disk to_fs a cfg disk mountpoint).calls idle
  unfolding create_disk
  create_disk-Clean cfg = then-Clean opens (
      either (λ ok. holding ok false false false) (eqb_ℤ a.created (pos 0)) _ _
        (derive_size-Clean cfg _) (false, stop))

  run_names-Clean :
      (cfg : Config) → Clean (run_names check to_disk to_fs a cfg disk mountpoint).calls idle
  unfolding run_names
  run_names-Clean cfg =
      either (λ _. idle) cfg.initfs _ _
        (either (λ _. idle) (eqb_ℤ (check _) (pos 0)) _ _ (create_disk-Clean _)
          (leave-Clean _ false false false false))
        (verify_access-Clean check to_disk to_fs a _ disk mountpoint _)

module _ (check : Config → ℤ) (to_disk to_fs : ℤ → ℤ) (a : Answers) where
  check_names-Clean :
      (cfg : Config) (d m : Option Text)
      → Clean (check_names check to_disk to_fs a cfg d m).calls idle
  unfolding check_names
  check_names-Clean cfg none m = leave-Clean _ false false false false
  check_names-Clean cfg (some d) none = leave-Clean _ false false false false
  check_names-Clean cfg (some d) (some m) = run_names-Clean check to_disk to_fs a d m cfg

  run_config-Clean : (cfg : Config) → Clean (run_config check to_disk to_fs a cfg).calls idle
  unfolding run_config
  run_config-Clean cfg =
      either (λ _. idle) cfg.showhelp _ _ (then-Clean helps (leave-Clean _ false false false false))
        (either (λ _. idle) cfg.showversion _ _
          (then-Clean tells_version (leave-Clean _ false false false false))
          (check_names-Clean cfg cfg.dskfilename cfg.mountpoint))

  run_parsed-Clean : (o : Option Config) → Clean (run_parsed check to_disk to_fs a o).calls idle
  unfolding run_parsed
  run_parsed-Clean none = leave-Clean _ false false false false
  run_parsed-Clean (some cfg) = run_config-Clean cfg

-- Whatever the calls answer, `main` makes them in an order in which each finds what it needs, with the
-- disk opened only while it is closed and requests served only with the disk, the mount point, the
-- connection and the signal handlers there; and it gives back the signal handlers, the mount point and
-- the connection where it got them.
pub main-Clean :
    (check : Config → ℤ) (to_disk to_fs : ℤ → ℤ) (a : Answers)
    → Clean (main check to_disk to_fs a).calls idle
unfolding main
main-Clean check to_disk to_fs a = run_parsed-Clean check to_disk to_fs a a.parsed
