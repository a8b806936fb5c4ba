-- ===== src/FuseCommon/Main/Status.antt =====
-- The exit status of `main` of src/fusecommon.c, and whether requests were served.
use retro_fuse.Prelude.{
  ◌≡◌, refl, sym, ap, ◌∙◌, ◌⊎◌, inl, inr, ◌↔◌, Bool, true, false, ◌||◌, Option, none, some, List,
  [], ◌∷◌, ◌==◌, if◌then◌else◌, arith,
}
use mathlib.Core.Path.{subst}
use retro_fuse.Prelude.Int.{ℤ, pos, eqb_ℤ}
use retro_fuse.FuseCommon.Scan.{Text}
use retro_fuse.FuseCommon.{Config}
use retro_fuse.FuseCommon.Main.{
  Answers, Call, Run, fuse_loop, calling, leave, serve, handle_signals, run_background,
  mount_filesystem, open_disk, start_fuse, make_channel, verify_access, init_filesystem,
  check_again, derive_size, create_disk, run_names, check_names, run_config, run_parsed, main,
  exit_failure,
}

-- Whether requests were served until the filesystem was told to stop.
abbrev pub is_service : Call → Bool
is_service (fuse_loop ok) = ok
is_service c = false

abbrev pub served : List Call → Bool
served [] = false
served (c ∷ cs) = is_service c || served cs

-- A run either served requests and reports success, or did not and reports `res`.
abbrev Reports : (res : ℤ) → Run → Type 0
Reports res r =
    ((r.status ≡ pos 0) × (served r.calls ≡ true)) ⊎ ((r.status ≡ res) × (served r.calls ≡ false))

leave-Reports : (res : ℤ) (signals chan fuse : Bool) → Reports res (leave res signals chan fuse)
unfolding leave
leave-Reports res true true true = inr (refl, refl)
leave-Reports res true true false = inr (refl, refl)
leave-Reports res true false true = inr (refl, refl)
leave-Reports res true false false = inr (refl, refl)
leave-Reports res false true true = inr (refl, refl)
leave-Reports res false true false = inr (refl, refl)
leave-Reports res false false true = inr (refl, refl)
leave-Reports res false false false = inr (refl, refl)

either :
    {res : ℤ} (b : Bool) (x y : Run)
    → Reports res x
    → Reports res y
    → Reports res (if b then x else y)
either true x y h k = h
either false x y h k = k

chosen_then :
    {res : ℤ} (b : Bool) (x y : Run) → b ≡ true → Reports res x → Reports res (if b then x else y)
chosen_then true x y e h = h
chosen_then false x y e h = absurd (ground (arith, e))

chosen_else :
    {res : ℤ} (b : Bool) (x y : Run) → b ≡ false → Reports res y → Reports res (if b then x else y)
chosen_else true x y e h = absurd (ground (arith, e))
chosen_else false x y e h = h

module _ (check : Config → ℤ) (to_disk to_fs : ℤ → ℤ) (a : Answers) (cfg : Config)
    (disk mountpoint : Text) where
  serve_loop :
      (res : ℤ) (ok : Bool)
      → Reports res (
          calling
            (fuse_loop ok)
            (if ok then leave (pos 0) true true true else leave res true true true))
  unfolding leave
  serve_loop res true = inl (refl, refl)
  serve_loop res false = inr (refl, refl)

  serve-Reports : (res : ℤ) → Reports res (serve check to_disk to_fs a res)
  unfolding serve
  serve-Reports res = serve_loop res a.looped

  mount_filesystem-Reports :
      (res : ℤ) → Reports res (mount_filesystem check to_disk to_fs a cfg res)
  unfolding mount_filesystem run_background handle_signals
  mount_filesystem-Reports res =
      either (eqb_ℤ a.mounted (pos 0)) _ _
        (either a.daemonized _ _
          (either a.signals _ _ (serve-Reports res) (leave-Reports res false true true))
          (leave-Reports res false true true))
        (leave-Reports res false true true)

  verify_access-Reports :
      (res : ℤ) → Reports res (verify_access check to_disk to_fs a cfg disk mountpoint res)
  unfolding verify_access make_channel start_fuse open_disk
  verify_access-Reports res =
      either a.accessible _ _
        (either a.channel _ _
          (either a.fuse _ _
            (either (eqb_ℤ a.opened (pos 0)) _ _ (mount_filesystem-Reports res)
              (leave-Reports res false true true))
            (leave-Reports res false true false))
          (leave-Reports res false false false))
        (leave-Reports res false false false)

  init_filesystem-Reports :
      (res : ℤ) → Reports res (init_filesystem check to_disk to_fs a cfg disk mountpoint res)
  unfolding init_filesystem
  init_filesystem-Reports res =
      either (eqb_ℤ a.initialized (pos 0)) _ _ (verify_access-Reports res)
        (leave-Reports res false false false)

module _ (check : Config → ℤ) (to_disk to_fs : ℤ → ℤ) (a : Answers) where
  derive_size-Reports :
      (cfg : Config) (disk mountpoint : Text) (res : ℤ)
      → Reports res (derive_size check to_disk to_fs a cfg disk mountpoint res)
  unfolding derive_size check_again
  derive_size-Reports cfg disk mountpoint res =
      either (cfg.fssize == 0) _ _
        (either (eqb_ℤ (check _) (pos 0)) _ _
          (init_filesystem-Reports check to_disk to_fs a _ disk mountpoint res)
          (leave-Reports res false false false))
        (init_filesystem-Reports check to_disk to_fs a cfg disk mountpoint res)

  check_names-Reports :
      (cfg : Config) (d m : Option Text)
      → cfg.initfs ≡ false
      → Reports exit_failure (check_names check to_disk to_fs a cfg d m)
  unfolding check_names run_names
  check_names-Reports cfg none m h = leave-Reports _ false false false
  check_names-Reports cfg (some d) none h = leave-Reports _ false false false
  check_names-Reports cfg (some d) (some m) h =
      chosen_else cfg.initfs _ _ h (verify_access-Reports check to_disk to_fs a _ d m _)

  run_config-Reports :
      (cfg : Config)
      → cfg.showhelp ≡ false
      → cfg.showversion ≡ false
      → cfg.initfs ≡ false
      → Reports exit_failure (run_config check to_disk to_fs a cfg)
  unfolding run_config
  run_config-Reports cfg help version plain = chosen_else cfg.showhelp _ _ help (
      chosen_else cfg.showversion _ _ version
        (check_names-Reports cfg cfg.dskfilename cfg.mountpoint plain))

  success_iff : (r : Run) → Reports exit_failure r → (r.status ≡ pos 0) ↔ (served r.calls ≡ true)
  success_iff r (inl (s, c)) = (λ _. c, λ _. s)
  success_iff r (inr (s, c)) =
      (λ h. absurd (failed (sym s ∙ h)), λ h. absurd (unserved (sym c ∙ h)))
    where
      failed : exit_failure ≡ pos 0 → ⊥
      failed h = ground arith

      unserved : false ≡ true → ⊥
      unserved h = ground arith

  always_success : (r : Run) → Reports (pos 0) r → r.status ≡ pos 0
  always_success r (inl (s, c)) = s
  always_success r (inr (s, c)) = s

  -- A mount of a filesystem that is there already: the exit status is success just where requests were
  -- served until the end, whatever the calls answer.
  pub mount_status :
      (cfg : Config)
      → a.parsed ≡ some cfg
      → cfg.showhelp ≡ false
      → cfg.showversion ≡ false
      → cfg.initfs ≡ false
      → (let r = main check to_disk to_fs a in (r.status ≡ pos 0) ↔ (served r.calls ≡ true))
  unfolding main run_parsed
  mount_status cfg parsed help version plain =
      success_iff (run_parsed check to_disk to_fs a a.parsed) (
        subst (λ o. Reports exit_failure (run_parsed check to_disk to_fs a o)) (sym parsed)
          (run_config-Reports cfg help version plain))

  create_disk-Reports :
      (cfg : Config) (disk mountpoint : Text)
      → a.created ≡ pos 0
      → Reports (pos 0) (create_disk check to_disk to_fs a cfg disk mountpoint)
  unfolding create_disk
  create_disk-Reports cfg disk mountpoint created =
      chosen_then (eqb_ℤ a.created (pos 0)) _ _ (ap (λ n. eqb_ℤ n (pos 0)) created) (
        subst (λ res. Reports res (derive_size check to_disk to_fs a cfg disk mountpoint a.created))
          created (derive_size-Reports cfg disk mountpoint a.created))

  run_names-Reports :
      (cfg : Config) (disk mountpoint : Text)
      → cfg.initfs ≡ true
      → check (record cfg { foreground = cfg.foreground || cfg.debug }) ≡ pos 0
      → a.created ≡ pos 0
      → Reports (pos 0) (run_names check to_disk to_fs a cfg disk mountpoint)
  unfolding run_names
  run_names-Reports cfg disk mountpoint init checked created = chosen_then cfg.initfs _ _ init (
      chosen_then (eqb_ℤ (check (record cfg { foreground = cfg.foreground || cfg.debug })) (pos 0))
        _ _ (ap (λ n. eqb_ℤ n (pos 0)) checked) (create_disk-Reports _ disk mountpoint created))

  -- With `initfs`, once the disk is created the exit status is success, whatever the calls behind it
  -- answer, also where the filesystem was not made, could not be mounted or was not served: the 0 that
  -- `dsk_open` returned is the status of every failure.
  pub initfs_status :
      (cfg : Config) (disk mountpoint : Text)
      → cfg.initfs ≡ true
      → check (record cfg { foreground = cfg.foreground || cfg.debug }) ≡ pos 0
      → a.created ≡ pos 0
      → (run_names check to_disk to_fs a cfg disk mountpoint).status ≡ pos 0
  initfs_status cfg disk mountpoint init checked created =
      always_success (run_names check to_disk to_fs a cfg disk mountpoint)
        (run_names-Reports cfg disk mountpoint init checked created)
