-- ===== src/FuseCommon/Main.antt =====
-- `main` of src/fusecommon.c. What the calls of libfuse, of the host and of the other parts answer is a
-- record; the run is the exit status and the calls in their order, with their answers.
pub mod Cleanup
pub mod Status
use retro_fuse.Prelude.{
  ℕ, ◌%◌, ◌^◌, Bool, true, false, ◌||◌, not, Option, none, some, List, [], ◌∷◌, ◌++◌, ◌==◌,
  if◌then◌else◌,
}
use retro_fuse.Prelude.Int.{ℤ, pos, neg, eqb_ℤ}
use retro_fuse.Prelude.Words.{pattern_of}
use retro_fuse.DskIo.{OpenArgs}
use retro_fuse.FuseCommon.Scan.{Text}
use retro_fuse.FuseCommon.{Config}

-- What each call answers: the result where it is a number, else whether it succeeded. The options are
-- parsed by `fuse_opt_parse`, with `retrofuse_parseopt` for the keys.
pub record Answers : Type 0 where
  pub parsed : Option Config
  pub created : ℤ
  pub dsksize : ℤ
  pub initialized : ℤ
  pub accessible : Bool
  pub channel : Bool
  pub fuse : Bool
  pub opened : ℤ
  pub mounted : ℤ
  pub daemonized : Bool
  pub signals : Bool
  pub looped : Bool

pub data Call : Type 0 where
  show_help show_version : Call
  dsk_open : Text → OpenArgs → (res : ℤ) → Call
  dsk_close : Call
  initfs : Config → (res : ℤ) → Call
  access : Text → (readonly ok : Bool) → Call
  fuse_mount : Text → (ok : Bool) → Call
  fuse_new : (ok : Bool) → Call
  mount : Config → (res : ℤ) → Call
  daemonize : (foreground ok : Bool) → Call
  set_signal_handlers : (ok : Bool) → Call
  fuse_loop : (ok : Bool) → Call
  remove_signal_handlers fuse_unmount fuse_destroy free_args : Call

pub record Run : Type 0 where
  pub status : ℤ
  pub calls : List Call

-- A call before the rest of the run.
abbrev pub calling : Call → Run → Run
calling c r = record { status = r.status; calls = c ∷ r.calls }

abbrev pub exit_success : ℤ
exit_success = pos 0

abbrev pub exit_failure : ℤ
exit_failure = pos 1

abbrev pub given : Bool → Call → List Call
given true c = c ∷ []
given false c = []

-- From the label `exit`, with what was set until then.
unfoldable pub leave : (res : ℤ) → (sighandlersset chan fuse : Bool) → Run
leave res sighandlersset chan fuse = record {
  status = res;
  calls =
      given sighandlersset remove_signal_handlers
      ++ (given chan fuse_unmount ++ (given fuse fuse_destroy ++ (free_args ∷ [])));
}

module _ (check_initfs_config : Config → ℤ) (fsblk_to_dskblk dskblk_to_fsblk : ℤ → ℤ)
    (a : Answers) where
  unfoldable pub serve : (res : ℤ) → Run
  serve res =
      calling (fuse_loop a.looped)
        (if a.looped then leave exit_success true true true else leave res true true true)

  unfoldable pub handle_signals : (res : ℤ) → Run
  handle_signals res =
      calling (set_signal_handlers a.signals)
        (if a.signals then serve res else leave res false true true)

  unfoldable pub run_background : Config → (res : ℤ) → Run
  run_background cfg res =
      calling (daemonize cfg.foreground a.daemonized)
        (if a.daemonized then handle_signals res else leave res false true true)

  unfoldable pub mount_filesystem : Config → (res : ℤ) → Run
  mount_filesystem cfg res =
      calling (mount cfg a.mounted)
        (if eqb_ℤ a.mounted (pos 0) then run_background cfg res else leave res false true true)

  open_args : Config → (create overwrite ro : Bool) → OpenArgs
  open_args cfg create overwrite ro = record {
    size = fsblk_to_dskblk (pos cfg.fssize);
    offset = fsblk_to_dskblk (pos cfg.fsoffset);
    create = create;
    overwrite = overwrite;
    ro = ro;
  }

  unfoldable pub open_disk : Config → (disk mountpoint : Text) → (res : ℤ) → Run
  unfolding open_args
  open_disk cfg disk mountpoint res =
      calling (dsk_open disk (open_args cfg false false cfg.readonly) a.opened)
        (if eqb_ℤ a.opened (pos 0) then mount_filesystem cfg res else leave res false true true)

  unfoldable pub start_fuse : Config → (disk mountpoint : Text) → (res : ℤ) → Run
  start_fuse cfg disk mountpoint res =
      calling (fuse_new a.fuse)
        (if a.fuse then open_disk cfg disk mountpoint res else leave res false true false)

  unfoldable pub make_channel : Config → (disk mountpoint : Text) → (res : ℤ) → Run
  make_channel cfg disk mountpoint res =
      calling (fuse_mount mountpoint a.channel)
        (if a.channel then start_fuse cfg disk mountpoint res else leave res false false false)

  unfoldable pub verify_access : Config → (disk mountpoint : Text) → (res : ℤ) → Run
  verify_access cfg disk mountpoint res =
      calling (access disk cfg.readonly a.accessible)
        (if a.accessible then make_channel cfg disk mountpoint res else leave res false false false)

  -- The new filesystem, on the open disk. `res` is the 0 that `dsk_open` returned.
  unfoldable pub init_filesystem : Config → (disk mountpoint : Text) → (res : ℤ) → Run
  init_filesystem cfg disk mountpoint res = calling (initfs cfg a.initialized) (
      if eqb_ℤ a.initialized (pos 0)
      then calling dsk_close (verify_access cfg disk mountpoint res)
      else leave res false false false)

  -- Where no size was given, that of the device; it is checked again.
  unfoldable pub check_again : Config → (disk mountpoint : Text) → (res : ℤ) → Run
  check_again cfg disk mountpoint res =
      if eqb_ℤ (check_initfs_config cfg) (pos 0)
      then init_filesystem cfg disk mountpoint res
      else leave res false false false

  unfoldable pub derive_size : Config → (disk mountpoint : Text) → (res : ℤ) → Run
  derive_size cfg disk mountpoint res =
      if cfg.fssize == 0
      then check_again (record cfg { fssize = pattern_of 32 (dskblk_to_fsblk a.dsksize) }) disk
          mountpoint res
      else init_filesystem cfg disk mountpoint res

  unfoldable pub create_disk : Config → (disk mountpoint : Text) → Run
  unfolding open_args
  create_disk cfg disk mountpoint =
      calling (dsk_open disk (open_args cfg true cfg.overwrite false) a.created) (
        if eqb_ℤ a.created (pos 0)
        then derive_size cfg disk mountpoint a.created
        else record { status = neg 1; calls = [] })

  unfoldable pub run_names : Config → (disk mountpoint : Text) → Run
  run_names cfg disk mountpoint =
      let cfg = record cfg { foreground = cfg.foreground || cfg.debug } in
      if cfg.initfs
      then if eqb_ℤ (check_initfs_config cfg) (pos 0)
        then create_disk cfg disk mountpoint
        else leave exit_failure false false false
      else verify_access cfg disk mountpoint exit_failure

  unfoldable pub check_names : Config → (disk mountpoint : Option Text) → Run
  check_names cfg none mountpoint = leave exit_failure false false false
  check_names cfg (some disk) none = leave exit_failure false false false
  check_names cfg (some disk) (some mountpoint) = run_names cfg disk mountpoint

  unfoldable pub run_config : Config → Run
  run_config cfg =
      if cfg.showhelp
      then calling show_help (leave exit_success false false false)
      else if cfg.showversion
      then calling show_version (leave exit_success false false false)
      else check_names cfg cfg.dskfilename cfg.mountpoint

  unfoldable pub run_parsed : Option Config → Run
  run_parsed none = leave exit_failure false false false
  run_parsed (some cfg) = run_config cfg

  unfoldable pub main : Run
  main = run_parsed a.parsed
