-- ===== src/FuseCommon/Tests.antt =====
-- Runs of src/fusecommon.c, and its theorems at concrete options and answers.
use retro_fuse.Prelude.{◌≡◌, refl, true, false, none, some, [], ◌∷◌, ◌++◌, arith}
use retro_fuse.Prelude.Int.{pos, neg}
use retro_fuse.IdMap.{IdMap}
use retro_fuse.IdMap.Holds.{Holds, Added}
use retro_fuse.FuseCommon.{Config, Maps, parse_map_option, failed_status}
use retro_fuse.FuseCommon.Scan.{Text, scan_map, scan_initfs, no_number, half, interleaved}
use retro_fuse.FuseCommon.Decimals.{Decimal, digit, more}
use retro_fuse.FuseCommon.MapOption.{map_text, map_option-Added}
use retro_fuse.FuseCommon.Main.{Answers, main}
use retro_fuse.FuseCommon.Main.Cleanup.{Clean, idle, main-Clean}

abbrev empty : IdMap
empty = record {
  entries = none;
  entrycount = 0;
  maxfsid = 255;
  defaulthostid = 65534;
  defaultfsid = 255;
}

abbrev empty_maps : Maps
empty_maps = record { users = empty; groups = empty }

empty-Holds : Holds empty []
empty-Holds = record { count = refl; block = refl }

-- 42 and 7.
abbrev forty_two : Text
forty_two = 52 ∷ 50 ∷ []

abbrev seven : Text
seven = 55 ∷ []

seven-Decimal : Decimal seven 7
seven-Decimal = digit (omega arith)

forty_two-Decimal : Decimal forty_two 42
forty_two-Decimal =
    let four : Decimal (52 ∷ []) 4 = digit (omega arith) in more {d = 2} four (omega arith)

-- mapuid = 42: 7x is refused for what follows the numbers.
refused_run :
    parse_map_option 255 true (map_text 117 forty_two (seven ++ (120 ∷ []))) empty_maps
    ≡ some (failed_status, empty_maps)
unfolding parse_map_option scan_map
refused_run = refl

map_option-Added_example :
    ((m : IdMap) × (parse_map_option 255 true (map_text 117 forty_two seven) empty_maps
        ≡ some (pos 0, record empty_maps { users = m }))
      × Added empty [] 42 7 m)
    × ((m : IdMap) × (parse_map_option 255 true (map_text 103 forty_two seven) empty_maps
          ≡ some (pos 0, record empty_maps { groups = m }))
        × Added empty [] 42 7 m)
map_option-Added_example =
    map_option-Added forty_two-Decimal seven-Decimal 255 empty_maps [] [] (omega arith)
      (omega arith) (omega arith) (omega arith) (omega arith) empty-Holds empty-Holds

-- initfs=100:24:3, and the same without the last number.
initfs_run :
    scan_initfs
      (105 ∷ 110 ∷ 105 ∷ 116 ∷ 102 ∷ 115 ∷ 61 ∷ 49 ∷ 48 ∷ 48 ∷ 58 ∷ 50 ∷ 52 ∷ 58 ∷ 51 ∷ [])
    ≡ some (interleaved 100 24 3 true)
unfolding scan_initfs
initfs_run = refl

initfs_half_run :
    scan_initfs (105 ∷ 110 ∷ 105 ∷ 116 ∷ 102 ∷ 115 ∷ 61 ∷ 49 ∷ 58 ∷ 50 ∷ []) ≡ some (half 1 2)
unfolding scan_initfs
initfs_half_run = refl

initfs_plain_run : scan_initfs (105 ∷ 110 ∷ 105 ∷ 116 ∷ 102 ∷ 115 ∷ []) ≡ some (no_number true)
unfolding scan_initfs
initfs_plain_run = refl

abbrev config : Config
config = record {
  dskfilename = some (100 ∷ []);
  fssize = 1000;
  fsoffset = 0;
  mountpoint = some (109 ∷ []);
  overwrite = false;
  readonly = false;
  foreground = false;
  debug = false;
  showversion = false;
  showhelp = false;
  initfs = false;
  isize = 0;
  iratio = 0;
  m = 3;
  n = 24;
}

-- Everything succeeds but the mount of the filesystem.
abbrev bad_filesystem : Answers
bad_filesystem = record {
  parsed = some config;
  created = pos 0;
  dsksize = pos 1000;
  initialized = pos 0;
  accessible = true;
  channel = true;
  fuse = true;
  opened = pos 0;
  mounted = neg 1;
  daemonized = true;
  signals = true;
  looped = true;
}

main-Clean_example : Clean (main (λ c. pos 0) (λ n. n) (λ n. n) bad_filesystem).calls idle
main-Clean_example = main-Clean (λ c. pos 0) (λ n. n) (λ n. n) bad_filesystem
