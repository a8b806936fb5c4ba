-- ===== src/Fuse/Requests/Tests.antt =====
-- A request of src/bsd29fuse.c on a kernel with one file.
use retro_fuse.Prelude.{refl, true, none, some, List, [], ◌∷◌, arith, replicate}
use retro_fuse.IdMap.{Entry, IdMap}
use retro_fuse.IdMap.Holds.{Holds}
use retro_fuse.V6fs.Kernel.{M}
use retro_fuse.V6fs.Kernel.Toy.{Toy, toy_kernel, toy_state}
use retro_fuse.V7fs.Attributes.{V7Stat, HostStat}
use retro_fuse.V7fs.System.{Boot}
use retro_fuse.V6fs.Files.{OpenFlags}
use retro_fuse.Fuse.Requests.{Calls}
use retro_fuse.Fuse.Requests.Ids.{Requests, request-Caller}
use retro_fuse.Fuse.Requests.Instances.{More, bsd29_calls, bsd29_calls-SetsIds}

abbrev skip : M Toy (Unit {0})
skip s = (tt, s)

abbrev boot : Boot toy_kernel
boot = record {
  clock = λ c. 0;
  clear_tables = λ c. c;
  binit = skip;
  iinit = skip;
  get_super = λ c. record {
    s_isize = 3;
    s_fsize = 5;
    s_nfree = 0;
    s_free = [];
    s_n = 10;
    s_m = 5;
    s_time = 0;
    s_fmod = true;
    s_ronly = true;
  };
  set_super = λ fs c. c;
  set_rootdir = λ ip. skip;
  set_cdir = λ ip. skip;
  free = λ b. skip;
  alloc = λ s. (none, s);
  bwrite = λ b bytes s. (true, s);
}

abbrev file_stat : V7Stat
file_stat = record {
  dev = 0;
  ino = 5;
  mode = 0x81A4;
  nlink = 1;
  uid = 3;
  gid = 1;
  rdev = 0;
  size = 0;
  atime = 0;
  mtime = 0;
  ctime = 0;
}

abbrev more : More toy_kernel
more = record {
  stat1 = λ ip s. (file_stat, s);
  getf = λ fd s. (none, s);
  set_offset = λ fd n. skip;
  clock = λ c. 0;
  iupdat = λ ip a m. skip;
  iupdat_now = λ ip. skip;
  set_changed = λ ip. skip;
}

abbrev staff : List Entry
staff = record { hostid = 1000; fsid = 300 } ∷ []

abbrev ids : IdMap
ids = record {
  entries = some (some (record { hostid = 1000; fsid = 300 }) ∷ replicate 127 none);
  entrycount = 1;
  maxfsid = 32767;
  defaulthostid = 65534;
  defaultfsid = 32767;
}

ids-Holds : Holds ids staff
ids-Holds = record { count = refl; block = ((refl, tt), refl, omega arith) }

abbrev calls : Calls Toy HostStat OpenFlags
calls = bsd29_calls toy_kernel boot more true ids ids 9

-- The process of user 1000, which is 300 in the filesystem, and of group 100.
request-Caller_example : Requests calls (record { uid = 1000; gid = 100 }) 300 100 toy_state
request-Caller_example =
    request-Caller calls ids ids (bsd29_calls-SetsIds toy_kernel boot more true ids ids 9) staff
      staff ids-Holds ids-Holds (record { uid = 1000; gid = 100 }) 300 100 toy_state (omega arith)
      (omega arith) refl refl (omega arith) (omega arith)
