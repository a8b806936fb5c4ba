-- ===== src/V6fs/Kernel/Toy.antt =====
-- A small kernel with a single file, on which the interface of src/v6fs.c runs. The file has the
-- number 5 and is found under every name that starts with `f`, the directory 6 under one that starts
-- with `d`, and the root directory under one that starts with `/`.
use retro_fuse.Prelude.{
  Bool-cases, inl, inr, ◌≢◌, ℕ, ◌+◌, ◌*◌, ◌≡◌, refl, ap, sym, ◌||◌, true, false, Option, none, some,
  List, [], ◌∷◌, ◌++◌, arith, ◌==◌, if◌then◌else◌, length, take, drop,
}
use retro_fuse.Prelude.Int.{pos}
use retro_fuse.Errno.{enoent}
use retro_fuse.V6fs.Stat.{V6Stat}
use retro_fuse.V6fs.Kernel.{FilePath, Sys, M, Inode, OpenFile, Lookup, find, create, Kernel}
use retro_fuse.V6fs.Kernel.Counts.{Moved, refs_of, refs_made, CountsInodes}
use retro_fuse.V6fs.Files.Missing.{ErrorsStay}
use retro_fuse.Prelude.Slices.{branch, take_all}
use retro_fuse.V6fs.Dirs.Ancestors.{StopsOnError}
use retro_fuse.V6fs.Attributes.Stored.{Superuser}
use retro_fuse.V6fs.Transfer.Read.{ReadsFile}
use retro_fuse.V6fs.Transfer.Write.{WritesFile}

-- The references handed out and given back, the file's inode, and its bytes before and behind the offset.
pub record Toy : Type 0 where
  pub handed : ℕ
  pub given : ℕ
  pub file : Inode
  pub before : List ℕ
  pub behind : List ℕ

abbrev pub toy_inode : ℕ → Inode
toy_inode ip = record {
  number = ip;
  mode = if ip == 1 || ip == 6 then 0xC1ED else 0x81A4;
  uid = 3;
  gid = 1;
  nlink = 1;
  addr = 0;
  locked = false;
  accessed = false;
  updated = false;
}

abbrev skip : M Toy (Unit {0})
skip s = (tt, s)

abbrev hand_out : Sys Toy → Sys Toy
hand_out s = record s { core = record s.core { handed = s.core.handed + 1 } }

abbrev give_back : Sys Toy → Sys Toy
give_back s = record s { core = record s.core { given = s.core.given + 1 } }

-- What there is under a name.
abbrev pub toy_lookup : FilePath → Option ℕ
toy_lookup [] = none
toy_lookup (c ∷ name) =
    if c == 47 then some 1 else if c == 102 then some 5 else if c == 100 then some 6 else none

abbrev pub answer : Option ℕ → Lookup → M Toy (Option ℕ)
answer (some ip) l s = (some ip, hand_out s)
answer none find s = (none, record s { error = enoent })
answer none create s = (none, if s.error == 0 then hand_out s else s)

abbrev pub nothing : M Toy (Option ℕ)
nothing s = (none, s)

abbrev pub toy_namei : FilePath → Lookup → M Toy (Option ℕ)
toy_namei name l s = (if s.error == 0 then answer (toy_lookup name) l else nothing) s

abbrev toy_stat : ℕ → V6Stat
toy_stat ip = record {
  dev = 0;
  inumber = ip;
  mode = 0x81A4;
  nlinks = 1;
  uid = 3;
  gid = 1;
  size0 = 0;
  size1 = 100;
  addr = 0;
  actime = (0, 0);
  modtime = (0, 0);
}

-- The only open file, and its bytes around another offset.
abbrev pub toy_file : OpenFile
toy_file = record { is_pipe = false; size0 = 0; size1 = 100; offset = (0, 0) }

abbrev at_offset : ℕ × ℕ → Toy → Toy
at_offset w c = record c {
  before = take (w.0 * 65536 + w.1) (c.before ++ c.behind);
  behind = drop (w.0 * 65536 + w.1) (c.before ++ c.behind);
}

abbrev pub toy_kernel : Kernel
toy_kernel = record {
  Core = Toy;
  refreshclock = skip;
  namei = toy_namei;
  iget = λ n s. (some n, hand_out s);
  iput = λ ip s. (tt, give_back s);
  maknode = λ mode s. (some 5, hand_out (give_back s));
  open1 = λ ip r w o s. (0, give_back s);
  close = λ fd. skip;
  link = λ p q. skip;
  unlink = λ p. skip;
  chmod = λ p mode. skip;
  itrunc = λ ip. skip;
  stat1 = λ ip s. (toy_stat ip, s);
  iupdat = λ ip t. skip;
  access = λ ip p s. (false, s);
  suser = λ s. (true, s);
  update = skip;
  flush = λ s. (pos 0, s);
  rdwr_read = λ fd n s. (
    take n s.core.behind,
    record s {
      core = record s.core {
        before = s.core.before ++ take n s.core.behind;
        behind = drop n s.core.behind;
      };
    },
  );
  rdwr_write = λ fd bytes s. (
    length bytes,
    record s {
      core = record s.core {
        before = s.core.before ++ bytes;
        behind = drop (length bytes) s.core.behind;
      };
    },
  );
  getf = λ fd s. (some toy_file, s);
  set_offset = λ fd w s. (tt, record s { core = at_offset w s.core });
  allow_write = λ fd. skip;
  rootdir_number = 1;
  inode = λ c ip. if ip == 5 then c.file else toy_inode ip;
  set_inode = λ ip i c. record c { file = if ip == 5 then i else c.file };
}

find-Moved :
    (o : Option ℕ) (s : Sys Toy)
    → (let (r, t) = answer o find s in
        Moved (s.core.handed, s.core.given) (t.core.handed, t.core.given) (refs_of r) 0)
find-Moved (some ip) s = omega arith
find-Moved none s = omega arith

create-Moved :
    (o : Option ℕ) (s : Sys Toy)
    → (let (r, t) = answer o create s in
        Moved (s.core.handed, s.core.given) (t.core.handed, t.core.given) (refs_made r t.error) 0)
create-Moved (some ip) s = omega arith
create-Moved none s = elim (Bool-cases (s.error == 0)) [
  | inl e ↦ ground (arith, e)
  | inr e ↦ ground (arith, e)
]

pub namei-find_Moved :
    (p : FilePath) (s : Sys Toy)
    → (let (r, t) = toy_namei p find s in
        Moved (s.core.handed, s.core.given) (t.core.handed, t.core.given) (refs_of r) 0)
namei-find_Moved p s =
    branch
      (λ (q : Option ℕ × Sys Toy).
        Moved (s.core.handed, s.core.given) (q.1.core.handed, q.1.core.given) (refs_of q.0) 0)
      (answer (toy_lookup p) find) nothing (s.error == 0) s (λ e. find-Moved (toy_lookup p) s)
      (λ e. omega arith)

namei-create_Moved :
    (p : FilePath) (s : Sys Toy)
    → (let (r, t) = toy_namei p create s in
        Moved (s.core.handed, s.core.given) (t.core.handed, t.core.given) (refs_made r t.error) 0)
namei-create_Moved p s =
    branch
      (λ (q : Option ℕ × Sys Toy).
        Moved (s.core.handed, s.core.given) (q.1.core.handed, q.1.core.given)
          (refs_made q.0 q.1.error) 0)
      (answer (toy_lookup p) create) nothing (s.error == 0) s (λ e. create-Moved (toy_lookup p) s)
      (λ e. ground (arith, e))

pub toy_counts : CountsInodes toy_kernel
toy_counts = record {
  held = λ c. (c.handed, c.given);
  held_refreshclock = λ s. refl;
  held_find = namei-find_Moved;
  held_create = namei-create_Moved;
  held_iget = λ n s. omega arith;
  held_iput = λ ip s. omega arith;
  held_maknode = λ mode s. omega arith;
  held_open1 = λ ip r w o s. omega arith;
  held_close = λ fd s. refl;
  held_link = λ p q s. refl;
  held_unlink = λ p s. refl;
  held_chmod = λ p m s. refl;
  held_itrunc = λ ip s. refl;
  held_stat1 = λ ip s. refl;
  held_iupdat = λ ip t s. refl;
  held_access = λ ip p s. refl;
  held_suser = λ s. refl;
  held_update = λ s. refl;
  held_flush = λ s. refl;
  held_rdwr_read = λ fd n s. refl;
  held_rdwr_write = λ fd bs s. refl;
  held_getf = λ fd s. refl;
  held_set_offset = λ fd w s. refl;
  held_allow_write = λ fd s. refl;
  held_set_inode = λ ip i c. refl;
}

unfoldable pub toy_reads : ReadsFile toy_kernel
toy_reads = record {
  rest = λ c fd. c.behind;
  refreshclock_rest = λ s fd. refl;
  read_bytes = λ fd n s w h. refl;
  read_rest = λ fd n s w h. refl;
}

unfoldable pub toy_writes : WritesFile toy_kernel
toy_writes = record {
  done = λ c fd. c.before;
  refreshclock_done = λ s fd. refl;
  write_length = λ fd bytes s w. omega arith;
  write_done = λ fd bytes s w. ap (λ ys. s.core.before ++ ys) (sym (take_all bytes));
}

answer_error :
    (o : Option ℕ) (s : Sys Toy) → (answer o find s).0 ≡ none → (answer o find s).1.error ≢ 0
answer_error none s e = omega arith
answer_error (some ip) s e = absurd (ground (arith, e))

pub namei-find_error :
    (p : FilePath) (s : Sys Toy) → (toy_namei p find s).0 ≡ none → (toy_namei p find s).1.error ≢ 0
namei-find_error p s =
    branch (λ (q : Option ℕ × Sys Toy). q.0 ≡ none → q.1.error ≢ 0) (answer (toy_lookup p) find)
      nothing (s.error == 0) s (λ e. answer_error (toy_lookup p) s) (λ e n. ground (arith, e))

pub toy_errors : ErrorsStay toy_kernel
toy_errors = record {
  find_error = namei-find_error;
  maknode_error = λ mode s h. h;
  open1_error = λ ip r w o s h. h;
}

pub toy_stops : StopsOnError toy_kernel
toy_stops = record {
  stops = λ p l s h.
      branch (λ (q : Option ℕ × Sys Toy). (q.0 ≡ none) × (q.1.error ≡ enoent))
        (answer (toy_lookup p) l) nothing (s.error == 0) s (λ e. absurd (ground (arith, e, h)))
        (λ e. (refl, h));
}

abbrev pub toy_state : Sys Toy
toy_state = record {
  error = 0;
  uid = 3;
  gid = 1;
  ruid = 3;
  rgid = 1;
  time = (0, 0);
  core = record {
    handed = 0;
    given = 0;
    file = toy_inode 5;
    before = [];
    behind = 10 ∷ 20 ∷ 30 ∷ [];
  };
}

-- The name `g/h`, which is missing.
abbrev pub missing_name : FilePath
missing_name = 103 ∷ 47 ∷ 104 ∷ []

pub toy-Superuser : Superuser toy_kernel 5
toy-Superuser = record { suser_root = λ s e. refl; suser_uid = λ s. refl; inode_set = λ i c. refl }

-- A state of root, and the one in which the file has been looked up.
abbrev pub root_state : Sys Toy
root_state = record toy_state { uid = 0 }

abbrev pub root_found_file : Sys Toy
root_found_file = hand_out root_state
