-- ===== src/V6fs/Kernel/ReadOnly.antt =====
-- The small kernel of V6fs.Kernel.Toy where nobody may write to a directory: the lookup of a missing name
-- to create it leaves an error.
use retro_fuse.Prelude.{ℕ, ◌≡◌, ◌≢◌, refl, Option, none, some, arith, ◌==◌}
use retro_fuse.Prelude.Slices.{branch}
use retro_fuse.V6fs.Kernel.{FilePath, Sys, find, Kernel}
use retro_fuse.V6fs.Kernel.Counts.{Moved, refs_of, refs_made, CountsInodes}
use retro_fuse.V6fs.Kernel.Toy.{
  Toy, toy_kernel, toy_namei, toy_lookup, answer, nothing, namei-find_Moved, namei-find_error,
}
use retro_fuse.V6fs.Rename.Walk.{FindsNames}

abbrev pub ro_kernel : Kernel
ro_kernel = record toy_kernel { namei = λ p l. toy_namei p find }

refs_same : (o : Option ℕ) (e : ℕ) → (o ≡ none → e ≢ 0) → refs_of o ≡ refs_made o e
refs_same none e h = ground (arith, h refl)
refs_same (some ip) e h = refl

create_Moved :
    (p : FilePath) (s : Sys Toy)
    → (let (r, t) = toy_namei p find s in
        Moved (s.core.handed, s.core.given) (t.core.handed, t.core.given) (refs_made r t.error) 0)
create_Moved p s =
    let (r, t) = toy_namei p find s in
    omega (arith, namei-find_Moved p s, refs_same r t.error (namei-find_error p s))

pub ro_counts : CountsInodes ro_kernel
ro_counts = record {
  held = λ c. (c.handed, c.given);
  held_refreshclock = λ s. refl;
  held_find = namei-find_Moved;
  held_create = create_Moved;
  held_iget = λ n s. omega arith;
  held_iput = λ ip s. omega arith;
  held_maknode = λ mode s. omega arith;
  held_open1 = λ ip r w o s. omega arith;
  held_close = λ fd s. refl;
  held_link = λ p q s. refl;
  held_unlink = λ p s. refl;
  held_chmod = λ p m s. refl;
  held_itrunc = λ ip s. refl;
  held_stat1 = λ ip s. refl;
  held_iupdat = λ ip t s. refl;
  held_access = λ ip p s. refl;
  held_suser = λ s. refl;
  held_update = λ s. refl;
  held_flush = λ s. refl;
  held_rdwr_read = λ fd n s. refl;
  held_rdwr_write = λ fd bs s. refl;
  held_getf = λ fd s. refl;
  held_set_offset = λ fd w s. refl;
  held_allow_write = λ fd s. refl;
  held_set_inode = λ ip i c. refl;
}

create_stops :
    (p : FilePath) (s : Sys Toy)
    → s.error ≢ 0
    → ((toy_namei p find s).0 ≡ none) × ((toy_namei p find s).1.error ≢ 0)
create_stops p s h =
    branch (λ (q : Option ℕ × Sys Toy). (q.0 ≡ none) × (q.1.error ≢ 0)) (answer (toy_lookup p) find)
      nothing (s.error == 0) s (λ e. absurd (ground (arith, e, h))) (λ e. (refl, h))

pub ro_names : FindsNames ro_kernel
ro_names = record {
  is_there = λ c q. Unit {0};
  there_found = λ q ip s e. tt;
  there_parent = λ q c h. tt;
  there_create = λ p s h. namei-find_error p s;
  kept_create = λ p q s h. tt;
  kept_iput = λ ip q s h. tt;
  find_error = namei-find_error;
  create_stops = create_stops;
}
