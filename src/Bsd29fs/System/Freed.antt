-- ===== src/Bsd29fs/System/Freed.antt =====
-- The blocks that `bsd29fs_mkfs` of src/bsd29fs.c hands to the kernel's `free`, one call after the other.
use mathlib.Core.List.{append-nil, append_assoc}
use retro_fuse.Prelude.{
  ℕ, zero, suc, ◌+◌, ◌≡◌, refl, ap, sym, ◌∙◌, Bool, true, false, Option, none, some, List, [], ◌∷◌,
  ◌++◌, not, ◌==◌, if◌then◌else◌,
}
use retro_fuse.V6fs.Kernel.{
  Sys, M, ◌>>=◌, ◌>>◌, pure, Kernel, clear_error, get_error, last_error, get_uid,
}
use retro_fuse.V7fs.System.{Boot, Super, write_super, time_now, get_gid, free_all, v7_zerocore}
use retro_fuse.Bsd29fs.System.{
  Params, bsd29fs_initfreelist, bsd29_zerocore, more_blocks, lost_found_blocks, lost_found_block,
  root_block, first_inodes, write_table, fill_root, make_root, make_directories, make_filesystem,
}

-- A record of the kernel's calls of `free`, the first one first: `free` adds its block at the end, and
-- nothing else that the code calls frees a block.
pub record LogsFrees (K : Kernel) (B : Boot K) (add_inodes : ℕ → M K.Core (Unit {0})) : Type 0 where
  pub log : K.Core → List ℕ
  pub log_free : (b : ℕ) (s : Sys K.Core) → log (B.free b s).1.core ≡ log s.core ++ (b ∷ [])
  pub log_refreshclock : (s : Sys K.Core) → log (K.refreshclock s).1.core ≡ log s.core
  pub log_clear_tables : (c : K.Core) → log (B.clear_tables c) ≡ log c
  pub log_binit : (s : Sys K.Core) → log (B.binit s).1.core ≡ log s.core
  pub log_set_super : (fs : Super) (c : K.Core) → log (B.set_super fs c) ≡ log c
  pub log_alloc : (s : Sys K.Core) → log (B.alloc s).1.core ≡ log s.core
  pub log_bwrite :
      (b : ℕ) (bytes : List ℕ) (s : Sys K.Core) → log (B.bwrite b bytes s).1.core ≡ log s.core
  pub log_add_inodes : (n : ℕ) (s : Sys K.Core) → log (add_inodes n s).1.core ≡ log s.core
  pub log_update : (s : Sys K.Core) → log (K.update s).1.core ≡ log s.core

module _ (K : Kernel) (B : Boot K) (add_inodes : ℕ → M K.Core (Unit {0}))
    (L : LogsFrees K B add_inodes) where
  -- A part of the code that frees no block.
  record Quiet {A : Type 0} (m : M K.Core A) : Type 0 where
    quiet : (s : Sys K.Core) → L.log (m s).1.core ≡ L.log s.core

  pure-Quiet : {A : Type 0} (a : A) → Quiet (pure a)
  unfolding pure
  pure-Quiet a = record { quiet = λ s. refl }

  bind :
      {A C : Type 0} {m : M K.Core A} {f : A → M K.Core C}
      → Quiet m
      → ((a : A) → Quiet (f a))
      → Quiet (m >>= f)
  unfolding ◌>>=◌
  bind {m = m} q r = record { quiet = λ s. (r (m s).0).quiet (m s).1 ∙ q.quiet s }

  next :
      {C : Type 0} {m : M K.Core (Unit {0})} {k : M K.Core C} → Quiet m → Quiet k → Quiet (m >> k)
  unfolding ◌>>◌
  next q r = bind q λ _. r

  choose :
      {A : Type 0} (b : Bool) {m k : M K.Core A} → Quiet m → Quiet k → Quiet (if b then m else k)
  choose true q r = q
  choose false q r = r

  where_some :
      {A C : Type 0} (o : Option A) {m : M K.Core C} {f : A → M K.Core C}
      → Quiet m
      → ((a : A) → Quiet (f a))
      → Quiet (elim o as (λ _. M K.Core C) [ none ↦ m | some a ↦ f a ])
  where_some none q r = q
  where_some (some a) q r = r a

  bwrite-Quiet : (b : ℕ) (bytes : List ℕ) → Quiet (B.bwrite b bytes)
  bwrite-Quiet b bytes = record { quiet = L.log_bwrite b bytes }

  alloc-Quiet : Quiet B.alloc
  alloc-Quiet = record { quiet = L.log_alloc }

  zerocore-Quiet : Quiet (bsd29_zerocore K B)
  unfolding bsd29_zerocore v7_zerocore
  zerocore-Quiet = record { quiet = λ s. L.log_clear_tables s.core }

  reads-Quiet : {A : Type 0} (f : Sys K.Core → A) → Quiet (λ s. (f s, s))
  reads-Quiet f = record { quiet = λ s. refl }

  more_blocks-Quiet :
      (rest : M K.Core (Option (List ℕ))) (i : ℕ) (o : Option ℕ)
      → Quiet rest
      → Quiet (more_blocks K B rest i o)
  unfolding more_blocks
  more_blocks-Quiet rest i none q = pure-Quiet none
  more_blocks-Quiet rest i (some bn) q = bind (bwrite-Quiet bn (lost_found_block i)) λ failed.
      choose failed (pure-Quiet none)
        (bind q λ o. where_some o (pure-Quiet none) (λ bs. pure-Quiet (some (bn ∷ bs))))

  lost_found_blocks-Quiet : (left i : ℕ) → Quiet (lost_found_blocks K B left i)
  unfolding lost_found_blocks
  lost_found_blocks-Quiet zero i = pure-Quiet (some [])
  lost_found_blocks-Quiet (suc k) i =
      bind alloc-Quiet λ o. more_blocks-Quiet _ i o (lost_found_blocks-Quiet k (i + 1))

  write_table-Quiet :
      (left iblk : ℕ) (first : List ℕ) → Quiet (write_table K B add_inodes left iblk first)
  unfolding write_table
  write_table-Quiet zero iblk first = pure-Quiet false
  write_table-Quiet (suc k) iblk first =
      next (record { quiet = L.log_add_inodes _ })
        (bind (bwrite-Quiet _ _)
          λ failed. choose failed (pure-Quiet true) (write_table-Quiet k (iblk + 1) first))

  fill_root-Quiet :
      (isize : ℕ) (lfblks : List ℕ) (rootblk : ℕ)
      → Quiet (fill_root K B add_inodes isize lfblks rootblk)
  unfolding fill_root get_uid get_gid time_now
  fill_root-Quiet isize lfblks rootblk = bind (bwrite-Quiet rootblk root_block) λ failed.
      choose failed (pure-Quiet tt) (
        bind (reads-Quiet (λ s. s.uid)) λ uid. bind (reads-Quiet (λ s. s.gid)) λ gid.
          bind (reads-Quiet (λ s. B.clock s.core)) λ time.
            bind (write_table-Quiet isize 0 (first_inodes uid gid rootblk lfblks time))
              λ failed. choose failed (pure-Quiet tt) (record { quiet = L.log_update }))

  make_directories-Quiet : (isize : ℕ) → Quiet (make_directories K B add_inodes isize)
  unfolding make_directories make_root get_error
  make_directories-Quiet isize = bind (reads-Quiet (λ s. s.error)) λ e.
      choose (not (e == 0)) (pure-Quiet tt) (
        bind (lost_found_blocks-Quiet 5 0) λ o. where_some o (pure-Quiet tt) (λ lfblks.
          bind alloc-Quiet λ r. where_some r (pure-Quiet tt) (fill_root-Quiet isize lfblks)))

  free_all-log :
      (bs : List ℕ) (s : Sys K.Core) → L.log (free_all K B bs s).1.core ≡ L.log s.core ++ bs
  unfolding free_all ◌>>◌ ◌>>=◌ pure
  free_all-log [] s = sym (append-nil (L.log s.core))
  free_all-log (b ∷ bs) s =
      free_all-log bs (B.free b s).1
      ∙ ap (λ xs. xs ++ bs) (L.log_free b s)
      ∙ append_assoc (L.log s.core) (b ∷ []) bs

  -- The blocks of the initial free list are freed, in its order, and no others.
  pub make_filesystem-log :
      (fssize : ℕ) (p : Params) (order : List ℕ) (s : Sys K.Core)
      → bsd29fs_initfreelist fssize (p.isize + 2) p.fn p.fm ≡ some order
      → L.log (make_filesystem K B add_inodes fssize p s).1.core ≡ L.log s.core ++ order
  unfolding make_filesystem ◌>>=◌ ◌>>◌ pure last_error write_super clear_error time_now
  make_filesystem-log fssize p order s e =
      let t = (K.refreshclock s).1 in
      let u = (bsd29_zerocore K B t).1 in
      let v = (B.binit u).1 in
      rw (e, make_filesystem)
        (zerocore-Quiet.quiet _
          ∙ (make_directories-Quiet p.isize).quiet _
          ∙ free_all-log order _
          ∙ ap (λ xs. xs ++ order)
              (L.log_set_super _ v.core
                ∙ L.log_binit u
                ∙ zerocore-Quiet.quiet t
                ∙ L.log_refreshclock s))
