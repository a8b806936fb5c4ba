-- ===== src/Bsd211fs/System/Root.antt =====
-- What `bsd211fs_initrootdir` of src/bsd211fs.c leaves on the disk, on a device whose blocks hold what was
-- written.
use mathlib.Core.Path.{subst}
use retro_fuse.Prelude.{
  ℕ, ◌+◌, ◌-◌, ◌%◌, [], ◌∷◌, replicate, ◌≡◌, refl, ◌≢◌, ◌∙◌, ap, sym, Bool, true, false, Option,
  none, some, List, ◌++◌, ◌==◌, if◌then◌else◌, not, arith, drop,
}
use retro_fuse.Prelude.Int.{ℤ, pos, neg, neg_part}
use retro_fuse.V6fs.Kernel.{Sys, M, ◌>>=◌, ◌>>◌, pure, clear_error, get_error, last_error}
use retro_fuse.Bsd211fs.Kernel.{Kernel, read_clock}
use retro_fuse.Bsd211fs.Listing.Blocks.{root_block, lost_found_block}
use retro_fuse.Bsd211fs.System.NewDirs.{
  entry, FirstInodes, first_inodes-FirstInodes, ListsAs, root_block-ListsAs,
  lost_found_block-ListsAs,
}
use retro_fuse.Bsd211fs.System.{
  Boot, Super, first_inodes, unless_error, read_super, write_super, fill_block, new_block,
  put_inodes, write_inodes, bsd211fs_initrootdir,
}

-- What the buffer cache shows of the blocks, and which blocks are in use: a write without an error puts
-- the bytes there, a block is allocated only where it was not in use, and where none is there is an
-- error; nothing else changes the blocks in use.
pub record Device (K : Kernel) (B : Boot K) (content : K.Core → ℕ → List ℕ)
    (used : K.Core → ℕ → Type 0) : Type 0 where
  pub bwrite_block :
      (b : ℕ) (bytes : List ℕ) (s : Sys K.Core)
      → (B.bwrite b bytes s).1.error ≡ 0
      → content (B.bwrite b bytes s).1.core b ≡ bytes
  pub bwrite_frame :
      (b c : ℕ) (bytes : List ℕ) (s : Sys K.Core)
      → c ≢ b
      → content (B.bwrite b bytes s).1.core c ≡ content s.core c
  pub bwrite_used :
      (b c : ℕ) (bytes : List ℕ) (s : Sys K.Core)
      → used s.core c
      → used (B.bwrite b bytes s).1.core c
  pub balloc_error : (s : Sys K.Core) → (B.balloc s).0 ≡ none → (B.balloc s).1.error ≢ 0
  pub balloc_fresh : (s : Sys K.Core) (b : ℕ) → (B.balloc s).0 ≡ some b → used s.core b → ⊥
  pub balloc_used : (s : Sys K.Core) (b : ℕ) → (B.balloc s).0 ≡ some b → used (B.balloc s).1.core b
  pub balloc_kept : (s : Sys K.Core) (c : ℕ) → used s.core c → used (B.balloc s).1.core c
  pub balloc_frame :
      (s : Sys K.Core) (c : ℕ) → used s.core c → content (B.balloc s).1.core c ≡ content s.core c
  pub bread_block :
      (b : ℕ) (s : Sys K.Core) → (B.bread b s).1.error ≡ 0 → (B.bread b s).0.1 ≡ content s.core b
  pub bread_frame : (b c : ℕ) (s : Sys K.Core) → content (B.bread b s).1.core c ≡ content s.core c
  pub super_frame :
      (fs : Super) (c : ℕ) (core : K.Core) → content (B.set_super fs core) c ≡ content core c

neg-zero : (n : ℕ) → neg n ≡ pos 0 → n ≡ 0
neg-zero n h = let same : neg_part (neg n) ≡ 0 = ap neg_part h in ground (arith, same)

by_error :
    {C : Type 0} (b : Bool) (next : M C ℤ) (s : Sys C)
    → (s.error == 0) ≡ b
    → ((if not b then last_error else next) s).0 ≡ pos 0
    → (s.error ≡ 0) × ((if not b then last_error else next) s ≡ next s)
unfolding last_error
by_error true next s e h = (ground (arith, e), refl)
by_error false next s e h = absurd (ground (arith, e, neg-zero s.error h))

passed :
    {C : Type 0} (next : M C ℤ) (s : Sys C)
    → (unless_error next s).0 ≡ pos 0
    → (s.error ≡ 0) × (unless_error next s ≡ next s)
unfolding unless_error ◌>>=◌ get_error
passed next s e = by_error (s.error == 0) next s refl e

refused : {C : Type 0} (s : Sys C) → s.error ≢ 0 → (last_error s).0 ≢ pos 0
unfolding last_error
refused s d h = d (neg-zero s.error h)

module _ (K : Kernel) (B : Boot K) (content : K.Core → ℕ → List ℕ) (used : K.Core → ℕ → Type 0)
    (D : Device K B content used) where
  -- A block that was not in use holds the bytes, and the blocks in use are as they were.
  record Placed (block : List ℕ) (b : ℕ) (s t : Sys K.Core) : Type 0 where
    fresh : used s.core b → ⊥
    taken : used t.core b
    holds : content t.core b ≡ block
    kept : (c : ℕ) → used s.core c → used t.core c
    frame : (c : ℕ) → used s.core c → content t.core c ≡ content s.core c

  placed_on :
      (block : List ℕ) (next : ℕ → M K.Core ℤ) (s : Sys K.Core) (o : Option ℕ)
      → (B.balloc s).0 ≡ o
      → (fill_block K B block next o (B.balloc s).1).0 ≡ pos 0
      → (b : ℕ) × (t : Sys K.Core) × Placed block b s t
        × (fill_block K B block next o (B.balloc s).1 ≡ next b t)
  unfolding fill_block ◌>>=◌ ◌>>◌
  placed_on block next s none e h = absurd (refused (B.balloc s).1 (D.balloc_error s e) h)
  placed_on block next s (some b) e h =
      let u = (B.balloc s).1 in
      let t = (B.bwrite b block u).1 in
      let (fine, goes) = passed (next b) t h in
      let other : (c : ℕ) → used s.core c → c ≢ b =
        λ c in_use same. D.balloc_fresh s b e (subst (used s.core) same in_use) in
      (
        b,
        t,
        record {
          fresh = D.balloc_fresh s b e;
          taken = D.bwrite_used b b block u (D.balloc_used s b e);
          holds = D.bwrite_block b block u fine;
          kept = λ c in_use. D.bwrite_used b c block u (D.balloc_kept s c in_use);
          frame =
              λ c in_use. D.bwrite_frame b c block u (other c in_use) ∙ D.balloc_frame s c in_use;
        },
        goes,
      )

  placed :
      (block : List ℕ) (next : ℕ → M K.Core ℤ) (s : Sys K.Core)
      → (new_block K B block next s).0 ≡ pos 0
      → (b : ℕ) × (t : Sys K.Core) × Placed block b s t × (new_block K B block next s ≡ next b t)
  unfolding new_block ◌>>=◌
  placed block next s h = placed_on block next s (B.balloc s).0 refl h

  -- The first block of the table holds the inodes, and the other blocks are as they were.
  Inodes : (inodes bytes : List ℕ) (s t : Sys K.Core) → Type 0
  Inodes inodes bytes s t =
      (content t.core 2 ≡ inodes ++ drop 192 bytes)
      × ((c : ℕ) → c ≢ 2 → content t.core c ≡ content s.core c)

  put_inodes-Inodes :
      (inodes bytes : List ℕ) (s : Sys K.Core)
      → (put_inodes K B inodes bytes s).0 ≡ pos 0
      → Inodes inodes bytes s (put_inodes K B inodes bytes s).1
  unfolding Inodes put_inodes read_super write_super ◌>>=◌ ◌>>◌ pure
  put_inodes-Inodes inodes bytes s h =
      let fs = B.get_super s.core in
      let fs' = record fs { fs_tinode = (fs.fs_tinode + 65536 - 3) % 65536 } in
      let u : Sys K.Core = record s { core = B.set_super fs' s.core } in
      let t = (B.bwrite 2 (inodes ++ drop 192 bytes) u).1 in
      let (fine, goes) = passed (λ s. (pos 0, s)) t h in
      (
        ap (λ r. content r.1.core 2) goes ∙ D.bwrite_block 2 (inodes ++ drop 192 bytes) u fine,
        λ c other.
            ap (λ r. content r.1.core c) goes
            ∙ D.bwrite_frame 2 c (inodes ++ drop 192 bytes) u other
            ∙ D.super_frame fs' c s.core,
      )

  write_inodes-Inodes :
      (inodes : List ℕ) (s : Sys K.Core)
      → (write_inodes K B inodes s).0 ≡ pos 0
      → Inodes inodes (content s.core 2) s (write_inodes K B inodes s).1
  unfolding Inodes write_inodes ◌>>=◌
  write_inodes-Inodes inodes s h =
      let bytes = (B.bread 2 s).0.1 in
      let (fine, goes) = passed (put_inodes K B inodes bytes) (B.bread 2 s).1 h in
      let (here, others) =
        put_inodes-Inodes inodes bytes (B.bread 2 s).1 (sym (ap (λ r. r.0) goes) ∙ h) in
      (
        ap (λ r. content r.1.core 2) goes
            ∙ here
            ∙ ap (λ b. inodes ++ drop 192 b) (D.bread_block 2 s fine),
        λ c other. ap (λ r. content r.1.core c) goes ∙ others c other ∙ D.bread_frame 2 c s,
      )

  -- The blocks in terms of the lists of bytes that the code writes.
  abbrev LaidOut : (s t : Sys K.Core) → Type 0
  LaidOut s t =
      (lf root time lftime : ℕ) × ((used s.core lf → ⊥)
        × (used s.core root → ⊥)
        × (lf ≢ root)
        × (content t.core lf ≡ lost_found_block)
        × (content t.core root ≡ root_block)
        × (content t.core 2 ≡ first_inodes root lf time lftime ++ drop 192 (content s.core 2))
        × ((c : ℕ) → used s.core c → c ≢ 2 → content t.core c ≡ content s.core c))

  initrootdir-LaidOut :
      (s : Sys K.Core)
      → used s.core 2
      → (bsd211fs_initrootdir K B s).0 ≡ pos 0
      → LaidOut s (bsd211fs_initrootdir K B s).1
  unfolding bsd211fs_initrootdir Inodes read_clock clear_error ◌>>=◌ ◌>>◌
  initrootdir-LaidOut s there h =
      let lftime = K.clock s.core in
      let s0 : Sys K.Core = record s { error = 0 } in
      let (lf, t, first, goes) = placed lost_found_block _ s0 h in
      let (root, u, second, goes') = placed root_block _ t (sym (ap (λ r. r.0) goes) ∙ h) in
      let inodes = first_inodes root lf (K.clock t.core) lftime in
      let all = goes ∙ goes' in
      let (table, others) = write_inodes-Inodes inodes u (sym (ap (λ r. r.0) all) ∙ h) in
      let same = λ (c : ℕ). ap (λ r. content r.1.core c) all in
      (
        lf,
        root,
        K.clock t.core,
        lftime,
        (
          first.fresh,
          λ taken. second.fresh (first.kept root taken),
          λ e. second.fresh (subst (used t.core) e first.taken),
          same lf
              ∙ others lf (λ e. first.fresh (subst (used s.core) (sym e) there))
              ∙ second.frame lf first.taken
              ∙ first.holds,
          same root
              ∙ others root (λ e. second.fresh (subst (used t.core) (sym e) (first.kept 2 there)))
              ∙ second.holds,
          same 2
              ∙ table
              ∙ ap (λ b. inodes ++ drop 192 b)
                  (second.frame 2 (first.kept 2 there) ∙ first.frame 2 there),
          λ c in_use other.
              same c ∙ others c other ∙ second.frame c (first.kept c in_use) ∙ first.frame c in_use,
        ),
      )

  -- What is made of a disk: two blocks that were free hold the root directory and lost+found, the inodes
  -- stand in the table, and no other block that was in use has changed.
  pub record Made (s t : Sys K.Core) : Type 0 where
    pub lf : ℕ
    pub root : ℕ
    pub time : ℕ
    pub lftime : ℕ
    pub lf_free : used s.core lf → ⊥
    pub root_free : used s.core root → ⊥
    pub distinct : lf ≢ root
    pub root_listed :
        ListsAs K.Core
          (entry 2 (46 ∷ [])
            ∷ entry 2 (46 ∷ 46 ∷ [])
            ∷ entry 3 (108 ∷ 111 ∷ 115 ∷ 116 ∷ 43 ∷ 102 ∷ 111 ∷ 117 ∷ 110 ∷ 100 ∷ [])
            ∷ [])
          (content t.core root)
    pub root_rest : drop 512 (content t.core root) ≡ replicate 512 0
    pub lf_listed :
        ListsAs K.Core (entry 3 (46 ∷ []) ∷ entry 2 (46 ∷ 46 ∷ []) ∷ []) (content t.core lf)
    pub lf_rest : drop 512 (content t.core lf) ≡ 0 ∷ 0 ∷ 0 ∷ 2 ∷ replicate 508 0
    pub inodes : FirstInodes root lf time lftime (content s.core 2) (content t.core 2)
    pub frame : (c : ℕ) → used s.core c → c ≢ 2 → content t.core c ≡ content s.core c

  -- Where a root directory is reported to be there, on a disk on which the first block of the inode table is
  -- in use, two further blocks that were free hold the root directory and lost+found. The loop of
  -- `bsd211fs_enumdir` over the first half of the root's block shows just ".", ".." and "lost+found", with
  -- the numbers 2, 2 and 3, and over that of the other "." and "..", with 3 and 2; the second half of the
  -- root's block is zeros, and that of the other one record of 512 bytes that is not in use. The first
  -- three inodes of the table are a reserved file and the two directories, with the modes, links, sizes,
  -- times and the numbers of those blocks in their fields, and nothing else in the blocks in use has
  -- changed.
  pub initrootdir-Made :
      (s : Sys K.Core)
      → used s.core 2
      → (bsd211fs_initrootdir K B s).0 ≡ pos 0
      → Made s (bsd211fs_initrootdir K B s).1
  initrootdir-Made s there h =
      let (
        lf,
        root,
        time,
        lftime,
        (lf_free, root_free, distinct, lf_bytes, root_bytes, table, same),
      ) =
        initrootdir-LaidOut s there h in
      record {
        lf = lf;
        root = root;
        time = time;
        lftime = lftime;
        lf_free = lf_free;
        root_free = root_free;
        distinct = distinct;
        root_listed = subst (ListsAs K.Core _) (sym root_bytes) (root_block-ListsAs K.Core);
        root_rest = ap (drop 512) root_bytes;
        lf_listed = subst (ListsAs K.Core _) (sym lf_bytes) (lost_found_block-ListsAs K.Core);
        lf_rest = ap (drop 512) lf_bytes;
        inodes =
            subst (FirstInodes root lf time lftime (content s.core 2)) (sym table)
              (first_inodes-FirstInodes root lf time lftime (content s.core 2));
        frame = same;
      }
