-- ===== src/V6fs/Rename/Walk.antt =====
-- The walk over the directories above the new name of `v6fs_rename` of src/v6fs.c: it gives back each inode
-- that it looked up.
use retro_fuse.Prelude.{
  ℕ, zero, suc, ◌≡◌, refl, ap, sym, ◌∙◌, ◌≢◌, ◌⊎◌, inl, inr, Bool, true, false, not, ◌&&◌, Option,
  none, some, arith, ◌==◌, if◌then◌else◌,
}
use retro_fuse.Prelude.Int.{ℤ, pos}
use retro_fuse.Prelude.Slices.{branch}
use retro_fuse.Errno.{enoent}
use retro_fuse.V6fs.Kernel.{
  FilePath, Sys, M, ◌>>=◌, ◌>>◌, pure, find, create, found, get_error, last_error, read_inode,
  Kernel,
}
use retro_fuse.V6fs.Kernel.Counts.{CountsInodes, Moved, refs_made}
use retro_fuse.V6fs.Dirs.{dirname, is_zero, is_char, is_ancestor, isindir_loop}

-- What the kernel's lookups have to do with each other. A name that was found is there, and so is its
-- directory; giving an inode back and a lookup to create remove no name. A lookup to create finds a name
-- that is there, or leaves an error. A lookup that finds nothing leaves an error, and one that starts with
-- an error finds nothing and leaves one.
pub record FindsNames (K : Kernel) : Type 1 where
  pub is_there : K.Core → FilePath → Type 0
  pub there_found :
      (q : FilePath) (ip : ℕ) (s : Sys K.Core)
      → (K.namei q find s).0 ≡ some ip
      → is_there (K.namei q find s).1.core q
  pub there_parent : (q : FilePath) (c : K.Core) → is_there c q → is_there c (dirname q)
  pub there_create :
      (p : FilePath) (s : Sys K.Core)
      → is_there s.core p
      → (K.namei p create s).0 ≡ none
      → (K.namei p create s).1.error ≢ 0
  pub kept_create :
      (p q : FilePath) (s : Sys K.Core) → is_there s.core q → is_there (K.namei p create s).1.core q
  pub kept_iput :
      (ip : ℕ) (q : FilePath) (s : Sys K.Core) → is_there s.core q → is_there (K.iput ip s).1.core q
  pub find_error :
      (p : FilePath) (s : Sys K.Core) → (K.namei p find s).0 ≡ none → (K.namei p find s).1.error ≢ 0
  pub create_stops :
      (p : FilePath) (s : Sys K.Core)
      → s.error ≢ 0
      → ((K.namei p create s).0 ≡ none) × ((K.namei p create s).1.error ≢ 0)

module _ (K : Kernel) (L : CountsInodes K) (N : FindsNames K) where
  -- The name is there, or an error is left from its lookup.
  abbrev pub Known : FilePath → Sys K.Core → Type 0
  Known q s = (s.error ≢ 0) ⊎ N.is_there s.core q

  pub Known-parent : (q : FilePath) (s : Sys K.Core) → Known q s → Known (dirname q) s
  Known-parent q s (inl e) = inl e
  Known-parent q s (inr there) = inr (N.there_parent q s.core there)

  -- A part of the code that gives back what it takes, and behind which the name is as known as before.
  record Walked (q : FilePath) (s t : Sys K.Core) : Type 0 where
    moved : Moved (L.held s.core) (L.held t.core) 0 0
    known : Known q t

  missing : M K.Core ℤ
  unfolding ◌>>=◌ get_error pure
  missing = do e ← get_error; if not (e == enoent) then last_error else pure (pos 0)

  missing_state : (t : Sys K.Core) → (missing t).1 ≡ t
  unfolding missing ◌>>=◌ get_error last_error pure
  missing_state t =
      branch (λ (q : ℤ × Sys K.Core). q.1 ≡ t) last_error (pure (pos 0)) (not (t.error == enoent)) t
        (λ _. refl) (λ _. refl)

  present : (dirnum ip : ℕ) → M K.Core ℤ
  unfolding ◌>>=◌ ◌>>◌ read_inode pure
  present dirnum ip = do
    i ← read_inode K ip
    K.iput ip
    pure (if i.number == dirnum then pos 1 else pos 0)

  is_ancestor-Walked :
      (p : FilePath) (dirnum : ℕ) (s : Sys K.Core)
      → Known p s
      → Walked p s (is_ancestor K p dirnum s).1
  unfolding is_ancestor ◌>>=◌ ◌>>◌ found missing present read_inode get_error pure
  is_ancestor-Walked p dirnum s k =
      behind (K.namei p create s) (L.held_create p s) (error_left k) (kept k)
    where
      error_left : Known p s → (K.namei p create s).0 ≡ none → (K.namei p create s).1.error ≢ 0
      error_left (inl e) _ = (N.create_stops p s e).1
      error_left (inr there) n = N.there_create p s there n

      kept :
          Known p s
          → (ip : ℕ) → (K.namei p create s).0 ≡ some ip
          → N.is_there (K.namei p create s).1.core p
      kept (inl e) ip f =
          absurd (let z : none ≡ some ip = sym (N.create_stops p s e).0 ∙ f in ground (arith, z))
      kept (inr there) ip _ = N.kept_create p p s there

      behind :
          (r : Option ℕ × Sys K.Core)
          → Moved (L.held s.core) (L.held r.1.core) (refs_made r.0 r.1.error) 0
          → (r.0 ≡ none → r.1.error ≢ 0)
          → ((ip : ℕ) → r.0 ≡ some ip → N.is_there r.1.core p)
          → Walked p s (found r.0 missing (present dirnum) r.1).1
      behind (none, t) m e f = record {
        moved = ground (arith, m, e refl, ap (λ (t : Sys K.Core). L.held t.core) (missing_state t));
        known = inl (λ z. e refl (ap (λ (t : Sys K.Core). t.error) (sym (missing_state t)) ∙ z));
      }
      behind (some ip, t) m e f = record {
        moved = omega (arith, m, L.held_iput ip t);
        known = inr (N.kept_iput ip p t (f ip refl));
      }

  pub isindir_loop-Moved :
      (fuel : ℕ) (p : FilePath) (dirnum : ℕ) (s : Sys K.Core)
      → Known (dirname p) s
      → Moved (L.held s.core) (L.held (isindir_loop K fuel p dirnum s).1.core) 0 0
  unfolding isindir_loop ◌>>=◌ pure
  isindir_loop-Moved zero p dirnum s k = omega arith
  isindir_loop-Moved (suc n) p dirnum s k =
      let r = is_ancestor K (dirname p) dirnum s in
      let w = is_ancestor-Walked (dirname p) dirnum s k in
      branch (λ (q : Option ℤ × Sys K.Core). Moved (L.held s.core) (L.held q.1.core) 0 0)
        (isindir_loop K n (dirname p) dirnum) (pure (some r.0))
        (is_zero r.0 && not (is_char 47 (dirname p)) && not (is_char 46 (dirname p))) r.1
        (λ _. omega (
          arith,
          w.moved,
          isindir_loop-Moved n (dirname p) dirnum r.1 (Known-parent (dirname p) r.1 w.known),
        ))
        (λ _. omega (arith, w.moved))

  -- From a state where the name is known, with `before` references.
  abbrev pub From : FilePath → (before : ℕ) → M K.Core (Option ℤ) → Type 0
  From q before m =
      (s : Sys K.Core) → Known q s → Moved (L.held s.core) (L.held (m s).1.core) 0 before

  -- From a state where the name is there.
  pub record FromThere (q : FilePath) (before : ℕ) (m : M K.Core (Option ℤ)) : Type 0 where
    pub run :
        (s : Sys K.Core)
        → N.is_there s.core q
        → Moved (L.held s.core) (L.held (m s).1.core) 0 before

  pub choose_there :
      {q : FilePath} {n : ℕ} {x y : M K.Core (Option ℤ)} (b : Bool)
      → FromThere q n x
      → FromThere q n y
      → FromThere q n (if b then x else y)
  choose_there true h k = h
  choose_there false h k = k

  pub iput_there :
      (q : FilePath) (n : ℕ) (m : M K.Core (Option ℤ)) (ip : ℕ)
      → From q n m
      → FromThere q (suc n) (K.iput ip >> m)
  unfolding ◌>>◌ ◌>>=◌
  iput_there q n m ip k = record {
    run = λ s there.
        omega (arith, L.held_iput ip s, k (K.iput ip s).1 (inr (N.kept_iput ip q s there)));
  }
