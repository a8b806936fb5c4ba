-- ===== src/V6fs/Dirs/Ancestors.antt =====
-- The loop of `v6fs_isindir` of src/v6fs.c.
use retro_fuse.Prelude.{
  ℕ, zero, suc, ◌+◌, ◌≤◌, ◌<◌, ◌≡◌, refl, ap, false, not, ◌&&◌, Option, none, some, [], ◌∷◌, arith,
  ◌==◌, if◌then◌else◌, length,
}
use retro_fuse.Prelude.Int.{ℤ, pos}
use retro_fuse.Prelude.Slices.{branch}
use retro_fuse.Errno.{enoent}
use retro_fuse.V6fs.Kernel.{
  FilePath, Sys, ◌>>=◌, ◌>>◌, pure, Lookup, create, Kernel, get_error, last_error, found,
  read_inode,
}
use retro_fuse.V6fs.Dirs.{
  dot, slash, is_char, reverse_onto, skip_slashes, skip_component, parent_of, dirname, is_zero,
  is_ancestor, isindir_loop, v6fs_isindir,
}

length-reverse_onto : (sofar p : FilePath) → length (reverse_onto sofar p) ≡ length sofar + length p
unfolding reverse_onto
length-reverse_onto sofar [] = omega arith
length-reverse_onto sofar (c ∷ p) = omega (arith, length-reverse_onto (c ∷ sofar) p)

skip_slashes-le : (p : FilePath) → length (skip_slashes p) ≤ length p
unfolding skip_slashes
skip_slashes-le [] = omega arith
skip_slashes-le (c ∷ p) = ground (arith, skip_slashes-le p)

-- What is left of a path in front of its last component.
left_of_component :
    (c : ℕ) (p : FilePath) → length (skip_slashes (skip_component (c ∷ p))) ≤ length p
unfolding skip_slashes skip_component
left_of_component c [] = ground arith
left_of_component c (d ∷ p) =
    ground (arith, left_of_component d p, skip_slashes-le p, skip_slashes-le (d ∷ p))

-- Neither `/` nor `.`.
abbrev Goes : FilePath → Type 0
Goes p = (is_char 47 p ≡ false) × (is_char 46 p ≡ false)

not_slash : ¬ Goes slash
unfolding is_char
not_slash (h, k) = ground (arith, h)

not_dot : ¬ Goes dot
unfolding is_char
not_dot (h, k) = ground (arith, k)

parent_of-le :
    (r : FilePath) (n : ℕ)
    → length (skip_slashes r) ≤ n
    → Goes (parent_of r)
    → length (parent_of r) ≤ n
unfolding parent_of
parent_of-le [] n h g = absurd (not_dot g)
parent_of-le (c ∷ r) n h g = rest (skip_slashes (c ∷ r)) h g
  where
    rest :
        (q : FilePath)
        → length q ≤ n
        → Goes (elim q [ [] ↦ slash | d ∷ q ↦ reverse_onto [] (d ∷ q) ])
        → length (elim q as (λ _. FilePath) [ [] ↦ slash | d ∷ q ↦ reverse_onto [] (d ∷ q) ]) ≤ n
    rest [] h g = absurd (not_slash g)
    rest (d ∷ q) h g = omega (arith, h, length-reverse_onto [] (d ∷ q))

-- A directory is `/` or `.`, or its path is shorter.
dirname-lt : (p : FilePath) → Goes (dirname p) → length (dirname p) < length p
unfolding dirname
dirname-lt [] g = absurd (not_dot g)
dirname-lt (c ∷ p) g =
    rest (skip_slashes (reverse_onto [] (c ∷ p)))
      (omega (arith, skip_slashes-le (reverse_onto [] (c ∷ p)), length-reverse_onto [] (c ∷ p))) g
  where
    rest :
        (q : FilePath)
        → length q ≤ suc (length p)
        → Goes (elim q [ [] ↦ slash | d ∷ q ↦ parent_of (skip_component (d ∷ q)) ])
        → length
            (elim q as (λ _. FilePath) [ [] ↦ slash | d ∷ q ↦ parent_of (skip_component (d ∷ q)) ])
          < suc (length p)
    rest [] h g = absurd (not_slash g)
    rest (d ∷ q) h g =
        omega (arith, h, parent_of-le (skip_component (d ∷ q)) (length q) (left_of_component d q) g)

module _ (K : Kernel) (dirnum : ℕ) where
  abbrev Answers : Option ℤ × Sys K.Core → Type 0
  Answers r = (n : ℤ) × (r.0 ≡ some n)

  isindir_loop-Answers :
      (fuel : ℕ) (p : FilePath) (s : Sys K.Core)
      → length p < fuel
      → Answers (isindir_loop K fuel p dirnum s)
  unfolding isindir_loop ◌>>=◌ pure
  isindir_loop-Answers zero p s h = absurd (omega arith)
  isindir_loop-Answers (suc k) p s h =
      let r = is_ancestor K (dirname p) dirnum s in
      branch Answers (isindir_loop K k (dirname p) dirnum) (pure (some r.0))
        (is_zero r.0 && not (is_char 47 (dirname p)) && not (is_char 46 (dirname p))) r.1
        (λ goes_on.
          isindir_loop-Answers k (dirname p) r.1
            (omega (arith, h, dirname-lt p (ground (arith, goes_on), ground (arith, goes_on)))))
        (λ ends. (r.0, refl))

-- The walk over the ancestors of a path ends with an answer, for any path and whatever the kernel
-- answers to its lookups: each directory is `/`, `.` or has a shorter path.
pub v6fs_isindir_ends :
    (K : Kernel) (pathname : FilePath) (dirnum : ℕ) (s : Sys K.Core)
    → (n : ℤ) × ((v6fs_isindir K pathname dirnum s).0 ≡ some n)
unfolding v6fs_isindir
v6fs_isindir_ends K pathname dirnum s =
    isindir_loop-Answers K dirnum (length pathname + 1) pathname s (omega arith)

-- A lookup of the kernel that starts with `u_error` at ENOENT finds nothing and leaves it at ENOENT.
pub record StopsOnError (K : Kernel) : Type 0 where
  pub stops :
      (p : FilePath) (l : Lookup) (s : Sys K.Core)
      → s.error ≡ enoent
      → ((K.namei p l s).0 ≡ none) × ((K.namei p l s).1.error ≡ enoent)

module _ (K : Kernel) (L : StopsOnError K) (dirnum : ℕ) where
  is_ancestor_stale :
      (p : FilePath) (s : Sys K.Core)
      → s.error ≡ enoent
      → (let r = is_ancestor K p dirnum s in (r.0 ≡ pos 0) × (r.1.error ≡ enoent))
  unfolding is_ancestor found ◌>>=◌ get_error pure
  is_ancestor_stale p s h =
      let (none_found, same) = L.stops p create s h in rest (K.namei p create s) none_found same
    where
      rest :
          (r : Option ℕ × Sys K.Core)
          → r.0 ≡ none
          → r.1.error ≡ enoent
          → (let q =
                found r.0
                  (do e ← get_error; if not (e == enoent) then last_error else pure (pos 0))
                  (λ ip. (do
                    i ← read_inode K ip
                    K.iput ip
                    pure (if i.number == dirnum then pos 1 else pos 0)))
                  r.1 in
              (q.0 ≡ pos 0) × (q.1.error ≡ enoent))
      rest (some ip, t) e h = absurd (ground (arith, e))
      rest (none, t) e h =
          branch (λ (q : ℤ × Sys K.Core). (q.0 ≡ pos 0) × (q.1.error ≡ enoent)) last_error
            (pure (pos 0)) (not (t.error == enoent)) t (λ other. absurd (ground (arith, other, h)))
            (λ same. (refl, h))

  isindir_loop_stale :
      (fuel : ℕ) (p : FilePath) (s : Sys K.Core)
      → length p < fuel
      → s.error ≡ enoent
      → (isindir_loop K fuel p dirnum s).0 ≡ some (pos 0)
  unfolding isindir_loop ◌>>=◌ pure
  isindir_loop_stale zero p s h e = absurd (omega arith)
  isindir_loop_stale (suc k) p s h e =
      let r = is_ancestor K (dirname p) dirnum s in
      let (zero_found, stale) = is_ancestor_stale (dirname p) s e in
      branch (λ (q : Option ℤ × Sys K.Core). q.0 ≡ some (pos 0))
        (isindir_loop K k (dirname p) dirnum) (pure (some r.0))
        (is_zero r.0 && not (is_char 47 (dirname p)) && not (is_char 46 (dirname p))) r.1
        (λ goes_on.
          isindir_loop_stale k (dirname p) r.1
            (omega (arith, h, dirname-lt p (ground (arith, goes_on), ground (arith, goes_on))))
            stale)
        (λ ends. ap some zero_found)

-- Where `u_error` is still ENOENT, with which a lookup finds nothing and at which it leaves it, the walk
-- answers 0, that no ancestor has the number, for every path and every number.
pub v6fs_isindir_stale :
    (K : Kernel) (L : StopsOnError K) (pathname : FilePath) (dirnum : ℕ) (s : Sys K.Core)
    → s.error ≡ enoent
    → (v6fs_isindir K pathname dirnum s).0 ≡ some (pos 0)
unfolding v6fs_isindir
v6fs_isindir_stale K L pathname dirnum s e =
    isindir_loop_stale K L dirnum (length pathname + 1) pathname s (omega arith) e
