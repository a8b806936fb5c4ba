-- ===== src/V6fs/Kernel/Balance.antt =====
-- Counting the inodes that the code of src/v6fs.c holds, step by step: a rule for each way in which
-- its calls are put together.
use retro_fuse.Prelude.{
  ℕ, suc, ◌≡◌, Bool, true, false, Option, none, some, arith, not, ◌==◌, if◌then◌else◌,
}
use retro_fuse.Prelude.Slices.{branch}
use retro_fuse.V6fs.Kernel.Counts.{
  CountsInodes, Moved, refs_of, refs_made, with_refs, with_refs-refs_of,
}
use retro_fuse.V6fs.Kernel.{
  FilePath, Sys, M, ◌>>=◌, ◌>>◌, pure, Inode, Opening, find, create, Kernel, clear_error, set_error,
  get_error, last_error, get_uid, set_uid, get_ruid, get_time, set_time, found, read_inode,
  write_inode, begin,
}

-- Run from a state in which the caller holds `before` references, `m` leaves it with `after`.
pub record Keeps {C A : Type 0} (held : C → ℕ × ℕ) (before : ℕ) (m : M C A) (after : A → ℕ)
    : Type 0 where
  pub keeps : (s : Sys C) → Moved (held s.core) (held (m s).1.core) (after (m s).0) before

module _ {C : Type 0} {held : C → ℕ × ℕ} where
  pub bind :
      {A B : Type 0} {n : ℕ} {m : M C A} {f : A → M C B} {mid : A → ℕ} {after : B → ℕ}
      → Keeps held n m mid
      → ((a : A) → Keeps held (mid a) (f a) after)
      → Keeps held n (m >>= f) after
  unfolding ◌>>=◌
  bind {m} {f} k l = record { keeps = λ s. omega (arith, k.keeps s, (l (m s).0).keeps (m s).1) }

  pub next :
      {B : Type 0} {n : ℕ} {m : M C (Unit {0})} {k : M C B} {mid : Unit {0} → ℕ} {after : B → ℕ}
      → Keeps held n m mid
      → Keeps held (mid tt) k after
      → Keeps held n (m >> k) after
  unfolding ◌>>◌
  next {m} {k} h l = record { keeps = λ s. omega (arith, h.keeps s, l.keeps (m s).1) }

  pub choose :
      {A : Type 0} {n : ℕ} {after : A → ℕ} {x y : M C A} (b : Bool)
      → Keeps held n x after
      → Keeps held n y after
      → Keeps held n (if b then x else y) after
  choose true h k = h
  choose false h k = k

  -- A test whose outcome is known.
  pub chosen :
      {A : Type 0} {n : ℕ} {after : A → ℕ} {x : M C A} (y : M C A) (b : Bool)
      → b ≡ true
      → Keeps held n x after
      → Keeps held n (if b then x else y) after
  chosen y true e h = h
  chosen y false e h = absurd (ground (arith, e))

  pub found-Keeps :
      {A : Type 0} {n : ℕ} {missing : M C A} {there : ℕ → M C A} {after : A → ℕ} (o : Option ℕ)
      → Keeps held n missing after
      → ((ip : ℕ) → Keeps held (suc n) (there ip) after)
      → Keeps held (with_refs o n) (found o missing there) after
  unfolding found
  found-Keeps none h k = h
  found-Keeps (some ip) h k = k ip

  pub return : {A : Type 0} {n : ℕ} (a : A) → Keeps held n (pure a) (λ _. n)
  unfolding pure
  return a = record { keeps = λ s. omega arith }

  pub returned : {A : Type 0} {after : A → ℕ} (a : A) → Keeps held (after a) (pure a) after
  unfolding pure
  returned {after} a = record { keeps = λ s. omega arith }

  -- Another reference, held throughout.
  pub frame :
      {A : Type 0} {n : ℕ} {m : M C A} {after : A → ℕ}
      → Keeps held n m after
      → Keeps held (suc n) m (λ a. suc (after a))
  frame h = record { keeps = λ s. omega (arith, h.keeps s) }

  pub get_error-Keeps : {n : ℕ} → Keeps held n get_error (λ _. n)
  unfolding get_error
  get_error-Keeps = record { keeps = λ s. omega arith }

  pub last_error-Keeps : {n : ℕ} → Keeps held n last_error (λ _. n)
  unfolding last_error
  last_error-Keeps = record { keeps = λ s. omega arith }

  pub clear_error-Keeps : {n : ℕ} → Keeps held n clear_error (λ _. n)
  unfolding clear_error
  clear_error-Keeps = record { keeps = λ s. omega arith }

  pub set_error-Keeps : {n : ℕ} (e : ℕ) → Keeps held n (set_error e) (λ _. n)
  unfolding set_error
  set_error-Keeps e = record { keeps = λ s. omega arith }

  pub get_uid-Keeps : {n : ℕ} → Keeps held n get_uid (λ _. n)
  unfolding get_uid
  get_uid-Keeps = record { keeps = λ s. omega arith }

  pub set_uid-Keeps : {n : ℕ} (u : ℕ) → Keeps held n (set_uid u) (λ _. n)
  unfolding set_uid
  set_uid-Keeps u = record { keeps = λ s. omega arith }

  pub get_ruid-Keeps : {n : ℕ} → Keeps held n get_ruid (λ _. n)
  unfolding get_ruid
  get_ruid-Keeps = record { keeps = λ s. omega arith }

  pub get_time-Keeps : {n : ℕ} → Keeps held n get_time (λ _. n)
  unfolding get_time
  get_time-Keeps = record { keeps = λ s. omega arith }

  pub set_time-Keeps : {n : ℕ} (t : ℕ × ℕ) → Keeps held n (set_time t) (λ _. n)
  unfolding set_time
  set_time-Keeps t = record { keeps = λ s. omega arith }

  -- A call that hands out and takes nothing.
  pub neutral :
      {A : Type 0} {n : ℕ} (m : M C A)
      → ((s : Sys C) → Moved (held s.core) (held (m s).1.core) 0 0)
      → Keeps held n m (λ _. n)
  neutral m h = record { keeps = λ s. omega (arith, h s) }

  -- A call that takes one reference.
  pub takes :
      {A : Type 0} {n : ℕ} (m : M C A)
      → ((s : Sys C) → Moved (held s.core) (held (m s).1.core) 0 1)
      → Keeps held (suc n) m (λ _. n)
  takes m h = record { keeps = λ s. omega (arith, h s) }

  -- A call that may hand one out.
  pub hands :
      {n : ℕ} (m : M C (Option ℕ))
      → ((s : Sys C) → Moved (held s.core) (held (m s).1.core) (refs_of (m s).0) 0)
      → Keeps held n m (λ o. with_refs o n)
  hands {n} m h = record { keeps = λ s. omega (arith, h s, with_refs-refs_of (m s).0 n) }

module _ (K : Kernel) (L : CountsInodes K) where
  pub begin-Keeps : {n : ℕ} → Keeps L.held n (begin K) (λ _. n)
  unfolding begin
  begin-Keeps = next (neutral K.refreshclock L.held_refreshclock) clear_error-Keeps

  pub read_inode-Keeps : {n : ℕ} (ip : ℕ) → Keeps L.held n (read_inode K ip) (λ _. n)
  unfolding read_inode
  read_inode-Keeps ip = record { keeps = λ s. omega arith }

  pub write_inode-Keeps :
      {n : ℕ} (ip : ℕ) (i : Inode) → Keeps L.held n (write_inode K ip i) (λ _. n)
  unfolding write_inode
  write_inode-Keeps {n} ip i = record { keeps = λ s. omega (arith, L.held_set_inode ip i s.core) }

  pub namei-Keeps : {n : ℕ} (p : FilePath) → Keeps L.held n (K.namei p find) (λ o. with_refs o n)
  namei-Keeps p = hands (K.namei p find) (L.held_find p)

  -- The look up of a name to be created, and what is done where it fails, where the name is missing
  -- and where it is there.
  pub create-Keeps :
      {A : Type 0} {n : ℕ} {after : A → ℕ} {refused made : M K.Core A} {there : ℕ → M K.Core A}
      (p : FilePath)
      → Keeps L.held n refused after
      → Keeps L.held (suc n) made after
      → ((ip : ℕ) → Keeps L.held (suc n) (there ip) after)
      → Keeps L.held n
          (K.namei p create >>= λ o.
            found o (get_error >>= λ e. if not (e == 0) then refused else made) there)
          after
  unfolding ◌>>=◌ found get_error
  create-Keeps {A} {n} {after} {refused} {made} {there} p h k l = record {
    keeps = λ s. cases (L.held s.core) (K.namei p create s) (L.held_create p s);
  }
    where
      cases :
          (old : ℕ × ℕ) (r : Option ℕ × Sys K.Core)
          → Moved old (L.held r.1.core) (refs_made r.0 r.1.error) 0
          → (let q =
                found r.0 (get_error >>= λ e. if not (e == 0) then refused else made) there r.1 in
              Moved old (L.held q.1.core) (after q.0) n)
      cases old (some ip, t) e = omega (arith, e, (l ip).keeps t)
      cases old (none, t) e =
          branch (λ q. Moved old (L.held q.1.core) (after q.0) n) refused made (not (t.error == 0))
            t (λ fails. ground (arith, e, h.keeps t)) (λ fine. ground (arith, e, k.keeps t))

  pub iget-Keeps : {n : ℕ} (i : ℕ) → Keeps L.held n (K.iget i) (λ o. with_refs o n)
  iget-Keeps i = hands (K.iget i) (L.held_iget i)

  pub maknode-Keeps :
      {n : ℕ} (mode : ℕ) → Keeps L.held (suc n) (K.maknode mode) (λ o. with_refs o n)
  maknode-Keeps {n} mode = record {
    keeps = λ s. omega (arith, L.held_maknode mode s, with_refs-refs_of (K.maknode mode s).0 n);
  }

  pub iput-Keeps : {n : ℕ} (ip : ℕ) → Keeps L.held (suc n) (K.iput ip) (λ _. n)
  iput-Keeps ip = takes (K.iput ip) (L.held_iput ip)

  pub open1-Keeps :
      {n : ℕ} (ip : ℕ) (r w : Bool) (o : Opening) → Keeps L.held (suc n) (K.open1 ip r w o) (λ _. n)
  open1-Keeps ip r w o = takes (K.open1 ip r w o) (L.held_open1 ip r w o)
