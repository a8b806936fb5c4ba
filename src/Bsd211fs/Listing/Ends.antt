-- ===== src/Bsd211fs/Listing/Ends.antt =====
-- Whether the loop of `bsd211fs_enumdir` of src/bsd211fs.c ends.
use retro_fuse.Prelude.{
  ℕ, zero, suc, ◌+◌, ◌-◌, ◌*◌, ◌≤◌, ◌<◌, ◌≡◌, refl, ap, ◌∙◌, false, Option, none, some, List, arith,
  ◌==◌, leb,
}
use retro_fuse.Prelude.Slices.{apply_else, branch}
use retro_fuse.Prelude.Int.{ℤ, pos, leb_ℤ, ltb_ℤ}
use retro_fuse.V6fs.Kernel.{Sys, M, ◌>>=◌, pure}
use retro_fuse.Bsd211fs.Listing.{
  block_size, Step, went_on, stopped, no_map, Listed, listed, overrun, unmapped, out_of_fuel,
  word_at, name_at, advance, behind_show, in_use, at_record, behind_read, enum_loop,
}

-- The records of a block from a place on, none of them of the length 0.
pub data Records (buf : List ℕ) : (p : ℕ) → Type 0 where
  past : {p : ℕ} → 512 ≤ p → Records buf p
  at :
      {p : ℕ}
      → (reclen : ℕ) → word_at buf (p + 2) ≡ some reclen
      → 0 < reclen
      → Records buf (p + reclen)
      → Records buf p

module _ {C A : Type 0} (dirread : M C (ℤ × List ℕ)) (show : ℕ → List ℕ → A → M C (Step A)) where
  in_block :
      (k p : ℕ) (buf : List ℕ) (context : A) (s : Sys C)
      → p < 512
      → enum_loop dirread show (suc k) p buf context s
        ≡ at_record dirread show (λ c q. enum_loop dirread show k q buf c) buf p context s
  unfolding enum_loop
  in_block k p buf context s h = apply_else _ _ (leb block_size p) s (ground arith)

  -- A record that is not in use and has the length 0 is gone over for ever: with no number of rounds
  -- does the loop come to an end, whatever the kernel answers.
  pub enum_loop_endless :
      (fuel p : ℕ) (buf : List ℕ) (context : A) (s : Sys C)
      → p < 512
      → word_at buf p ≡ some 0
      → word_at buf (p + 2) ≡ some 0
      → enum_loop dirread show fuel p buf context s ≡ (out_of_fuel, s)
  unfolding enum_loop at_record advance pure
  enum_loop_endless zero p buf context s h free empty = refl
  enum_loop_endless (suc k) p buf context s h free empty =
      let same : p + 0 ≡ p = omega arith in
      in_block k p buf context s h
      ∙ rw (free, at_record) (rw (empty, advance) refl)
      ∙ ap (λ q. enum_loop dirread show k q buf context s) same
      ∙ enum_loop_endless k p buf context s h free empty

  -- A directory of which so many blocks are left to be read, by any measure on the kernel's memory: a
  -- read of a whole block leaves fewer, and what is shown does not add to them.
  pub record Shrinks (left : Sys C → ℕ) : Type 0 where
    pub read_left :
        (s : Sys C) → ltb_ℤ (dirread s).0.0 (pos 512) ≡ false → left (dirread s).1 < left s
    pub read_sound :
        (s : Sys C) → ltb_ℤ (dirread s).0.0 (pos 512) ≡ false → Records (dirread s).0.1 0
    pub show_left :
        (ino : ℕ) (name : List ℕ) (context : A) (s : Sys C)
        → left (show ino name context s).1 ≤ left s

  -- The loop came to its end, with a result or with an invalid access.
  abbrev pub Over : Listed A → Type 0
  Over (listed res c) = Unit {0}
  Over overrun = Unit {0}
  Over unmapped = Unit {0}
  Over out_of_fuel = ⊥

  abbrev pub Ended : Listed A × Sys C → Type 0
  Ended r = Over r.0

  module _ (left : Sys C → ℕ) (L : Shrinks left) where
    -- One record, where the rest ends.
    module _ (next : A → ℕ → M C (Listed A)) (buf : List ℕ) (p reclen : ℕ) (s : Sys C)
        (e : word_at buf (p + 2) ≡ some reclen)
        (ih : (c : A) (t : Sys C) → left t ≤ left s → Ended (next c (p + reclen) t)) where
      advance-Ended :
          (c : A) (t : Sys C) → left t ≤ left s → Ended (advance dirread show (next c) buf p t)
      unfolding advance
      advance-Ended c t h = rw (e, advance) (ih c t h)

      behind_show-Ended :
          (step : Step A) (t : Sys C)
          → left t ≤ left s
          → Ended (behind_show dirread show next buf p step t)
      unfolding behind_show pure
      behind_show-Ended (went_on c) t h = advance-Ended c t h
      behind_show-Ended (stopped res c) t h = tt
      behind_show-Ended no_map t h = tt

      in_use-Ended :
          (o : Option (List ℕ)) (ino : ℕ) (c : A)
          → name_at buf p ≡ o
          → Ended (in_use dirread show next buf p ino c s)
      unfolding in_use ◌>>=◌ pure
      in_use-Ended none ino c f = rw (f, in_use) tt
      in_use-Ended (some name) ino c f =
          rw (f, in_use)
            (behind_show-Ended (show ino name c s).0 (show ino name c s).1
              (L.show_left ino name c s))

      at_record-Ended :
          (o : Option ℕ) (c : A) → word_at buf p ≡ o → Ended (at_record dirread show next buf p c s)
      unfolding at_record pure
      at_record-Ended none c f = rw (f, at_record) tt
      at_record-Ended (some ino) c f =
          rw (f, at_record)
            (branch Ended _ _ (ino == 0) s (λ free. advance-Ended c s (omega arith))
              (λ used. in_use-Ended (name_at buf p) ino c refl))

    -- The first record of a block that was read, where the rest ends.
    first_record :
        (next : A → ℕ → M C (Listed A)) (bytes : List ℕ) (s : Sys C) (c : A) (p : ℕ)
        → ((n : ℕ) (c : A) (t : Sys C)
            → p < n
            → Records bytes n
            → left t ≤ left s
            → Ended (next c n t))
        → p < 512
        → Records bytes p
        → Ended (at_record dirread show next bytes p c s)
    first_record next bytes s c p ih h (past far) = absurd (omega arith)
    first_record next bytes s c p ih h (at reclen e some_length rest) =
        at_record-Ended next bytes p reclen s e
          (λ c t less. ih (p + reclen) c t (omega arith) rest less) (word_at bytes p) c refl

    -- In a directory that has an end, and whose records have lengths above 0, the loop comes to its end,
    -- with 513 rounds for each block that is left and one more, whatever the function answers that the
    -- entries are shown to.
    pub enum_loop-Ended :
        (fuel p : ℕ) (buf : List ℕ) (c : A) (s : Sys C)
        → Records buf p
        → left s * 513 + (513 - p) < fuel
        → Ended (enum_loop dirread show fuel p buf c s)
    unfolding enum_loop behind_read ◌>>=◌ pure
    enum_loop-Ended zero p buf c s records enough = absurd (omega arith)
    enum_loop-Ended (suc k) p buf c s records enough =
        branch Ended _ _ (leb block_size p) s
          (λ outside.
            let res = (dirread s).0.0 in
            let bytes = (dirread s).0.1 in
            let t = (dirread s).1 in
            branch Ended _ _ (leb_ℤ res (pos 0)) t (λ last. tt)
              (λ more.
                branch Ended _ _ (ltb_ℤ res (pos block_size)) t (λ short. tt)
                  (λ whole.
                    let less = L.read_left s whole in
                    first_record (λ c q. enum_loop dirread show k q bytes c) bytes t c 0
                      (λ n c u ahead rest fewer. enum_loop-Ended k n bytes c u rest (omega arith))
                      (omega arith) (L.read_sound s whole))))
          (λ inside.
            let h : p < 512 = ground arith in
            first_record (λ c q. enum_loop dirread show k q buf c) buf s c p
              (λ n c u ahead rest fewer. enum_loop-Ended k n buf c u rest (omega arith)) h records)
