-- ===== src/V6fs/Transfer/Seek.antt =====
-- `v6fs_seek` of src/v6fs.c.
use retro_fuse.Prelude.{
  ℕ, ◌+◌, ◌*◌, ◌/◌, ◌%◌, ◌^◌, ◌≤◌, ◌<◌, ◌≡◌, refl, sym, ◌⊎◌, inl, inr, ap, ◌∙◌, Bool, true, false,
  ◌||◌, some, Bool-cases, arith, ltb, if◌then◌else◌,
}
use retro_fuse.Prelude.Int.{ℤ, pos, negsuc, neg, ◌+ℤ◌, ◌<ℤ◌, leb_ℤ, ltb_ℤ, is_neg}
use mathlib.Core.Path.{subst}
use retro_fuse.Prelude.Slices.{apply_else}
use retro_fuse.Errno.{einval, enxio}
use retro_fuse.V6fs.Kernel.{Sys, ◌>>=◌, ◌>>◌, pure, OpenFile, Kernel, begin}
use retro_fuse.V6fs.Transfer.{
  Whence, seek_set, seek_cur, seek_end, seek_data, seek_hole, seek_other, seek_target, seek_result,
  set_position, seek_file, v6fs_seek,
}

-- The size of a file, of which `size0` is a signed byte, and its offset.
abbrev pub file_size : OpenFile → ℕ
file_size f = f.size0 % 256 * 65536 + f.size1

abbrev pub file_offset : OpenFile → ℕ
file_offset f = f.offset.0 * 65536 + f.offset.1

-- The place in a file that a seek asks for, as lseek documents it: a file has data up to its end, and a hole
-- there.
abbrev pub Asked : OpenFile → (offset : ℤ) → Whence → (place : ℤ) → Type 0
Asked f offset seek_set n = n ≡ offset
Asked f offset seek_cur n = n ≡ offset +ℤ pos (file_offset f)
Asked f offset seek_end n = n ≡ offset +ℤ pos (file_size f)
Asked f offset seek_data n = (n ≡ offset) × (offset <ℤ pos (file_size f))
Asked f offset seek_hole n = (n ≡ pos (file_size f)) × (offset <ℤ pos (file_size f))
Asked f offset seek_other n = ⊥

-- The error for a seek to no place, or to one out of range.
abbrev pub refusal : OpenFile → (offset : ℤ) → Whence → ℤ
refusal f offset seek_set = neg einval
refusal f offset seek_cur = neg einval
refusal f offset seek_end = neg einval
refusal f offset seek_data = if leb_ℤ (pos (file_size f)) offset then neg enxio else neg einval
refusal f offset seek_hole = if leb_ℤ (pos (file_size f)) offset then neg enxio else neg einval
refusal f offset seek_other = neg einval

abbrev pub max_offset : ℕ
max_offset = 2147483647

abbrev checked : ℤ → ℤ × Bool
checked t = if is_neg t || ltb_ℤ (pos max_offset) t then (neg einval, false) else (t, true)

-- A place is in range, or no number in range is the place.
in_range :
    (t : ℤ)
    → ((n : ℕ) × (n ≤ max_offset) × (pos n ≡ t) × (checked t ≡ (pos n, true)))
      ⊎ (((n : ℕ) → n ≤ max_offset → pos n ≡ t → ⊥) × (checked t ≡ (neg einval, false)))
in_range (pos n) = elim (Bool-cases (ltb max_offset n)) [
  | inl large ↦ inr (λ m small e. ground (arith, e, large), ground (arith, large))
  | inr fits ↦ inl (n, ground (arith, fits), refl, ground (arith, fits))
]
in_range (negsuc n) = inr (λ m small e. ground (arith, e), ground arith)

module _ (f : OpenFile) (offset : ℤ) where
  abbrev Outcome : Whence → ℤ × Bool → Type 0
  Outcome whence r =
      ((n : ℕ) × (n ≤ max_offset) × Asked f offset whence (pos n) × (r ≡ (pos n, true)))
      ⊎ (((n : ℕ) → n ≤ max_offset → Asked f offset whence (pos n) → ⊥)
          × (r ≡ (refusal f offset whence, false)))

  -- A place for data or a hole, where the offset is before the end.
  before_end :
      (t : ℤ)
      → leb_ℤ (pos (file_size f)) offset ≡ false
      → ((n : ℕ) × (n ≤ max_offset)
          × ((pos n ≡ t) × (offset <ℤ pos (file_size f)))
          × (checked t ≡ (pos n, true)))
        ⊎ (((n : ℕ) → n ≤ max_offset → (pos n ≡ t) × (offset <ℤ pos (file_size f)) → ⊥)
            × (checked t ≡ (neg einval, false)))
  before_end t h = elim (in_range t) [
    | inl (n, fits, same, c) ↦ inl (n, fits, (same, ground (arith, h)), c)
    | inr (none_fits, c) ↦ inr (λ n fits (same, before). none_fits n fits same, c)
  ]

  seek_result-Outcome : (whence : Whence) → Outcome whence (seek_result f offset whence)
  unfolding seek_result seek_target
  seek_result-Outcome seek_set = in_range offset
  seek_result-Outcome seek_cur = in_range (offset +ℤ pos (file_offset f))
  seek_result-Outcome seek_end = in_range (offset +ℤ pos (file_size f))
  seek_result-Outcome seek_data = elim (Bool-cases (leb_ℤ (pos (file_size f)) offset)) [
    | inl e ↦ inr (λ n fits (same, before). ground (arith, e, before), rw (e, seek_target) refl)
    | inr e ↦ rw (e) (before_end offset e)
  ]
  seek_result-Outcome seek_hole = elim (Bool-cases (leb_ℤ (pos (file_size f)) offset)) [
    | inl e ↦ inr (λ n fits (same, before). ground (arith, e, before), rw (e, seek_target) refl)
    | inr e ↦ rw (e) (before_end (pos (file_size f)) e)
  ]
  seek_result-Outcome seek_other = inr (λ n fits h. h, refl)

-- The state with the offset of the file set to `n`: its two words are the numbers below 2 ^ 16 that stand
-- for it.
abbrev pub MovedTo : (K : Kernel) → (fd n : ℕ) → (s t : Sys K.Core) → Type 0
MovedTo K fd n s t =
    (hi lo : ℕ) × (hi < 2 ^ 16)
    × (lo < 2 ^ 16)
    × (hi * 65536 + lo ≡ n)
    × (t ≡ (K.set_offset fd (hi, lo) s).1)

module _ (K : Kernel) (fd : ℕ) (offset : ℤ) (whence : Whence) (f : OpenFile) where
  -- What a seek answers, and the state it leaves behind the lookup of the descriptor.
  abbrev pub Sought : Sys K.Core → ℤ × Sys K.Core → Type 0
  Sought t r =
      ((n : ℕ) × (n ≤ 2147483647)
        × Asked f offset whence (pos n)
        × (r.0 ≡ pos n)
        × MovedTo K fd n t r.1)
      ⊎ (((n : ℕ) → n ≤ 2147483647 → Asked f offset whence (pos n) → ⊥)
          × (r.0 ≡ refusal f offset whence)
          × (r.1 ≡ t))

  positioned :
      (t : Sys K.Core) (r : ℤ × Bool) → Outcome f offset whence r → Sought t (set_position K fd r t)
  unfolding set_position ◌>>◌ ◌>>=◌ pure
  positioned t r (inl (n, fits, asked, e)) =
      subst (λ q. Sought t (set_position K fd q t)) (sym e)
        (inl (
          n,
          fits,
          asked,
          refl,
          (n / 65536 % 65536, n % 65536, omega arith, omega arith, omega arith, refl),
        ))
  positioned t r (inr (no_place, e)) =
      subst (λ q. Sought t (set_position K fd q t)) (sym e) (inr (no_place, refl, refl))

  -- A seek on an open file that is no pipe goes to the place that is asked for, where that is between 0
  -- and 2 ^ 31 - 1: it returns the place, and sets the two words of the offset to it. Otherwise it
  -- changes nothing behind the lookup of the descriptor, and returns -ENXIO for data or a hole at or
  -- behind the end of the file, and else -EINVAL.
  pub v6fs_seek-Sought :
      (s t : Sys K.Core)
      → fd ≤ 32767
      → f.is_pipe ≡ false
      → K.getf fd (begin K s).1 ≡ (some f, t)
      → Sought t (v6fs_seek K (pos fd) offset whence s)
  unfolding v6fs_seek seek_file ◌>>=◌ ◌>>◌
  v6fs_seek-Sought s t low file e =
      subst (Sought t)
        (sym (
          apply_else _ _ (ltb 32767 fd) (begin K s).1 (ground arith)
          ∙ ap (λ r. seek_file K fd offset whence r.0 r.1) e
          ∙ apply_else _ _ f.is_pipe t file))
        (positioned t (seek_result f offset whence) (seek_result-Outcome f offset whence))
