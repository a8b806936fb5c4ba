-- ===== src/V6fs/Transfer/Place.antt =====
-- `v6fs_pwrite` of src/v6fs.c and then `v6fs_pread` at the same place.
use mathlib.Core.List.{append_assoc}
use mathlib.Core.Path.{subst}
use retro_fuse.Prelude.{
  inl, inr, length-take, length-append, ℕ, ◌+◌, ◌^◌, ◌≤◌, ◌<◌, ◌≡◌, ◌≢◌, refl, ap, sym, ◌∙◌, true,
  false, Option, none, some, List, ◌++◌, arith, length, take, drop, ltb, [], if◌then◌else◌,
}
use retro_fuse.Prelude.Slices.{apply_else, take_all, take-length, drop-length}
use retro_fuse.Prelude.Int.{ℤ, pos, neg, neg_part, is_neg}
use retro_fuse.V6fs.Kernel.{Sys, ◌>>=◌, ◌>>◌, pure, OpenFile, Kernel, clear_error, begin}
use retro_fuse.V6fs.Transfer.{
  seek_set, seek_result, offset_words, set_position, seek_file, v6fs_seek, v6fs_pread, v6fs_pwrite,
  v6fs_read, v6fs_write,
}
use retro_fuse.V6fs.Transfer.Read.{ReadsFile, v6fs_read_lem}
use retro_fuse.V6fs.Transfer.Write.{WritesFile, Answer, Wrote, v6fs_write-Wrote}

abbrev pub IsFile : Option OpenFile → Type 0
IsFile none = ⊥
IsFile (some f) = f.is_pipe ≡ false

-- What the kernel's offset does, on a file that is open and no pipe: it divides the bytes of the file
-- into those before and those behind it.
pub record PlacesFile (K : Kernel) (R : ReadsFile K) (W : WritesFile K) (fd : ℕ) : Type 0 where
  pub is_open : (s : Sys K.Core) → IsFile (K.getf fd s).0
  pub getf_done : (s : Sys K.Core) → W.done (K.getf fd s).1.core fd ≡ W.done s.core fd
  pub getf_rest : (s : Sys K.Core) → R.rest (K.getf fd s).1.core fd ≡ R.rest s.core fd
  pub offset_done :
      (n : ℕ) (s : Sys K.Core)
      → n ≤ 2147483647
      → n ≤ length (W.done s.core fd ++ R.rest s.core fd)
      → W.done (K.set_offset fd (offset_words n) s).1.core fd
        ≡ take n (W.done s.core fd ++ R.rest s.core fd)
  pub offset_rest :
      (n : ℕ) (s : Sys K.Core)
      → n ≤ 2147483647
      → n ≤ length (W.done s.core fd ++ R.rest s.core fd)
      → R.rest (K.set_offset fd (offset_words n) s).1.core fd
        ≡ drop n (W.done s.core fd ++ R.rest s.core fd)

abbrev below_zero : Option ℤ → ℕ
below_zero none = 0
below_zero (some a) = neg_part a

-- An error is no length.
length_not_error : (e n : ℕ) → e ≢ 0 → ◌≡◌ {A = Option ℤ} (some (neg e)) (some (pos n)) → ⊥
length_not_error e n d h = let z : neg_part (neg e) ≡ 0 = ap below_zero h in ground (arith, z, d)

seek_result_at :
    (f : OpenFile) (n : ℕ) → n ≤ 2147483647 → seek_result f (pos n) seek_set ≡ (pos n, true)
unfolding seek_result
seek_result_at f n small = ground arith

module _ (K : Kernel) (fd n : ℕ) (small : n ≤ 2147483647) where
  seek_file_at :
      (o : Option OpenFile) (s : Sys K.Core)
      → IsFile o
      → seek_file K fd (pos n) seek_set o s ≡ (pos n, (K.set_offset fd (offset_words n) s).1)
  unfolding seek_file set_position ◌>>◌ ◌>>=◌ pure
  seek_file_at none s h = absurd h
  seek_file_at (some f) s h =
      apply_else _ _ f.is_pipe s h ∙ ap (λ r. set_position K fd r s) (seek_result_at f n small)

  v6fs_seek_at :
      (s : Sys K.Core)
      → fd ≤ 32767
      → ((t : Sys K.Core) → IsFile (K.getf fd t).0)
      → v6fs_seek K (pos fd) (pos n) seek_set s
        ≡ (pos n, (K.set_offset fd (offset_words n) (K.getf fd (begin K s).1).1).1)
  unfolding v6fs_seek ◌>>=◌ ◌>>◌
  v6fs_seek_at s low file =
      apply_else _ _ (ltb 32767 fd) (begin K s).1 (ground arith)
      ∙ seek_file_at (K.getf fd (begin K s).1).0 (K.getf fd (begin K s).1).1 (file (begin K s).1)

module _ (K : Kernel) (R : ReadsFile K) (W : WritesFile K) (fd n : ℕ) (P : PlacesFile K R W fd)
    (small : n ≤ 2147483647) (low : fd ≤ 32767) where
  abbrev whole : Sys K.Core → List ℕ
  whole s = W.done s.core fd ++ R.rest s.core fd

  -- The state that a seek to `n` leaves.
  abbrev placed : Sys K.Core → Sys K.Core
  placed s = (K.set_offset fd (offset_words n) (K.getf fd (begin K s).1).1).1

  same_whole : (s : Sys K.Core) → whole (K.getf fd (begin K s).1).1 ≡ whole s
  unfolding begin ◌>>◌ ◌>>=◌ clear_error
  same_whole s =
      let t = (begin K s).1 in
      ap (λ xs. xs ++ R.rest (K.getf fd t).1.core fd) (P.getf_done t ∙ W.refreshclock_done s fd)
      ∙ ap (λ xs. W.done s.core fd ++ xs) (P.getf_rest t ∙ R.refreshclock_rest s fd)

  placed_done :
      (s : Sys K.Core) → n ≤ length (whole s) → W.done (placed s).core fd ≡ take n (whole s)
  placed_done s h =
      P.offset_done n (K.getf fd (begin K s).1).1 small
        (subst (λ xs. n ≤ length xs) (sym (same_whole s)) h)
      ∙ ap (take n) (same_whole s)

  placed_rest :
      (s : Sys K.Core) → n ≤ length (whole s) → R.rest (placed s).core fd ≡ drop n (whole s)
  placed_rest s h =
      P.offset_rest n (K.getf fd (begin K s).1).1 small
        (subst (λ xs. n ≤ length xs) (sym (same_whole s)) h)
      ∙ ap (drop n) (same_whole s)

  pwrite_placed :
      (buf : List ℕ) (count : ℕ) (s : Sys K.Core)
      → v6fs_pwrite K fd buf count (pos n) s ≡ v6fs_write K fd buf count (placed s)
  unfolding v6fs_pwrite ◌>>=◌
  pwrite_placed buf count s =
      ap (λ r. (if is_neg r.0 then pure (some r.0) else v6fs_write K fd buf count) r.1)
        (v6fs_seek_at K fd n small s low P.is_open)
      ∙ apply_else _ _ (is_neg (pos n)) (placed s) (ground arith)

  pread_placed :
      (count : ℕ) (s : Sys K.Core)
      → v6fs_pread K fd count (pos n) s ≡ v6fs_read K fd count (placed s)
  unfolding v6fs_pread ◌>>=◌
  pread_placed count s =
      ap (λ r. (if is_neg r.0 then pure (some (r.0, [])) else v6fs_read K fd count) r.1)
        (v6fs_seek_at K fd n small s low P.is_open)
      ∙ apply_else _ _ (is_neg (pos n)) (placed s) (ground arith)

  -- What a write that took all its bytes leaves before the offset.
  all_written :
      (buf old new : List ℕ) (r : Option ℤ × Sys K.Core) (t : Sys K.Core)
      → Wrote K fd r t new old buf (length buf) 0
      → r.0 ≡ some (pos (length buf))
      → new ≡ old ++ buf
  all_written buf old new r t w e =
      w.added ∙ ap (λ xs. old ++ xs) (ap (λ m. take m buf) (taken_all w.answer) ∙ take_all buf)
    where
      taken_all : Answer K fd r buf t w.written (length buf) 0 → w.written ≡ length buf
      taken_all (inl (f, all)) =
          let g : some (pos (0 + w.written)) ≡ some (pos (length buf)) = sym f ∙ e in
          ground (arith, g)
      taken_all (inr (c, (bytes, at, sent, same, d, g), f)) =
          absurd (length_not_error c (length buf) d (sym f ∙ e))

  taken :
      (xs buf ys : List ℕ)
      → n ≤ length xs
      → take (length buf) (drop n ((take n xs ++ buf) ++ ys)) ≡ buf
  taken xs buf ys h =
      let front : length (take n xs) ≡ n = omega (arith, length-take n xs) in
      ap (λ zs. take (length buf) (drop n zs)) (append_assoc (take n xs) buf ys)
      ∙ ap (λ m. take (length buf) (drop m (take n xs ++ (buf ++ ys)))) (sym front)
      ∙ ap (take (length buf)) (drop-length (take n xs) (buf ++ ys))
      ∙ take-length buf ys

  -- Bytes that a write puts at a place in a file, within or just behind its bytes, are what a read of as
  -- many bytes at that place hands over, where the write answers that it took them all and the kernel's
  -- reads and writes of at most 65535 bytes do what they document, the reads without an error.
  pub v6fs_pread-v6fs_pwrite :
      (buf : List ℕ) (s : Sys K.Core)
      → ((m : ℕ) (t : Sys K.Core) → m ≤ 65535 → t.error ≡ 0 → (K.rdwr_read fd m t).1.error ≡ 0)
      → length buf < 2 ^ 64
      → n ≤ length (whole s)
      → (v6fs_pwrite K fd buf (length buf) (pos n) s).0 ≡ some (pos (length buf))
      → (v6fs_pread K fd (length buf) (pos n) (v6fs_pwrite K fd buf (length buf) (pos n) s).1).0
        ≡ some (pos (length buf), buf)
  v6fs_pread-v6fs_pwrite buf s works w inside full =
      let t = placed s in
      let u = (v6fs_pwrite K fd buf (length buf) (pos n) s).1 in
      let same = pwrite_placed buf (length buf) s in
      let wrote =
        all_written buf (W.done t.core fd) (W.done (v6fs_write K fd buf (length buf) t).1.core fd)
          (v6fs_write K fd buf (length buf) t) (K.refreshclock t).1
          (v6fs_write-Wrote K W fd buf (length buf) t w refl) (ap (λ r. r.0) (sym same) ∙ full) in
      let grown : W.done u.core fd ≡ take n (whole s) ++ buf =
        ap (λ r. W.done r.1.core fd) same ∙ wrote ∙ ap (λ xs. xs ++ buf) (placed_done s inside) in
      let room : n ≤ length (whole u) = omega (
        arith,
        ap length grown,
        length-take n (whole s),
        length-append (take n (whole s)) buf,
        length-append (W.done u.core fd) (R.rest u.core fd),
      ) in
      let there : take (length buf) (R.rest (placed u).core fd) ≡ buf =
        ap (take (length buf))
          (placed_rest u room ∙ ap (λ xs. drop n (xs ++ R.rest u.core fd)) grown)
        ∙ taken (whole s) buf (R.rest u.core fd) inside in
      ap (λ r. r.0) (pread_placed (length buf) u)
      ∙ (v6fs_read_lem K R fd (length buf) (placed u) works w).0
      ∙ ap (λ xs. some (pos (length xs), xs)) there
