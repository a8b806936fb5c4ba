-- ===== src/DskIo/Tests.antt =====
-- A host whose only file is a function from offsets to bytes, and the theorems of src/dskio.c on it.
use retro_fuse.Prelude.{
  ℕ, zero, suc, ◌+◌, ◌≤◌, ◌<◌, ◌≡◌, refl, ap, sym, ◌∙◌, ◌≢◌, ◌⊎◌, inr, true, false, none, some, [],
  ◌∷◌, arith, if◌then◌else◌, ◌&&◌, length, take, get_or,
}
use retro_fuse.Prelude.Int.{
  ℤ, pos, pos_part, neg_part, ◌+ℤ◌, ◌-ℤ◌, scale, leb_ℤ, ltb_ℤ, ◌<ℤ◌, int_laws, +ℤ_parts,
}
use retro_fuse.Errno.{enoent}
use retro_fuse.DskIo.Interface.{
  Bytes, Host, Stat, regular, absent, gave, ReportsErrors, TransfersBytes,
}
use retro_fuse.DskIo.{Dsk, OpenArgs, closed_dsk, dsk_open, dsk_read, dsk_write}
use retro_fuse.DskIo.Open.{Ready, dsk_open-Result}
use retro_fuse.DskIo.Access.{dsk_write_frame, dsk_read-dsk_write}

abbrev pub File : Type 0
File = ℤ → ℕ

abbrev read_from : ℕ → ℤ → File → Bytes
read_from zero off s = []
read_from (suc n) off s = s off ∷ read_from n (off +ℤ pos 1) s

abbrev write_to : Bytes → ℤ → File → File
write_to bs off s = λ p.
    if leb_ℤ off p && ltb_ℤ p (off +ℤ pos (length bs))
    then get_or bs (pos_part (p -ℤ off)) 0
    else s p

abbrev found : Bytes → Stat
found [] = regular
found (c ∷ name) = absent enoent

abbrev pub memory_host : Host
memory_host = record {
  State = File;
  stat = λ name s. found name;
  open_file = λ name f s. (gave 3, s);
  close = λ fd s. s;
  unlink = λ name s. s;
  device_bytes = λ fd s. none;
  ftruncate = λ fd n s. (none, s);
  fsync = λ fd s. (none, s);
  pread = λ fd n off s. gave (read_from n off s);
  pwrite = λ fd bs off s. (gave (length bs), write_to bs off s);
  byte = λ s fd p. s p;
}

length-read_from : (n : ℕ) (off : ℤ) (s : File) → length (read_from n off s) ≡ n
length-read_from zero off s = refl
length-read_from (suc n) off s = ap suc (length-read_from n (off +ℤ pos 1) s)

get_or-read_from :
    (n : ℕ) (off : ℤ) (s : File) (i : ℕ) → i < n → get_or (read_from n off s) i 0 ≡ s (off +ℤ pos i)
get_or-read_from zero off s i h = absurd (omega arith)
get_or-read_from (suc n) off s zero h = ap s (omega int_laws)
get_or-read_from (suc n) off s (suc i) h =
    get_or-read_from n (off +ℤ pos 1) s i (omega arith) ∙ ap s (omega int_laws)

write_to_inside :
    (bs : Bytes) (off : ℤ) (s : File) (i : ℕ)
    → i < length bs
    → write_to bs off s (off +ℤ pos i) ≡ get_or bs i 0
write_to_inside bs off s i h =
    rw (ap pos_part same) (ground (arith, +ℤ_parts off (pos i), +ℤ_parts off (pos (length bs))))
  where
    same : off +ℤ pos i -ℤ off ≡ pos i
    same = omega int_laws

write_to_outside :
    (bs : Bytes) (off p : ℤ) (s : File)
    → (p <ℤ off)
      ⊎ (pos_part (off +ℤ pos (length bs)) + neg_part p
          ≤ pos_part p + neg_part (off +ℤ pos (length bs)))
    → write_to bs off s p ≡ s p
write_to_outside bs off p s h = ground arith

memory-ReportsErrors : ReportsErrors memory_host
memory-ReportsErrors = record {
  stat_errno = λ name s e h. stat_names name e h;
  open_errno = λ name f s e h. cc;
  ftruncate_errno = λ fd n s e h. cc;
}
  where
    stat_names : (name : Bytes) (e : ℕ) → found name ≡ absent e → e ≢ 0
    stat_names [] e h = cc
    stat_names (c ∷ name) e h = ground arith

pub memory-TransfersBytes : TransfersBytes memory_host
memory-TransfersBytes = record {
  pread_length = λ fd n off s bs h. ground (arith, length-read_from n off s);
  pread_bytes = λ fd n off s bs i h lt. read_bytes n off s bs i h lt;
  pwrite_length = λ fd bs off s n h. ground arith;
  pwrite_bytes = λ fd bs off s n i h lt. write_to_inside bs off s i (ground arith);
  pread_errno = λ fd n off s e h. cc;
  pwrite_errno = λ fd bs off s e h. cc;
  pwrite_frame = λ fd bs off p s h. write_to_outside bs off p s h;
}
  where
    read_bytes :
        (n : ℕ) (off : ℤ) (s : File) (bs : Bytes) (i : ℕ)
        → gave (read_from n off s) ≡ gave bs
        → i < length bs
        → get_or bs i 0 ≡ s (off +ℤ pos i)
    read_bytes n off s bs i h lt =
        let e : read_from n off s ≡ bs = cc in
        ap (λ (b : Bytes). get_or b i 0) (sym e)
        ∙ get_or-read_from n off s i (omega (arith, length-read_from n off s, ap length e))

-- A disk of 4 blocks behind an offset of 2.
abbrev four_blocks : OpenArgs
four_blocks = record { size = pos 4; offset = pos 2; create = true; overwrite = false; ro = false }

abbrev pub disk : Dsk
disk = record { fd = some 3; size = pos 4; start = pos 1024; limit = pos 3072; isblkdev = false }

abbrev pub blank : File
blank p = 0

create_image : dsk_open memory_host (1 ∷ []) four_blocks closed_dsk blank ≡ (pos 0, disk, blank)
unfolding dsk_open ◌+ℤ◌ scale
create_image = refl

write_block : (dsk_write memory_host disk (pos 1) (pos 2) (7 ∷ 8 ∷ []) blank).1 (pos 1537) ≡ 8
unfolding dsk_write ◌+ℤ◌ ◌-ℤ◌ scale
write_block = refl

write_behind_end : dsk_write memory_host disk (pos 4) (pos 2) (7 ∷ 8 ∷ []) blank ≡ (pos 0, blank)
unfolding dsk_write ◌+ℤ◌ scale
write_behind_end = refl

dsk_open-Result_example :
    let r = dsk_open memory_host (1 ∷ []) four_blocks closed_dsk blank in
    ((r.0 ≡ pos 0) × Ready memory_host (1 ∷ []) four_blocks r.1)
    ⊎ ((r.0 <ℤ pos 0) × (r.1.fd ≡ none))
dsk_open-Result_example =
    dsk_open-Result memory_host (1 ∷ []) four_blocks closed_dsk blank memory-ReportsErrors refl

dsk_write_frame_example :
    (dsk_write memory_host disk (pos 3) (pos 2) (7 ∷ 8 ∷ []) blank).1 (pos 3072) ≡ 0
dsk_write_frame_example =
    dsk_write_frame memory_host memory-TransfersBytes disk (pos 3) (pos 2) (7 ∷ 8 ∷ []) (pos 3072)
      blank (inr (omega arith))

dsk_read-dsk_write_example :
    let s : File = (dsk_write memory_host disk (pos 1) (pos 2) (7 ∷ 8 ∷ []) blank).1 in
    take 2 (dsk_read memory_host disk (pos 1) (pos 2) (0 ∷ 0 ∷ []) s).1 ≡ 7 ∷ 8 ∷ []
unfolding dsk_read dsk_write ◌+ℤ◌ scale
dsk_read-dsk_write_example =
    dsk_read-dsk_write memory_host memory-TransfersBytes disk (pos 1) (pos 2) (7 ∷ 8 ∷ [])
      (0 ∷ 0 ∷ []) blank (omega arith, omega arith, omega arith) (omega arith) refl refl
