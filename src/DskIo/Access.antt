-- ===== src/DskIo/Access.antt =====
-- `dsk_read` and `dsk_write` of src/dskio.c: what a write changes, and what a read gets back.
use retro_fuse.Prelude.{
  ℕ, ◌≤◌, ◌<◌, ◌≡◌, refl, ◌∙◌, ◌⊎◌, inl, inr, false, ◌++◌, arith, Bool-cases, length, take, drop,
  get_or, length-take, take-append_of_length, eq_of_get_or,
}
use retro_fuse.Prelude.Int.{ℤ, pos, negsuc, pos_part, neg_part, ◌+ℤ◌, scale, ◌≤ℤ◌, ◌<ℤ◌, int_laws}
use retro_fuse.DskIo.Interface.{Bytes, Host, TransfersBytes, gave, Answer-cases}
use retro_fuse.DskIo.{Dsk, dsk_blksize, out_of_range, dsk_read, dsk_write}

-- The offset of a block in the file.
abbrev pub position : Dsk → ℤ → ℤ
position d blkno = d.start +ℤ scale blkno dsk_blksize

-- The transfer lies in the virtual disk.
abbrev pub Within : Dsk → (blkno count : ℤ) → Type 0
Within d blkno count =
    (pos 0 ≤ℤ count) × (d.start ≤ℤ position d blkno) × (position d blkno +ℤ count ≤ℤ d.limit)

Within-of-test :
    (H : Host) (d : Dsk) (blkno count : ℤ)
    → out_of_range H d blkno count ≡ false
    → Within d blkno count
unfolding out_of_range
Within-of-test H d blkno count e = ground arith

out_of_range-Within :
    (H : Host) (d : Dsk) (blkno count : ℤ)
    → Within d blkno count
    → out_of_range H d blkno count ≡ false
unfolding out_of_range
out_of_range-Within H d blkno count w = ground arith

neg_part_of_nonneg : (c : ℤ) → pos 0 ≤ℤ c → neg_part c ≡ 0
neg_part_of_nonneg (pos n) h = refl
neg_part_of_nonneg (negsuc n) h = absurd (omega arith)

module _ (H : Host) (L : TransfersBytes H) (d : Dsk) (blkno count : ℤ) where
  abbrev written : (buf : Bytes) (s : H.State) → H.State
  written buf s = (H.pwrite d.fd (take (pos_part count) buf) (position d blkno) s).1

  dsk_write-written :
      (buf : Bytes) (s : H.State)
      → out_of_range H d blkno count ≡ false
      → (dsk_write H d blkno count buf s).1 ≡ written buf s
  unfolding dsk_write
  dsk_write-written buf s e = ground arith

  -- Whatever `dsk_write` returns, no byte of the file before the start of the virtual disk or
  -- from its end on has changed.
  pub dsk_write_frame :
      (buf : Bytes) (p : ℤ) (s : H.State)
      → (p <ℤ d.start) ⊎ (d.limit ≤ℤ p)
      → H.byte (dsk_write H d blkno count buf s).1 d.fd p ≡ H.byte s d.fd p
  unfolding dsk_write
  dsk_write_frame buf p s outside = elim (Bool-cases (out_of_range H d blkno count)) [
    | inl skip ↦ rw (skip, dsk_write)
    | inr e ↦
        let (nonneg, low, high) = Within-of-test H d blkno count e in
        let bytes : Bytes = take (pos_part count) buf in
        rw (dsk_write-written buf s e) (
          L.pwrite_frame d.fd bytes (position d blkno) p s (elim outside [
            | inl before ↦ inl (omega int_laws)
            | inr behind ↦ inr (
                omega (int_laws, length-take (pos_part count) buf, neg_part_of_nonneg count nonneg))
          ]))
  ]

  -- A transfer that returns 0 inside the disk has moved every byte.
  write_complete :
      (buf : Bytes) (s : H.State)
      → Within d blkno count
      → (dsk_write H d blkno count buf s).0 ≡ pos 0
      → (H.pwrite d.fd (take (pos_part count) buf) (position d blkno) s).0 ≡ gave (pos_part count)
  unfolding dsk_write
  write_complete buf s w r =
      elim (Answer-cases (H.pwrite d.fd (take (pos_part count) buf) (position d blkno) s).0) [
        | inl (n, e) ↦ ground (arith, e, out_of_range-Within H d blkno count w)
        | inr (errno, e) ↦ ground (
          arith,
          e,
          out_of_range-Within H d blkno count w,
          L.pwrite_errno d.fd (take (pos_part count) buf) (position d blkno) s errno e,
        )
      ]

  read_complete :
      (buf : Bytes) (s : H.State)
      → Within d blkno count
      → (dsk_read H d blkno count buf s).0 ≡ pos 0
      → (bytes : Bytes) × (H.pread d.fd (pos_part count) (position d blkno) s ≡ gave bytes)
        × (length bytes ≡ pos_part count)
        × ((dsk_read H d blkno count buf s).1 ≡ bytes ++ drop (length bytes) buf)
  unfolding dsk_read
  read_complete buf s w r =
      elim (Answer-cases (H.pread d.fd (pos_part count) (position d blkno) s)) [
        | inl (bytes, e) ↦ (
          bytes,
          e,
          ground (arith, e, out_of_range-Within H d blkno count w),
          ground (arith, e, out_of_range-Within H d blkno count w),
        )
        | inr (errno, e) ↦ absurd (
            ground (
              arith,
              e,
              out_of_range-Within H d blkno count w,
              L.pread_errno d.fd (pos_part count) (position d blkno) s errno e,
            ))
      ]

  -- What a complete write put at a block is what a complete read of as many bytes gets back.
  pub dsk_read-dsk_write :
      (buf old : Bytes) (s : H.State)
      → Within d blkno count
      → pos_part count ≤ length buf
      → (dsk_write H d blkno count buf s).0 ≡ pos 0
      → (dsk_read H d blkno count old (dsk_write H d blkno count buf s).1).0 ≡ pos 0
      → take (pos_part count) (dsk_read H d blkno count old (dsk_write H d blkno count buf s).1).1
        ≡ take (pos_part count) buf
  dsk_read-dsk_write buf old s w long done got = read_back
    where
      n : ℕ
      n = pos_part count

      t : H.State
      t = (dsk_write H d blkno count buf s).1

      same_state : t ≡ written buf s
      same_state = dsk_write-written buf s (out_of_range-Within H d blkno count w)

      full : (H.pwrite d.fd (take n buf) (position d blkno) s).0 ≡ gave n
      full = write_complete buf s w done

      reading :
          (bytes : Bytes) × (H.pread d.fd n (position d blkno) t ≡ gave bytes)
          × (length bytes ≡ n)
          × ((dsk_read H d blkno count old t).1 ≡ bytes ++ drop (length bytes) old)
      reading = read_complete old t w got

      byte_at : (i : ℕ) → i < length reading.0 → get_or reading.0 i 0 ≡ get_or (take n buf) i 0
      byte_at i lt =
          L.pread_bytes d.fd n (position d blkno) t reading.0 i reading.1 lt
          ∙ rw same_state (
              L.pwrite_bytes d.fd (take n buf) (position d blkno) s n i full
                (omega (arith, reading.2)))

      read_back : take n (dsk_read H d blkno count old t).1 ≡ take n buf
      read_back = rw reading.3 (
          take-append_of_length n reading.0 _ reading.2
          ∙ eq_of_get_or 0 reading.0 (take n buf) (omega (arith, reading.2, length-take n buf))
              byte_at)
