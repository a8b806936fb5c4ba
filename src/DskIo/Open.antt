-- ===== src/DskIo/Open.antt =====
-- `dsk_open` of src/dskio.c: when it opens, and what it never does to an existing file.
use retro_fuse.Prelude.{
  ℕ, ◌/◌, ◌≡◌, refl, ◌≢◌, ◌⊎◌, inl, inr, Bool, true, false, none, some, arith, Option-cases,
  if◌then◌else◌,
}
use retro_fuse.Prelude.Int.{ℤ, pos, neg, ◌+ℤ◌, ◌-ℤ◌, scale, ltb_ℤ, leb_ℤ, ◌<ℤ◌, ◌≤ℤ◌}
use retro_fuse.Errno.{eexist, enoent}
use retro_fuse.DskIo.Interface.{
  Bytes, Host, ReportsErrors, Stat, regular, block_device, other, absent, OpenFlags, gave, failed,
  Answer-cases,
}
use retro_fuse.DskIo.{
  Dsk, OpenArgs, prepare, dsk_blksize, llong_max, setsize, close, device_size, enlarge,
  open_prepared, start_open, dsk_open,
}

-- The flags that `dsk_open` passes to the host: an existing image file is truncated only where
-- both `create` and `overwrite` are given, a file is created only where it does not exist and
-- `create` is given, and then exclusively; and the file is opened for writing unless `ro` is given
-- without `create`.
prepare_flags :
    (a : OpenArgs) (found : Stat) (b : Bool) (f : OpenFlags)
    → (prepare a found b).outcome ≡ gave f
    → (f.truncate ≡ true → (found ≡ regular) × (a.create ≡ true) × (a.overwrite ≡ true))
      × (f.exclusive ≡ true → (found ≡ absent enoent) × (a.create ≡ true))
      × (f.writable ≡ false → (a.ro ≡ true) × (a.create ≡ false))
      × (found ≡ regular → a.create ≡ true → f.truncate ≡ true)
unfolding prepare
prepare_flags a regular b f e = ground arith
prepare_flags a block_device b f e = ground arith
prepare_flags a other b f e = ground arith
prepare_flags a (absent errno) b f e = ground arith

neg_negative : (e : ℕ) → e ≢ 0 → neg e <ℤ pos 0
neg_negative e h = ground arith

prepare_errno :
    (a : OpenArgs) (found : Stat) (b : Bool) (e : ℕ)
    → ((n : ℕ) → found ≡ absent n → n ≢ 0)
    → (prepare a found b).outcome ≡ failed e
    → e ≢ 0
unfolding prepare
prepare_errno a regular b e h p = ground arith
prepare_errno a block_device b e h p = ground arith
prepare_errno a other b e h p = ground arith
prepare_errno a (absent n) b e h p = ground (arith, h n refl)

module _ (H : Host) (name : Bytes) (a : OpenArgs) where
  -- An open disk: its descriptor, its size in blocks, and the range of bytes of the file that it covers.
  -- The size is the one that was asked for, unless it is not positive and the storage is a block device,
  -- where it may be what the device has behind the offset.
  pub record Ready (d : Dsk) : Type 0 where
    pub is_open : d.fd ≢ none
    pub size_given : (pos 0 <ℤ a.size) ⊎ (d.isblkdev ≡ false) → d.size ≡ a.size
    pub size_found :
        a.size ≤ℤ pos 0
        → d.isblkdev ≡ true
        → (d.size ≡ a.size)
          ⊎ ((n fd : ℕ) × (t : H.State) × (d.fd ≡ some fd)
              × (H.device_bytes fd t ≡ some n)
              × (d.size ≡ pos (n / 512) -ℤ a.offset))
    pub start : d.start ≡ scale a.offset dsk_blksize
    pub limit :
        d.limit ≡ (if ltb_ℤ (pos 0) d.size then d.start +ℤ scale d.size dsk_blksize else llong_max)

  abbrev Result : ℤ × Dsk × H.State → Type 0
  Result (res, d, s) = ((res ≡ pos 0) × Ready d) ⊎ ((res <ℤ pos 0) × (d.fd ≡ none))

  device_size_given :
      (b : Bool) (fd : ℕ) (s : H.State)
      → (pos 0 <ℤ a.size) ⊎ (b ≡ false)
      → device_size H a b fd s ≡ a.size
  unfolding device_size
  device_size_given true fd s (inl h) = ground (arith, h)
  device_size_given true fd s (inr h) = absurd (ground (arith, h))
  device_size_given false fd s h = refl

  device_size_found :
      (b : Bool) (fd : ℕ) (s : H.State)
      → a.size ≤ℤ pos 0
      → b ≡ true
      → (device_size H a b fd s ≡ a.size)
        ⊎ ((n : ℕ) × (H.device_bytes fd s ≡ some n)
            × (device_size H a b fd s ≡ pos (n / 512) -ℤ a.offset))
  unfolding device_size
  device_size_found true fd s h e =
      let c : leb_ℤ a.size (pos 0) ≡ true = ground (arith, h) in
      elim (Option-cases (H.device_bytes fd s)) [
        | inl none_known ↦ inl (rw (c, none_known, device_size) refl)
        | inr (n, known) ↦ inr (n, known, rw (c, known, device_size) refl)
      ]
  device_size_found false fd s h e = absurd (ground (arith, e))

  enlarge-Result :
      (fd : ℕ) (d : Dsk) (s : H.State)
      → ReportsErrors H
      → Ready d
      → Result (enlarge H name a fd d s)
  unfolding enlarge close
  enlarge-Result fd d s L r = elim (Option-cases (H.ftruncate fd d.limit s).0) [
    | inl fine ↦ ground (arith, r)
    | inr (e, bad) ↦ ground (arith, r, L.ftruncate_errno fd d.limit s e bad)
  ]

  open_prepared-Result :
      (f : OpenFlags) (d : Dsk) (s : H.State)
      → ReportsErrors H
      → Result (open_prepared H name a f d s)
  unfolding open_prepared setsize
  open_prepared-Result f d s L = elim (Answer-cases (H.open_file name f s).0) [
    | inl (fd, e) ↦
        rw (e, open_prepared)
          (enlarge-Result fd _ _ L (record {
            is_open = λ q. cc;
            size_given = device_size_given d.isblkdev fd (H.open_file name f s).1;
            size_found = λ h b.
                elim (device_size_found d.isblkdev fd (H.open_file name f s).1 h b) [
                  | inl same ↦ inl same
                  | inr (n, known, e) ↦ inr (n, fd, (H.open_file name f s).1, refl, known, e)
                ];
            start = refl;
            limit = refl;
          }))
    | inr (errno, e) ↦
        rw (e, open_prepared) (inr (neg_negative errno (L.open_errno name f s errno e), refl))
  ]

  -- `dsk_open` on a closed disk returns 0 and leaves it open from the offset on, over as many blocks as
  -- the size says, or to the greatest offset where the size is not positive, or it returns a negative
  -- number and leaves it closed. The size is the one that was asked for, unless that is not positive and
  -- the storage is a block device: there it may be what the host says that the device has, less the offset.
  pub dsk_open-Result :
      (d : Dsk) (s : H.State) → ReportsErrors H → d.fd ≡ none → Result (dsk_open H name a d s)
  unfolding dsk_open
  dsk_open-Result d s L shut = elim (Answer-cases (prepare a (H.stat name s) d.isblkdev).outcome) [
    | inl (f, e) ↦ ground (
      arith,
      open_prepared-Result f
          (record d { isblkdev = (prepare a (H.stat name s) d.isblkdev).isblkdev }) s L,
    )
    | inr (errno, e) ↦
        rw (e, start_open)
          (inr (
            neg_negative errno
                (prepare_errno a (H.stat name s) d.isblkdev errno (L.stat_errno name s) e),
            shut,
          ))
  ]

-- Creating over an existing image file without `overwrite` fails with -EEXIST, and the host is not
-- asked to change anything.
dsk_open_existing :
    (H : Host) (name : Bytes) (a : OpenArgs) (d : Dsk) (s : H.State)
    → H.stat name s ≡ regular
    → a.create ≡ true
    → a.overwrite ≡ false
    → dsk_open H name a d s ≡ (neg eexist, record d { isblkdev = false }, s)
unfolding dsk_open
dsk_open_existing H name a d s e c o = ground arith
