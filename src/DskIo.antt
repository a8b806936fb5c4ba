-- ===== src/DskIo.antt =====
-- src/dskio.c and src/dskio.h: the virtual disk on a device or image file. The host's calls (stat,
-- open, ioctl, ftruncate, pread, pwrite, fsync, close, unlink) are the parameter `Host` of
-- DskIo/Interface.antt. The static variables of the file are the record `Dsk`; offsets are unbounded
-- integers, where the source has 64 bits.
pub mod Interface
pub mod Open
pub mod Access
pub mod Tests
use retro_fuse.Prelude.{
  ℕ, ◌+◌, ◌-◌, ◌/◌, ◌^◌, Bool, true, false, not, ◌&&◌, ◌||◌, Option, none, some, List, ◌++◌, ltb,
  ◌==◌, if◌then◌else◌, length, take, drop,
}
use retro_fuse.Prelude.Int.{
  ℤ, pos, neg, pos_part, neg_part, ◌+ℤ◌, ◌-ℤ◌, scale, ltb_ℤ, leb_ℤ, is_neg,
}
use retro_fuse.Errno.{eio, eexist, einval, enoent, enotblk}
use retro_fuse.DskIo.Interface.{
  Bytes, Host, Stat, regular, block_device, other, absent, OpenFlags, Answer, gave, failed,
}

abbrev pub dsk_blksize : ℕ
dsk_blksize = 512

abbrev pub llong_max : ℤ
llong_max = pos 9223372036854775807

-- `fd` is none for the descriptor -1.
pub record Dsk : Type 0 where
  pub fd : Option ℕ
  pub size : ℤ
  pub start : ℤ
  pub limit : ℤ
  pub isblkdev : Bool

-- The static initial values.
abbrev pub closed_dsk : Dsk
closed_dsk = record { fd = none; size = neg 1; start = neg 1; limit = neg 1; isblkdev = false }

unfoldable pub setsize : ℤ → Dsk → Dsk
setsize size d = record d {
  size = size;
  limit = if ltb_ℤ (pos 0) size then d.start +ℤ scale size dsk_blksize else llong_max;
}

unfoldable pub getsize : Dsk → ℤ
getsize d = d.size

-- What the code before the open call decides: an error, or the open flags; either way whether the
-- storage is a block device.
pub record Prepared : Type 0 where
  pub isblkdev : Bool
  pub outcome : Answer OpenFlags

-- The arguments of `dsk_open` but the name.
pub record OpenArgs : Type 0 where
  pub size : ℤ
  pub offset : ℤ
  pub create : Bool
  pub overwrite : Bool
  pub ro : Bool

pub prepare : OpenArgs → Stat → (isblkdev : Bool) → Prepared
prepare a regular b =
    let writable = not (a.ro && not a.create) in
    record {
      isblkdev = false;
      outcome =
          if a.create
          then if a.overwrite
            then gave (record { writable = writable; truncate = true; exclusive = false })
            else failed eexist
          else gave (record { writable = writable; truncate = false; exclusive = false });
    }
prepare a block_device b = record {
  isblkdev = true;
  outcome =
      gave (record { writable = not (a.ro && not a.create); truncate = false; exclusive = false });
}
prepare a other b = record { isblkdev = false; outcome = failed enotblk }
prepare a (absent errno) b =
    if not (errno == enoent) || not a.create
    then record { isblkdev = b; outcome = failed errno }
    else record {
      isblkdev = false;
      outcome =
          gave
            (record { writable = not (a.ro && not a.create); truncate = false; exclusive = true });
    }

module _ (H : Host) where
  -- A call returns its result, the static variables and the host.
  abbrev pub Outcome : Type 0
  Outcome = ℤ × Dsk × H.State

  unfoldable pub close : Dsk → H.State → Dsk × H.State
  close d s = elim d.fd [ none ↦ (d, s) | some fd ↦ (record d { fd = none }, H.close fd s) ]

  -- The size in blocks of a block device whose size was not given (on Linux).
  device_size : OpenArgs → (isblkdev : Bool) → ℕ → H.State → ℤ
  device_size a isblkdev fd s =
      if isblkdev && leb_ℤ a.size (pos 0)
      then elim (H.device_bytes fd s) [ none ↦ a.size | some n ↦ pos (n / dsk_blksize) -ℤ a.offset ]
      else a.size

  -- The end of `dsk_open`: an image file that is created grows to the size of the disk.
  enlarge : Bytes → OpenArgs → ℕ → Dsk → H.State → Outcome
  enlarge name a fd d s =
      if not d.isblkdev && a.create
      then (let (r, s') = H.ftruncate fd d.limit s in
          elim r [
            | none ↦ (pos 0, d, s')
            | some errno ↦ let (d', t) = close d s' in (neg errno, d', H.unlink name t)
          ])
      else (pos 0, d, s)

  -- From the open call on.
  open_prepared : Bytes → OpenArgs → OpenFlags → Dsk → H.State → Outcome
  open_prepared name a flags d s =
      let (r, s') = H.open_file name flags s in
      elim r [
        | failed errno ↦ (neg errno, record d { fd = none }, s')
        | gave fd ↦
            enlarge name a fd
              (setsize (device_size a d.isblkdev fd s')
                (record d { fd = some fd; start = scale a.offset dsk_blksize }))
              s'
      ]

  start_open : Bytes → OpenArgs → Prepared → Dsk → H.State → Outcome
  start_open name a p d s = elim p.outcome [
    | failed errno ↦ (neg errno, record d { isblkdev = p.isblkdev }, s)
    | gave flags ↦
        if not p.isblkdev && a.create && leb_ℤ a.size (pos 0)
        then (neg einval, record d { isblkdev = p.isblkdev }, s)
        else open_prepared name a flags (record d { isblkdev = p.isblkdev }) s
  ]

  unfoldable pub dsk_open : Bytes → OpenArgs → Dsk → H.State → Outcome
  unfolding prepare start_open open_prepared enlarge device_size close setsize
  dsk_open name a d s = start_open name a (prepare a (H.stat name s) d.isblkdev) d s

  -- Whether a transfer of `count` bytes at a block lies outside the virtual disk.
  out_of_range : Dsk → (blkno count : ℤ) → Bool
  out_of_range d blkno count =
      let blkoff = d.start +ℤ scale blkno dsk_blksize in
      is_neg count || ltb_ℤ blkoff d.start || ltb_ℤ d.limit (blkoff +ℤ count)

  -- The result of a transfer: all bytes, or an error.
  transferred : ℕ → ℕ → ℤ
  transferred got count = if got == count then pos 0 else neg eio

  -- The buffer holds at least `count` bytes, and is returned with what was read. A closed disk
  -- passes the descriptor -1 to the host, which answers EBADF.
  unfoldable pub dsk_read : Dsk → (blkno count : ℤ) → Bytes → H.State → ℤ × Bytes
  unfolding out_of_range transferred
  dsk_read d blkno count buf s =
      if out_of_range d blkno count
      then (pos 0, buf)
      else elim (H.pread d.fd (pos_part count) (d.start +ℤ scale blkno dsk_blksize) s) [
        | failed errno ↦ (neg errno, buf)
        | gave bytes ↦
            (transferred (length bytes) (pos_part count), bytes ++ drop (length bytes) buf)
      ]

  unfoldable pub dsk_write : Dsk → (blkno count : ℤ) → Bytes → H.State → ℤ × H.State
  unfolding out_of_range transferred
  dsk_write d blkno count buf s =
      if out_of_range d blkno count
      then (pos 0, s)
      else let bytes = take (pos_part count) buf in
        let (r, s') = H.pwrite d.fd bytes (d.start +ℤ scale blkno dsk_blksize) s in
        elim r [ failed errno ↦ (neg errno, s') | gave n ↦ (transferred n (pos_part count), s') ]

  unfoldable pub dsk_flush : Dsk → H.State → ℤ × H.State
  dsk_flush d s =
      let (r, s') = H.fsync d.fd s in elim r [ none ↦ (pos 0, s') | some errno ↦ (neg errno, s') ]
