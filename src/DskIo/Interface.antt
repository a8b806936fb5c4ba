-- ===== src/DskIo/Interface.antt =====
-- The calls of the host system that src/dskio.c makes, over an unknown state, and what the code
-- relies on. A descriptor `none` is -1.
use retro_fuse.Prelude.{
  ℕ, ◌≤◌, ◌<◌, ◌≡◌, ◌≢◌, ◌⊎◌, inl, inr, refl, Bool, Option, some, List, length, get_or,
}
use retro_fuse.Prelude.Int.{ℤ, pos, ◌+ℤ◌, ◌≤ℤ◌, ◌<ℤ◌}

abbrev pub Bytes : Type 0
Bytes = List ℕ

-- What `stat` tells of a name, or the error number.
pub data Stat : Type 0 where
  regular block_device other : Stat
  absent : ℕ → Stat

-- O_RDWR (or O_RDONLY), O_TRUNC, and O_CREAT with O_EXCL.
pub record OpenFlags : Type 0 where
  pub writable : Bool
  pub truncate : Bool
  pub exclusive : Bool

pub data Answer {ℓ} (A : Type ℓ) : Type ℓ where
  gave : A → Answer A
  failed : ℕ → Answer A

pub Answer-cases {ℓ} :
    {A : Type ℓ} (r : Answer A) → ((x : A) × (r ≡ gave x)) ⊎ ((e : ℕ) × (r ≡ failed e))
Answer-cases (gave x) = inl (x, refl)
Answer-cases (failed e) = inr (e, refl)

pub record Host : Type 1 where
  pub State : Type 0
  pub stat : Bytes → State → Stat
  pub open_file : Bytes → OpenFlags → State → Answer ℕ × State
  pub close : ℕ → State → State
  pub unlink : Bytes → State → State
  pub device_bytes : ℕ → State → Option ℕ
  pub ftruncate : ℕ → ℤ → State → Option ℕ × State
  pub fsync : Option ℕ → State → Option ℕ × State
  pub pread : Option ℕ → (count : ℕ) → (offset : ℤ) → State → Answer Bytes
  pub pwrite : Option ℕ → Bytes → (offset : ℤ) → State → Answer ℕ × State
  pub byte : State → Option ℕ → ℤ → ℕ

-- Error numbers are not 0.
pub record ReportsErrors (H : Host) : Type 0 where
  pub stat_errno : (name : Bytes) (s : H.State) (e : ℕ) → H.stat name s ≡ absent e → e ≢ 0
  pub open_errno :
      (name : Bytes) (f : OpenFlags) (s : H.State) (e : ℕ)
      → (H.open_file name f s).0 ≡ failed e
      → e ≢ 0
  pub ftruncate_errno :
      (fd : ℕ) (n : ℤ) (s : H.State) (e : ℕ) → (H.ftruncate fd n s).0 ≡ some e → e ≢ 0

-- Positioned reads and writes as POSIX describes them.
pub record TransfersBytes (H : Host) : Type 0 where
  pub pread_length :
      (fd : Option ℕ) (n : ℕ) (off : ℤ) (s : H.State) (bs : Bytes)
      → H.pread fd n off s ≡ gave bs
      → length bs ≤ n
  pub pread_bytes :
      (fd : Option ℕ) (n : ℕ) (off : ℤ) (s : H.State) (bs : Bytes) (i : ℕ)
      → H.pread fd n off s ≡ gave bs
      → i < length bs
      → get_or bs i 0 ≡ H.byte s fd (off +ℤ pos i)
  pub pwrite_length :
      (fd : Option ℕ) (bs : Bytes) (off : ℤ) (s : H.State) (n : ℕ)
      → (H.pwrite fd bs off s).0 ≡ gave n
      → n ≤ length bs
  pub pwrite_bytes :
      (fd : Option ℕ) (bs : Bytes) (off : ℤ) (s : H.State) (n i : ℕ)
      → (H.pwrite fd bs off s).0 ≡ gave n
      → i < n
      → H.byte (H.pwrite fd bs off s).1 fd (off +ℤ pos i) ≡ get_or bs i 0
  pub pread_errno :
      (fd : Option ℕ) (n : ℕ) (off : ℤ) (s : H.State) (e : ℕ)
      → H.pread fd n off s ≡ failed e
      → e ≢ 0
  pub pwrite_errno :
      (fd : Option ℕ) (bs : Bytes) (off : ℤ) (s : H.State) (e : ℕ)
      → (H.pwrite fd bs off s).0 ≡ failed e
      → e ≢ 0
  -- Only bytes of the range are ever written.
  pub pwrite_frame :
      (fd : Option ℕ) (bs : Bytes) (off p : ℤ) (s : H.State)
      → (p <ℤ off) ⊎ (off +ℤ pos (length bs) ≤ℤ p)
      → H.byte (H.pwrite fd bs off s).1 fd p ≡ H.byte s fd p
