-- ===== src/V6adapt/Strategy.antt =====
-- The device of src/v6adapt.c: the strategy routine, over the virtual disk of DskIo, the clock, and the
-- functions through which the kernel reads the characters of a path.
use retro_fuse.Prelude.{
  ℕ, zero, suc, ◌/◌, ◌^◌, ◌≡◌, refl, Bool, true, false, ◌||◌, not, Option, none, some, List, [],
  ◌∷◌, if◌then◌else◌, ◌==◌, length, take, get_or, ◌≤◌, arith, ◌≢◌,
}
use retro_fuse.Prelude.Int.{ℤ, pos, ◌-ℤ◌, scale, pos_part, eqb_ℤ, eq_of_parts}
use retro_fuse.Prelude.Words.{low, signed}
use retro_fuse.DskIo.Interface.{Bytes, Host, TransfersBytes}
use retro_fuse.DskIo.{Dsk, dsk_read, dsk_write}
use retro_fuse.DskIo.Access.{Within, dsk_read-dsk_write}

-- The fields of `struct v6_buf` that are used: the flags B_READ and B_ERROR, the block number, the
-- negative number of words as a signed word, and the block in memory.
pub record Buf : Type 0 where
  pub b_read : Bool
  pub b_error : Bool
  pub b_blkno : ℕ
  pub b_wcount : ℕ
  pub b_addr : Bytes

-- `-bp->b_wcount * 2`
unfoldable pub byte_count : Buf → ℤ
byte_count bp = scale (pos 0 -ℤ signed 16 bp.b_wcount) 2

unfoldable pub finish_io : (ioRes : ℤ) → Buf → Buf
finish_io ioRes bp = record bp { b_error = bp.b_error || not (eqb_ℤ ioRes (pos 0)) }

-- `v6_time` for a host time: the high word first.
unfoldable pub refreshclock : (now : ℕ) → ℕ × ℕ
refreshclock now = (low 16 (now / 2 ^ 16), low 16 now)

module _ (H : Host) where
  unfoldable pub transfer : Dsk → Buf → H.State → Buf × H.State
  unfolding finish_io byte_count
  transfer d bp s =
      if bp.b_read
      then (let (ioRes, bytes) = dsk_read H d (pos bp.b_blkno) (byte_count bp) bp.b_addr s in
          (finish_io ioRes (record bp { b_addr = bytes }), s))
      else (let (ioRes, t) = dsk_write H d (pos bp.b_blkno) (byte_count bp) bp.b_addr s in
          (finish_io ioRes bp, t))

  -- The kernel's `v6_iodone` is handed the clock and the buffer.
  unfoldable pub strategy :
      {A : Type 0} → (iodone : ℕ × ℕ → Buf → A) → (now : ℕ) → Dsk → Buf → H.State → A × H.State
  unfolding transfer
  strategy iodone now d bp s = let (bp', t) = transfer d bp s in (iodone (refreshclock now) bp', t)

  no_error : (ioRes : ℤ) (bp : Buf) → (finish_io ioRes bp).b_error ≡ false → ioRes ≡ pos 0
  unfolding finish_io
  no_error ioRes bp h = ground (arith, eq_of_parts ioRes (pos 0), h)

  -- What the kernel writes to a block of the virtual disk is what it reads back from it, through two
  -- transfers of as many words that both end without B_ERROR, where the host moves bytes as POSIX
  -- describes it.
  pub strategy_lem :
      (L : TransfersBytes H) (d : Dsk) (bp : Buf) (old : Bytes) (s : H.State) (now later : ℕ)
      → Within d (pos bp.b_blkno) (byte_count bp)
      → pos_part (byte_count bp) ≤ length bp.b_addr
      → (let (written, t) = strategy (λ c b. b) now d (record bp { b_read = false }) s in
          let (got, t') =
            strategy (λ c b. b) later d (record bp { b_read = true; b_addr = old }) t in
          written.b_error ≡ false
          → got.b_error ≡ false
          → take (pos_part (byte_count bp)) got.b_addr ≡ take (pos_part (byte_count bp)) bp.b_addr)
  unfolding strategy transfer finish_io byte_count
  strategy_lem L d bp old s now later w long fine fine' =
      dsk_read-dsk_write H L d (pos bp.b_blkno) (byte_count bp) bp.b_addr old s w long
        (no_error _ (record bp { b_read = false }) fine)
        (no_error _ (record bp { b_read = true; b_addr = old }) fine')

-- `u_dirp`: the rest of the path up to its end, or the null pointer. A `char` is its code.
abbrev pub Dirp : Type 0
Dirp = Option (List ℕ)

-- `v6_schar` and `v6_uchar`: the next character, and 0 behind the last.
unfoldable pub next_char : Dirp → ℕ × Dirp
next_char none = (0, none)
next_char (some []) = (0, none)
next_char (some (c ∷ rest)) = if c == 0 then (0, none) else (c, some rest)

-- The pointer behind some calls.
unfoldable pub after_calls : ℕ → Dirp → Dirp
after_calls zero p = p
after_calls (suc k) p = after_calls k (next_char p).1

-- No 0 among the characters.
abbrev pub Text : List ℕ → Type 0
Text [] = Unit {0}
Text (c ∷ s) = (c ≢ 0) × Text s

ended_stays : (k : ℕ) → (next_char (after_calls k none)).0 ≡ 0
unfolding next_char after_calls
ended_stays zero = refl
ended_stays (suc k) = ended_stays k

test_false : (c : ℕ) → c ≢ 0 → (c == 0) ≡ false
test_false c h = ground (arith, h)

-- The calls hand over the characters of the path one by one, and 0 ever after.
next_char_lem :
    (path : List ℕ) (k : ℕ)
    → Text path
    → (next_char (after_calls k (some path))).0 ≡ get_or path k 0
unfolding next_char after_calls
next_char_lem [] zero t = refl
next_char_lem [] (suc k) t = ended_stays k
next_char_lem (c ∷ path) zero (given, t) = ground (arith, given)
next_char_lem (c ∷ path) (suc k) (given, t) =
    rw (test_false c given, if◌then◌else◌) (next_char_lem path k t)
