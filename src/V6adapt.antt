-- ===== src/V6adapt.antt =====
-- The arithmetic of src/v6adapt.c, which stands in for the kernel's assembly: numbers of 32 bits in two
-- words, the high one first. An int16_t is its bit pattern, a returned comparison an integer.
pub mod Values
pub mod Strategy
pub mod Tests
use retro_fuse.Prelude.{ℕ, ◌+◌, ◌-◌, ◌*◌, ◌/◌, ◌%◌, ◌^◌, Bool, true, false, if◌then◌else◌}
use retro_fuse.Prelude.Int.{ℤ, pos, negsuc, neg, ◌-ℤ◌, ltb_ℤ}
use retro_fuse.Prelude.Words.{low, signed}

abbrev pub double : ℕ × ℕ → ℕ
double n = n.0 * 65536 + n.1

-- The divisor is not 0 in any call of the kernel.
unfoldable pub ldiv : (n b : ℕ) → ℕ
ldiv n b = low 16 (n / b)

unfoldable pub lrem : (n b : ℕ) → ℕ
lrem n b = low 16 (n % b)

-- The count is between -31 and 31.
unfoldable pub lshift : ℕ × ℕ → (s : ℤ) → ℕ
lshift n (pos s) = low 16 (low 32 (double n * 2 ^ s))
lshift n (negsuc s) = low 16 (double n / 2 ^ (s + 1))

unfoldable pub dpadd : ℕ × ℕ → (a : ℕ) → ℕ × ℕ
dpadd n a = let n32 = low 32 (double n + a) in (low 16 (n32 / 65536), low 16 n32)

-- The difference is of type int32_t; that it does not overflow is left to the caller.
unfoldable pub dpcmp : (ah al bh bl : ℕ) → ℤ
dpcmp ah al bh bl =
    let d = signed 32 (double (ah, al)) -ℤ signed 32 (double (bh, bl)) in
    if ltb_ℤ d (neg 512) then neg 512 else if ltb_ℤ (pos 512) d then pos 512 else d
