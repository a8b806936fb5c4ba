-- ===== src/Prelude/Words.antt =====
-- Machine words. An unsigned word is its value; a signed word of w bits is its bit pattern below
-- 2 ^ w, and `signed` reads the integer that the pattern stands for. The casts of the source:
-- `low w n` truncates, and `extend w v n` widens a signed pattern of w bits to one of v bits.
use retro_fuse.Prelude.{ℕ, ◌+◌, ◌-◌, ◌%◌, ◌^◌, ltb, if◌then◌else◌}
use retro_fuse.Prelude.Int.{ℤ, pos, negsuc}

-- Truncation to an unsigned or signed word of w bits.
abbrev pub low : ℕ → ℕ → ℕ
low w n = n % 2 ^ w

-- The integer that a w-bit two's complement pattern stands for (1 ≤ w).
abbrev pub signed : ℕ → ℕ → ℤ
signed w n = if ltb n (2 ^ (w - 1)) then pos n else negsuc (2 ^ w - n - 1)

-- Sign extension of a w-bit pattern to v bits.
abbrev pub extend : ℕ → ℕ → ℕ → ℕ
extend w v n = if ltb n (2 ^ (w - 1)) then n else 2 ^ v - 2 ^ w + n

-- The w-bit pattern of an integer, as a cast to a signed or unsigned type of w bits gives it.
abbrev pub pattern_of : ℕ → ℤ → ℕ
pattern_of w (pos n) = n % 2 ^ w
pattern_of w (negsuc n) = 2 ^ w - 1 - n % 2 ^ w
