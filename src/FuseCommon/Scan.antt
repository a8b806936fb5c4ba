-- ===== src/FuseCommon/Scan.antt =====
-- The uses of `sscanf` in src/fusecommon.c and src/v6fuse.c, as the C library of Linux reads numbers:
-- `%ld` stops at the limits of a `long`, and an unsigned conversion keeps the low bits.
use retro_fuse.Prelude.{
  ℕ, ◌+◌, ◌-◌, ◌*◌, ◌%◌, ◌^◌, Bool, true, false, ◌||◌, ◌&&◌, Option, none, some, List, [], ◌∷◌, ltb,
  leb, ◌==◌, if◌then◌else◌,
}
use retro_fuse.Prelude.Int.{ℤ, pos, neg}

abbrev pub Text : Type 0
Text = List ℕ

-- `isspace` on a character code.
abbrev pub is_space : ℕ → Bool
is_space c = c == 32 || (leb 9 c && leb c 13)

abbrev pub is_digit : ℕ → Bool
is_digit c = leb 48 c && leb c 57

unfoldable pub skip_space : Text → Text
skip_space [] = []
skip_space (c ∷ s) = let rest = skip_space s in if is_space c then rest else c ∷ s

-- A character that must be there.
unfoldable pub literal : ℕ → Text → Option Text
literal c [] = none
literal c (d ∷ s) = if c == d then some s else none

-- The digits at the start, behind a number `n`; the value and what follows.
unfoldable pub scan_digits : ℕ → Text → ℕ × Text
scan_digits n [] = (n, [])
scan_digits n (c ∷ s) =
    let rest = scan_digits (n * 10 + (c - 48)) s in if is_digit c then rest else (n, c ∷ s)

-- At least one digit.
unfoldable pub scan_number : Text → Option (ℕ × Text)
unfolding scan_digits
scan_number [] = none
scan_number (c ∷ s) = if is_digit c then some (scan_digits 0 (c ∷ s)) else none

-- A sign that may be there, and whether it is a minus.
unfoldable pub scan_sign : Text → Bool × Text
scan_sign [] = (false, [])
scan_sign (c ∷ s) = if c == 45 then (true, s) else if c == 43 then (false, s) else (false, c ∷ s)

abbrev pub at_most : ℕ → ℕ → ℕ
at_most limit n = if ltb limit n then limit else n

-- The number that a conversion to a `long`, or to an unsigned type of w bits, stores.
abbrev pub long_of : Bool → ℕ → ℤ
long_of true n = neg (at_most 9223372036854775808 n)
long_of false n = pos (at_most 9223372036854775807 n)

abbrev pub unsigned_of : (w : ℕ) → Bool → ℕ → ℕ
unsigned_of w true n = (2 ^ 64 - at_most 18446744073709551615 n) % 2 ^ w
unsigned_of w false n = at_most 18446744073709551615 n % 2 ^ w

abbrev pub stored : {A : Type 0} → (ℕ → A) → Option (ℕ × Text) → Option (A × Text)
stored f none = none
stored f (some (n, rest)) = some (f n, rest)

unfoldable pub after_sign : {A : Type 0} → (Bool → ℕ → A) → Bool × Text → Option (A × Text)
unfolding scan_number
after_sign f (minus, s) = stored (f minus) (scan_number s)

-- `%ld`
unfoldable pub scan_long : Text → Option (ℤ × Text)
unfolding skip_space scan_sign after_sign
scan_long s = after_sign long_of (scan_sign (skip_space s))

-- An unsigned conversion to w bits.
unfoldable pub scan_unsigned : (w : ℕ) → Text → Option (ℕ × Text)
unfolding skip_space scan_sign after_sign
scan_unsigned w s = after_sign (unsigned_of w) (scan_sign (skip_space s))

-- What the format " map%cid = %ld : %ld %n" reads.
pub record MapText : Type 0 where
  pub idtype : ℕ
  pub hostid : ℤ
  pub fsid : ℤ

-- A separator with spaces around it.
unfoldable pub separator : ℕ → Text → Option Text
unfolding skip_space literal
separator c s = literal c (skip_space s)

infixl 5 ◌>>=◌
abbrev ◌>>=◌ : {A B : Type 0} → Option A → (A → Option B) → Option B
none >>= f = none
some a >>= f = f a

unfoldable pub any_char : Text → Option (ℕ × Text)
any_char [] = none
any_char (c ∷ s) = some (c, s)

unfoldable pub at_end : Text → Bool
at_end [] = true
at_end (_ ∷ _) = false

-- The conversions have all matched, and nothing follows.
unfoldable pub scan_map : Text → Option MapText
unfolding separator skip_space literal any_char scan_long at_end
scan_map s = do
  s ← separator 109 s
  s ← literal 97 s
  s ← literal 112 s
  (idtype, s) ← any_char s
  s ← literal 105 s
  s ← literal 100 s
  s ← separator 61 s
  (hostid, s) ← scan_long s
  s ← separator 58 s
  (fsid, s) ← scan_long s
  if at_end (skip_space s)
      then some (record { idtype = idtype; hostid = hostid; fsid = fsid })
      else none

-- What the format " initfs %n= %u %n: %hu : %hu %n" reads: the conversions that matched, and whether
-- the text ends at the last `%n`.
pub data InitfsText : Type 0 where
  no_number : (ended : Bool) → InitfsText
  inode_size : (isize : ℕ) (ended : Bool) → InitfsText
  half : (isize n : ℕ) → InitfsText
  interleaved : (isize n m : ℕ) (ended : Bool) → InitfsText

-- Literal characters: what follows them, or whether the text ended in them.
unfoldable pub literals : Text → Text → Option Text × Bool
literals [] s = (some s, false)
literals (c ∷ cs) [] = (none, true)
literals (c ∷ cs) (d ∷ s) = let rest = literals cs s in if c == d then rest else (none, false)

scan_interleave : (isize : ℕ) → Text → InitfsText
unfolding separator skip_space literal scan_unsigned at_end
scan_interleave isize s = elim (literal 58 s >>= scan_unsigned 16) [
  | none ↦ inode_size isize (at_end s)
  | some (n, u) ↦ elim (separator 58 u >>= scan_unsigned 16) [
    | none ↦ half isize n
    | some (m, v) ↦ interleaved isize n m (at_end (skip_space v))
  ]
]

-- Behind the first `%n`. A character other than `=` is a failed match, not the end of the text.
scan_isize : Text → InitfsText
unfolding scan_interleave literal scan_unsigned skip_space
scan_isize s = elim (literal 61 s >>= scan_unsigned 32) [
  | none ↦ no_number (at_end s)
  | some (isize, u) ↦ scan_interleave isize (skip_space u)
]

-- `none` is the access of `arg[-1]` where the text ends before the first `%n`.
unfoldable pub scan_initfs : Text → Option InitfsText
unfolding scan_isize skip_space literals at_end
scan_initfs s =
    let (rest, ended) = literals (105 ∷ 110 ∷ 105 ∷ 116 ∷ 102 ∷ 115 ∷ []) (skip_space s) in
    elim rest [
      | some t ↦ some (scan_isize (skip_space t))
      | none ↦ if ended then none else some (no_number false)
    ]
