-- ===== src/FuseCommon/Decimals.antt =====
-- Numbers in decimal, as a relation between characters and values, and what the conversions of
-- `sscanf` in FuseCommon.Scan read from them.
use retro_fuse.Prelude.{
  ℕ, ◌+◌, ◌*◌, ◌<◌, ◌≡◌, refl, sym, ap, ◌∙◌, true, false, some, [], ◌∷◌, ◌++◌, arith, ◌-◌,
  if◌then◌else◌,
}
use mathlib.Core.List.{append_assoc}
use retro_fuse.Prelude.Int.{pos}
use retro_fuse.FuseCommon.Scan.{
  Text, is_digit, skip_space, scan_digits, scan_number, scan_sign, scan_long, at_most, long_of,
  stored, after_sign,
}

-- `Decimal s n`: the digits of `s`, at least one, write `n`.
pub data Decimal : Text → ℕ → Type 0 where
  digit : {d : ℕ} → d < 10 → Decimal ((48 + d) ∷ []) d
  more : {s : Text} {n d : ℕ} → Decimal s n → d < 10 → Decimal (s ++ ((48 + d) ∷ [])) (n * 10 + d)

-- The text does not go on with a digit.
abbrev pub Stops : Text → Type 0
Stops [] = Unit
Stops (c ∷ s) = is_digit c ≡ false

is_digit_code : (d : ℕ) → d < 10 → is_digit (48 + d) ≡ true
is_digit_code d h = ground arith

scan_digit :
    (acc d m : ℕ) (s : Text)
    → d < 10
    → acc * 10 + d ≡ m
    → scan_digits acc ((48 + d) ∷ s) ≡ scan_digits m s
unfolding scan_digits
scan_digit acc d m s h e =
    let value : acc * 10 + (48 + d - 48) ≡ m = omega arith in
    rw (is_digit_code d h, if◌then◌else◌, value, scan_digits)

scan_digits-Decimal :
    {s : Text} {n : ℕ}
    → Decimal s n
    → (rest : Text) → scan_digits 0 (s ++ rest) ≡ scan_digits n rest
scan_digits-Decimal (digit {d} h) rest = scan_digit 0 d d rest h (omega arith)
scan_digits-Decimal (more {s} {n} {d} k h) rest =
    ap (λ t. scan_digits 0 t) (append_assoc s ((48 + d) ∷ []) rest)
    ∙ scan_digits-Decimal k ((48 + d) ∷ rest)
    ∙ scan_digit n d (n * 10 + d) rest h refl

pub scan_digits-Stops : (n : ℕ) (s : Text) → Stops s → scan_digits n s ≡ (n, s)
unfolding scan_digits
scan_digits-Stops n [] h = refl
scan_digits-Stops n (c ∷ s) h = rw (h, if◌then◌else◌)

-- The first character of a number.
pub Decimal-first :
    {s : Text} {n : ℕ} → Decimal s n → (c : ℕ) × (t : Text) × (s ≡ c ∷ t) × (is_digit c ≡ true)
Decimal-first (digit {d} h) = (48 + d, [], refl, is_digit_code d h)
Decimal-first (more {s} {n} {d} k h) =
    let (c, t, e, f) = Decimal-first k in
    (c, t ++ ((48 + d) ∷ []), ap (λ u. u ++ ((48 + d) ∷ [])) e, f)

digit_starts :
    (c : ℕ) (t : Text)
    → is_digit c ≡ true
    → (skip_space (c ∷ t) ≡ c ∷ t) × (scan_sign (c ∷ t) ≡ (false, c ∷ t))
unfolding skip_space scan_sign
digit_starts c t h = (ground (arith, h), ground (arith, h))

at_most_small : (n : ℕ) → n < 9223372036854775808 → at_most 9223372036854775807 n ≡ n
at_most_small n h = ground arith

scan_number_digits :
    (c : ℕ) (t : Text) → is_digit c ≡ true → scan_number (c ∷ t) ≡ some (scan_digits 0 (c ∷ t))
unfolding scan_number
scan_number_digits c t h = rw (h, if◌then◌else◌)

scan_long_digits :
    (c : ℕ) (t : Text) (n : ℕ) (rest : Text)
    → is_digit c ≡ true
    → scan_digits 0 (c ∷ t) ≡ (n, rest)
    → n < 9223372036854775808
    → scan_long (c ∷ t) ≡ some (pos n, rest)
unfolding scan_long after_sign
scan_long_digits c t n rest h e small =
    let (space, sign) = digit_starts c t h in
    ap (λ u. after_sign long_of (scan_sign u)) space
    ∙ ap (λ r. after_sign long_of r) sign
    ∙ ap (λ r. stored (long_of false) r) (scan_number_digits c t h)
    ∙ ap (λ r. stored (long_of false) (some r)) e
    ∙ ap (λ m. some (pos m, rest)) (at_most_small n small)

-- `%ld` reads a number that a `long` holds up to where the digits stop.
pub scan_long-Decimal :
    {s : Text} {n : ℕ}
    → Decimal s n
    → n < 9223372036854775808
    → (rest : Text) → Stops rest
    → scan_long (s ++ rest) ≡ some (pos n, rest)
scan_long-Decimal {s} {n} k h rest stops =
    let (c, t, e, f) = Decimal-first k in
    ap (λ u. scan_long (u ++ rest)) e
    ∙ scan_long_digits c (t ++ rest) n rest f
        (ap (λ u. scan_digits 0 (u ++ rest)) (sym e)
          ∙ scan_digits-Decimal k rest
          ∙ scan_digits-Stops n rest stops)
        h
