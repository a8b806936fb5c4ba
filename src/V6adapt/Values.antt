-- ===== src/V6adapt/Values.antt =====
-- The arithmetic of src/v6adapt.c on the numbers that its words stand for.
use Prim.Native.Nat.{min}
use native.Mathlib.Nat.{mod-eq_of_lt, mod-le, mod-lt, div-le_self, div-add-mod'}
use mathlib.Core.Path.{ap₂}
use retro_fuse.Prelude.Words.{signed}
use retro_fuse.Prelude.{ap, ◌∙◌, if◌then◌else◌, ℕ, ◌+◌, ◌-◌, ◌*◌, ◌/◌, ◌%◌, ◌^◌, ◌<◌, ◌≡◌, arith}
use retro_fuse.Prelude.Int.{ℤ, pos, negsuc, neg, ltb_ℤ, pos_part, neg_part, ◌-ℤ◌, -ℤ_parts}
use retro_fuse.V6adapt.{double, ldiv, lrem, lshift, dpadd, dpcmp}

clamp_parts :
    (d : ℤ) (a b : ℕ)
    → pos_part d + b ≡ neg_part d + a
    → (let c = if ltb_ℤ d (neg 512) then neg 512 else if ltb_ℤ (pos 512) d then pos 512 else d in
        (pos_part c ≡ min (a - b) 512) × (neg_part c ≡ min (b - a) 512))
clamp_parts (pos n) a b e = ground (arith, e)
clamp_parts (negsuc n) a b e = ground (arith, e)

signed-eq-pos : (n : ℕ) → n < 2 ^ 31 → signed 32 n ≡ pos n
signed-eq-pos n h = ground (arith, h)

dpcmp_parts :
    (ah al bh bl : ℕ)
    → double (ah, al) < 2 ^ 31
    → double (bh, bl) < 2 ^ 31
    → (pos_part (dpcmp ah al bh bl) ≡ min (double (ah, al) - double (bh, bl)) 512)
      × (neg_part (dpcmp ah al bh bl) ≡ min (double (bh, bl) - double (ah, al)) 512)
unfolding dpcmp
dpcmp_parts ah al bh bl h k =
    let a = signed 32 (double (ah, al)) in
    let b = signed 32 (double (bh, bl)) in
    clamp_parts (a -ℤ b) (double (ah, al)) (double (bh, bl)) (
      omega (
        arith,
        -ℤ_parts a b,
        ap pos_part (signed-eq-pos (double (ah, al)) h),
        ap neg_part (signed-eq-pos (double (ah, al)) h),
        ap pos_part (signed-eq-pos (double (bh, bl)) k),
        ap neg_part (signed-eq-pos (double (bh, bl)) k),
      ))

-- A quotient and a rest that fit in a word.
quotient : (n b : ℕ) → n < 2 ^ 16 → 0 < b → (ldiv n b * b + lrem n b ≡ n) × (lrem n b < b)
unfolding ldiv lrem
quotient n b h z =
    let rest = mod-eq_of_lt {n = n % b} {m = 65536} (omega (arith, mod-le n b)) in
    (
      ap₂ (λ q r. q * b + r) (mod-eq_of_lt {n = n / b} {m = 65536} (omega (arith, div-le_self n b)))
            rest
          ∙ div-add-mod' n b,
      omega (arith, rest, mod-lt n z),
    )

-- On words below 2 ^ 16 the routines compute what they are named for: the quotient and the rest, the
-- number of the block of 512 bytes that an offset below 2 ^ 25 lies in, the sum modulo 2 ^ 32, and the
-- difference of two numbers below 2 ^ 31, cut off at 512 on either side.
arithmetic_lem :
    (n b a ah al bh bl : ℕ)
    → n < 2 ^ 16
    → double (ah, al) < 2 ^ 25
    → double (bh, bl) < 2 ^ 31
    → 0 < b
    → (ldiv n b * b + lrem n b ≡ n)
      × (lrem n b < b)
      × (lshift (ah, al) (negsuc 8) ≡ double (ah, al) / 512)
      × (double (dpadd (ah, al) a) ≡ (double (ah, al) + a) % 2 ^ 32)
      × (pos_part (dpcmp ah al bh bl) ≡ min (double (ah, al) - double (bh, bl)) 512)
      × (neg_part (dpcmp ah al bh bl) ≡ min (double (bh, bl) - double (ah, al)) 512)
unfolding ldiv lrem lshift dpadd
arithmetic_lem n b a ah al bh bl h k l z = (
  (quotient n b h z).0,
  (quotient n b h z).1,
  omega arith,
  omega arith,
  (dpcmp_parts ah al bh bl (omega arith) l).0,
  (dpcmp_parts ah al bh bl (omega arith) l).1,
)
