-- ===== src/V6fuse/Options.antt =====
-- `retrofuse_checkinitfsconfig` of src/v6fuse.c against the sizes that `v6fs_mkfs` of src/v6fs.c takes, and
-- the bounds on the interleave that `retrofuse_parseinitfsopt` leaves.
use native.Mathlib.Nat.{le-div_iff_mul-le, div-eq_of_lt, div-mul-le_self, mul-add}
use retro_fuse.Prelude.{
  ℕ, ◌+◌, ◌*◌, ◌/◌, ◌%◌, ◌^◌, ◌≤◌, ◌<◌, ◌≡◌, ◌≢◌, ◌↔◌, ◌⊎◌, inl, inr, none, arith, dec_lt, refl,
  zero, suc,
}
use retro_fuse.Prelude.Int.{pos}
use retro_fuse.FuseCommon.{Config}
use retro_fuse.V6fs.System.{inode_blocks}
use retro_fuse.V6fuse.{check_fssize, check_isize, check_initfs_config}

-- The size of the inode table that is computed where none is given.
abbrev default_size : ℕ → ℕ
default_size n = n / (43 + n / 1000)

default_none : (n : ℕ) → n < 43 → default_size n ≡ 0
default_none n h = div-eq_of_lt (omega arith)

default_some : (n : ℕ) → 43 ≤ n → n ≤ 65535 → 1 ≤ default_size n
default_some n h k = (le-div_iff_mul-le (omega arith)).1 (omega arith)

default_small : (n : ℕ) → default_size n * 43 ≤ n
default_small n =
    omega (arith, mul-add (default_size n) 43 (n / 1000), div-mul-le_self n (43 + n / 1000))

inode_blocks_default : (n : ℕ) → 43 ≤ n → n ≤ 65535 → inode_blocks n 0 ≢ none
unfolding inode_blocks
inode_blocks_default n h k = ground (arith, default_some n h k, default_small n)

inode_blocks_too_small : (n : ℕ) → n < 43 → inode_blocks n 0 ≡ none
unfolding inode_blocks
inode_blocks_too_small n h = ground (arith, default_none n h)

inode_blocks_given :
    (n i : ℕ) → 0 < i → n ≤ 65535 → (inode_blocks n i ≢ none) ↔ ((5 ≤ n) × (i ≤ 4096) × (i + 4 ≤ n))
unfolding inode_blocks
inode_blocks_given n i h k = ground arith

-- What `v6fs_mkfs` refuses of what the test passes.
abbrev Refused : (n i : ℕ) → Type 0
Refused n i = (5 ≤ n) × (n < 43) × (i ≡ 0)

abbrev Fits : (n i : ℕ) → Type 0
Fits n i = ((inode_blocks n i) ≢ none) ⊎ Refused n i

passes :
    (cfg : Config)
    → cfg.fssize < 2 ^ 32
    → cfg.isize < 2 ^ 32
    → cfg.fssize ≢ 0
    → (check_initfs_config cfg ≡ pos 0) ↔ (
        (5 ≤ cfg.fssize)
        × (cfg.fssize ≤ 65535)
        × ((cfg.isize ≡ 0) ⊎ ((0 < cfg.isize) × (cfg.isize ≤ 4096) × (cfg.isize + 4 ≤ cfg.fssize))))
unfolding check_initfs_config check_fssize check_isize
passes cfg f i given = ground arith

Fits-default : (n : ℕ) → 5 ≤ n → n ≤ 65535 → Fits n 0
Fits-default n h k = elim (dec_lt n 43) [
  | yes small ↦ inr (h, small, refl)
  | no big ↦ inl (inode_blocks_default n (omega arith) k)
]

Fits-passed :
    (n i : ℕ) → 5 ≤ n → n ≤ 65535 → (i ≡ 0) ⊎ ((0 < i) × (i ≤ 4096) × (i + 4 ≤ n)) → Fits n i
Fits-passed n i h k (inl z) = rw z (Fits-default n h k)
Fits-passed n i h k (inr (p, q, r)) = inl ((inode_blocks_given n i p k).1 (h, q, r))

Fits-back :
    (n i : ℕ) → n ≤ 65535 → Fits n i → (5 ≤ n) × ((i ≡ 0) ⊎ ((0 < i) × (i ≤ 4096) × (i + 4 ≤ n)))
Fits-back n zero k (inl accepted) = elim (dec_lt n 43) [
  | yes small ↦ absurd (accepted (inode_blocks_too_small n small))
  | no big ↦ (omega arith, inl refl)
]
Fits-back n (suc i) k (inl accepted) =
    let (h, q, r) = (inode_blocks_given n (suc i) (omega arith) k).0 accepted in
    (h, inr (omega arith, q, r))
Fits-back n i k (inr (h, small, z)) = (h, inl z)

cast : (n : ℕ) → n < 2 ^ 16 → n % 2 ^ 16 ≡ n
cast n h = omega arith

-- For sizes of 32 bits of which the first is given, the test passes just those that fit in 16 bits and that
-- `v6fs_mkfs` accepts, and besides, for an inode table of the default size, the filesystems of 5 to 42
-- blocks, which `v6fs_mkfs` refuses.
pub check_initfs_config_iff :
    (cfg : Config)
    → cfg.fssize < 2 ^ 32
    → cfg.isize < 2 ^ 32
    → cfg.fssize ≢ 0
    → (check_initfs_config cfg ≡ pos 0) ↔ (
        (cfg.fssize < 2 ^ 16)
        × (cfg.isize < 2 ^ 16)
        × ((inode_blocks (cfg.fssize % 2 ^ 16) (cfg.isize % 2 ^ 16) ≢ none)
            ⊎ ((5 ≤ cfg.fssize) × (cfg.fssize < 43) × (cfg.isize ≡ 0))))
check_initfs_config_iff cfg f i given = (
  λ passed.
      let (h, k, c) = (passes cfg f i given).0 passed in
      let small : cfg.isize < 2 ^ 16 = ground arith in
      (
        omega arith,
        small,
        rw (cast cfg.fssize (omega arith), cast cfg.isize small)
            (Fits-passed cfg.fssize cfg.isize h k c),
      ),
  λ (k, small, r).
      let (h, c) =
        Fits-back cfg.fssize cfg.isize (omega arith)
          (rw (cast cfg.fssize k, cast cfg.isize small) at r) in
      (passes cfg f i given).1 (h, omega arith, c),
)
