-- ===== src/V7fs/FreeList/Once.antt =====
-- `v7fs_initfreelist` of src/v7fs.c: which blocks it frees.
use native.Mathlib.Nat.{
  mod-add-div', div-eq_of_lt-le, suc-mul, add-mul, mul-div_left, mul-mod_left, mod-lt,
}
use retro_fuse.Prelude.{
  ℕ, zero, suc, ◌+◌, ◌-◌, ◌*◌, ◌/◌, ◌%◌, ◌≤◌, ◌<◌, ◌≡◌, refl, sym, ap, ◌∙◌, inl, inr, true, false,
  dec_lt, not, ◌&&◌, ◌||◌, some, List, [], ◌∷◌, ◌++◌, map, arith, ltb, leb, ◌==◌, if◌then◌else◌,
  count, count-append, All, Bool-cases,
}
use retro_fuse.V6fs.FreeList.{interleave}
use retro_fuse.V6fs.FreeList.Interleave.{IsInterleaving, interleave_total}
use retro_fuse.V7fs.FreeList.{
  Params, mkfs_params, align_up, free_group, free_groups, v7fs_initfreelist,
}

-- 1 for a block of the filesystem behind the inode table and below `top`, else 0.
abbrev pub data_below : (fsize isize top b : ℕ) → ℕ
data_below fsize isize top b = if leb isize b && ltb b fsize && ltb b top then 1 else 0

free_group-count :
    (fsize isize d b : ℕ) (adr : List ℕ)
    → All (λ a. a < d) adr
    → count b (free_group fsize isize d (map suc adr))
      ≡ (if leb isize b && ltb b fsize && ltb b d then count (d - 1 - b) adr else 0)
unfolding free_group
free_group-count fsize isize d b [] h = ground arith
free_group-count fsize isize d b (a ∷ adr) (p, h) =
    ground (arith, free_group-count fsize isize d b adr h)

All-mono : (P Q : ℕ → Type 0) (xs : List ℕ) → ((x : ℕ) → P x → Q x) → All P xs → All Q xs
All-mono P Q [] w h = tt
All-mono P Q (x ∷ xs) w (p, h) = (w x p, All-mono P Q xs w h)

-- A whole group frees the blocks from d - n up to d - 1, as far as they hold data.
group-count :
    (n fsize isize d b : ℕ) (adr : List ℕ)
    → IsInterleaving n adr
    → n ≤ d
    → count b (free_group fsize isize d (map suc adr)) + data_below fsize isize (d - n) b
      ≡ data_below fsize isize d b
group-count n fsize isize d b adr t h =
    let e = free_group-count fsize isize d b adr (All-mono _ _ adr (λ x lt. omega arith) t.below) in
    ground (arith, e, t.once (d - 1 - b))

-- The groups from the multiple q * n down.
groups-count :
    (fuel q n fsize isize d : ℕ) (adr : List ℕ)
    → 0 < n
    → IsInterleaving n adr
    → d ≡ q * n
    → d < fuel
    → (bs : List ℕ) × (free_groups fuel n fsize isize d (map suc adr) ≡ some bs)
      × ((b : ℕ) → count b bs ≡ data_below fsize isize d b)
unfolding free_groups
groups-count zero q n fsize isize d adr pos_n t e h = absurd (omega arith)
groups-count (suc k) zero n fsize isize d adr pos_n t e h =
    let z : d ≡ 0 = omega arith in ([], rw z refl, λ b. ground arith)
groups-count (suc k) (suc q) n fsize isize d adr pos_n t e h =
    let split : d ≡ q * n + n = e ∙ suc-mul q n in
    let (bs, eq, c) =
      groups-count k q n fsize isize (d - n) adr pos_n t (omega arith) (omega arith) in
    let more : ltb 0 d ≡ true = ground arith in
    (
      free_group fsize isize d (map suc adr) ++ bs,
      rw (more, eq) refl,
      λ b.
          count-append b (free_group fsize isize d (map suc adr)) bs
          ∙ omega (arith, c b, group-count n fsize isize d b adr t (omega arith)),
    )

-- A multiple of n less than n above another one is that one.
same_multiple : (q n d : ℕ) → 0 < n → d % n ≡ 0 → d ≤ q * n → q * n < d + n → d ≡ q * n
same_multiple q n d pos_n z low high =
    let whole : d / n * n ≡ d = omega (arith, mod-add-div' d n) in
    let quotient : q * n / n ≡ d / n =
      div-eq_of_lt-le n (omega arith) (omega (arith, add-mul (d / n) 1 n)) in
    let same : q ≡ d / n = sym (mul-div_left q pos_n) ∙ quotient in
    sym whole ∙ ap (λ k. k * n) (sym same)

not_multiple : (q n d : ℕ) → (d % n == 0) ≡ false → d ≤ q * n → d < q * n
not_multiple q n d off low = elim (dec_lt d (q * n)) [
  | yes lt ↦ lt
  | no ge ↦
      let at : d ≡ q * n = omega arith in
      let z : d % n ≡ 0 = ap (λ x. x % n) at ∙ mul-mod_left q n in absurd (ground (arith, z, off))
]

-- The multiple of n from d on.
next_multiple :
    (q n d fuel : ℕ)
    → 0 < n
    → d ≤ q * n
    → q * n < d + n
    → q * n < d + fuel
    → align_up fuel n d ≡ some (q * n)
unfolding align_up
next_multiple q n d zero pos_n low high h = absurd (omega arith)
next_multiple q n d (suc k) pos_n low high h = elim (Bool-cases (d % n == 0)) [
  | inl there ↦
      let z : d % n ≡ 0 = ground (arith, there) in
      rw there (ap some (same_multiple q n d pos_n z low high))
  | inr off ↦
      let lt : d < q * n = not_multiple q n d off low in
      rw off (next_multiple q n (d + 1) k pos_n (omega arith) (omega arith) (omega arith))
]

-- The least multiple of n from d on.
abbrev rounds_up : (n d : ℕ) → ℕ
rounds_up n d = (d + (n - 1)) / n

rounds_up_bounds : (n d : ℕ) → 0 < n → (d ≤ rounds_up n d * n) × (rounds_up n d * n < d + n)
rounds_up_bounds n d pos_n =
    let whole = mod-add-div' (d + (n - 1)) n in
    let rest = mod-lt (d + (n - 1)) pos_n in
    (omega (arith, whole, rest), omega (arith, whole, rest))

-- Whether the block is freed: the last block of the filesystem is left out where the one before it
-- completes a group.
abbrev pub freed : (fsize isize n b : ℕ) → ℕ
freed fsize isize n b =
    if leb isize b && (ltb b (fsize - 1) || (b == fsize - 1 && not ((fsize - 1) % n == 0)))
    then 1
    else 0

data_below-freed :
    (fsize isize n b : ℕ)
    → 0 < n
    → 0 < fsize
    → data_below fsize isize (rounds_up n (fsize - 1) * n) b ≡ freed fsize isize n b
data_below-freed fsize isize n b pos_n pos_f =
    let (low, high) = rounds_up_bounds n (fsize - 1) pos_n in
    elim (Bool-cases ((fsize - 1) % n == 0)) [
      | inl there ↦
          let z : (fsize - 1) % n ≡ 0 = ground (arith, there) in
          let at = same_multiple (rounds_up n (fsize - 1)) n (fsize - 1) pos_n z low high in
          ground (arith, at, there)
      | inr off ↦
          let lt = not_multiple (rounds_up n (fsize - 1)) n (fsize - 1) off low in
          ground (arith, lt, off)
    ]

initfreelist-eq :
    (fsize isize n m d : ℕ) (adr bs : List ℕ)
    → interleave n m ≡ some adr
    → align_up (n + 1) n (fsize - 1) ≡ some d
    → free_groups (d + 1) n fsize isize d (map suc adr) ≡ some bs
    → v7fs_initfreelist fsize isize n m ≡ some bs
unfolding v7fs_initfreelist
initfreelist-eq fsize isize n m d adr bs e e' e'' = ground arith

pub initfreelist_freed :
    (fsize isize n m : ℕ)
    → 0 < n
    → 0 < fsize
    → (bs : List ℕ) × (v7fs_initfreelist fsize isize n m ≡ some bs)
      × ((b : ℕ) → count b bs ≡ freed fsize isize n b)
initfreelist_freed fsize isize n m pos_n pos_f =
    let (adr, e, t) = interleave_total n m pos_n in
    let q = rounds_up n (fsize - 1) in
    let (low, high) = rounds_up_bounds n (fsize - 1) pos_n in
    let (bs, e', c) =
      groups-count (q * n + 1) q n fsize isize (q * n) adr pos_n t refl (omega arith) in
    (
      bs,
      initfreelist-eq fsize isize n m (q * n) adr bs e
          (next_multiple q n (fsize - 1) (n + 1) pos_n low high (omega arith)) e',
      λ b. c b ∙ data_below-freed fsize isize n b pos_n pos_f,
    )

params_bounds :
    (fssize isize n m : ℕ) (p : Params)
    → mkfs_params fssize isize n m ≡ some p
    → (0 < p.fn) × (5 ≤ fssize)
unfolding mkfs_params
params_bounds fssize isize n m p e = ground (arith, e)

-- For all parameters that `v7fs_mkfs` accepts the loops end, and each block behind the inode table and
-- below the last one of the filesystem is freed exactly once, the last one just where n does not divide
-- its number, and no other block is.
pub v7fs_initfreelist_once :
    (fssize isize n m : ℕ) (p : Params)
    → mkfs_params fssize isize n m ≡ some p
    → (bs : List ℕ) × (v7fs_initfreelist fssize (p.isize + 2) p.fn p.fm ≡ some bs)
      × ((b : ℕ) → count b bs ≡ freed fssize (p.isize + 2) p.fn b)
v7fs_initfreelist_once fssize isize n m p e =
    let (pos_n, large) = params_bounds fssize isize n m p e in
    initfreelist_freed fssize (p.isize + 2) p.fn p.fm pos_n (omega arith)
