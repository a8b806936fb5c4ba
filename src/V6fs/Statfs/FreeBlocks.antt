-- ===== src/V6fs/Statfs/FreeBlocks.antt =====
-- The count of free blocks of `v6fs_statfs` in src/v6fs.c, against the chain of groups on disk.
use retro_fuse.Prelude.{
  ℕ, zero, suc, ◌+◌, ◌%◌, ◌≤◌, ◌<◌, ◌≡◌, ◌≢◌, refl, ap, ◌∙◌, ◌⊎◌, inl, inr, Bool, true, false, List,
  [], ◌++◌, arith, ltb, ◌==◌, if◌then◌else◌, get_or, take, drop, length, length-take, length-drop,
  length-append, Bool-cases,
}
use retro_fuse.Prelude.Int.{neg}
use retro_fuse.Errno.{eio}
use retro_fuse.V6fs.Statfs.{
  Group, Read, contents, failure, Tally, counted, fails, out_of_fuel, add_tally, is_positive,
  next_index, group_free, stop, next, read_group, round, count_blocks,
}

-- The numbers of the free blocks that a group names. The first is no block where it is 0.
abbrev pub group_blocks : Group → List ℕ
group_blocks g =
    if is_positive g.nfree
    then if get_or g.tab 0 0 == 0 then drop 1 (take g.nfree g.tab) else take g.nfree g.tab
    else []

-- A group's table has room for its count.
abbrev pub Fits : Group → Type 0
Fits g = is_positive g.nfree ≡ true → g.nfree ≤ length g.tab

length-group_blocks : (g : Group) → Fits g → length (group_blocks g) ≡ group_free g
length-group_blocks g h =
    ground (arith, h, length-take g.nfree g.tab, length-drop 1 (take g.nfree g.tab))

-- The free list on disk: from a group through `depth` index blocks, and the free blocks on it.
pub data Chain (badblock : ℕ → Bool) (bread : ℕ → Read Group) : Group → ℕ → List ℕ → Type 0 where
  last : {g : Group} → Fits g → next_index g ≡ 0 → Chain badblock bread g 0 (group_blocks g)
  link :
      {g g' : Group} {d b : ℕ} {bs : List ℕ}
      → Fits g
      → next_index g ≡ b
      → b ≢ 0
      → badblock b ≡ false
      → bread b ≡ contents g'
      → Chain badblock bread g' d bs
      → Chain badblock bread g (suc d) (group_blocks g ++ bs)

pub Read-cases {ℓ} :
    {A : Type ℓ} (r : Read A) → ((x : A) × (r ≡ contents x)) ⊎ ((e : ℕ) × (r ≡ failure e))
Read-cases (contents x) = inl (x, refl)
Read-cases (failure e) = inr (e, refl)

pub add_tally-ne : (n : ℕ) (t : Tally) → t ≢ out_of_fuel → add_tally n t ≢ out_of_fuel
add_tally-ne n (counted k) h = cc
add_tally-ne n (fails e b) h = cc
add_tally-ne n out_of_fuel h = h

module _ (badblock : ℕ → Bool) (bread : ℕ → Read Group) (fsize : ℕ) where
  round-next :
      (c b : ℕ) (g g' : Group)
      → c < fsize
      → fsize < 65536
      → next_index g ≡ b
      → b ≢ 0
      → badblock b ≡ false
      → bread b ≡ contents g'
      → round badblock bread fsize g c ≡ next g' (c + 1)
  unfolding round
  round-next c b g g' lt w e ne ok r =
      let up : (c + 1) % 65536 ≡ c + 1 = omega arith in
      let small : ltb fsize (c + 1) ≡ false = ground arith in
      let more : (b == 0) ≡ false = ground arith in
      rw (e, up, more, small, ok, read_group, r) (ap (next g') up)

  round-stop :
      (c : ℕ) (g : Group)
      → next_index g ≡ 0
      → round badblock bread fsize g c ≡ stop (counted (group_free g))
  unfolding round
  round-stop c g e = rw e

  -- On a sound free list of no more index blocks than the filesystem has blocks, the count is the
  -- number of the free blocks on it.
  pub count_blocks-Chain :
      {g : Group} {d : ℕ} {bs : List ℕ} (fuel c : ℕ)
      → Chain badblock bread g d bs
      → d < fuel
      → c + d ≤ fsize
      → fsize < 65536
      → count_blocks badblock bread fsize fuel g c ≡ counted (length bs)
  unfolding count_blocks
  count_blocks-Chain zero c ch h k w = absurd (omega arith)
  count_blocks-Chain (suc fuel) c (last {g} f e) h k w =
      rw (round-stop c g e, count_blocks, length-group_blocks g f)
  count_blocks-Chain (suc fuel) c (link {g} {g'} {d} {b} {bs} f e ne ok r ch) h k w =
      rw (round-next c b g g' (omega arith) w e ne ok r, count_blocks)
        (ap (add_tally (group_free g)) (
            count_blocks-Chain {g = g'} {d = d} {bs = bs} fuel (c + 1) ch (omega arith)
              (omega arith) w)
          ∙ ap counted
              (omega (arith, length-append {0} (group_blocks g) bs, length-group_blocks g f)))

  Round-cases :
      (c : ℕ) (g : Group)
      → fsize < 65535
      → c ≤ fsize
      → ((t : Tally) × (round badblock bread fsize g c ≡ stop t) × (t ≢ out_of_fuel))
        ⊎ ((g' : Group) × (round badblock bread fsize g c ≡ next g' (c + 1)) × (c + 1 ≤ fsize))
  unfolding round
  Round-cases c g w k =
      let up : (c + 1) % 65536 ≡ c + 1 = omega arith in
      elim (Bool-cases (next_index g == 0)) [
        | inl e ↦ inl (counted (group_free g), rw e, cc)
        | inr e ↦ elim (Bool-cases (ltb fsize (c + 1))) [
          | inl big ↦ inl (fails (neg eio) 0, rw (e, up, big), cc)
          | inr small ↦ elim (Bool-cases (badblock (next_index g))) [
            | inl bad ↦ inl (fails (neg eio) 0, rw (e, up, small, bad), cc)
            | inr fine ↦ elim (Read-cases (bread (next_index g))) [
              | inl (g', r) ↦
                  inr (g', rw (e, up, small, fine, read_group, r) (ap (next g') up), ground arith)
              | inr (n, r) ↦ inl (fails (neg n) 1, rw (e, up, small, fine, read_group, r), cc)
            ]
          ]
        ]
      ]

  -- Whatever the disk holds, the loop ends within two more rounds than the filesystem has blocks,
  -- unless the filesystem has the greatest possible size.
  pub count_blocks_ends :
      (fuel c : ℕ) (g : Group)
      → fsize < 65535
      → c ≤ fsize
      → fsize + 1 < fuel + c
      → count_blocks badblock bread fsize fuel g c ≢ out_of_fuel
  unfolding count_blocks
  count_blocks_ends zero c g w k h = absurd (omega arith)
  count_blocks_ends (suc fuel) c g w k h = elim (Round-cases c g w k) [
    | inl (t, e, ne) ↦ rw (e, count_blocks) ne
    | inr (g', e, lt) ↦
        rw (e, count_blocks)
          (add_tally-ne (group_free g) _ (count_blocks_ends fuel (c + 1) g' w lt (omega arith)))
  ]

-- At the greatest size the counter of the index blocks wraps before it passes the size: a group
-- that names itself as the next is followed for ever.
pub count_blocks_endless :
    (badblock : ℕ → Bool) (bread : ℕ → Read Group) (g : Group) (b fuel c : ℕ)
    → next_index g ≡ b
    → b ≢ 0
    → badblock b ≡ false
    → bread b ≡ contents g
    → count_blocks badblock bread 65535 fuel g c ≡ out_of_fuel
unfolding count_blocks round
count_blocks_endless badblock bread g b zero c e ne ok r = refl
count_blocks_endless badblock bread g b (suc fuel) c e ne ok r =
    let c' : ℕ = (c + 1) % 65536 in
    let small : ltb 65535 c' ≡ false = ground arith in
    let more : (b == 0) ≡ false = ground arith in
    let again : round badblock bread 65535 g c ≡ next g c' =
      rw (e, more, small, ok, read_group, r) in
    rw (again, count_blocks)
      (ap (add_tally (group_free g)) (count_blocks_endless badblock bread g b fuel c' e ne ok r))
