-- ===== src/V6fs/FreeList/Tests.antt =====
-- Runs of `v6fs_initfreelist` of src/v6fs.c.
use retro_fuse.Prelude.{
  ℕ, ◌≡◌, refl, some, List, [], ◌∷◌, arith, count, if◌then◌else◌, leb, ltb, ◌&&◌,
}
use retro_fuse.V6fs.FreeList.{interleave, initfreelist}
use retro_fuse.V6fs.FreeList.Once.{initfreelist_once}

interleave_5_3 : interleave 5 3 ≡ some (0 ∷ 3 ∷ 1 ∷ 4 ∷ 2 ∷ [])
unfolding interleave
interleave_5_3 = refl

interleave_4_2 : interleave 4 2 ≡ some (0 ∷ 2 ∷ 1 ∷ 3 ∷ [])
unfolding interleave
interleave_4_2 = refl

-- 20 blocks with 2 of inodes: blocks 4 to 19.
small :
    initfreelist 20 2 5 3
    ≡ some (19 ∷ 16 ∷ 18 ∷ 15 ∷ 17 ∷ 14 ∷ 11 ∷ 13 ∷ 10 ∷ 12 ∷ 9 ∷ 6 ∷ 8 ∷ 5 ∷ 7 ∷ 4 ∷ [])
unfolding initfreelist
small = refl

initfreelist_once_example :
    (bs : List ℕ) × (initfreelist 400 9 24 3 ≡ some bs)
    × ((b : ℕ) → count b bs ≡ (if leb 11 b && ltb b 400 then 1 else 0))
initfreelist_once_example = initfreelist_once 400 9 24 3 (omega arith) (omega arith) (omega arith)
