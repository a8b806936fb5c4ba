-- ===== src/V7fs/FreeList.antt =====
-- The sizes of `v7fs_mkfs` of src/v7fs.c, and `v7fs_initfreelist`, which frees the data blocks of a new
-- filesystem in an interleaved order: its calls of `v7_free` are the list of their block numbers. The
-- table is filled as in src/v6fs.c but for 1 more in each place. Loops run on fuel; `none` means that it
-- ran out.
pub mod Once
pub mod Tests
use retro_fuse.Prelude.{
  ℕ, zero, suc, ◌+◌, ◌-◌, ◌*◌, ◌/◌, ◌%◌, Bool, ◌&&◌, ◌||◌, Option, none, some, List, [], ◌∷◌, ◌++◌,
  map, ltb, leb, ◌==◌, if◌then◌else◌,
}
use retro_fuse.V6fs.FreeList.{interleave}

abbrev pub max_fn : ℕ
max_fn = 500

-- The inode table and the interleave that `v7fs_mkfs` goes on with, or none for -EINVAL.
pub record Params : Type 0 where
  pub isize : ℕ
  pub fn : ℕ
  pub fm : ℕ

unfoldable pub default_isize : (fssize : ℕ) → ℕ
default_isize fssize =
    let n = if fssize / 25 == 0 then 1 else fssize / 25 in
    if ltb (65500 / 8) n then 65500 / 8 else n

abbrev pub adjust_fn : ℕ → ℕ
adjust_fn n = if n == 0 || leb max_fn n then max_fn else n

abbrev pub adjust_fm : (fn m : ℕ) → ℕ
adjust_fm fn m = if m == 0 || ltb fn m then 3 else m

unfoldable pub mkfs_params : (fssize isize n m : ℕ) → Option Params
unfolding default_isize
mkfs_params fssize isize n m =
    let size = if isize == 0 then default_isize fssize else isize in
    if ltb fssize 5 || ltb 16777215 fssize
    then none
    else if ltb size 1 || ltb 8192 size || ltb (fssize - 4) size
    then none
    else some (record { isize = size; fn = adjust_fn n; fm = adjust_fm (adjust_fn n) m })

-- `while (d%n) d++;`
unfoldable pub align_up : (fuel n d : ℕ) → Option ℕ
align_up zero n d = none
align_up (suc k) n d = let next = align_up k n (d + 1) in if d % n == 0 then some d else next

-- The inner loop: the blocks of a group that lie in the filesystem behind the inode table.
unfoldable pub free_group : (fsize isize d : ℕ) → (adr : List ℕ) → List ℕ
free_group fsize isize d [] = []
free_group fsize isize d (a ∷ adr) =
    let rest = free_group fsize isize d adr in
    let f = d - a in if ltb f fsize && leb isize f then f ∷ rest else rest

unfoldable pub free_groups : (fuel n fsize isize d : ℕ) → (adr : List ℕ) → Option (List ℕ)
unfolding free_group
free_groups zero n fsize isize d adr = none
free_groups (suc k) n fsize isize d adr =
    let rest = free_groups k n fsize isize (d - n) adr in
    if ltb 0 d
    then elim rest [ none ↦ none | some bs ↦ some (free_group fsize isize d adr ++ bs) ]
    else some []

-- `isize` is `s_isize`, the first block behind the inode table. The number of rounds of the first loop
-- is below n, that of the second at most `fsize + n`.
unfoldable pub v7fs_initfreelist : (fsize isize n m : ℕ) → Option (List ℕ)
unfolding align_up free_groups
v7fs_initfreelist fsize isize n m = elim (interleave n m) [
  | none ↦ none
  | some adr ↦ elim (align_up (n + 1) n (fsize - 1)) [
    | none ↦ none
    | some d ↦ free_groups (d + 1) n fsize isize d (map suc adr)
  ]
]
