-- ===== src/V6fs/FreeList/Once.antt =====
-- `v6fs_initfreelist` of src/v6fs.c frees each data block once.
use retro_fuse.Prelude.{
  ℕ, zero, suc, ◌+◌, ◌-◌, ◌%◌, ◌≤◌, ◌<◌, ◌≡◌, ap, ◌∙◌, inl, inr, false, ◌&&◌, Option, some, List,
  [], ◌∷◌, ◌++◌, map, arith, ltb, leb, ◌==◌, if◌then◌else◌, count, count-append, All, Bool-cases,
}
use retro_fuse.V6fs.FreeList.{
  Run, pred16, align, groups, remainder, sequence, clamp, interleave, initfreelist,
}
use retro_fuse.V6fs.FreeList.Interleave.{IsInterleaving, interleave_total}

-- 1 for the blocks above `low` up to `high`, else 0.
abbrev pub within : (low high b : ℕ) → ℕ
within low high b = if ltb low b && leb b high then 1 else 0

pred16_pos : (i : ℕ) → 0 < i → i < 65536 → pred16 i ≡ i - 1
pred16_pos i h k = omega arith

-- A loop that starts at i stops at `stop` and frees each block above it up to i once.
record Counts (i : ℕ) (bs : List ℕ) (stop : ℕ) : Type 0 where
  below : stop ≤ i
  counted : (b : ℕ) → count b bs ≡ within stop i b

abbrev Runs : (i floor : ℕ) → Option Run → Type 0
Runs i floor r =
    (bs : List ℕ) × (stop : ℕ) × (r ≡ some (bs, stop)) × Counts i bs stop × (floor ≤ stop)

Counts-cons :
    (i : ℕ) (bs : List ℕ) (stop : ℕ) → 0 < i → Counts (i - 1) bs stop → Counts i (i ∷ bs) stop
Counts-cons i bs stop h c = record {
  below = omega (arith, c.below);
  counted = λ b. ground (arith, c.counted b, c.below);
}

Counts-nil : (i : ℕ) → Counts i [] i
Counts-nil i = record { below = omega arith; counted = λ b. ground arith }

align_counts :
    (fuel n low i : ℕ)
    → i < fuel
    → i < 65536
    → 0 < low
    → low ≤ i + 1
    → Runs i (low - 1) (align fuel n low i)
unfolding align
align_counts zero n low i h w pos_low fits = absurd (omega arith)
align_counts (suc k) n low i h w pos_low fits = elim (Bool-cases ((i + 1) % n == 0)) [
  | inl aligned ↦ ([], i, rw aligned, Counts-nil i, omega arith)
  | inr odd ↦ elim (Bool-cases (ltb i low)) [
    | inl under ↦ ([], i, rw (odd, under), Counts-nil i, omega arith)
    | inr over ↦
        let (bs, stop, e, c, f) =
          align_counts k n low (i - 1) (ground arith) (omega arith) pos_low (ground arith) in
        (
          i ∷ bs,
          stop,
          rw (odd, over, pred16_pos i (ground arith) w, e),
          Counts-cons i bs stop (ground arith) c,
          f,
        )
  ]
]

remainder-Counts :
    (fuel low i : ℕ)
    → i < fuel
    → i < 65536
    → 0 < low
    → low ≤ i + 1
    → (bs : List ℕ) × (remainder fuel low i ≡ some (bs, low - 1)) × Counts i bs (low - 1)
unfolding remainder
remainder-Counts zero low i h w pos_low fits = absurd (omega arith)
remainder-Counts (suc k) low i h w pos_low fits = elim (Bool-cases (leb low i)) [
  | inl more ↦
      let (bs, e, c) =
        remainder-Counts k low (i - 1) (ground arith) (omega arith) pos_low (ground arith) in
      (
        i ∷ bs,
        rw (more, pred16_pos i (ground arith) w, e),
        Counts-cons i bs (low - 1) (ground arith) c,
      )
  | inr done ↦
      let at : i ≡ low - 1 = ground arith in ([], rw (done, ← at), rw (← at) (Counts-nil i))
]

-- The group that is freed at i.
count-map_sub :
    (i b : ℕ) (adr : List ℕ)
    → All (λ a. a ≤ i) adr
    → count b (map (λ a. i - a) adr) ≡ (if leb b i then count (i - b) adr else 0)
count-map_sub i b [] h = ground arith
count-map_sub i b (a ∷ adr) (p, h) = ground (arith, count-map_sub i b adr h)

All-mono : (P Q : ℕ → Type 0) (xs : List ℕ) → ((x : ℕ) → P x → Q x) → All P xs → All Q xs
All-mono P Q [] w h = tt
All-mono P Q (x ∷ xs) w (p, h) = (w x p, All-mono P Q xs w h)

group_counts :
    (n i b : ℕ) (adr : List ℕ)
    → IsInterleaving n adr
    → n ≤ i
    → count b (map (λ a. i - a) adr) ≡ within (i - n) i b
group_counts n i b adr t h =
    count-map_sub i b adr (All-mono _ _ adr (λ x lt. omega arith) t.below)
    ∙ ground (arith, t.once (i - b))

groups_counts :
    (fuel n low : ℕ) (adr : List ℕ) (i : ℕ)
    → i < fuel
    → 0 < n
    → 0 < low
    → low ≤ i + 1
    → IsInterleaving n adr
    → Runs i (low - 1) (groups fuel n low adr i)
unfolding groups
groups_counts zero n low adr i h pos_n pos_low fits t = absurd (omega arith)
groups_counts (suc k) n low adr i h pos_n pos_low fits t = elim (Bool-cases (leb (low + n) i)) [
  | inl more ↦
      let room : low + n ≤ i = ground arith in
      let (bs, stop, e, c, f) =
        groups_counts k n low adr (i - n) (omega arith) pos_n pos_low (omega arith) t in
      (
        map (λ a. i - a) adr ++ bs,
        stop,
        rw (more, e),
        record {
          below = omega (arith, c.below);
          counted = λ b. ground (
            arith,
            count-append b (map (λ a. i - a) adr) bs,
            group_counts n i b adr t (omega arith),
            c.counted b,
            c.below,
          );
        },
        f,
      )
  | inr done ↦ ([], i, rw done, Counts-nil i, omega arith)
]

sequence-eq :
    (n low high : ℕ) (adr firsts gs rs : List ℕ) (i k l : ℕ)
    → align (high + 1) n low high ≡ some (firsts, i)
    → groups (i + 1) n low adr i ≡ some (gs, k)
    → remainder (k + 1) low k ≡ some (rs, l)
    → sequence n low high adr ≡ some (firsts ++ (gs ++ rs))
unfolding sequence
sequence-eq n low high adr firsts gs rs i k l a g r = ground arith

Counts-join :
    (high i k low : ℕ) (firsts gs rs : List ℕ)
    → Counts high firsts i
    → Counts i gs k
    → Counts k rs low
    → (b : ℕ) → count b (firsts ++ (gs ++ rs)) ≡ within low high b
Counts-join high i k low firsts gs rs c c' c'' b =
    count-append b firsts (gs ++ rs)
    ∙ (ap (λ x. count b firsts + x) (count-append b gs rs)
        ∙ ground (arith, c.counted b, c'.counted b, c''.counted b, c.below, c'.below, c''.below))

sequence_counts :
    (n low high : ℕ) (adr : List ℕ)
    → high < 65536
    → 0 < n
    → 0 < low
    → low ≤ high + 1
    → IsInterleaving n adr
    → (bs : List ℕ) × (sequence n low high adr ≡ some bs)
      × ((b : ℕ) → count b bs ≡ within (low - 1) high b)
sequence_counts n low high adr w pos_n pos_low fits t =
    let (firsts, i, e, c, f) = align_counts (high + 1) n low high (omega arith) w pos_low fits in
    let (gs, k, e', c', f') =
      groups_counts (i + 1) n low adr i (omega arith) pos_n pos_low (omega arith) t in
    let (rs, e'', c'') =
      remainder-Counts (k + 1) low k (omega arith) (omega (arith, c.below, c'.below)) pos_low
        (omega arith) in
    (
      firsts ++ (gs ++ rs),
      sequence-eq n low high adr firsts gs rs i k (low - 1) e e' e'',
      Counts-join high i k (low - 1) firsts gs rs c c' c'',
    )

initfreelist-eq :
    (fsize isize n m : ℕ) (adr bs : List ℕ)
    → fsize < 65536
    → isize + 4 ≤ fsize
    → 0 < n
    → interleave (clamp n) m ≡ some adr
    → sequence (clamp n) (isize + 2) (fsize - 1) adr ≡ some bs
    → initfreelist fsize isize n m ≡ some bs
unfolding initfreelist
initfreelist-eq fsize isize n m adr bs w fits pos_n e e' =
    let high : pred16 fsize ≡ fsize - 1 = omega arith in
    let low : (isize + 2) % 65536 ≡ isize + 2 = omega arith in
    let set : (n == 0) ≡ false = ground arith in rw (set, e, high, low, e')

clamp_pos : (n : ℕ) → 0 < n → 0 < clamp n
unfolding clamp
clamp_pos n h = ground arith

within_data :
    (fsize isize b : ℕ)
    → isize + 4 ≤ fsize
    → within (isize + 2 - 1) (fsize - 1) b ≡ (if leb (isize + 2) b && ltb b fsize then 1 else 0)
within_data fsize isize b h = ground arith

-- For every size that `v6fs_mkfs` accepts and every interleave but n = 0, the loops end and free
-- each block behind the inode table and below the size of the filesystem exactly once, and no
-- other block.
pub initfreelist_once :
    (fsize isize n m : ℕ)
    → fsize < 65536
    → isize + 4 ≤ fsize
    → 0 < n
    → (bs : List ℕ) × (initfreelist fsize isize n m ≡ some bs)
      × ((b : ℕ) → count b bs ≡ (if leb (isize + 2) b && ltb b fsize then 1 else 0))
initfreelist_once fsize isize n m w fits pos_n =
    let (adr, e, t) = interleave_total (clamp n) m (clamp_pos n pos_n) in
    let (bs, e', c) =
      sequence_counts (clamp n) (isize + 2) (fsize - 1) adr (omega arith) (clamp_pos n pos_n)
        (omega arith) (omega arith) t in
    (
      bs,
      initfreelist-eq fsize isize n m adr bs w fits pos_n e e',
      λ b. c b ∙ within_data fsize isize b fits,
    )
