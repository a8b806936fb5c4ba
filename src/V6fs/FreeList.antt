-- ===== src/V6fs/FreeList.antt =====
-- `v6fs_initfreelist` of src/v6fs.c, which frees the data blocks of a new filesystem in an
-- interleaved order. Its calls of `v6_free` are the list of their block numbers, in order. The
-- variables i, low and high are 16-bit words. Loops run on fuel; `none` means that the fuel ran
-- out, or that n is 0 and the code divides by it.
pub mod Interleave
pub mod Once
pub mod Tests
use retro_fuse.Prelude.{
  ℕ, zero, suc, ◌+◌, ◌-◌, ◌%◌, Bool, not, Option, none, some, List, [], ◌∷◌, ◌++◌, map, ltb, leb,
  ◌==◌, if◌then◌else◌, get_or, set, replicate,
}

-- `while (flg[i]) i = (i+1)%n;`
pub find_clear : (fuel n : ℕ) → (flg : List ℕ) → (i : ℕ) → Option ℕ
find_clear zero n flg i = none
find_clear (suc k) n flg i =
    let next = find_clear k n flg ((i + 1) % n) in if get_or flg i 0 == 0 then some i else next

-- The loop that fills `adr`, with `rounds` rounds left; a round looks at no more than n flags.
pub fill : (rounds n m : ℕ) → (flg adr : List ℕ) → (i : ℕ) → Option (List ℕ)
fill zero n m flg adr i = some adr
fill (suc r) n m flg adr i = elim (find_clear n n flg i) [
  | none ↦ none
  | some k ↦ fill r n m (set flg k (get_or flg k 0 + 1)) (adr ++ (k ∷ [])) ((k + m) % n)
]

unfoldable pub interleave : (n m : ℕ) → Option (List ℕ)
unfolding fill find_clear
interleave n m = fill n n m (replicate n 0) [] 0

-- `i--` of a 16-bit word.
abbrev pub pred16 : ℕ → ℕ
pred16 i = (i + 65535) % 65536

-- A loop's blocks and the value of i behind it.
abbrev pub Run : Type 0
Run = List ℕ × ℕ

abbrev pub emit : List ℕ → Option Run → Option Run
emit bs none = none
emit bs (some (cs, i)) = some (bs ++ cs, i)

-- The first loop, down to a block before a multiple of n.
pub align : (fuel n low i : ℕ) → Option Run
align zero n low i = none
align (suc k) n low i =
    let rest = emit (i ∷ []) (align k n low (pred16 i)) in
    if (i + 1) % n == 0 then some ([], i) else if ltb i low then some ([], i) else rest

-- The second loop, a group of n blocks at a time.
pub groups : (fuel n low : ℕ) → (adr : List ℕ) → (i : ℕ) → Option Run
groups zero n low adr i = none
groups (suc k) n low adr i =
    let rest = emit (map (λ a. i - a) adr) (groups k n low adr (i - n)) in
    if leb (low + n) i then rest else some ([], i)

-- The last loop, down to low.
pub remainder : (fuel low i : ℕ) → Option Run
remainder zero low i = none
remainder (suc k) low i =
    let rest = emit (i ∷ []) (remainder k low (pred16 i)) in
    if leb low i then rest else some ([], i)

-- The three loops; each gets one round more than there are values of i.
sequence : (n low high : ℕ) → List ℕ → Option (List ℕ)
sequence n low high adr = elim (align (high + 1) n low high) [
  | none ↦ none
  | some (firsts, i) ↦ elim (groups (i + 1) n low adr i) [
    | none ↦ none
    | some (gs, k) ↦ elim (remainder (k + 1) low k) [
      | none ↦ none
      | some (rs, _) ↦ some (firsts ++ (gs ++ rs))
    ]
  ]
]

clamp : ℕ → ℕ
clamp n = if ltb 100 n then 100 else n

unfoldable pub initfreelist : (fsize isize n m : ℕ) → Option (List ℕ)
unfolding sequence clamp interleave align groups remainder
initfreelist fsize isize n m = if n == 0 then none else elim (interleave (clamp n) m) [
  | none ↦ none
  | some adr ↦ sequence (clamp n) ((isize + 2) % 65536) (pred16 fsize) adr
]
