-- ===== src/V6fs/Transfer/Read.antt =====
-- `v6fs_read` of src/v6fs.c and one long read.
use mathlib.Core.List.{append-nil, append_assoc}
use mathlib.Core.Path.{subst}
use retro_fuse.Prelude.{
  ℕ, zero, suc, ◌+◌, ◌-◌, ◌^◌, ◌≤◌, ◌<◌, ◌≡◌, refl, ap, sym, ◌∙◌, false, Option, some, List, [],
  ◌∷◌, ◌++◌, arith, not, ◌==◌, if◌then◌else◌, length, take, drop, length-take,
}
use retro_fuse.Prelude.Slices.{
  drop-nil, take-split, drop-split, empty_of_take, apply_if, apply_else,
}
use retro_fuse.Prelude.Int.{ℤ, pos}
use retro_fuse.V6fs.Kernel.{Sys, ◌>>=◌, ◌>>◌, pure, Kernel, clear_error, get_error}
use retro_fuse.V6fs.Transfer.{piece, sub64, read_more, read_loop, v6fs_read}

-- What the kernel's read does with the bytes between the offset of a file and its end, `rest`, where
-- its count is a 16-bit word and it reports no error: it hands over the next ones, as many as are asked
-- for and there, and moves the offset behind them.
pub record ReadsFile (K : Kernel) : Type 0 where
  pub rest : K.Core → ℕ → List ℕ
  pub refreshclock_rest :
      (s : Sys K.Core) (fd : ℕ) → rest (K.refreshclock s).1.core fd ≡ rest s.core fd
  pub read_bytes :
      (fd n : ℕ) (s : Sys K.Core)
      → n ≤ 65535
      → (K.rdwr_read fd n s).1.error ≡ 0
      → (K.rdwr_read fd n s).0 ≡ take n (rest s.core fd)
  pub read_rest :
      (fd n : ℕ) (s : Sys K.Core)
      → n ≤ 65535
      → (K.rdwr_read fd n s).1.error ≡ 0
      → rest (K.rdwr_read fd n s).1.core fd ≡ drop n (rest s.core fd)

-- A piece is counted by a 16-bit word.
pub piece_word : (count : ℕ) → piece count ≤ 65535
piece_word count = ground arith

module _ (K : Kernel) (L : ReadsFile K) (fd : ℕ)
    (works : (n : ℕ) (s : Sys K.Core)
      → n ≤ 65535
      → s.error ≡ 0
      → (K.rdwr_read fd n s).1.error ≡ 0) where
  -- The outcome of a read of `count` bytes behind those that are there already.
  abbrev ReadAll :
      Option (ℤ × List ℕ) × Sys K.Core → (sofar : List ℕ) → (count : ℕ) → List ℕ → Type 0
  ReadAll r sofar count xs =
      (r.0 ≡ some (pos (length (sofar ++ take count xs)), sofar ++ take count xs))
      × (L.rest r.1.core fd ≡ drop count xs)

  -- One round: the kernel's call on a piece, and then the end or the next round.
  next_round :
      (k count : ℕ) (sofar : List ℕ) → List ℕ × Sys K.Core → Option (ℤ × List ℕ) × Sys K.Core
  next_round k count sofar (bytes, t) =
      if length bytes == 0
      then (some (pos (length sofar), sofar), t)
      else read_loop K k fd (sub64 count (length bytes)) (sofar ++ bytes) t

  read_more-next_round :
      (k count : ℕ) (sofar bytes : List ℕ) (t : Sys K.Core)
      → t.error ≡ 0
      → read_more K (read_loop K k fd (sub64 count (length bytes)) (sofar ++ bytes)) sofar bytes t
        ≡ next_round k count sofar (bytes, t)
  unfolding read_more ◌>>=◌ pure get_error next_round
  read_more-next_round k count sofar bytes t e =
      apply_else _ _ (not (t.error == 0)) t (ground (arith, e)) ∙ apply_if _ _ (length bytes == 0) t

  read_loop-next_round :
      (k c : ℕ) (sofar : List ℕ) (s : Sys K.Core)
      → read_loop K (suc k) fd (suc c) sofar s
        ≡ next_round k (suc c) sofar (K.rdwr_read fd (piece (suc c)) (record s { error = 0 }))
  unfolding read_loop ◌>>=◌ ◌>>◌ clear_error
  read_loop-next_round k c sofar s =
      apply_else _ _ (suc c == 0) s (ground arith)
      ∙ (let r = K.rdwr_read fd (piece (suc c)) (record s { error = 0 }) in
          read_more-next_round k (suc c) sofar r.0 r.1
            (works (piece (suc c)) (record s { error = 0 }) (piece_word (suc c)) refl))

  -- What a round leaves to the rest of the loop.
  pieces :
      (c n : ℕ) (sofar bytes xs : List ℕ)
      → n ≤ c
      → c < 2 ^ 64
      → bytes ≡ take n xs
      → ((sofar ++ bytes) ++ take (sub64 c (length bytes)) (drop n xs) ≡ sofar ++ take c xs)
        × (drop (sub64 c (length bytes)) (drop n xs) ≡ drop c xs)
  pieces c n sofar bytes xs h w e = (
    append_assoc sofar bytes _
        ∙ ap (λ ys. sofar ++ ys)
            (ap (λ m. bytes ++ take m (drop n xs)) left
              ∙ ap (λ ys. ys ++ take (c - length (take n xs)) (drop n xs)) e
              ∙ sym (take-split n c xs h)),
    ap (λ m. drop m (drop n xs)) left ∙ sym (drop-split n c xs h),
  )
    where
      left : sub64 c (length bytes) ≡ c - length (take n xs)
      left = ground (arith, ap length e, length-take n xs)

  left_less :
      (c n : ℕ) (bytes xs : List ℕ)
      → n ≤ c
      → c < 2 ^ 64
      → 0 < length bytes
      → bytes ≡ take n xs
      → sub64 c (length bytes) < c
  left_less c n bytes xs h w z e = ground (arith, ap length e, length-take n xs)

  next_round-ReadAll :
      (k c : ℕ) (sofar xs : List ℕ) (r : List ℕ × Sys K.Core)
      → (0 < length r.0
          → ReadAll
              (read_loop K k fd (sub64 (suc c) (length r.0)) (sofar ++ r.0) r.1)
              (sofar ++ r.0)
              (sub64 (suc c) (length r.0))
              (L.rest r.1.core fd))
      → suc c < 2 ^ 64
      → r.0 ≡ take (piece (suc c)) xs
      → L.rest r.1.core fd ≡ drop (piece (suc c)) xs
      → ReadAll (next_round k (suc c) sofar r) sofar (suc c) xs
  unfolding next_round
  next_round-ReadAll k c sofar xs ([], t) ih w p q =
      (let none_left = empty_of_take (piece (suc c)) xs (ground arith) (ap length (sym p)) in
        (
          ap (λ ys. some (pos (length ys), ys))
              (sym (append-nil sofar) ∙ ap (λ ys. sofar ++ take (suc c) ys) (sym none_left)),
          q
              ∙ ap (λ ys. drop (piece (suc c)) ys) none_left
              ∙ drop-nil (piece (suc c))
              ∙ ap (λ ys. drop (suc c) ys) (sym none_left),
        ))
  next_round-ReadAll k c sofar xs (b ∷ bs, t) ih w p q =
      (let (f, g) = pieces (suc c) (piece (suc c)) sofar (b ∷ bs) xs (ground arith) w p in
        let (ih0, ih1) = ih (omega arith) in
        let rest = read_loop K k fd (sub64 (suc c) (length (b ∷ bs))) (sofar ++ b ∷ bs) t in
        let not_empty : false ≡ (length (b ∷ bs) == 0) = ground arith in
        subst (λ r. ReadAll r sofar (suc c) xs)
          (ap (λ e. (if e then (some (pos (length sofar), sofar), t) else rest)) not_empty)
          (
            ih0
                ∙ ap (λ ys. some (pos (length ys), ys))
                    (ap (λ ys. (sofar ++ b ∷ bs) ++ take (sub64 (suc c) (length (b ∷ bs))) ys) q
                      ∙ f),
            ih1 ∙ ap (λ ys. drop (sub64 (suc c) (length (b ∷ bs))) ys) q ∙ g,
          ))

  -- What the loop reads with enough fuel.
  pub read_loop-ReadAll :
      (fuel count : ℕ) (sofar : List ℕ) (s : Sys K.Core)
      → count < fuel
      → count < 2 ^ 64
      → ReadAll (read_loop K fuel fd count sofar s) sofar count (L.rest s.core fd)
  unfolding read_loop pure
  read_loop-ReadAll zero count sofar s h w = absurd (omega arith)
  read_loop-ReadAll (suc k) zero sofar s h w =
      (ap (λ ys. some (pos (length ys), ys)) (sym (append-nil sofar)), refl)
  read_loop-ReadAll (suc k) (suc c) sofar s h w =
      subst (λ r. ReadAll r sofar (suc c) (L.rest s.core fd))
        (sym (read_loop-next_round k c sofar s))
        (let s0 = record s { error = 0 } in
          let r = K.rdwr_read fd (piece (suc c)) s0 in
          let clean = works (piece (suc c)) s0 (piece_word (suc c)) refl in
          let bytes = L.read_bytes fd (piece (suc c)) s0 (piece_word (suc c)) clean in
          next_round-ReadAll k c sofar (L.rest s.core fd) r
            (λ some_read.
              let less =
                left_less (suc c) (piece (suc c)) r.0 (L.rest s.core fd) (ground arith) w some_read
                  bytes in
              read_loop-ReadAll k (sub64 (suc c) (length r.0)) (sofar ++ r.0) r.1 (omega arith)
                (omega arith))
            w bytes (L.read_rest fd (piece (suc c)) s0 (piece_word (suc c)) clean))

-- A read of fewer than 2 ^ 64 bytes hands over the bytes between the offset of the file and its end, as
-- many as are asked for and there, and moves the offset behind them. This is so where the kernel's own
-- call does this for each count that its 16-bit word holds, at most 65535, and reports no error; nothing
-- is asked of it for a greater count.
pub v6fs_read_lem :
    (K : Kernel) (L : ReadsFile K) (fd count : ℕ) (s : Sys K.Core)
    → ((n : ℕ) (s : Sys K.Core) → n ≤ 65535 → s.error ≡ 0 → (K.rdwr_read fd n s).1.error ≡ 0)
    → count < 2 ^ 64
    → ((v6fs_read K fd count s).0
        ≡ some (pos (length (take count (L.rest s.core fd))), take count (L.rest s.core fd)))
      × (L.rest (v6fs_read K fd count s).1.core fd ≡ drop count (L.rest s.core fd))
unfolding v6fs_read ◌>>◌ ◌>>=◌
v6fs_read_lem K L fd count s works w =
    subst (λ xs. ReadAll K L fd works (v6fs_read K fd count s) [] count xs)
      (L.refreshclock_rest s fd)
      (read_loop-ReadAll K L fd works (count + 1) count [] (K.refreshclock s).1 (omega arith) w)
