-- ===== src/Bsd211fs/Listing/Shown.antt =====
-- What the loop of `bsd211fs_enumdir` shows of a block that `bsd211fs_initrootdir` of src/bsd211fs.c has
-- laid out.
use mathlib.Core.List.{append_assoc, append-nil}
use retro_fuse.Prelude.{
  ℕ, zero, suc, ◌+◌, ◌-◌, ◌*◌, ◌/◌, ◌%◌, ◌≤◌, ◌<◌, ◌≡◌, refl, ap, sym, ◌∙◌, true, false, some, List,
  [], ◌∷◌, ◌++◌, arith, ◌==◌, leb, if◌then◌else◌, length, drop, replicate, length-append,
}
use retro_fuse.Prelude.Slices.{drop-length, drop-drop, apply_then, apply_else}
use retro_fuse.Prelude.Int.{ℤ, pos}
use retro_fuse.V6fs.Kernel.{Sys, M, ◌>>=◌, pure}
use retro_fuse.Bsd211fs.Listing.{
  block_size, Step, went_on, Listed, listed, first_word, word_at, first_string, name_at, advance,
  behind_show, in_use, at_record, behind_read, enum_loop,
}
use retro_fuse.Bsd211fs.Listing.Blocks.{DirEntry, dirsiz, record_bytes, dir_block, Text, Valid, Fit}

first_string-Text :
    (s : List ℕ) (k : ℕ) (rest : List ℕ)
    → Text s
    → 0 < k
    → first_string (s ++ replicate k 0 ++ rest) ≡ some s
unfolding first_string
first_string-Text [] zero rest t h = absurd (omega arith)
first_string-Text [] (suc k) rest t h = refl
first_string-Text (c ∷ s) k rest (given, t) h =
    ground (arith, given, first_string-Text s k rest t h)

word_value : (n : ℕ) → n < 65536 → n % 256 + n / 256 % 256 * 256 ≡ n
word_value n h = omega arith

length-replicate : (n : ℕ) → length {A = ℕ} (replicate n 0) ≡ n
length-replicate zero = refl
length-replicate (suc n) = ap suc (length-replicate n)

length-record_bytes : (e : DirEntry) (n : ℕ) → dirsiz e.d_name ≤ n → length (record_bytes e n) ≡ n
length-record_bytes e n h = omega (
  arith,
  length-append e.d_name (replicate (n - 6 - length e.d_name) 0),
  length-replicate (n - 6 - length e.d_name),
)

-- The function that collects what it is shown.
abbrev pub collect : {C : Type 0} → ℕ → List ℕ → List DirEntry → M C (Step (List DirEntry))
collect ino name sofar s = (went_on (sofar ++ (record { d_ino = ino; d_name = name } ∷ [])), s)

-- A record of `n` bytes in front of others, at the place `p` of a buffer.
module _ (buf : List ℕ) (p n : ℕ) (e : DirEntry) (rest : List ℕ) (v : Valid e)
    (room : dirsiz e.d_name ≤ n) (small : n ≤ 512)
    (at : drop p buf ≡ record_bytes e n ++ rest) where
  ino_there : word_at buf p ≡ some e.d_ino
  unfolding word_at first_word
  ino_there = ap first_word at ∙ ap some (word_value e.d_ino v.1)

  reclen_there : word_at buf (p + 2) ≡ some n
  unfolding word_at first_word
  reclen_there =
      ap first_word (sym (drop-drop p 2 buf) ∙ ap (drop 2) at)
      ∙ ap some (word_value n (omega arith))

  name_there : name_at buf p ≡ some e.d_name
  unfolding name_at
  name_there =
      ap first_string (sym (drop-drop p 6 buf) ∙ ap (drop 6) at)
      ∙ first_string-Text e.d_name (n - 6 - length e.d_name) rest v.2 (omega arith)

  next_there : drop (p + n) buf ≡ rest
  next_there =
      sym (drop-drop p n buf)
      ∙ ap (drop n) at
      ∙ ap (λ k. drop k (record_bytes e n ++ rest)) (sym (length-record_bytes e n room))
      ∙ drop-length (record_bytes e n) rest

  -- The step over the record.
  gone_past :
      {C : Type 0} (dirread : M C (ℤ × List ℕ))
      (next : List DirEntry → ℕ → M C (Listed (List DirEntry))) (sofar : List DirEntry) (s : Sys C)
      → at_record dirread collect next buf p sofar s ≡ next (sofar ++ (e ∷ [])) (p + n) s
  unfolding at_record in_use behind_show advance ◌>>=◌
  gone_past dirread next sofar s =
      let c : (e.d_ino == 0) ≡ false = ground (arith, v.0) in
      rw (ino_there, at_record)
        (rw (c, if◌then◌else◌) (rw (name_there, in_use) (rw (reclen_there, advance) refl)))

-- A directory of one block, and then nothing more.
pub record OneBlock {C : Type 0} (dirread : M C (ℤ × List ℕ)) (block : List ℕ) (s t u : Sys C)
    : Type 0 where
  pub first_read : dirread s ≡ ((pos 512, block), t)
  pub last_read : dirread t ≡ ((pos 0, []), u)

module _ {C : Type 0} (dirread : M C (ℤ × List ℕ)) (block : List ℕ) (s t u : Sys C)
    (D : OneBlock dirread block s t u) where
  ended :
      (k p : ℕ) (sofar : List DirEntry)
      → p ≡ 512
      → enum_loop dirread collect (suc k) p block sofar t ≡ (listed (pos 0) sofar, u)
  unfolding enum_loop behind_read ◌>>=◌ pure
  ended k p sofar e =
      let c : leb block_size p ≡ true = ground arith in
      apply_then _ _ (leb block_size p) t c
      ∙ ap
          (λ r.
            behind_read dirread collect
              (λ bytes.
                at_record dirread collect (λ c q. enum_loop dirread collect k q bytes c) bytes 0
                  sofar)
              sofar r.0 r.1)
          D.last_read

  within :
      (k p : ℕ) (sofar : List DirEntry)
      → p < 512
      → enum_loop dirread collect (suc k) p block sofar t
        ≡ at_record dirread collect (λ c q. enum_loop dirread collect k q block c) block p sofar t
  unfolding enum_loop
  within k p sofar h = apply_else _ _ (leb block_size p) t (ground arith)

  rest_shown :
      (es : List DirEntry) (k p space : ℕ) (sofar : List DirEntry)
      → Fit es space
      → p + space ≡ 512
      → drop p block ≡ dir_block es space
      → length es < k
      → enum_loop dirread collect k p block sofar t ≡ (listed (pos 0) (sofar ++ es), u)
  rest_shown es zero p space sofar f e d h = absurd (omega arith)
  rest_shown [] (suc k) p space sofar f e d h = absurd f
  rest_shown (x ∷ []) (suc zero) p space sofar (v, room) e d h = absurd (omega arith)
  rest_shown (x ∷ []) (suc (suc k)) p space sofar (v, room) e d h =
      within (suc k) p sofar (omega arith)
      ∙ gone_past block p space x [] v room (omega arith) (d ∙ sym (append-nil _)) dirread _ sofar t
      ∙ ended k (p + space) (sofar ++ (x ∷ [])) e
  rest_shown (x ∷ y ∷ es) (suc k) p space sofar (v, room, f) e d h =
      let n = dirsiz x.d_name in
      let rest = dir_block (y ∷ es) (space - n) in
      within k p sofar (omega arith)
      ∙ gone_past block p n x rest v (omega arith) (omega arith) d dirread _ sofar t
      ∙ rest_shown (y ∷ es) k (p + n) (space - n) (sofar ++ (x ∷ [])) f (omega arith)
          (next_there block p n x rest v (omega arith) (omega arith) d) (omega arith)
      ∙ ap (λ es. (listed (pos 0) es, u)) (append_assoc sofar (x ∷ []) (y ∷ es))

-- The entries of a directory of one block that is laid out as the code lays it out, for any entries that
-- have a number and a name and fit in the block, are all shown, in their order and no other, and then
-- the loop ends with the result 0: a round for each entry and two more are enough.
pub enum_loop-dir_block :
    {C : Type 0} (dirread : M C (ℤ × List ℕ)) (es : List DirEntry) (fuel : ℕ) (s t u : Sys C)
    → Fit es 512
    → OneBlock dirread (dir_block es 512) s t u
    → length es + 1 < fuel
    → enum_loop dirread collect fuel 512 [] [] s ≡ (listed (pos 0) es, u)
unfolding enum_loop behind_read ◌>>=◌
enum_loop-dir_block dirread es zero s t u f D h = absurd (omega arith)
enum_loop-dir_block dirread es (suc k) s t u f D h =
    ap
      (λ r.
        behind_read dirread collect
          (λ bytes.
            at_record dirread collect (λ c q. enum_loop dirread collect k q bytes c) bytes 0 [])
          [] r.0 r.1)
      D.first_read
    ∙ sym (within dirread (dir_block es 512) s t u D k 0 [] (omega arith))
    ∙ rest_shown dirread (dir_block es 512) s t u D es (suc k) 0 512 [] f refl refl (omega arith)
