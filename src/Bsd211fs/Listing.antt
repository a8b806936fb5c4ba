-- ===== src/Bsd211fs/Listing.antt =====
-- `bsd211fs_enumdir` of src/bsd211fs.c: a directory is read in blocks of 512 bytes, and each block is a
-- chain of records of which each has its own length. The loop runs on fuel, one round for each record
-- and each block.
pub mod Blocks
pub mod Ends
pub mod Shown
pub mod Tests
use retro_fuse.Prelude.{
  ℕ, zero, suc, ◌+◌, ◌*◌, Bool, Option, none, some, List, [], ◌∷◌, leb, ◌==◌, if◌then◌else◌, drop,
}
use retro_fuse.Prelude.Int.{ℤ, pos, negsuc, neg, leb_ℤ, ltb_ℤ, is_neg}
use retro_fuse.IdMap.{IdMap}
use retro_fuse.V6fs.Kernel.{FilePath, M, ◌>>=◌, ◌>>◌, pure, clear_error, last_error, found}
use retro_fuse.Bsd211fs.Kernel.{Kernel, FsStat, begin}
use retro_fuse.Bsd211fs.Calls.{
  HostStat, bsd211fs_convertstat, bsd211fs_open, bsd211fs_close, bsd211fs_read,
}

-- DIRBLKSIZ
abbrev pub block_size : ℕ
block_size = 512

-- The word at a place in a buffer, unless it runs over the end.
unfoldable pub first_word : List ℕ → Option ℕ
first_word [] = none
first_word (lo ∷ []) = none
first_word (lo ∷ hi ∷ rest) = some (lo + hi * 256)

unfoldable pub word_at : List ℕ → ℕ → Option ℕ
unfolding first_word
word_at buf p = first_word (drop p buf)

-- The string at a place, unless it has no end in the buffer.
unfoldable pub first_string : List ℕ → Option (List ℕ)
first_string [] = none
first_string (c ∷ bytes) =
    let rest = first_string bytes in
    if c == 0 then some [] else elim rest [ none ↦ none | some s ↦ some (c ∷ s) ]

unfoldable pub name_at : List ℕ → ℕ → Option (List ℕ)
unfolding first_string
name_at buf p = first_string (drop (p + 6) buf)

-- How an entry in use is gone past, and how the loop ends: `listed` is its result, `overrun` an access
-- behind the buffer, `unmapped` the invalid access of a lookup in an id map.
pub data Step (A : Type 0) : Type 0 where
  went_on : A → Step A
  stopped : (res : ℤ) → A → Step A
  no_map : Step A

pub data Listed (A : Type 0) : Type 0 where
  listed : (res : ℤ) → A → Listed A
  overrun : Listed A
  unmapped : Listed A
  out_of_fuel : Listed A

module _ {C A : Type 0} (dirread : M C (ℤ × List ℕ)) (show : ℕ → List ℕ → A → M C (Step A)) where
  -- The next record, by the length of this one.
  unfoldable pub advance : (next : ℕ → M C (Listed A)) → (buf : List ℕ) → (p : ℕ) → M C (Listed A)
  unfolding word_at
  advance next buf p = elim (word_at buf (p + 2)) [
    | none ↦ pure overrun
    | some reclen ↦ next (p + reclen)
  ]

  unfoldable pub behind_show :
      (next : A → ℕ → M C (Listed A)) → (buf : List ℕ) → (p : ℕ) → Step A → M C (Listed A)
  unfolding advance
  behind_show next buf p (went_on context) = advance (next context) buf p
  behind_show next buf p (stopped res context) = pure (listed res context)
  behind_show next buf p no_map = pure unmapped

  -- A record with an inode number, and one without.
  unfoldable pub in_use :
      (next : A → ℕ → M C (Listed A)) → (buf : List ℕ) → (p ino : ℕ) → A → M C (Listed A)
  unfolding behind_show name_at
  in_use next buf p ino context = elim (name_at buf p) [
    | none ↦ pure overrun
    | some name ↦ (do step ← show ino name context; behind_show next buf p step)
  ]

  unfoldable pub at_record :
      (next : A → ℕ → M C (Listed A)) → (buf : List ℕ) → (p : ℕ) → A → M C (Listed A)
  unfolding in_use word_at
  at_record next buf p context = elim (word_at buf p) [
    | none ↦ pure overrun
    | some ino ↦ if ino == 0 then advance (next context) buf p else in_use next buf p ino context
  ]

  -- The answer of a read: a whole block, or the end.
  unfoldable pub behind_read : (rest : List ℕ → M C (Listed A)) → A → ℤ × List ℕ → M C (Listed A)
  behind_read rest context (res, bytes) =
      if leb_ℤ res (pos 0)
      then pure (listed res context)
      else if ltb_ℤ res (pos block_size)
      then pure (listed (pos 0) context)
      else rest bytes

  unfoldable pub enum_loop : (fuel p : ℕ) → (buf : List ℕ) → A → M C (Listed A)
  unfolding at_record behind_read
  enum_loop zero p buf context = pure out_of_fuel
  enum_loop (suc k) p buf context =
      if leb block_size p
      then (do
        r ← dirread
        behind_read (λ bytes. at_record (λ c q. enum_loop k q bytes c) bytes 0 context) context r)
      else at_record (λ c q. enum_loop k q buf c) buf p context

-- The read of a block of the directory. The fuel of the transfer is always enough.
unfoldable pub read_block : (K : Kernel) → (fd : ℕ) → M K.Core (ℤ × List ℕ)
read_block K fd = do
  got ← bsd211fs_read K fd block_size
  elim got [ none ↦ pure (pos 0, []) | some r ↦ pure r ]

-- The function that the entries are shown to, over a context.
abbrev pub Visitor : Type 0 → Type 0
Visitor A = (name : List ℕ) → HostStat → A → ℤ × A

unfoldable pub visited : {A : Type 0} → ℤ × A → Step A
visited (res, context) = if is_neg res then stopped res context else went_on context

module _ (K : Kernel) (uidmap gidmap : IdMap) {A : Type 0} (visit : Visitor A) where
  -- The inode is given back behind the visit, or at the end of the loop.
  unfoldable pub show_stat : (name : List ℕ) → ℕ → A → ℤ × FsStat → M K.Core (Step A)
  unfolding visited
  show_stat name ip context (res, v) = do
    K.iput ip
    (if is_neg res
        then pure (stopped res context)
        else elim (bsd211fs_convertstat uidmap gidmap v) [
          | none ↦ pure no_map
          | some st ↦ pure (visited (visit name st context))
        ])

  unfoldable pub show_entry : ℕ → List ℕ → A → M K.Core (Step A)
  unfolding show_stat
  show_entry ino name context = do
    clear_error
    o ← K.iget ino
    found o (do res ← last_error; pure (stopped res context))
        (λ ip. (do r ← K.ino_stat ip; show_stat name ip context r))

  -- What the loop answers is the result behind the closing of the directory.
  unfoldable pub list_opened : (fuel fd : ℕ) → A → M K.Core (Listed A)
  unfolding enum_loop read_block show_entry
  list_opened fuel fd context = do
    answer ← enum_loop (read_block K fd) show_entry fuel block_size [] context
    closed ← bsd211fs_close K (pos fd)
    pure answer

  unfoldable pub bsd211fs_enumdir : (fuel : ℕ) → FilePath → A → M K.Core (Listed A)
  unfolding list_opened
  bsd211fs_enumdir fuel pathname context = do
    begin K
    fd ← bsd211fs_open K pathname 0 0
    elim fd [ pos n ↦ list_opened fuel n context | negsuc n ↦ pure (listed (negsuc n) context) ]
