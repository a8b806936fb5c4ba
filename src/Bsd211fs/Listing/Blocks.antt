-- ===== src/Bsd211fs/Listing/Blocks.antt =====
-- The blocks of the directories of a new filesystem, as `bsd211fs_initrootdir` of src/bsd211fs.c fills
-- them: each record takes what its name needs, and the last one the rest of the block.
use retro_fuse.Prelude.{
  ℕ, ◌+◌, ◌-◌, ◌*◌, ◌/◌, ◌≤◌, ◌<◌, ◌≢◌, List, [], ◌∷◌, ◌++◌, length, replicate,
}
use retro_fuse.V6fs.System.{word}

pub record DirEntry : Type 0 where
  pub d_ino : ℕ
  pub d_name : List ℕ

-- BSD211_DIRSIZ
abbrev pub dirsiz : List ℕ → ℕ
dirsiz name = (6 + (length name + 1) + 3) / 4 * 4

abbrev pub record_bytes : DirEntry → (reclen : ℕ) → List ℕ
record_bytes e reclen =
    word e.d_ino
    ++ word reclen
    ++ word (length e.d_name)
    ++ e.d_name
    ++ replicate (reclen - 6 - length e.d_name) 0

abbrev pub dir_block : List DirEntry → (space : ℕ) → List ℕ
dir_block [] space = replicate space 0
dir_block (e ∷ []) space = record_bytes e space
dir_block (e ∷ f ∷ es) space =
    record_bytes e (dirsiz e.d_name) ++ dir_block (f ∷ es) (space - dirsiz e.d_name)

-- ROOTINO and LOSTFOUNDINO.
abbrev pub root_number : ℕ
root_number = 2

abbrev pub lost_found_number : ℕ
lost_found_number = 3

abbrev dot : ℕ → DirEntry
dot ino = record { d_ino = ino; d_name = 46 ∷ [] }

abbrev dotdot : ℕ → DirEntry
dotdot ino = record { d_ino = ino; d_name = 46 ∷ 46 ∷ [] }

-- "lost+found"
abbrev lost_found : DirEntry
lost_found = record {
  d_ino = lost_found_number;
  d_name = 108 ∷ 111 ∷ 115 ∷ 116 ∷ 43 ∷ 102 ∷ 111 ∷ 117 ∷ 110 ∷ 100 ∷ [];
}

abbrev pub root_entries : List DirEntry
root_entries = dot root_number ∷ dotdot root_number ∷ lost_found ∷ []

abbrev pub lost_found_entries : List DirEntry
lost_found_entries = dot lost_found_number ∷ dotdot root_number ∷ []

-- The block of 1024 bytes of the root directory, and that of lost+found, whose second half is a record
-- of 512 bytes that is not in use.
abbrev pub root_block : List ℕ
root_block = dir_block root_entries 512 ++ replicate 512 0

abbrev pub lost_found_block : List ℕ
lost_found_block = dir_block lost_found_entries 512 ++ word 0 ++ word 512 ++ replicate 508 0

-- Characters that are not 0.
abbrev pub Text : List ℕ → Type 0
Text [] = Unit {0}
Text (c ∷ s) = (c ≢ 0) × Text s

abbrev pub Valid : DirEntry → Type 0
Valid e = (e.d_ino ≢ 0) × (e.d_ino < 65536) × Text e.d_name

-- At least one entry, and room for all.
abbrev pub Fit : List DirEntry → (space : ℕ) → Type 0
Fit [] space = ⊥
Fit (e ∷ []) space = Valid e × (dirsiz e.d_name ≤ space)
Fit (e ∷ f ∷ es) space =
    Valid e × (dirsiz e.d_name ≤ space) × Fit (f ∷ es) (space - dirsiz e.d_name)
