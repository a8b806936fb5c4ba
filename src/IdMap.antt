-- ===== src/IdMap.antt =====
-- src/idmap.c and src/idmap.h: the table that maps user or group ids of the host to those of the
-- filesystem. The entries are a block of memory from `realloc`: a list of cells, `none` where a
-- cell was never written. A missing block is the NULL pointer. A result `none` of the functions
-- below is an access through NULL, past the block or to a cell that was never written.
pub mod Holds
pub mod Translation
pub mod Tests
use retro_fuse.Prelude.{
  ℕ, zero, suc, ◌+◌, ◌-◌, ◌%◌, Bool, true, false, ◌||◌, Option, none, some, List, [], ◌∷◌, ◌++◌,
  ltb, ◌==◌, if◌then◌else◌, length, set, take, replicate,
}
use retro_fuse.Prelude.Int.{ℤ, pos, neg}
use retro_fuse.Errno.{einval, enomem}

pub record Entry : Type 0 where
  pub hostid : ℕ
  pub fsid : ℕ

abbrev pub Cells : Type 0
Cells = List (Option Entry)

pub record IdMap : Type 0 where
  pub entries : Option Cells
  pub entrycount : ℕ
  pub maxfsid : ℕ
  pub defaulthostid : ℕ
  pub defaultfsid : ℕ

abbrev pub map_size_inc : ℕ
map_size_inc = 128

-- What `realloc` returns where it succeeds: the old contents up to the new size.
realloc : Option Cells → ℕ → Cells
realloc none n = replicate n none
realloc (some cells) n = take n cells ++ replicate (n - length cells) none

is_null : Option Cells → Bool
is_null none = true
is_null (some _) = false

-- The write of `entries[entrycount]`, and the new count.
append_entry : Cells → IdMap → Entry → Option (ℤ × IdMap)
append_entry cells m e =
    if ltb m.entrycount (length cells)
    then some (
      pos 0,
      record m { entries = some (set cells m.entrycount (some e)); entrycount = m.entrycount + 1 },
    )
    else none

append_to : Option Cells → IdMap → Entry → Option (ℤ × IdMap)
append_to none m e = none
append_to (some cells) m e = append_entry cells m e

-- `granted` says whether `realloc` finds the memory.
unfoldable pub addidmap : (granted : Bool) → IdMap → (hostid fsid : ℕ) → Option (ℤ × IdMap)
unfolding realloc is_null append_entry append_to
addidmap granted m hostid fsid =
    let e : Entry = record { hostid = hostid; fsid = fsid } in
    if ltb m.maxfsid fsid
    then some (neg einval, m)
    else if is_null m.entries || m.entrycount % map_size_inc == 0
    then if granted
      then append_entry (realloc m.entries (m.entrycount + map_size_inc)) m e
      else some (neg enomem, record m { entries = none })
    else append_to m.entries m e

-- The scan over `n` cells for a filesystem id; `some none` is the end of the loop.
scan_fsid : ℕ → Cells → ℕ → Option (Option ℕ)
scan_fsid zero cells fsid = some none
scan_fsid (suc n) [] fsid = none
scan_fsid (suc n) (none ∷ cells) fsid = none
scan_fsid (suc n) (some e ∷ cells) fsid =
    let rest = scan_fsid n cells fsid in if e.fsid == fsid then some (some e.hostid) else rest

scan_hostid : ℕ → Cells → ℕ → Option (Option ℕ)
scan_hostid zero cells hostid = some none
scan_hostid (suc n) [] hostid = none
scan_hostid (suc n) (none ∷ cells) hostid = none
scan_hostid (suc n) (some e ∷ cells) hostid =
    let rest = scan_hostid n cells hostid in if e.hostid == hostid then some (some e.fsid) else rest

-- The cells behind the pointer; NULL has none.
cells_of : Option Cells → Cells
cells_of none = []
cells_of (some cells) = cells

-- What follows the loop of `idmap_tohostid`.
host_default : IdMap → ℕ → ℕ
host_default m fsid =
    if fsid == m.defaultfsid
    then m.defaulthostid
    else if ltb m.maxfsid fsid
    then m.defaulthostid
    else fsid

fs_default : IdMap → ℕ → ℕ
fs_default m hostid =
    if hostid == m.defaulthostid
    then m.defaultfsid
    else if ltb m.maxfsid hostid
    then m.defaultfsid
    else hostid

found_or : ℕ → Option (Option ℕ) → Option ℕ
found_or d none = none
found_or d (some none) = some d
found_or d (some (some id)) = some id

unfoldable pub tohostid : IdMap → (fsid : ℕ) → Option ℕ
unfolding scan_fsid cells_of host_default found_or
tohostid m fsid = found_or (host_default m fsid) (scan_fsid m.entrycount (cells_of m.entries) fsid)

unfoldable pub tofsid : IdMap → (hostid : ℕ) → Option ℕ
unfolding scan_hostid cells_of fs_default found_or
tofsid m hostid =
    found_or (fs_default m hostid) (scan_hostid m.entrycount (cells_of m.entries) hostid)
