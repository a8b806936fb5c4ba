-- ===== src/IdMap/Translation.antt =====
-- `idmap_tohostid` and `idmap_tofsid` of src/idmap.c against the list of entries that the table
-- stands for: the first entry that matches, and the defaults behind it.
use retro_fuse.Prelude.{
  ℕ, ◌%◌, ◌≤◌, ◌≡◌, refl, ◌≢◌, ◌⊎◌, false, Option, none, some, List, [], ◌∷◌, arith, ltb, ◌==◌,
  if◌then◌else◌, length,
}
use retro_fuse.Prelude.Int.{neg}
use retro_fuse.Errno.{enomem}
use retro_fuse.IdMap.{
  Entry, Cells, IdMap, addidmap, tohostid, tofsid, cells_of, scan_fsid, scan_hostid, found_or,
}
use retro_fuse.IdMap.Holds.{Filled, Block, Holds}

-- The host id of the first entry for a filesystem id.
abbrev pub host_of : List Entry → ℕ → Option ℕ
host_of [] fsid = none
host_of (e ∷ es) fsid = if e.fsid == fsid then some e.hostid else host_of es fsid

abbrev pub fs_of : List Entry → ℕ → Option ℕ
fs_of [] hostid = none
fs_of (e ∷ es) hostid = if e.hostid == hostid then some e.fsid else fs_of es hostid

abbrev pub or_else : Option ℕ → ℕ → ℕ
or_else none d = d
or_else (some id) d = id

-- What the two functions promise, over the entries and the limits alone.
abbrev pub host_for : IdMap → List Entry → ℕ → ℕ
host_for m es fsid = or_else (host_of es fsid) (
    if fsid == m.defaultfsid
    then m.defaulthostid
    else if ltb m.maxfsid fsid
    then m.defaulthostid
    else fsid)

abbrev pub fs_for : IdMap → List Entry → ℕ → ℕ
fs_for m es hostid = or_else (fs_of es hostid) (
    if hostid == m.defaulthostid
    then m.defaultfsid
    else if ltb m.maxfsid hostid
    then m.defaultfsid
    else hostid)

-- No two entries share a host id or a filesystem id.
abbrev pub Distinct : List Entry → Type 0
Distinct [] = Unit {0}
Distinct (e ∷ es) = (host_of es e.fsid ≡ none) × (fs_of es e.hostid ≡ none) × Distinct es

abbrev pub Within : ℕ → List Entry → Type 0
Within limit [] = Unit {0}
Within limit (e ∷ es) = (e.fsid ≤ limit) × Within limit es

scan_fsid-host_of :
    (es : List Entry) (cells : Cells) (fsid : ℕ)
    → Filled es cells
    → scan_fsid (length es) cells fsid ≡ some (host_of es fsid)
unfolding scan_fsid
scan_fsid-host_of [] cells fsid f = refl
scan_fsid-host_of (e ∷ es) [] fsid f = absurd f
scan_fsid-host_of (e ∷ es) (none ∷ cells) fsid (p, f) = cc
scan_fsid-host_of (e ∷ es) (some x ∷ cells) fsid (p, f) =
    ground (arith, scan_fsid-host_of es cells fsid f)

scan_hostid-fs_of :
    (es : List Entry) (cells : Cells) (hostid : ℕ)
    → Filled es cells
    → scan_hostid (length es) cells hostid ≡ some (fs_of es hostid)
unfolding scan_hostid
scan_hostid-fs_of [] cells hostid f = refl
scan_hostid-fs_of (e ∷ es) [] hostid f = absurd f
scan_hostid-fs_of (e ∷ es) (none ∷ cells) hostid (p, f) = cc
scan_hostid-fs_of (e ∷ es) (some x ∷ cells) hostid (p, f) =
    ground (arith, scan_hostid-fs_of es cells hostid f)

Filled-of-Block : (es : List Entry) (o : Option Cells) → Block es o → Filled es (cells_of o)
unfolding cells_of
Filled-of-Block [] none b = tt
Filled-of-Block (e ∷ es) none b = cc
Filled-of-Block es (some cells) (f, _, _) = f

module _ (m : IdMap) (es : List Entry) (h : Holds m es) where
  -- A table that holds entries answers every filesystem id without an invalid access, with the
  -- host id of the first entry for it, or else with the default.
  pub tohostid-host_for : (fsid : ℕ) → tohostid m fsid ≡ some (host_for m es fsid)
  unfolding tohostid
  tohostid-host_for fsid =
      rw (h.count, scan_fsid-host_of es _ fsid (Filled-of-Block es m.entries h.block))
        (ground arith)

  -- The same for host ids.
  pub tofsid-fs_for : (hostid : ℕ) → tofsid m hostid ≡ some (fs_for m es hostid)
  unfolding tofsid
  tofsid-fs_for hostid =
      rw (h.count, scan_hostid-fs_of es _ hostid (Filled-of-Block es m.entries h.block))
        (ground arith)

  -- If the entries and the default filesystem id are within the limit, so is every filesystem id
  -- that a host id is mapped to.
  tofsid-le-maxfsid :
      (hostid : ℕ)
      → Within m.maxfsid es
      → m.defaultfsid ≤ m.maxfsid
      → (fsid : ℕ) × (tofsid m hostid ≡ some fsid) × (fsid ≤ m.maxfsid)
  tofsid-le-maxfsid hostid w d =
      (fs_for m es hostid, tofsid-fs_for hostid, ground (arith, fs_of-le es w))
    where
      fs_of-le : (es : List Entry) → Within m.maxfsid es → or_else (fs_of es hostid) 0 ≤ m.maxfsid
      fs_of-le [] w = omega arith
      fs_of-le (e ∷ es) (p, w) = ground (arith, fs_of-le es w)

pub fs_of-host_of :
    (es : List Entry) (hostid fsid : ℕ)
    → Distinct es
    → fs_of es hostid ≡ some fsid
    → host_of es fsid ≡ some hostid
fs_of-host_of [] hostid fsid d e = cc
fs_of-host_of (x ∷ es) hostid fsid (p, q, d) e = ground (arith, fs_of-host_of es hostid fsid d)

host_for-fs_for :
    (m : IdMap) (es : List Entry) (hostid : ℕ) (o : Option ℕ)
    → fs_of es hostid ≡ o
    → Distinct es
    → (fs_of es hostid ≢ none)
      ⊎ ((fs_of es hostid ≡ none)
          × (host_of es hostid ≡ none)
          × (hostid ≤ m.maxfsid)
          × (hostid ≢ m.defaulthostid)
          × (hostid ≢ m.defaultfsid))
    → host_for m es (fs_for m es hostid) ≡ hostid
host_for-fs_for m es hostid none e d c = ground arith
host_for-fs_for m es hostid (some fsid) e d c = rw (e, fs_of-host_of es hostid fsid d e)

module _ (m : IdMap) (es : List Entry) (h : Holds m es) where
  -- Where no two entries share an id, a host id that has an entry comes back from its filesystem
  -- id. So does a host id within the limit that no entry and no default mentions, as itself.
  pub tohostid-tofsid :
      (hostid : ℕ)
      → Distinct es
      → (fs_of es hostid ≢ none)
        ⊎ ((fs_of es hostid ≡ none)
            × (host_of es hostid ≡ none)
            × (hostid ≤ m.maxfsid)
            × (hostid ≢ m.defaulthostid)
            × (hostid ≢ m.defaultfsid))
      → (fsid : ℕ) × (tofsid m hostid ≡ some fsid) × (tohostid m fsid ≡ some hostid)
  tohostid-tofsid hostid d c = (
    fs_for m es hostid,
    tofsid-fs_for m es h hostid,
    rw (tohostid-host_for m es h (fs_for m es hostid), host_for-fs_for m es hostid _ refl d c),
  )

-- When the memory for another block is refused to a table that holds entries, every later lookup
-- goes through the NULL pointer.
pub addidmap_lost :
    (m : IdMap) (es : List Entry) (hostid fsid id : ℕ)
    → Holds m es
    → es ≢ []
    → length es % 128 ≡ 0
    → fsid ≤ m.maxfsid
    → (m' : IdMap) × (addidmap false m hostid fsid ≡ some (neg enomem, m'))
      × (tohostid m' id ≡ none)
      × (tofsid m' id ≡ none)
unfolding addidmap tohostid tofsid
addidmap_lost m [] hostid fsid id h some_entry round small = absurd (some_entry refl)
addidmap_lost m (e ∷ es) hostid fsid id h some_entry round small = (
  record m { entries = none },
  ground (arith, h.count),
  rw (h.count, scan_fsid, found_or),
  rw (h.count, scan_hostid, found_or),
)
