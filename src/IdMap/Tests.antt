-- ===== src/IdMap/Tests.antt =====
-- Runs of src/idmap.c, and its theorems at concrete tables.
use retro_fuse.Prelude.{
  ℕ, zero, suc, ◌≡◌, refl, inl, true, none, some, List, [], ◌∷◌, arith, replicate,
}
use retro_fuse.Prelude.Int.{pos, neg}
use retro_fuse.Errno.{einval}
use retro_fuse.IdMap.{Entry, IdMap, addidmap, tohostid, tofsid}
use retro_fuse.IdMap.Holds.{Filled, Holds, Added, addidmap-Added}
use retro_fuse.IdMap.Translation.{host_for, tohostid-host_for}

abbrev empty : IdMap
empty = record {
  entries = none;
  entrycount = 0;
  maxfsid = 255;
  defaulthostid = 65534;
  defaultfsid = 255;
}

abbrev entry : ℕ → ℕ → Entry
entry hostid fsid = record { hostid = hostid; fsid = fsid }

abbrev two_entries : List Entry
two_entries = entry 1000 3 ∷ entry 1001 4 ∷ []

abbrev table : IdMap
table = record empty {
  entries = some (some (entry 1000 3) ∷ some (entry 1001 4) ∷ replicate 126 none);
  entrycount = 2;
}

empty-Holds : Holds empty []
empty-Holds = record { count = refl; block = refl }

table-Holds : Holds table two_entries
table-Holds = record { count = refl; block = ((refl, (refl, tt)), refl, omega arith) }

-- 128 entries fill the first block.
abbrev full : IdMap
full = record empty { entries = some (replicate 128 (some (entry 7 7))); entrycount = 128 }

Filled-replicate : (n : ℕ) (e : Entry) → Filled (replicate n e) (replicate n (some e))
Filled-replicate zero e = tt
Filled-replicate (suc n) e = (refl, Filled-replicate n e)

full-Holds : Holds full (replicate 128 (entry 7 7))
full-Holds = record { count = refl; block = (Filled-replicate 128 (entry 7 7), refl, omega arith) }

add_first :
    addidmap true empty 1000 3
    ≡ some (
      pos 0,
      record empty { entries = some (some (entry 1000 3) ∷ replicate 127 none); entrycount = 1 },
    )
unfolding addidmap
add_first = refl

add_too_large : addidmap true empty 1000 256 ≡ some (neg einval, empty)
unfolding addidmap
add_too_large = refl

look_up :
    (tohostid table 4 ≡ some 1001) × (tofsid table 5 ≡ some 5) × (tofsid table 65534 ≡ some 255)
unfolding tohostid tofsid
look_up = (refl, refl, refl)

addidmap-Added_example :
    (m' : IdMap) × (addidmap true table 1002 5 ≡ some (pos 0, m'))
    × Added table two_entries 1002 5 m'
addidmap-Added_example =
    addidmap-Added table two_entries 1002 5 true table-Holds (omega arith) (inl refl)

tohostid-host_for_example : tohostid table 3 ≡ some (host_for table two_entries 3)
tohostid-host_for_example = tohostid-host_for table two_entries table-Holds 3
