-- ===== src/Bsd211fs/Groups.antt =====
-- Supplementary groups: `bsd211fs_setgroups` of src/bsd211fs.c, and `bsd211fs_refreshgroups` of
-- src/bsd211fuse.c, which the kernel calls before it checks an access. `u_groups` is a list of 16
-- words. A result `none` is the invalid access of a lookup in an id map.
pub mod Caller
pub mod Tests
use retro_fuse.Prelude.{
  ℕ, zero, suc, ◌+◌, Bool, Option, none, some, List, [], ◌∷◌, ltb, ◌==◌, if◌then◌else◌, length,
  take,
}
use retro_fuse.Prelude.Int.{ℤ, pos, neg}
use retro_fuse.Errno.{einval, eio, enosys}
use retro_fuse.IdMap.{IdMap}
use retro_fuse.V7fs.Attributes.{map_host_id}

-- NGROUPS - 1, which is also BSD211FS_NGROUPS_MAX, and NOGROUP.
abbrev pub ngroups_max : ℕ
ngroups_max = 15

abbrev pub nogroup : ℕ
nogroup = 65535

-- The slots behind the first one.
unfoldable pub fill_groups : IdMap → (left : ℕ) → (list : List ℕ) → Option (List ℕ)
unfolding map_host_id
fill_groups m zero list = some []
fill_groups m (suc k) [] = elim (fill_groups m k []) [ none ↦ none | some gs ↦ some (nogroup ∷ gs) ]
fill_groups m (suc k) (g ∷ list) =
    let rest = fill_groups m k list in
    elim (map_host_id m g) [
      | none ↦ none
      | some id ↦ elim rest [ none ↦ none | some gs ↦ some (id ∷ gs) ]
    ]

unfoldable pub with_effective : List ℕ → Option (List ℕ) → Option (ℤ × List ℕ)
with_effective [] filled = none
with_effective (egid ∷ old) none = none
with_effective (egid ∷ old) (some gs) = some (pos 0, egid ∷ gs)

-- The list has as many elements as `size` says.
unfoldable pub bsd211fs_setgroups : IdMap → (list groups : List ℕ) → Option (ℤ × List ℕ)
unfolding fill_groups with_effective
bsd211fs_setgroups m list groups =
    if ltb ngroups_max (length list)
    then some (neg einval, groups)
    else with_effective groups (fill_groups m ngroups_max list)

-- What a query for groups answers: the groups, or an error.
pub data Answer : Type 0 where
  groups_are : List ℕ → Answer
  failed : (errno : ℕ) → Answer

-- The groups that are set: at most 15 of those that were fetched.
abbrev pub clipped : Answer → List ℕ
clipped (groups_are gs) = take ngroups_max gs
clipped (failed errno) = []

abbrev pub group_state : Option (ℤ × List ℕ) → Option (List ℕ)
group_state none = none
group_state (some (res, groups)) = some groups

-- The branch of the host process: `getgroups` for the number, and then for the groups.
abbrev pub own_groups : (count fetch : Answer) → List ℕ
own_groups (groups_are gs) fetch = clipped fetch
own_groups (failed errno) fetch = []

-- The branches on the number of groups of the caller, which is a number or an error.
unfoldable pub groups_for : (query fetch own_count own_fetch : Answer) → List ℕ
groups_for (groups_are gs) fetch own_count own_fetch = clipped fetch
groups_for (failed errno) fetch own_count own_fetch =
    if errno == eio then [] else if errno == enosys then own_groups own_count own_fetch else []

-- The answer of `fuse_getgroups(0, NULL)` is overwritten with -ENOSYS.
unfoldable pub bsd211fs_refreshgroups :
    IdMap → (query fetch own_count own_fetch : Answer) → (groups : List ℕ) → Option (List ℕ)
unfolding bsd211fs_setgroups groups_for
bsd211fs_refreshgroups m query fetch own_count own_fetch groups =
    let res = failed enosys in
    group_state (bsd211fs_setgroups m (groups_for res fetch own_count own_fetch) groups)
