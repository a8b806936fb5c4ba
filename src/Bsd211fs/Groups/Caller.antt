-- ===== src/Bsd211fs/Groups/Caller.antt =====
-- Whose groups `bsd211fs_refreshgroups` of src/bsd211fuse.c sets.
use retro_fuse.Prelude.{
  ℕ, zero, suc, ◌≤◌, ◌≡◌, refl, ap, ◌∙◌, some, List, [], ◌∷◌, arith, false, length, take,
  length-take, ltb, if◌then◌else◌,
}
use retro_fuse.Prelude.Int.{neg}
use retro_fuse.Errno.{einval}
use retro_fuse.Prelude.Words.{low}
use retro_fuse.IdMap.{IdMap, Entry}
use retro_fuse.IdMap.Holds.{Holds}
use retro_fuse.IdMap.Translation.{fs_for, tofsid-fs_for}
use retro_fuse.V7fs.Attributes.{map_host_id}
use retro_fuse.Bsd211fs.Groups.{
  Answer, groups_are, ngroups_max, nogroup, fill_groups, with_effective, bsd211fs_setgroups,
  groups_for, bsd211fs_refreshgroups, group_state,
}

-- As many slots as are left: the filesystem ids of the groups, and NOGROUP behind them.
abbrev pub slots : IdMap → List Entry → (left : ℕ) → List ℕ → List ℕ
slots m es zero gs = []
slots m es (suc k) [] = nogroup ∷ slots m es k []
slots m es (suc k) (g ∷ gs) = low 16 (fs_for m es g) ∷ slots m es k gs

module _ (m : IdMap) (es : List Entry) (h : Holds m es) where
  mapped : (g : ℕ) → map_host_id m g ≡ some (low 16 (fs_for m es g))
  unfolding map_host_id
  mapped g = rw (tofsid-fs_for m es h g, map_host_id) refl

  filled : (left : ℕ) (gs : List ℕ) → fill_groups m left gs ≡ some (slots m es left gs)
  unfolding fill_groups
  filled zero gs = refl
  filled (suc k) [] = rw (filled k [], fill_groups) refl
  filled (suc k) (g ∷ gs) = rw (mapped g, fill_groups) (rw (filled k gs, fill_groups) refl)

  setgroups_slots :
      (list : List ℕ) (egid : ℕ) (old : List ℕ)
      → length list ≤ 15
      → group_state (bsd211fs_setgroups m list (egid ∷ old)) ≡ some (egid ∷ slots m es 15 list)
  unfolding bsd211fs_setgroups with_effective
  setgroups_slots list egid old few =
      let within : ltb ngroups_max (length list) ≡ false = ground arith in
      ap
        (λ b. group_state (
          if b
          then some (neg einval, egid ∷ old)
          else with_effective (egid ∷ old) (fill_groups m 15 list)))
        within
      ∙ ap (λ o. group_state (with_effective (egid ∷ old) o)) (filled 15 list)

  -- Whatever libfuse answers about the groups of the process whose request is served, the kernel checks
  -- an access with the groups of the process that serves it, the first 15 of them mapped to the
  -- filesystem, next to the effective group, which stays.
  pub refreshgroups_lem :
      (query fetch : Answer) (count own : List ℕ) (egid : ℕ) (old : List ℕ)
      → bsd211fs_refreshgroups m query fetch (groups_are count) (groups_are own) (egid ∷ old)
        ≡ some (egid ∷ slots m es 15 (take 15 own))
  unfolding bsd211fs_refreshgroups groups_for
  refreshgroups_lem query fetch count own egid old =
      setgroups_slots (take 15 own) egid old (omega (arith, length-take 15 own))
