-- ===== src/V7fs/Attributes/Modes.antt =====
-- The modes of src/v7fs.c: `v7fs_mknod` and `v7fs_convertstat`.
use retro_fuse.Prelude.{
  ℕ, ◌+◌, ◌/◌, ◌%◌, ◌<◌, ◌≡◌, ◌≢◌, ◌⊎◌, ◌↔◌, none, some, arith, ◌==◌, if◌then◌else◌,
}
use retro_fuse.V7fs.Attributes.{st_mode_of, host_type, node_kind, node_mode}

-- The types that a node is made for: none given, a regular file, a character and a block device.
abbrev Supported : ℕ → Type 0
Supported t = (t ≡ 0) ⊎ ((t ≡ 8) ⊎ ((t ≡ 2) ⊎ (t ≡ 6)))

made_iff :
    (mode : ℕ) → mode < 65536 → (node_mode (node_kind mode) mode ≢ none) ↔ Supported (mode / 4096)
unfolding node_mode node_kind
made_iff mode w = ground arith

shown :
    (mode fsmode : ℕ)
    → mode < 65536
    → node_mode (node_kind mode) mode ≡ some fsmode
    → st_mode_of fsmode ≡ (if mode / 4096 == 0 then 0x8000 + mode % 4096 else mode)
unfolding st_mode_of node_kind node_mode host_type
shown mode fsmode w e = ground arith

-- A node is made just for a mode of a regular file, or without a type, of a character and of a block
-- device, and it is shown with that type, a regular file where none was given, and its permissions.
node_mode_lem :
    (mode : ℕ)
    → mode < 65536
    → ((node_mode (node_kind mode) mode ≢ none) ↔ Supported (mode / 4096))
      × ((fsmode : ℕ)
          → node_mode (node_kind mode) mode ≡ some fsmode
          → st_mode_of fsmode ≡ (if mode / 4096 == 0 then 0x8000 + mode % 4096 else mode))
node_mode_lem mode w = (made_iff mode w, λ fsmode e. shown mode fsmode w e)
