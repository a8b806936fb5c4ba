-- ===== src/V6fs/Stat/Modes.antt =====
-- The modes of src/v6fs.c: `v6fs_mknod` and `v6fs_convertstat` agree on files and devices.
use retro_fuse.Prelude.{
  ℕ, ◌+◌, ◌/◌, ◌%◌, ◌<◌, ◌≡◌, ◌⊎◌, inl, inr, none, some, arith, ◌==◌, if◌then◌else◌,
}
use retro_fuse.V6fs.Stat.{st_mode_of, node_kind, node_mode}

-- A host mode of a regular file (or none), a character or a block device, with any permissions:
-- the node made for it is shown with that type and those permissions.
st_mode_of-node_mode :
    (mode fsmode : ℕ)
    → mode < 65536
    → (mode / 4096 ≡ 0) ⊎ ((mode / 4096 ≡ 8) ⊎ ((mode / 4096 ≡ 2) ⊎ (mode / 4096 ≡ 6)))
    → node_mode (node_kind mode) mode ≡ some fsmode
    → st_mode_of fsmode ≡ (if mode / 4096 == 0 then 0x8000 + mode % 4096 else mode)
unfolding st_mode_of node_kind node_mode
st_mode_of-node_mode mode fsmode w (inl e) h = ground arith
st_mode_of-node_mode mode fsmode w (inr (inl e)) h = ground arith
st_mode_of-node_mode mode fsmode w (inr (inr (inl e))) h = ground arith
st_mode_of-node_mode mode fsmode w (inr (inr (inr e))) h = ground arith

-- The modes that are told apart wrongly: a FIFO is made as a regular file, a symbolic link as a
-- character device; and a directory is answered by an error.
node_kind_others :
    (mode : ℕ)
    → mode < 65536
    → (mode / 4096 ≡ 1 → node_mode (node_kind mode) mode ≡ some (mode % 4096))
      × (mode / 4096 ≡ 10 → node_mode (node_kind mode) mode ≡ some (0x2000 + mode % 4096))
      × (mode / 4096 ≡ 4 → node_mode (node_kind mode) mode ≡ none)
unfolding node_kind node_mode
node_kind_others mode w = (λ e. ground arith, λ e. ground arith, λ e. ground arith)
