-- ===== src/V6fs/Transfer/Tests.antt =====
-- Runs of the calls on an open file of src/v6fs.c, and their theorems at concrete states.
use retro_fuse.Prelude.{
  ℕ, ap, take, drop, ◌++◌, ◌≤◌, ◌/◌, ◌%◌, ◌+◌, ◌*◌, ◌≡◌, refl, some, [], ◌∷◌, arith,
}
use retro_fuse.Prelude.Int.{pos, neg}
use retro_fuse.V6fs.Kernel.{begin, ◌>>=◌, ◌>>◌, get_error, clear_error, pure}
use retro_fuse.V6fs.Kernel.Toy.{toy_kernel, toy_file, toy_state, toy_reads, toy_writes}
use retro_fuse.V6fs.Transfer.{
  seek_end, seek_result, write_more, v6fs_read, v6fs_write, v6fs_seek, seek_file, set_position,
  v6fs_pread, v6fs_pwrite,
}
use retro_fuse.V6fs.Transfer.Place.{PlacesFile, v6fs_pread-v6fs_pwrite}
use retro_fuse.V6fs.Transfer.Seek.{Sought, v6fs_seek-Sought}
use retro_fuse.V6fs.Transfer.Read.{v6fs_read_lem}
use retro_fuse.V6fs.Transfer.Write.{Wrote, v6fs_write-Wrote}

-- Ten bytes before the end of the file of 100 bytes.
v6fs_seek-Sought_example :
    Sought toy_kernel 0
      (neg 10)
      seek_end
      toy_file
      toy_state
      (v6fs_seek toy_kernel (pos 0) (neg 10) seek_end toy_state)
unfolding begin clear_error ◌>>◌ ◌>>=◌
v6fs_seek-Sought_example =
    v6fs_seek-Sought toy_kernel 0 (neg 10) seek_end toy_file toy_state toy_state (omega arith) refl
      refl

v6fs_read_lem_example :
    ((v6fs_read toy_kernel 0 2 toy_state).0 ≡ some (pos 2, 10 ∷ 20 ∷ []))
    × (toy_reads.rest (v6fs_read toy_kernel 0 2 toy_state).1.core 0 ≡ 30 ∷ [])
unfolding toy_reads
v6fs_read_lem_example =
    v6fs_read_lem toy_kernel toy_reads 0 2 toy_state (λ n s w e. e) (omega arith)

v6fs_write-Wrote_example :
    Wrote toy_kernel 0
      (v6fs_write toy_kernel 0 (1 ∷ 2 ∷ 3 ∷ []) 3 toy_state)
      toy_state
      (toy_writes.done (v6fs_write toy_kernel 0 (1 ∷ 2 ∷ 3 ∷ []) 3 toy_state).1.core 0)
      []
      (1 ∷ 2 ∷ 3 ∷ [])
      3
      0
unfolding toy_writes
v6fs_write-Wrote_example =
    v6fs_write-Wrote toy_kernel toy_writes 0 (1 ∷ 2 ∷ 3 ∷ []) 3 toy_state (omega arith) refl

write_run : (v6fs_write toy_kernel 0 (1 ∷ 2 ∷ 3 ∷ []) 3 toy_state).0 ≡ some (pos 3)
unfolding v6fs_write ◌>>◌ write_more get_error clear_error pure
write_run = refl

places : PlacesFile toy_kernel toy_reads toy_writes 0
unfolding toy_reads toy_writes
places = record {
  is_open = λ s. refl;
  getf_done = λ s. refl;
  getf_rest = λ s. refl;
  offset_done =
      λ n s small h. ap (λ m. take m (s.core.before ++ s.core.behind)) (same_offset n small);
  offset_rest =
      λ n s small h. ap (λ m. drop m (s.core.before ++ s.core.behind)) (same_offset n small);
}
  where
    same_offset : (n : ℕ) → n ≤ 2147483647 → n / 65536 % 65536 * 65536 + n % 65536 ≡ n
    same_offset n small = omega arith

-- Two bytes over the last of three.
v6fs_pread-v6fs_pwrite_example :
    (v6fs_pread toy_kernel 0 2
      (pos 2)
      (v6fs_pwrite toy_kernel 0 (1 ∷ 2 ∷ []) 2 (pos 2) toy_state).1).0
    ≡ some (pos 2, 1 ∷ 2 ∷ [])
unfolding toy_reads toy_writes v6fs_pwrite v6fs_seek seek_file set_position seek_result v6fs_write
    ◌>>◌ ◌>>=◌ pure write_more get_error clear_error
v6fs_pread-v6fs_pwrite_example =
    v6fs_pread-v6fs_pwrite toy_kernel toy_reads toy_writes 0 2 places (omega arith) (omega arith)
      (1 ∷ 2 ∷ []) toy_state (λ n s w e. e) (omega arith) (omega arith) refl
