-- ===== src/V6adapt/Tests.antt =====
-- The device of src/v6adapt.c on the host of DskIo.Tests.
use retro_fuse.Prelude.{◌≡◌, refl, true, false, [], ◌∷◌, take, arith}
use retro_fuse.Prelude.Int.{scale, ◌-ℤ◌, ◌+ℤ◌}
use retro_fuse.DskIo.{dsk_read, dsk_write}
use retro_fuse.DskIo.Tests.{memory_host, memory-TransfersBytes, disk, blank}
use retro_fuse.V6adapt.Strategy.{Buf, byte_count, finish_io, transfer, strategy, strategy_lem}

-- One word, that is 0xFFFF as a negative count, for block 1.
abbrev one_word : Buf
one_word = record {
  b_read = false;
  b_error = false;
  b_blkno = 1;
  b_wcount = 65535;
  b_addr = 7 ∷ 8 ∷ [];
}

strategy_lem_example :
    (let (written, t) =
        strategy memory_host (λ c b. b) 100 disk (record one_word { b_read = false }) blank in
      take 2
        (strategy memory_host
          (λ c b. b)
          200
          disk
          (record one_word { b_read = true; b_addr = 0 ∷ 0 ∷ [] })
          t).0.b_addr
      ≡ take 2 one_word.b_addr)
unfolding strategy transfer finish_io byte_count dsk_read dsk_write ◌+ℤ◌ ◌-ℤ◌ scale
strategy_lem_example =
    strategy_lem memory_host memory-TransfersBytes disk one_word (0 ∷ 0 ∷ []) blank 100 200
      (omega arith, omega arith, omega arith) (omega arith) refl refl
