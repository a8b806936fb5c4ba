-- ===== src/V6fs/Attributes/Times.antt =====
-- The times that `v6fs_utimens` of src/v6fs.c sets.
use retro_fuse.Prelude.{ℕ, ◌+◌, ◌*◌, ◌^◌, ◌<◌, ◌≡◌, refl, arith}
use retro_fuse.V6fs.Attributes.{now, at, new_times}

-- The number of seconds that two words stand for.
abbrev pub seconds_of : ℕ × ℕ → ℕ
seconds_of w = w.0 * 65536 + w.1

-- Explicit times below 2 ^ 32 are set as they are, a time that is to be the current one is the clock's
-- where the access time is not explicit; but where the access time is explicit and the modification
-- time is to be the current one, the modification time becomes the access time.
pub new_times_lem :
    (a m : ℕ) (clock : ℕ × ℕ)
    → a < 2 ^ 32
    → m < 2 ^ 32
    → (let t = new_times (at a) (at m) clock in (seconds_of t.0 ≡ a) × (seconds_of t.1 ≡ m))
      × (let t = new_times now (at m) clock in (t.0 ≡ clock) × (seconds_of t.1 ≡ m))
      × (new_times now now clock ≡ (clock, clock))
      × (let t = new_times (at a) now clock in (seconds_of t.0 ≡ a) × (seconds_of t.1 ≡ a))
unfolding new_times
new_times_lem a m clock h k =
    ((omega arith, omega arith), (refl, omega arith), refl, (omega arith, omega arith))
