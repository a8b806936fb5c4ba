-- ===== src/V6fs/Transfer/Write.antt =====
-- `v6fs_write` of src/v6fs.c and one long write.
use mathlib.Core.Path.{subst}
use mathlib.Core.List.{append-nil, append_assoc}
use retro_fuse.Prelude.{
  ℕ, zero, suc, ◌+◌, ◌-◌, ◌^◌, ◌≤◌, ◌<◌, ◌≡◌, ◌≢◌, ◌⊎◌, refl, ap, sym, ◌∙◌, inl, inr, Option, some,
  List, ◌++◌, arith, not, ◌==◌, ltb, if◌then◌else◌, length, take, drop, length-take, length-drop,
}
use retro_fuse.Prelude.Int.{ℤ, pos, neg}
use retro_fuse.V6fs.Kernel.{Sys, ◌>>=◌, ◌>>◌, pure, Kernel, clear_error, get_error, last_error}
use retro_fuse.V6fs.Transfer.{piece, sub64, write_more, write_loop, v6fs_write}
use retro_fuse.V6fs.Transfer.Read.{piece_word}
use retro_fuse.Prelude.Slices.{take-take, take-take_more, branch}

-- What the kernel's write does with the bytes of a file before its offset, `done`: it adds a part of
-- the bytes that it is handed, at most 65535, from their start on, and answers their number.
pub record WritesFile (K : Kernel) : Type 0 where
  pub done : K.Core → ℕ → List ℕ
  pub refreshclock_done :
      (s : Sys K.Core) (fd : ℕ) → done (K.refreshclock s).1.core fd ≡ done s.core fd
  pub write_length :
      (fd : ℕ) (bytes : List ℕ) (s : Sys K.Core)
      → length bytes ≤ 65535
      → (K.rdwr_write fd bytes s).0 ≤ length bytes
  pub write_done :
      (fd : ℕ) (bytes : List ℕ) (s : Sys K.Core)
      → length bytes ≤ 65535
      → done (K.rdwr_write fd bytes s).1.core fd
        ≡ done s.core fd ++ take (K.rdwr_write fd bytes s).0 bytes

-- At most the greatest 16-bit word.
abbrev pub word_of : ℕ → ℕ
word_of count = if ltb 65535 count then 65535 else count

-- The kernel's call on the first piece of `count` bytes.
abbrev pub piece_sent : (K : Kernel) → (fd : ℕ) → List ℕ → (count : ℕ) → Sys K.Core → ℕ × Sys K.Core
piece_sent K fd buf count s = K.rdwr_write fd (take (word_of count) buf) (record s { error = 0 })

-- The calls of the kernel's write in a run of `count` bytes of `buf` from the state `s` on: the first has
-- the first bytes, at most 65535, and `u_error` 0; the others come behind a call that took all its bytes
-- and left no error, with the bytes that are left.
pub data Sent (K : Kernel) (fd : ℕ)
    : (buf : List ℕ) (count : ℕ) (s : Sys K.Core) (bytes : List ℕ) (at : Sys K.Core) → Type 0 where
  first :
      {buf : List ℕ} {count : ℕ} {s : Sys K.Core}
      → Sent K fd buf count s (take (word_of count) buf) (record s { error = 0 })
  later :
      {buf bytes : List ℕ} {count : ℕ} {s at : Sys K.Core}
      → (piece_sent K fd buf count s).0 ≡ word_of count
      → (piece_sent K fd buf count s).1.error ≡ 0
      → Sent K fd
          (drop (piece_sent K fd buf count s).0 buf)
          (count - (piece_sent K fd buf count s).0)
          (piece_sent K fd buf count s).1
          bytes
          at
      → Sent K fd buf count s bytes at

-- The run ended with a call of it that took less than it was handed and left no error, or with one that
-- left the error `e`; the state is what that call left.
abbrev pub Shortened :
    (K : Kernel) → (fd : ℕ) → List ℕ → (count : ℕ) → Sys K.Core → Sys K.Core → Type 0
Shortened K fd buf count s end =
    (bytes : List ℕ) × (at : Sys K.Core) × Sent K fd buf count s bytes at
    × ((K.rdwr_write fd bytes at).0 < length bytes)
    × (end ≡ (K.rdwr_write fd bytes at).1)
    × (end.error ≡ 0)

abbrev pub Failed :
    (K : Kernel) → (fd e : ℕ) → List ℕ → (count : ℕ) → Sys K.Core → Sys K.Core → Type 0
Failed K fd e buf count s end =
    (bytes : List ℕ) × (at : Sys K.Core) × Sent K fd buf count s bytes at
    × (end ≡ (K.rdwr_write fd bytes at).1)
    × (e ≢ 0)
    × (end.error ≡ e)

-- How a write ends: with all its bytes, early behind a call that was shortened, or with an error.
abbrev pub Answer :
    (K : Kernel)
    → (fd : ℕ) → Option ℤ × Sys K.Core
    → List ℕ
    → Sys K.Core
    → (written count total : ℕ) → Type 0
Answer K fd r buf s written count total =
    ((r.0 ≡ some (pos (total + written))) × ((written ≡ count) ⊎ Shortened K fd buf count s r.1))
    ⊎ ((e : ℕ) × Failed K fd e buf count s r.1 × (r.0 ≡ some (neg e)))

-- The outcome of a run from the state `s` behind `total` bytes, where the bytes before the offset were
-- `old`.
pub record Wrote (K : Kernel) (fd : ℕ) (r : Option ℤ × Sys K.Core) (s : Sys K.Core)
    (new old buf : List ℕ) (count total : ℕ) : Type 0 where
  pub written : ℕ
  pub bounded : written ≤ count
  pub added : new ≡ old ++ take written buf
  pub answer : Answer K fd r buf s written count total

module _ (K : Kernel) (L : WritesFile K) (fd : ℕ) where
  -- A first call that took all its bytes and left no error, and then the rest of the run.
  Wrote-more :
      {new mid old buf : List ℕ} {count total : ℕ} (r : Option ℤ × Sys K.Core) (s : Sys K.Core)
      → (let (n, t) = K.rdwr_write fd (take (piece count) buf) (record s { error = 0 }) in
          n ≤ count
          → n ≡ piece count
          → t.error ≡ 0
          → mid ≡ old ++ take n buf
          → Wrote K fd r t new mid (drop n buf) (count - n) (total + n)
          → Wrote K fd r s new old buf count total)
  Wrote-more {new} {mid} {old} {buf} {count} {total} r s h full clean e W = record {
    written = n + W.written;
    bounded = omega (arith, W.bounded);
    added =
        W.added
        ∙ ap (λ ys. ys ++ take W.written (drop n buf)) e
        ∙ append_assoc old (take n buf) (take W.written (drop n buf))
        ∙ ap (λ ys. old ++ ys) (take-take_more n W.written buf);
    answer = answered W.answer;
  }
    where
      n : ℕ
      n = (K.rdwr_write fd (take (piece count) buf) (record s { error = 0 })).0

      t : Sys K.Core
      t = (K.rdwr_write fd (take (piece count) buf) (record s { error = 0 })).1

      all :
          (W.written ≡ count - n) ⊎ Shortened K fd (drop n buf) (count - n) t r.1
          → (n + W.written ≡ count) ⊎ Shortened K fd buf count s r.1
      all (inl e) = inl (omega arith)
      all (inr (bytes, at, sent, less, same, fine)) =
          inr (bytes, at, later full clean sent, less, same, fine)

      answered :
          Answer K fd r (drop n buf) t W.written (count - n) (total + n)
          → Answer K fd r buf s (n + W.written) count total
      answered (inl (e, f)) = inl (e ∙ ap (λ n. some (pos n)) (omega arith), all f)
      answered (inr (e, (bytes, at, sent, same, nonzero, left), f)) =
          inr (e, (bytes, at, later full clean sent, same, nonzero, left), f)

  -- One round behind the kernel's call.
  write_more-Wrote :
      (rest : Sys K.Core → Option ℤ × Sys K.Core) (buf : List ℕ) (count total : ℕ) (s : Sys K.Core)
      → length buf ≡ count
      → (let (n, t) = K.rdwr_write fd (take (piece count) buf) (record s { error = 0 }) in
          n ≡ piece count
          → Wrote K fd
              (rest t)
              t
              (L.done (rest t).1.core fd)
              (L.done t.core fd)
              (drop n buf)
              (count - n)
              (total + n))
      → (let (n, t) = K.rdwr_write fd (take (piece count) buf) (record s { error = 0 }) in
          let r = write_more K rest total (piece count) n t in
          Wrote K fd r s (L.done r.1.core fd) (L.done s.core fd) buf count total)
  unfolding write_more ◌>>=◌ get_error last_error pure
  write_more-Wrote rest buf count total s e ih =
      branch After _ _ (not (t.error == 0)) t
        (λ failed. record {
          written = n;
          bounded = bound;
          added = grown;
          answer = inr (t.error, (call, s0, first, refl, ground (arith, failed), refl), refl);
        })
        (λ clean.
          let no_error : t.error ≡ 0 = ground (arith, clean) in
          branch After _ _ (n == piece count) t
            (λ full.
              let all : n ≡ piece count = ground (arith, full) in
              Wrote-more (rest t) s bound all no_error grown (ih all))
            (λ short. record {
              written = n;
              bounded = bound;
              added = grown;
              answer =
                  inl
                    (refl, inr (call, s0, first, ground (arith, short, len, fits), refl, no_error));
            }))
    where
      call : List ℕ
      call = take (piece count) buf

      s0 : Sys K.Core
      s0 = record s { error = 0 }

      n : ℕ
      n = (K.rdwr_write fd call s0).0

      t : Sys K.Core
      t = (K.rdwr_write fd call s0).1

      After : Option ℤ × Sys K.Core → Type 0
      After r = Wrote K fd r s (L.done r.1.core fd) (L.done s.core fd) buf count total

      len : length call ≡ piece count
      len = ground (arith, length-take (piece count) buf, e)

      a_word : length call ≤ 65535
      a_word = ground (arith, len, piece_word count)

      fits : n ≤ length call
      fits = L.write_length fd call s0 a_word

      size : piece count ≤ count
      size = ground arith

      bound : n ≤ count
      bound = omega (arith, len, fits, size)

      grown : L.done t.core fd ≡ L.done s.core fd ++ take n buf
      grown =
          L.write_done fd call s0 a_word
          ∙ ap (λ ys. L.done s.core fd ++ ys)
              (take-take n (piece count) buf (omega (arith, len, fits)))

  write_loop-Wrote :
      (fuel : ℕ) (buf : List ℕ) (count total : ℕ) (s : Sys K.Core)
      → count < fuel
      → count < 2 ^ 64
      → length buf ≡ count
      → Wrote K fd
          (write_loop K fuel fd buf count total s)
          s
          (L.done (write_loop K fuel fd buf count total s).1.core fd)
          (L.done s.core fd)
          buf
          count
          total
  unfolding write_loop ◌>>=◌ ◌>>◌ clear_error pure
  write_loop-Wrote zero buf count total s h w e = absurd (omega arith)
  write_loop-Wrote (suc k) buf count total s h w e =
      branch After _ _ (count == 0) s
        (λ finished. record {
          written = 0;
          bounded = omega arith;
          added = sym (append-nil (L.done s.core fd));
          answer = inl (ap (λ n. some (pos n)) (omega arith), inl (ground arith));
        })
        (λ more.
          let r = K.rdwr_write fd (take (piece count) buf) (record s { error = 0 }) in
          let rest = write_loop K k fd (drop r.0 buf) (sub64 count r.0) (total + r.0) r.1 in
          write_more-Wrote _ buf count total s e (λ full.
            let left : sub64 count r.0 ≡ count - r.0 = ground arith in
            subst
              (λ c.
                Wrote K fd rest r.1 (L.done rest.1.core fd) (L.done r.1.core fd) (drop r.0 buf) c
                  (total + r.0))
              left
              (write_loop-Wrote k (drop r.0 buf) (sub64 count r.0) (total + r.0) r.1
                (ground (arith, left)) (ground (arith, left))
                (length-drop r.0 buf ∙ ap (λ m. m - r.0) e ∙ sym left))))
    where
      After : Option ℤ × Sys K.Core → Type 0
      After r = Wrote K fd r s (L.done r.1.core fd) (L.done s.core fd) buf count total

-- A write of fewer than 2 ^ 64 bytes returns, and puts a prefix of its bytes behind what was before the
-- offset. It returns the length of the prefix, which is all of them unless it ended with a call of the
-- kernel that took less than it was handed, or the error that the call left with which it ended. The
-- calls are those of this run: each has the bytes behind those that were taken, at most 65535, and comes
-- behind calls that took all of theirs without an error; the call leaves the state that the write leaves.
-- The kernel's own call is only asked to do what it documents for at most 65535 bytes.
pub v6fs_write-Wrote :
    (K : Kernel) (L : WritesFile K) (fd : ℕ) (buf : List ℕ) (count : ℕ) (s : Sys K.Core)
    → count < 2 ^ 64
    → length buf ≡ count
    → (let r = v6fs_write K fd buf count s in
        Wrote K fd r (K.refreshclock s).1 (L.done r.1.core fd) (L.done s.core fd) buf count 0)
unfolding v6fs_write ◌>>◌ ◌>>=◌
v6fs_write-Wrote K L fd buf count s w e =
    subst
      (λ old.
        Wrote K fd (v6fs_write K fd buf count s) (K.refreshclock s).1
          (L.done (v6fs_write K fd buf count s).1.core fd) old buf count 0)
      (L.refreshclock_done s fd)
      (write_loop-Wrote K L fd (count + 1) buf count 0 (K.refreshclock s).1 (omega arith) w e)
