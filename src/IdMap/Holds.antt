-- ===== src/IdMap/Holds.antt =====
-- The table of src/idmap.c stands for a list of entries, and `idmap_addidmap` appends to it.
use retro_fuse.Prelude.{
  ℕ, zero, suc, ◌+◌, ◌-◌, ◌%◌, ◌≤◌, ◌<◌, ◌≡◌, refl, ◌≢◌, ◌⊎◌, inl, inr, Bool, true, false, ◌||◌,
  Option, none, some, List, [], ◌∷◌, ◌++◌, arith, ltb, lt→ltb, ◌==◌, length, set, take, replicate,
  length-append, length-take, length-replicate,
}
use retro_fuse.Prelude.Int.{pos, neg}
use retro_fuse.Errno.{einval, enomem}
use retro_fuse.IdMap.{Entry, Cells, IdMap, is_null, realloc, append_entry, addidmap}

-- The first cells hold the entries.
abbrev pub Filled : List Entry → Cells → Type 0
Filled [] cells = Unit {0}
Filled (e ∷ es) [] = ⊥
Filled (e ∷ es) (c ∷ cells) = (c ≡ some e) × Filled es cells

-- The table is NULL and empty, or a block whose size is a multiple of the increment.
abbrev pub Block : List Entry → Option Cells → Type 0
Block es none = es ≡ []
Block es (some cells) = Filled es cells × (length cells % 128 ≡ 0) × (length es ≤ length cells)

pub record Holds (m : IdMap) (es : List Entry) : Type 0 where
  pub count : m.entrycount ≡ length es
  pub block : Block es m.entries

Filled-append : (es : List Entry) (cs ds : Cells) → Filled es cs → Filled es (cs ++ ds)
Filled-append [] cs ds f = tt
Filled-append (e ∷ es) [] ds f = absurd f
Filled-append (e ∷ es) (c ∷ cs) ds (p, f) = (p, Filled-append es cs ds f)

Filled-take :
    (es : List Entry) (n : ℕ) (cs : Cells) → Filled es cs → length es ≤ n → Filled es (take n cs)
Filled-take [] n cs f h = tt
Filled-take (e ∷ es) n [] f h = absurd f
Filled-take (e ∷ es) zero (c ∷ cs) f h = absurd (omega arith)
Filled-take (e ∷ es) (suc n) (c ∷ cs) (p, f) h = (p, Filled-take es n cs f (omega arith))

Filled-set :
    (es : List Entry) (e : Entry) (cs : Cells)
    → Filled es cs
    → length es < length cs
    → Filled (es ++ (e ∷ [])) (set cs (length es) (some e))
Filled-set [] e [] f h = absurd (omega arith)
Filled-set [] e (c ∷ cs) f h = (refl, tt)
Filled-set (x ∷ es) e [] f h = absurd f
Filled-set (x ∷ es) e (c ∷ cs) (p, f) h = (p, Filled-set es e cs f (omega arith))

length-set : (cs : Cells) (i : ℕ) (c : Option Entry) → length (set cs i c) ≡ length cs
length-set [] i c = refl
length-set (x ∷ cs) zero c = refl
length-set (x ∷ cs) (suc i) c = omega (arith, length-set cs i c)

length-realloc : (o : Option Cells) (n : ℕ) → length (realloc o n) ≡ n
unfolding realloc
length-realloc none n = length-replicate n none
length-realloc (some cs) n = omega (
  arith,
  length-append (take n cs) (replicate (n - length cs) none),
  length-take n cs,
  length-replicate {0} (n - length cs) none,
)

Filled-realloc :
    (es : List Entry) (o : Option Cells) (n : ℕ)
    → Block es o
    → length es ≤ n
    → Filled es (realloc o n)
unfolding realloc
Filled-realloc [] o n b h = tt
Filled-realloc (e ∷ es) none n b h = absurd (cc)
Filled-realloc (e ∷ es) (some cs) n (f, _, _) h =
    Filled-append (e ∷ es) (take n cs) _ (Filled-take (e ∷ es) n cs f h)

dec_round : (n : ℕ) → (n ≡ 0) ⊎ (n ≢ 0)
dec_round zero = inl refl
dec_round (suc n) = inr (omega arith)

module _ (m : IdMap) (es : List Entry) (hostid fsid : ℕ) where
  abbrev new_entry : Entry
  new_entry = record { hostid = hostid; fsid = fsid }

  -- The table after the addition of one entry; its limits stay.
  pub record Added (m' : IdMap) : Type 0 where
    pub holds : Holds m' (es ++ (new_entry ∷ []))
    pub limits :
        (m'.maxfsid ≡ m.maxfsid)
        × (m'.defaulthostid ≡ m.defaulthostid)
        × (m'.defaultfsid ≡ m.defaultfsid)

  append_entry-Added :
      (cells : Cells)
      → m.entrycount ≡ length es
      → Filled es cells
      → length cells % 128 ≡ 0
      → length es < length cells
      → (m' : IdMap) × (append_entry cells m new_entry ≡ some (pos 0, m')) × Added m'
  unfolding append_entry
  append_entry-Added cells c f full h = (
    record m {
      entries = some (set cells m.entrycount (some new_entry));
      entrycount = m.entrycount + 1;
    },
    rw (lt→ltb m.entrycount (length cells) (omega arith)),
    record {
      holds = record {
        count = omega (arith, length-append {0} es (new_entry ∷ []));
        block = rw c (
          Filled-set es new_entry cells f h,
          omega (arith, length-set cells (length es) (some new_entry)),
          omega (
            arith,
            length-set cells (length es) (some new_entry),
            length-append {0} es (new_entry ∷ []),
          ),
        );
      };
      limits = (refl, refl, refl);
    },
  )

  -- Where the block is enlarged first.
  addidmap_grown :
      Holds m es
      → ltb m.maxfsid fsid ≡ false
      → (is_null m.entries || m.entrycount % 128 == 0) ≡ true
      → m.entrycount % 128 ≡ 0
      → (m' : IdMap) × (addidmap true m hostid fsid ≡ some (pos 0, m')) × Added m'
  unfolding addidmap
  addidmap_grown h small full round =
      let n : ℕ = m.entrycount + 128 in
      let (m', e, a) =
        append_entry-Added (realloc m.entries n) h.count
          (Filled-realloc es m.entries n h.block (omega (arith, h.count)))
          (omega (arith, length-realloc m.entries n))
          (omega (arith, h.count, length-realloc m.entries n)) in
      (m', rw (small, full) e, a)

  addidmap_in_place :
      (granted : Bool) (o : Option Cells)
      → m.entries ≡ o
      → Block es o
      → m.entrycount ≡ length es
      → ltb m.maxfsid fsid ≡ false
      → m.entrycount % 128 ≢ 0
      → (m' : IdMap) × (addidmap granted m hostid fsid ≡ some (pos 0, m')) × Added m'
  unfolding addidmap
  addidmap_in_place granted none e b c small odd = absurd (odd (rw c (rw b refl)))
  addidmap_in_place granted (some cells) e (f, full, fits) c small odd =
      let (m', p, a) = append_entry-Added cells c f full (omega arith) in (m', ground (arith, p), a)

  -- An id within the limit is appended whenever memory is found or not asked for: the call returns
  -- 0, the table then stands for the old entries with the new one behind them, and its limits stay.
  pub addidmap-Added :
      (granted : Bool)
      → Holds m es
      → fsid ≤ m.maxfsid
      → (granted ≡ true) ⊎ (length es % 128 ≢ 0)
      → (m' : IdMap) × (addidmap granted m hostid fsid ≡ some (pos 0, m')) × Added m'
  addidmap-Added granted h small (inr odd) =
      addidmap_in_place granted m.entries refl h.block h.count (ground arith)
        (λ z. odd (rw (← h.count) z))
  addidmap-Added granted h small (inl yes_memory) = elim (dec_round (m.entrycount % 128)) [
    | inl z ↦ rw yes_memory (addidmap_grown h (ground arith) (ground arith) z)
    | inr nz ↦ addidmap_in_place granted m.entries refl h.block h.count (ground arith) nz
  ]

  -- The two failures. An id above the limit leaves the table as it was. Where no memory is found,
  -- the call returns -ENOMEM and the pointer to the old block is lost; the count is kept.
  addidmap_failure :
      (granted : Bool)
      → (m.maxfsid < fsid → addidmap granted m hostid fsid ≡ some (neg einval, m))
        × (fsid ≤ m.maxfsid
            → m.entrycount % 128 ≡ 0
            → addidmap false m hostid fsid ≡ some (neg enomem, record m { entries = none }))
  unfolding addidmap
  addidmap_failure granted = (λ h. ground arith, λ h z. ground arith)
