-- ===== src/V6fs/FreeList/Interleave.antt =====
-- The table `adr` of `v6fs_initfreelist` in src/v6fs.c holds each of 0 .. n - 1 once.
use native.Mathlib.Nat.{mod-eq_of_lt, mod-add-mod, mod-lt, add-zero, add-mod_right}
use retro_fuse.Prelude.{
  ℕ, zero, suc, ◌+◌, ◌-◌, ◌%◌, ◌≤◌, ◌<◌, ◌≡◌, refl, ap, sym, ◌∙◌, inl, inr, some, List, [], ◌∷◌,
  ◌++◌, arith, ltb, ltb→lt, leb, ◌==◌, if◌then◌else◌, length, get_or, set, replicate, count,
  count-append, All, length-append, length-replicate, Bool-cases,
}
use retro_fuse.V6fs.FreeList.{find_clear, fill, interleave}

-- The number of flags that are set.
abbrev set_count : List ℕ → ℕ
set_count [] = 0
set_count (f ∷ flg) = (if f == 0 then 0 else 1) + set_count flg

clear_exists :
    (flg : List ℕ) → set_count flg < length flg → (x : ℕ) × (x < length flg) × (get_or flg x 0 ≡ 0)
clear_exists [] h = absurd (omega arith)
clear_exists (zero ∷ flg) h = (0, omega arith, refl)
clear_exists (suc f ∷ flg) h =
    let (x, lt, e) = clear_exists flg (ground arith) in (suc x, omega arith, e)

-- The scan reaches the flag that is k steps ahead.
find_clear_ahead :
    (fuel n : ℕ) (flg : List ℕ) (i k : ℕ)
    → i < n
    → k < fuel
    → get_or flg ((i + k) % n) 0 ≡ 0
    → (x : ℕ) × (find_clear fuel n flg i ≡ some x) × (x < n) × (get_or flg x 0 ≡ 0)
unfolding find_clear
find_clear_ahead zero n flg i k lt h e = absurd (omega arith)
find_clear_ahead (suc fuel) n flg i zero lt h e =
    let here : get_or flg i 0 ≡ 0 =
      ap (λ (x : ℕ). get_or flg x 0) (sym (ap (λ x. x % n) (add-zero i) ∙ mod-eq_of_lt lt)) ∙ e in
    (i, ground (arith, here), lt, here)
find_clear_ahead (suc fuel) n flg i (suc k) lt h e = elim (Bool-cases (get_or flg i 0 == 0)) [
  | inl clear ↦ (i, rw clear, lt, ground arith)
  | inr busy ↦ rw busy (
      find_clear_ahead fuel n flg ((i + 1) % n) k (mod-lt (i + 1) (omega arith)) (omega arith) (
        ap (λ (x : ℕ). get_or flg x 0) (mod-add-mod (i + 1) n k ∙ ap (λ x. x % n) (omega arith))
        ∙ e))
]

distance : (n i x : ℕ) → i < n → x < n → (k : ℕ) × (k < n) × ((i + k) % n ≡ x)
distance n i x hi hx = elim (Bool-cases (leb i x)) [
  | inl up ↦
      let ahead : i ≤ x = ground arith in
      (x - i, omega arith, ap (λ z. z % n) (omega arith) ∙ mod-eq_of_lt hx)
  | inr down ↦
      let behind : x < i = ground arith in
      (
        x + n - i,
        omega arith,
        ap (λ z. z % n) (omega arith) ∙ (add-mod_right x n ∙ mod-eq_of_lt hx),
      )
]

-- While a flag is clear, a scan of n rounds finds one.
find_clear_total :
    (n : ℕ) (flg : List ℕ) (i : ℕ)
    → i < n
    → length flg ≡ n
    → set_count flg < n
    → (x : ℕ) × (find_clear n n flg i ≡ some x) × (x < n) × (get_or flg x 0 ≡ 0)
find_clear_total n flg i lt len room =
    let (x, hx, e) = clear_exists flg (omega arith) in
    let (k, hk, at) = distance n i x lt (omega arith) in
    find_clear_ahead n n flg i k lt hk (ap (λ (z : ℕ). get_or flg z 0) at ∙ e)

get_or-set :
    (flg : List ℕ) (k v x : ℕ)
    → k < length flg
    → get_or (set flg k v) x 0 ≡ (if x == k then v else get_or flg x 0)
get_or-set [] k v x h = absurd (omega arith)
get_or-set (f ∷ flg) zero v zero h = refl
get_or-set (f ∷ flg) zero v (suc x) h = ground arith
get_or-set (f ∷ flg) (suc k) v zero h = ground arith
get_or-set (f ∷ flg) (suc k) v (suc x) h = ground (arith, get_or-set flg k v x (omega arith))

length-set : (flg : List ℕ) (k v : ℕ) → length (set flg k v) ≡ length flg
length-set [] k v = refl
length-set (f ∷ flg) zero v = refl
length-set (f ∷ flg) (suc k) v = ap suc (length-set flg k v)

set_count-set :
    (flg : List ℕ) (k v : ℕ)
    → k < length flg
    → get_or flg k 0 ≡ 0
    → set_count (set flg k (suc v)) ≡ suc (set_count flg)
set_count-set [] k v h e = absurd (omega arith)
set_count-set (f ∷ flg) zero v h e = ground arith
set_count-set (f ∷ flg) (suc k) v h e = ground (arith, set_count-set flg k v (omega arith) e)

All-append : (P : ℕ → Type 0) (xs ys : List ℕ) → All P xs → All P ys → All P (xs ++ ys)
All-append P [] ys h k = k
All-append P (x ∷ xs) ys (p, h) k = (p, All-append P xs ys h k)

-- The flags count the entries of the table.
record Filling (n : ℕ) (flg adr : List ℕ) : Type 0 where
  size : length flg ≡ n
  counted : (x : ℕ) → count x adr ≡ get_or flg x 0
  once : (x : ℕ) → get_or flg x 0 ≤ 1
  used : set_count flg ≡ length adr
  below : All (λ a. a < n) adr

Filling-step :
    (n : ℕ) (flg adr : List ℕ) (k : ℕ)
    → Filling n flg adr
    → k < n
    → get_or flg k 0 ≡ 0
    → Filling n (set flg k (get_or flg k 0 + 1)) (adr ++ (k ∷ []))
Filling-step n flg adr k f lt clear =
    let one : get_or flg k 0 + 1 ≡ suc 0 = omega arith in
    rw one (record {
      size = length-set flg k 1 ∙ f.size;
      counted = λ x. ground (
        arith,
        f.counted x,
        f.counted k,
        get_or-set flg k 1 x (omega (arith, f.size)),
        count-append x adr (k ∷ []),
        clear,
      );
      once = λ x. ground (arith, f.once x, get_or-set flg k 1 x (omega (arith, f.size)));
      used = omega (
        arith,
        f.used,
        set_count-set flg k 0 (omega (arith, f.size)) clear,
        length-append {0} adr (k ∷ []),
      );
      below = All-append (λ a. a < n) adr (k ∷ []) f.below (lt, tt);
    })

fill_total :
    (r n m : ℕ) (flg adr : List ℕ) (i : ℕ)
    → i < n
    → Filling n flg adr
    → length adr + r ≡ n
    → (out flg' : List ℕ) × (fill r n m flg adr i ≡ some out)
      × Filling n flg' out
      × (length out ≡ n)
unfolding fill
fill_total zero n m flg adr i lt f len = (adr, flg, refl, f, omega arith)
fill_total (suc r) n m flg adr i lt f len =
    let (k, e, hk, clear) = find_clear_total n flg i lt f.size (omega (arith, f.used)) in
    rw (e, fill)
      (fill_total r n m _ _ ((k + m) % n) (mod-lt (k + m) (omega arith))
        (Filling-step n flg adr k f hk clear) (omega (arith, length-append {0} adr (k ∷ []))))

set_count-le-length : (flg : List ℕ) → set_count flg ≤ length flg
set_count-le-length [] = omega arith
set_count-le-length (f ∷ flg) = ground (arith, set_count-le-length flg)

all_set : (flg : List ℕ) (x : ℕ) → set_count flg ≡ length flg → x < length flg → 0 < get_or flg x 0
all_set [] x e h = absurd (omega arith)
all_set (zero ∷ flg) x e h = absurd (omega (arith, set_count-le-length flg))
all_set (suc f ∷ flg) zero e h = omega arith
all_set (suc f ∷ flg) (suc x) e h = all_set flg x (ground arith) (omega arith)

get_or_outside : (flg : List ℕ) (x : ℕ) → length flg ≤ x → get_or flg x 0 ≡ 0
get_or_outside [] x h = refl
get_or_outside (f ∷ flg) zero h = absurd (omega arith)
get_or_outside (f ∷ flg) (suc x) h = get_or_outside flg x (omega arith)

pub record IsInterleaving (n : ℕ) (adr : List ℕ) : Type 0 where
  pub size : length adr ≡ n
  pub below : All (λ a. a < n) adr
  pub once : (x : ℕ) → count x adr ≡ (if ltb x n then 1 else 0)

Filling-IsInterleaving :
    (n : ℕ) (flg adr : List ℕ) → Filling n flg adr → length adr ≡ n → IsInterleaving n adr
Filling-IsInterleaving n flg adr f len = record {
  size = len;
  below = f.below;
  once = λ x. elim (Bool-cases (ltb x n)) [
    | inl inside ↦ rw inside (
        omega (
          arith,
          f.counted x,
          f.once x,
          all_set flg x (omega (arith, f.used, f.size)) (omega (arith, f.size, ltb→lt x n inside)),
        ))
    | inr outside ↦
        let far : n ≤ x = ground arith in
        rw outside (f.counted x ∙ get_or_outside flg x (omega (arith, f.size)))
  ];
}

-- For any n but 0 and any m the table is filled, with each of 0 .. n - 1 once and nothing else: no
-- scan for a clear flag runs on for ever.
pub interleave_total :
    (n m : ℕ) → 0 < n → (adr : List ℕ) × (interleave n m ≡ some adr) × IsInterleaving n adr
unfolding interleave
interleave_total n m h =
    let (adr, flg, e, f, len) = fill_total n n m (replicate n 0) [] 0 h start (omega arith) in
    (adr, e, Filling-IsInterleaving n flg adr f len)
  where
    clear : (n x : ℕ) → ◌≡◌ {A = ℕ} (get_or (replicate n 0) x 0) 0
    clear zero x = refl
    clear (suc n) zero = refl
    clear (suc n) (suc x) = clear n x

    unset : (n : ℕ) → set_count (replicate n 0) ≡ 0
    unset zero = refl
    unset (suc n) = omega (arith, unset n)

    start : Filling n (replicate n 0) []
    start = record {
      size = length-replicate n 0;
      counted = λ x. sym (clear n x);
      once = λ x. omega (arith, clear n x);
      used = unset n;
      below = tt;
    }
