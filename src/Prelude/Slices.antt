-- ===== src/Prelude/Slices.antt =====
-- Lists in pieces, and branches of stateful code.
use retro_fuse.Prelude.{
  ℕ, zero, suc, ◌+◌, ◌-◌, ◌≤◌, ◌<◌, ◌≡◌, refl, ap, sym, ◌∙◌, Bool, true, false, List, [], ◌∷◌, ◌++◌,
  arith, if◌then◌else◌, length, take, drop,
}

pub take-nil : (n : ℕ) → ◌≡◌ {A = List ℕ} (take n []) []
take-nil zero = refl
take-nil (suc n) = refl

pub drop-nil : (n : ℕ) → ◌≡◌ {A = List ℕ} (drop n []) []
drop-nil zero = refl
drop-nil (suc n) = refl

-- A prefix in two pieces, of which the first may be cut short by the end of the list.
pub take-split :
    (m c : ℕ) (xs : List ℕ)
    → m ≤ c
    → take c xs ≡ take m xs ++ take (c - length (take m xs)) (drop m xs)
take-split zero c xs h = ap (λ n. take n xs) (omega arith)
take-split (suc m) zero xs h = absurd (omega arith)
take-split (suc m) (suc c) [] h = sym (take-nil (suc c - 0))
take-split (suc m) (suc c) (x ∷ xs) h =
    ap (λ ys. x ∷ ys)
      (take-split m c xs (omega arith) ∙ ap (λ n. take m xs ++ take n (drop m xs)) (omega arith))

pub drop-split :
    (m c : ℕ) (xs : List ℕ) → m ≤ c → drop c xs ≡ drop (c - length (take m xs)) (drop m xs)
drop-split zero c xs h = ap (λ n. drop n xs) (omega arith)
drop-split (suc m) zero xs h = absurd (omega arith)
drop-split (suc m) (suc c) [] h = sym (drop-nil (suc c - 0))
drop-split (suc m) (suc c) (x ∷ xs) h =
    drop-split m c xs (omega arith) ∙ ap (λ n. drop n (drop m xs)) (omega arith)

pub empty_of_take : (m : ℕ) (xs : List ℕ) → 0 < m → length (take m xs) ≡ 0 → xs ≡ []
empty_of_take zero xs h e = absurd (omega arith)
empty_of_take (suc m) [] h e = refl
empty_of_take (suc m) (x ∷ xs) h e = absurd (omega arith)

pub apply_if :
    {A B : Type 0} (f g : A → B) (b : Bool) (t : A)
    → (if b then f else g) t ≡ (if b then f t else g t)
apply_if f g true t = refl
apply_if f g false t = refl

pub apply_then :
    {A B : Type 0} (f g : A → B) (b : Bool) (t : A) → b ≡ true → (if b then f else g) t ≡ f t
apply_then f g b t e = ap (λ b. (if b then f else g) t) e

pub apply_else :
    {A B : Type 0} (f g : A → B) (b : Bool) (t : A) → b ≡ false → (if b then f else g) t ≡ g t
apply_else f g b t e = ap (λ b. (if b then f else g) t) e

pub take-length : (xs ys : List ℕ) → take (length xs) (xs ++ ys) ≡ xs
take-length [] ys = refl
take-length (x ∷ xs) ys = ap (λ zs. x ∷ zs) (take-length xs ys)

pub drop-length : (xs ys : List ℕ) → drop (length xs) (xs ++ ys) ≡ ys
drop-length [] ys = refl
drop-length (x ∷ xs) ys = drop-length xs ys

pub drop-drop : (m n : ℕ) (xs : List ℕ) → drop n (drop m xs) ≡ drop (m + n) xs
drop-drop zero n xs = let e : n ≡ 0 + n = omega arith in ap (λ k. drop k xs) e
drop-drop (suc m) n [] =
    drop-nil n
    ∙ sym (drop-nil (suc (m + n)))
    ∙ (let e : suc (m + n) ≡ suc m + n = omega arith in ap (λ k. drop k []) e)
drop-drop (suc m) n (x ∷ xs) =
    drop-drop m n xs
    ∙ (let e : suc (m + n) ≡ suc m + n = omega arith in ap (λ k. drop k (x ∷ xs)) e)

pub take_all : (xs : List ℕ) → take (length xs) xs ≡ xs
take_all [] = refl
take_all (x ∷ xs) = ap (λ ys. x ∷ ys) (take_all xs)

pub take-take : (m n : ℕ) (xs : List ℕ) → m ≤ n → take m (take n xs) ≡ take m xs
take-take zero n xs h = refl
take-take (suc m) zero xs h = absurd (omega arith)
take-take (suc m) (suc n) [] h = refl
take-take (suc m) (suc n) (x ∷ xs) h = ap (λ ys. x ∷ ys) (take-take m n xs (omega arith))

-- Two pieces of which neither is cut short by the first's end.
pub take-take_more : (m k : ℕ) (xs : List ℕ) → take m xs ++ take k (drop m xs) ≡ take (m + k) xs
take-take_more zero k xs = ap (λ n. take n xs) (omega arith)
take-take_more (suc m) k [] = take-nil k ∙ sym (take-nil (suc m + k))
take-take_more (suc m) k (x ∷ xs) =
    ap (λ ys. x ∷ ys) (take-take_more m k xs)
    ∙ ap (λ n. take n (x ∷ xs)) {x = suc (m + k)} {y = suc m + k} (omega arith)

-- What holds of a stateful branch, from what holds of both.
pub branch :
    {A B : Type 0} (P : B → Type 0) (f g : A → B) (b : Bool) (t : A)
    → (b ≡ true → P (f t))
    → (b ≡ false → P (g t))
    → P ((if b then f else g) t)
branch P f g true t h k = h refl
branch P f g false t h k = k refl
