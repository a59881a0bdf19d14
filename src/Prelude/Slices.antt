-- ===== src/Prelude/Slices.antt =====
-- A part of a list: `take m (drop k xs)`.
use Prim.Native.Nat.{ℕ, zero, suc, ◌+◌, ◌-◌, ◌≤◌, ◌<◌}
use mathlib.Core.Path.{◌≡◌, refl, ap}
use mathlib.Core.List.{List, [], ◌∷◌, ◌++◌}
use native.Mathlib.Omega.{arith}
use tmfqsfullstate.Prelude.Lists.{length, get_or, set, take, drop}

module _ {ℓ} {A : Type ℓ} where
  pub length-take : (m : ℕ) (xs : List A) → m ≤ length xs → length (take m xs) ≡ m
  length-take zero xs h = refl
  length-take (suc m) [] h = absurd (omega arith)
  length-take (suc m) (x ∷ xs) h = ap suc (length-take m xs (omega arith))

  pub take-all : (m : ℕ) (xs : List A) → length xs ≤ m → take m xs ≡ xs
  take-all zero [] h = refl
  take-all zero (x ∷ xs) h = absurd (omega arith)
  take-all (suc m) [] h = refl
  take-all (suc m) (x ∷ xs) h = ap (λ ys. x ∷ ys) (take-all m xs (omega arith))

  pub length-drop : (k : ℕ) (xs : List A) → length (drop k xs) ≡ length xs - k
  length-drop zero xs = omega arith
  length-drop (suc k) [] = omega arith
  length-drop (suc k) (x ∷ xs) = omega (arith, length-drop k xs)

  pub get_or-take : (m i : ℕ) (xs : List A) (d : A) → i < m → get_or (take m xs) i d ≡ get_or xs i d
  get_or-take zero i xs d h = absurd (omega arith)
  get_or-take (suc m) i [] d h = refl
  get_or-take (suc m) zero (x ∷ xs) d h = refl
  get_or-take (suc m) (suc i) (x ∷ xs) d h = get_or-take m i xs d (omega arith)

  pub get_or-drop : (k i : ℕ) (xs : List A) (d : A) → get_or (drop k xs) i d ≡ get_or xs (k + i) d
  get_or-drop zero i xs d = ap (λ j. get_or xs j d) (omega arith)
  get_or-drop (suc k) i [] d = refl
  get_or-drop (suc k) i (x ∷ xs) d =
      let e : suc k + i ≡ suc (k + i) = omega arith in rw e (get_or-drop k i xs d)

  pub take-set_inside :
      (m i : ℕ) (xs : List A) (x : A) → i < m → take m (set xs i x) ≡ set (take m xs) i x
  take-set_inside zero i xs x h = absurd (omega arith)
  take-set_inside (suc m) i [] x h = refl
  take-set_inside (suc m) zero (y ∷ xs) x h = refl
  take-set_inside (suc m) (suc i) (y ∷ xs) x h =
      ap (λ ys. y ∷ ys) (take-set_inside m i xs x (omega arith))

  pub take-set_beyond : (m i : ℕ) (xs : List A) (x : A) → m ≤ i → take m (set xs i x) ≡ take m xs
  take-set_beyond zero i xs x h = refl
  take-set_beyond (suc m) i [] x h = refl
  take-set_beyond (suc m) zero (y ∷ xs) x h = absurd (omega arith)
  take-set_beyond (suc m) (suc i) (y ∷ xs) x h =
      ap (λ ys. y ∷ ys) (take-set_beyond m i xs x (omega arith))

  pub drop-set_before : (k i : ℕ) (xs : List A) (x : A) → i < k → drop k (set xs i x) ≡ drop k xs
  drop-set_before zero i xs x h = absurd (omega arith)
  drop-set_before (suc k) i [] x h = refl
  drop-set_before (suc k) zero (y ∷ xs) x h = refl
  drop-set_before (suc k) (suc i) (y ∷ xs) x h = drop-set_before k i xs x (omega arith)

  pub drop-set_after :
      (k i : ℕ) (xs : List A) (x : A) → drop k (set xs (k + i) x) ≡ set (drop k xs) i x
  drop-set_after zero i xs x = ap (λ j. set xs j x) (omega arith)
  drop-set_after (suc k) i [] x = refl
  drop-set_after (suc k) i (y ∷ xs) x =
      let e : suc k + i ≡ suc (k + i) = omega arith in rw e (drop-set_after k i xs x)

  pub drop-all : (k : ℕ) (xs : List A) → length xs ≤ k → drop k xs ≡ []
  drop-all zero [] h = refl
  drop-all zero (x ∷ xs) h = absurd (omega arith)
  drop-all (suc k) [] h = refl
  drop-all (suc k) (x ∷ xs) h = drop-all k xs (omega arith)

  pub drop-drop : (j k : ℕ) (xs : List A) → drop j (drop k xs) ≡ drop (k + j) xs
  drop-drop j zero xs = ap (λ i. drop i xs) (omega arith)
  drop-drop zero (suc k) [] = ap (λ i. drop i []) {x = suc k} {y = suc k + zero} (omega arith)
  drop-drop (suc j) (suc k) [] =
      ap (λ i. drop i []) {x = suc (k + suc j)} {y = suc k + suc j} (omega arith)
  drop-drop j (suc k) (x ∷ xs) =
      let e : suc k + j ≡ suc (k + j) = omega arith in rw e (drop-drop j k xs)

  pub take-append-drop : (k : ℕ) (xs : List A) → take k xs ++ drop k xs ≡ xs
  take-append-drop zero xs = refl
  take-append-drop (suc k) [] = refl
  take-append-drop (suc k) (x ∷ xs) = ap (λ ys. x ∷ ys) (take-append-drop k xs)

  pub set-length :
      (pre rest : List A) (x y : A) → set (pre ++ x ∷ rest) (length pre) y ≡ pre ++ y ∷ rest
  set-length [] rest x y = refl
  set-length (p ∷ pre) rest x y = ap (λ ys. p ∷ ys) (set-length pre rest x y)
