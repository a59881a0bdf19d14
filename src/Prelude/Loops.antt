-- ===== src/Prelude/Loops.antt =====
-- Counting loops. `loop` is a `for` statement with its test, on fuel; `range` is the same loop with
-- the number of its rounds known, and with no stride.
use Prim.Native.Nat.{ℕ, zero, suc, ◌+◌, ◌*◌, ◌≤◌, ◌<◌}
use mathlib.Core.Path.{◌≡◌, refl, ap, ◌∙◌, sym, subst}
use mathlib.Core.Bool.{Bool, true, false}
use native.Mathlib.Omega.{arith}

module _ {ℓ} {S : Type ℓ} where
  -- for(i = i0; go(i); i += stride) s = body(i, s)
  unfoldable pub loop : ℕ → ℕ → ℕ → (ℕ → Bool) → (ℕ → S → S) → S → S
  loop zero i stride go body s = s
  loop (suc fuel) i stride go body s = elim (go i) [
    | true ↦ loop fuel (i + stride) stride go body (body i s)
    | false ↦ s
  ]

  -- body(i), body(i + 1), ..., body(i + n - 1), in this order
  unfoldable pub range : ℕ → ℕ → (ℕ → S → S) → S → S
  range zero i body s = s
  range (suc n) i body s = range n (suc i) body (body i s)

  -- The bodies need to agree only at the indices that are met.
  pub range-congr :
      (n i j : ℕ) (f g : ℕ → S → S) (s : S)
      → ((k : ℕ) (t : S) → k < n → f (i + k) t ≡ g (j + k) t)
      → range n i f s ≡ range n j g s
  unfolding range
  range-congr zero i j f g s h = refl
  range-congr (suc n) i j f g s h =
      let first : f i s ≡ g j s =
        ap (λ x. f x s) (omega arith) ∙ h 0 s (omega arith) ∙ ap (λ x. g x s) (omega arith) in
      ap (range n (suc i) f) first
      ∙ range-congr n (suc i) (suc j) f g (g j s) (λ k t q.
        ap (λ x. f x t) (omega arith) ∙ h (suc k) t (omega arith) ∙ ap (λ x. g x t) (omega arith))

  pub range-add :
      (m n i : ℕ) (body : ℕ → S → S) (s : S)
      → range (m + n) i body s ≡ range n (i + m) body (range m i body s)
  unfolding range
  range-add zero n i body s =
      ap (λ x. range x i body s) {x = zero + n} {y = n} (omega arith)
      ∙ ap (λ x. range n x body s) {x = i} {y = i + zero} (omega arith)
  range-add (suc m) n i body s =
      ap (λ x. range x i body s) {x = suc m + n} {y = suc (m + n)} (omega arith)
      ∙ range-add m n (suc i) body (body i s)
      ∙ ap (λ x. range n x body (range m (suc i) body (body i s))) {x = suc i + m} {y = i + suc m}
          (omega arith)

  -- A loop of `m` rounds in each of `n` rounds is one loop of `n * m` rounds.
  pub range-range :
      (n m i : ℕ) (body : ℕ → S → S) (s : S)
      → range n i (λ a. range m 0 (λ b. body (a * m + b))) s ≡ range (n * m) (i * m) body s
  unfolding range
  range-range zero m i body s = ap (λ x. range x (i * m) body s) {x = 0} {y = 0 * m} (omega arith)
  range-range (suc n) m i body s =
      range-range n m (suc i) body (range m 0 (λ b. body (i * m + b)) s)
      ∙ ap (λ x. range (n * m) x body (range m 0 (λ b. body (i * m + b)) s)) {x = suc i * m}
          {y = i * m + m} (omega arith)
      ∙ ap (range (n * m) (i * m + m) body) (
          range-congr m 0 (i * m) (λ b. body (i * m + b)) body s
            (λ k t q. ap (λ x. body x t) (omega arith)))
      ∙ sym (range-add m (n * m) (i * m) body s)
      ∙ ap (λ x. range x (i * m) body s) {x = m + n * m} {y = suc n * m} (omega arith)

  pub loop-eq-range :
      (n fuel i stride : ℕ) (go : ℕ → Bool) (body : ℕ → S → S) (s : S)
      → n ≤ fuel
      → ((k : ℕ) → k < n → go (i + k * stride) ≡ true)
      → go (i + n * stride) ≡ false
      → loop fuel i stride go body s ≡ range n 0 (λ k. body (i + k * stride)) s
  unfolding loop range
  loop-eq-range zero zero i stride go body s f t e = refl
  loop-eq-range zero (suc fuel) i stride go body s f t e =
      let e' : go i ≡ false = ap go (omega arith) ∙ e in rw (e', loop)
  loop-eq-range (suc n) zero i stride go body s f t e = absurd (omega arith)
  loop-eq-range (suc n) (suc fuel) i stride go body s f t e =
      let e' : go i ≡ true = ap go (omega arith) ∙ t 0 (omega arith) in
      rw (e', loop)
        (loop-eq-range n fuel (i + stride) stride go body (body i s) (omega arith)
            (λ k q. ap go (omega arith) ∙ t (suc k) (omega arith)) (ap go (omega arith) ∙ e)
          ∙ ap (range n 0 (λ k. body (i + stride + k * stride)))
              (ap (λ x. body x s) {x = i} {y = i + 0 * stride} (omega arith))
          ∙ range-congr n 0 1 (λ k. body (i + stride + k * stride)) (λ k. body (i + k * stride)) _
              (λ k t' q. ap (λ x. body x t') (omega arith)))

  -- An invariant of the state that each round keeps.
  pub range_inv {κ} :
      (P : S → Type κ) (n i : ℕ) (body : ℕ → S → S) (s : S)
      → ((k : ℕ) (t : S) → i ≤ k → k < i + n → P t → P (body k t))
      → P s
      → P (range n i body s)
  unfolding range
  range_inv P zero i body s keep p = p
  range_inv P (suc n) i body s keep p =
      range_inv P n (suc i) body (body i s) (λ k t lo hi. keep k t (omega arith) (omega arith))
        (keep i s (omega arith) (omega arith) p)

  -- The same of a property that counts the rounds.
  pub range_ind {κ} :
      (P : ℕ → S → Type κ) (n i j : ℕ) (body : ℕ → S → S) (s : S)
      → i + n ≡ j
      → ((k : ℕ) (t : S) → i ≤ k → k < j → P k t → P (suc k) (body k t))
      → P i s
      → P j (range n i body s)
  unfolding range
  range_ind P zero i j body s e keep p = subst (λ k. P k s) (omega arith) p
  range_ind P (suc n) i j body s e keep p =
      range_ind P n (suc i) j body (body i s) (omega arith) (λ k t lo hi. keep k t (omega arith) hi)
        (keep i s (omega arith) (omega arith) p)
