-- ===== src/Storage/Dense/Sampling.antt =====
-- DenseStateBackend::sampleMeasurement.
use tmfqsfullstate.Prelude.{
  ℕ, zero, suc, ◌+◌, ◌*◌, ◌^◌, ◌<◌, ◌≡◌, refl, List, [], ◌∷◌, arith, length, Bool, true, false,
  Bool-cases, ◌||◌,
}
use mathlib.Core.Logic.{inl, inr}
use tmfqsfullstate.Core.Action.{Result, ok, err, runtime_error, invalid_argument}
use tmfqsfullstate.Core.Amplitude.{Double, ◌⊕◌, nought, one}
use tmfqsfullstate.Storage.Dense.{
  DenseStateBackend, norm_sq, read_pair, sample_from, sample_measurement,
}
use tmfqsfullstate.Storage.Dense.Cells.{IsWellFormed}
use tmfqsfullstate.Storage.Dense.Kernels.Gates.{ensure_initialized-IsWellFormed}

-- What a cumulative loop from state `start` on answers: the first state that is reached.
pub data IsSample (reached : ℕ → Bool) (start states : ℕ) : Result ℕ → Type 0 where
  found :
      (k : ℕ) {s : ℕ}
      → k < states
      → s ≡ start + k
      → reached k ≡ true
      → ((j : ℕ) → j < k → reached j ≡ false)
      → IsSample reached start states (ok s)
  none_reached :
      ((j : ℕ) → j < states → reached j ≡ false) → IsSample reached start states (err runtime_error)

-- What a measurement answers: a sample outside of [0, 1) is refused.
pub data IsAnswer (bad : Bool) (reached : ℕ → Bool) (states : ℕ) : Result ℕ → Type 0 where
  refused : bad ≡ true → IsAnswer bad reached states (err invalid_argument)
  sampled :
      {answer : Result ℕ}
      → bad ≡ false
      → IsSample reached 0 states answer
      → IsAnswer bad reached states answer

from_zero : (P : ℕ → Type 0) → P 0 → (j n : ℕ) → ((i : ℕ) → i < n → P (suc i)) → j < suc n → P j
from_zero P z zero n h lt = z
from_zero P z (suc j) n h lt = h j (omega arith)

later :
    {reached : ℕ → Bool} {start states : ℕ} {r : Result ℕ}
    → reached 0 ≡ false
    → IsSample (λ j. reached (suc j)) (suc start) states r
    → IsSample reached start (suc states) r
later {reached} {start} {states} z (found k lt e hit before) =
    found (suc k) (omega arith) (omega (arith, e)) hit
      (λ j h. from_zero (λ j. reached j ≡ false) z j k before h)
later {reached} {start} {states} z (none_reached h) =
    none_reached (λ j lt. from_zero (λ j. reached j ≡ false) z j states h lt)

module _ {W : Type 0} ⦃d : Double W⦄ where
  -- the probabilities of the first `n` states of a vector, added to `acc` from the left
  unfoldable pub cumulated : List W → ℕ → W → W
  unfolding norm_sq
  cumulated v zero acc = acc
  cumulated [] (suc n) acc = acc
  cumulated (x ∷ []) (suc n) acc = acc
  cumulated (x ∷ y ∷ v) (suc n) acc = cumulated v n (acc ⊕ norm_sq (record { real = x; imag = y }))

  sample_from-IsSample :
      (rnd : W) (states start : ℕ) (acc : W) (v : List W)
      → length v ≡ states * 2
      → IsSample
          (λ j. d.le rnd (cumulated v (suc j) acc))
          start
          states
          (sample_from rnd states start acc v)
  unfolding sample_from cumulated read_pair
  sample_from-IsSample rnd zero start acc v full = none_reached (λ j lt. absurd (omega arith))
  sample_from-IsSample rnd (suc states) start acc [] full = absurd (omega arith)
  sample_from-IsSample rnd (suc states) start acc (x ∷ []) full = absurd (omega arith)
  sample_from-IsSample rnd (suc states) start acc (x ∷ y ∷ v) full =
      let total = acc ⊕ norm_sq (record { real = x; imag = y }) in
      elim (Bool-cases (d.le rnd total)) [
        | inl e ↦ rw e (found 0 (omega arith) (omega arith) e (λ j lt. absurd (omega arith)))
        | inr e ↦ rw e (later e (sample_from-IsSample rnd states (suc start) total v (omega arith)))
      ]

  -- On a well-formed backend, sampleMeasurement throws invalid_argument at a sample below 0.0 or not
  -- below 1.0; at any other it returns the first state at which the probabilities added up so far
  -- reach the sample, and throws runtime_error where no state does. It changes nothing.
  pub sample_measurement-IsAnswer :
      (rnd : W) (b : DenseStateBackend W)
      → IsWellFormed b
      → let (answer, b') = sample_measurement rnd b in
        (b' ≡ b)
        × IsAnswer
            (d.lt rnd nought || d.le one rnd)
            (λ s. d.le rnd (cumulated b.amplitudes (suc s) nought))
            (2 ^ b.num_qubits)
            answer
  unfolding sample_measurement
  sample_measurement-IsAnswer rnd b w =
      let found = sample_from-IsSample rnd (2 ^ b.num_qubits) 0 nought b.amplitudes w.full in
      rw (ensure_initialized-IsWellFormed b w, w.counted)
        (elim (Bool-cases (d.lt rnd nought || d.le one rnd)) [
          | inl e ↦ rw e (refl, refused refl)
          | inr e ↦ rw e (refl, sampled refl found)
        ])
