-- ===== src/State/Loads.antt =====
-- QuantumState::loadAmplitudes and setAmplitude: every branch, and what they leave.
use tmfqsfullstate.Prelude.{
  ℕ, ◌%◌, ◌^◌, ◌*◌, ◌≡◌, refl, Bool, true, false, not, List, map, arith, length, ◌==◌, ltb,
  if◌then◌else◌, Bool-cases, inl, inr,
}
use tmfqsfullstate.Core.Action.{Result, ok, err, invalid_argument, ◌>>◌}
use tmfqsfullstate.Core.Amplitude.{Double, ◌⊖◌, ◌⊗◌, ◌⊘◌, nought, one}
use tmfqsfullstate.Core.StateSpace.{checked_state_count, checked_amplitude_element_count}
use tmfqsfullstate.Storage.PairKernel.Bits.{pow-le}
use tmfqsfullstate.Storage.Backend.{IStateBackend}
use tmfqsfullstate.State.{NormalizationPolicy, StateValidation, QuantumState, StateKind}
use tmfqsfullstate.State.Validation.{probability_mass, normalize, validate_or_normalize}
use tmfqsfullstate.State.Access.{amplitudes, load_amplitudes}
use tmfqsfullstate.State.Valid.{IsState}

module _ {W : Type 0} ⦃d : Double W⦄ where
  abbrev pub scaled : List W → List W
  scaled v = map (λ value. value ⊗ (one ⊘ d.sqrt (probability_mass v))) v

module _ {W B : Type 0} ⦃d : Double W⦄ where
  -- a state over a vector
  abbrev pub holding : QuantumState W B → List W → QuantumState W B
  holding st v = record st { kind = StateKind.amplitudes; amplitudes = v }

  -- what loading a vector of the right length and reading it back give
  abbrev pub kept_if : Bool → List W → QuantumState W B → Result (List W) × QuantumState W B
  kept_if accepted v st = if accepted then (ok v, holding st v) else (err invalid_argument, st)

  abbrev pub loading :
      StateValidation W → List W → QuantumState W B → Result (List W) × QuantumState W B
  loading validation v st = elim validation.normalization [
    | NormalizationPolicy.allow_unnormalized ↦ kept_if true v st
    | NormalizationPolicy.normalize ↦ kept_if (not (d.le (probability_mass v) nought)) (scaled v) st
    | NormalizationPolicy.validate ↦
        kept_if (not (d.lt validation.probability_tolerance (d.abs (probability_mass v ⊖ one)))) v
          st
  ]

  module _ ⦃i : IStateBackend W B⦄ (created : Result B) where
    by_policy :
        (n : ℕ) (policy : NormalizationPolicy) (tolerance : W) (v : List W) (st : QuantumState W B)
        → ltb 63 st.qubits ≡ false
        → (length v == 2 ^ st.qubits * 2 % 2 ^ 64) ≡ true
        → (length v % 2 == 0) ≡ true
        → (let validation : StateValidation W = record {
          probability_tolerance = tolerance;
          normalization = policy;
        } in
            (load_amplitudes v validation >> amplitudes created) st ≡ loading validation v st)
    unfolding load_amplitudes amplitudes checked_state_count checked_amplitude_element_count
        validate_or_normalize normalize
    by_policy n NormalizationPolicy.allow_unnormalized tolerance v st few same even =
        rw (few, same, even) refl
    by_policy n NormalizationPolicy.normalize tolerance v st few same even =
        elim (Bool-cases (d.le (probability_mass v) nought)) [
          | inl e ↦ rw (few, same, even, e) refl
          | inr e ↦ rw (few, same, even, e) refl
        ]
    by_policy n NormalizationPolicy.validate tolerance v st few same even =
        elim (Bool-cases (d.lt tolerance (d.abs (probability_mass v ⊖ one)))) [
          | inl e ↦ rw (few, same, even, e) refl
          | inr e ↦ rw (few, same, even, e) refl
        ]

    -- On a state of `n` qubits, fewer than 32, loadAmplitudes throws invalid_argument and changes
    -- nothing where the vector has not two numbers for each of the 2^n states. Otherwise the policy decides:
    -- AllowUnnormalized accepts the vector; Validate accepts it unless the distance of its
    -- probability mass to 1 exceeds the tolerance; Normalize accepts it, with each number scaled, unless its mass is at most 0.
    -- What is accepted is what `amplitudes` then returns; what is not is an invalid_argument that changes nothing.
    pub load_amplitudes-amplitudes :
        (Ready : ℕ → B → Type 0) {n : ℕ} (validation : StateValidation W) (v : List W)
        {st : QuantumState W B}
        → IsState Ready n st
        → (load_amplitudes v validation >> amplitudes created) st
          ≡ (if length v == 2 ^ n * 2 then loading validation v st else (err invalid_argument, st))
    unfolding load_amplitudes amplitudes checked_state_count checked_amplitude_element_count
    load_amplitudes-amplitudes Ready {n} validation v {st} h =
        let small = pow-le n 31 (omega (arith, h.few)) in
        let accepted : ltb 63 st.qubits ≡ false =
          let few = h.few in let size = h.size in ground (arith, few, size) in
        let elems : 2 ^ st.qubits * 2 % 2 ^ 64 ≡ 2 ^ n * 2 = rw h.size (omega (arith, small)) in
        elim (Bool-cases (length v == 2 ^ n * 2)) [
          | inl e ↦
              let full : length v ≡ 2 ^ n * 2 = ground (arith, e) in
              let even : (length v % 2 == 0) ≡ true =
                let whole : length v % 2 ≡ 0 = omega (arith, full) in ground (arith, whole) in
              rw e (
                by_policy n validation.normalization validation.probability_tolerance v st accepted
                  (rw elems e) even)
          | inr e ↦ rw (accepted, elems, e) refl
        ]
