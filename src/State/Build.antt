-- ===== src/State/Build.antt =====
-- state/quantum_state.cpp: the functions that make a state.
use tmfqsfullstate.Prelude.{
  ℕ, zero, suc, ◌+◌, ◌*◌, ◌%◌, not, List, [], ◌∷◌, Option, none, some, leb, ◌==◌, if◌then◌else◌,
  length,
}
use mathlib.Core.Option
use tmfqsfullstate.Core.Action.{Result, ok, invalid_argument, throw_if, and_then}
use tmfqsfullstate.Core.Amplitude.{Double, Amplitude, ◌⊗◌, ◌⊘◌, nought, one}
use tmfqsfullstate.Core.StateSpace.{u64_mod, checked_state_count, checked_amplitude_element_count}
use tmfqsfullstate.Register.{QuantumRegister}
use tmfqsfullstate.State.{QuantumState, StateKind, StateValidation}
use tmfqsfullstate.State.Validation.{default_validation, validate_or_normalize}

-- The states that the loop of sparsePattern selects from `x` on; `none` when the fuel runs out.
unfoldable pub sparse_from : ℕ → ℕ → ℕ → Option (List ℕ)
sparse_from zero states x = none
sparse_from (suc fuel) states x =
    let state = (8 * x + x % 2) % u64_mod in
    let rest = sparse_from fuel states ((x + 1) % u64_mod) in
    if leb states state then some [] else Option.map (λ selected. state ∷ selected) rest

-- the phases that the generator gives, each one a state's amplitude
module _ {W : Type 0} ⦃d : Double W⦄ where
  unfoldable pub phase_amplitudes : W → List W → List W
  phase_amplitudes norm [] = []
  phase_amplitudes norm (phase ∷ phases) =
      (norm ⊗ d.cos phase) ∷ (norm ⊗ d.sin phase) ∷ phase_amplitudes norm phases

module _ {W B : Type 0} ⦃d : Double W⦄ where
  -- `QuantumState()` with the members' initializers
  abbrev pub default_state : QuantumState W B
  default_state = record {
    qubits = 0;
    kind = StateKind.basis;
    basis_state = 0;
    basis_amplitude = record { real = one; imag = nought };
    basis_states = [];
    amplitudes = [];
    reg = none;
  }

  unfoldable pub basis : ℕ → ℕ → Result (QuantumState W B)
  unfolding checked_state_count
  basis qubits state = and_then (checked_state_count qubits) (λ states.
      and_then (throw_if (leb states state) invalid_argument)
        (λ _. ok (record default_state { qubits = qubits; basis_state = state })))

  unfoldable pub basis_amplitude : ℕ → ℕ → Amplitude W → Result (QuantumState W B)
  unfolding checked_state_count
  basis_amplitude qubits state a = and_then (checked_state_count qubits) (λ states.
      and_then (throw_if (leb states state) invalid_argument) (λ _. ok (record default_state {
        qubits = qubits;
        kind = StateKind.basis_amplitude;
        basis_state = state;
        basis_amplitude = a;
      })))

  unfoldable pub uniform_subset : ℕ → List ℕ → QuantumState W B
  uniform_subset qubits states = record default_state {
    qubits = qubits;
    kind = StateKind.uniform_subset;
    basis_states = states;
  }

  unfoldable pub from_amplitudes : ℕ → List W → StateValidation W → Result (QuantumState W B)
  unfolding checked_amplitude_element_count validate_or_normalize
  from_amplitudes qubits amplitudes validation =
      and_then (checked_amplitude_element_count qubits) (λ elems.
        and_then (throw_if (not (length amplitudes == elems)) invalid_argument) (λ _.
          and_then (validate_or_normalize amplitudes validation) (λ loaded.
            ok (record default_state {
              qubits = qubits;
              kind = StateKind.amplitudes;
              amplitudes = loaded;
            }))))

  -- `phases` are the numbers that the generator draws, one for each state
  unfoldable pub random_phase : ℕ → List W → Result (QuantumState W B)
  unfolding checked_state_count phase_amplitudes from_amplitudes
  random_phase qubits phases = and_then (checked_state_count qubits) (λ states.
      from_amplitudes qubits (phase_amplitudes (one ⊘ d.sqrt (d.of_nat states)) phases)
        default_validation)

  unfoldable pub sparse_pattern : ℕ → ℕ → Result (Option (QuantumState W B))
  unfolding checked_state_count sparse_from uniform_subset
  sparse_pattern fuel qubits =
      and_then (checked_state_count qubits)
        (λ states. ok (Option.map (uniform_subset qubits) (sparse_from fuel states 0)))

  unfoldable pub from_register : QuantumRegister W B → QuantumState W B
  from_register reg = record default_state {
    qubits = reg.num_qubits;
    kind = StateKind.register;
    reg = some reg;
  }
