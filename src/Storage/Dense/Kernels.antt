-- ===== src/Storage/Dense/Kernels.antt =====
-- storage/dense/dense_state_backend.cpp, the gates of the backend: each one validates its qubits and
-- runs a callback over all pairs of states that differ in the target qubit.

pub mod Pointwise
pub mod Gates
pub mod Involution
use Prim.Native.Nat.{bit_and}
use tmfqsfullstate.Prelude.{ℕ, Bool, ◌&&◌, List, ◌==◌, if◌then◌else◌}
use tmfqsfullstate.Core.Action.{Action, ◌>>=◌, ◌>>◌, current, modify, ok}
use tmfqsfullstate.Core.Amplitude.{Double, Amplitude, ◌⊕◌, ◌⊖◌, ◌⊗◌, ◌≐◌, inv_sqrt2, is_zero}
use tmfqsfullstate.Core.Validation.{qubit_mask_from_msb_index}
use tmfqsfullstate.Gates.{QuantumGate}
use tmfqsfullstate.Storage.GateBlock
use tmfqsfullstate.Storage.PairKernel.Effect.{
  PairUpdate, none_changed, second_changed, both_changed,
}
use tmfqsfullstate.Storage.Dense.{
  Dense, DenseStateBackend, read_pair, write_pair, run_pair_kernel, ensure_initialized,
  validate_single_qubit_operation, validate_two_qubit_operation,
}

module _ {W : Type 0} ⦃d : Double W⦄ where
  -- `a0[0] == a1[0] && a0[1] == a1[1]`
  abbrev pub same_amplitude : Amplitude W → Amplitude W → Bool
  same_amplitude a b = (a.real ≐ b.real) && (a.imag ≐ b.imag)

  unfoldable pub hadamard_pair : ℕ → ℕ → Amplitude W → Amplitude W → PairUpdate (Amplitude W)
  hadamard_pair state0 state1 a b =
      if is_zero a && is_zero b
      then none_changed
      else both_changed
          (record { real = (a.real ⊕ b.real) ⊗ inv_sqrt2; imag = (a.imag ⊕ b.imag) ⊗ inv_sqrt2 })
          (record { real = (a.real ⊖ b.real) ⊗ inv_sqrt2; imag = (a.imag ⊖ b.imag) ⊗ inv_sqrt2 })

  unfoldable pub pauli_x_pair : ℕ → ℕ → Amplitude W → Amplitude W → PairUpdate (Amplitude W)
  pauli_x_pair state0 state1 a b = if same_amplitude a b then none_changed else both_changed b a

  unfoldable pub controlled_phase_shift_pair :
      ℕ → W → ℕ → ℕ → Amplitude W → Amplitude W → PairUpdate (Amplitude W)
  controlled_phase_shift_pair control_mask theta state0 state1 a b =
      if bit_and state1 control_mask == 0
      then none_changed
      else if is_zero b
      then none_changed
      else second_changed (record {
        real = d.cos theta ⊗ b.real ⊖ d.sin theta ⊗ b.imag;
        imag = d.cos theta ⊗ b.imag ⊕ d.sin theta ⊗ b.real;
      })

  unfoldable pub controlled_not_pair :
      ℕ → ℕ → ℕ → Amplitude W → Amplitude W → PairUpdate (Amplitude W)
  controlled_not_pair control_mask state0 state1 a b =
      if bit_and state0 control_mask == 0
      then none_changed
      else if same_amplitude a b
      then none_changed
      else both_changed b a

  unfoldable pub apply_hadamard : ℕ → Dense W (Unit {0})
  unfolding validate_single_qubit_operation qubit_mask_from_msb_index hadamard_pair run_pair_kernel
  apply_hadamard qubit =
      validate_single_qubit_operation qubit
      >> (current >>= λ b.
          run_pair_kernel (qubit_mask_from_msb_index qubit b.num_qubits) hadamard_pair)

  unfoldable pub apply_pauli_x : ℕ → Dense W (Unit {0})
  unfolding validate_single_qubit_operation qubit_mask_from_msb_index pauli_x_pair run_pair_kernel
  apply_pauli_x qubit =
      validate_single_qubit_operation qubit
      >> (current >>= λ b.
          run_pair_kernel (qubit_mask_from_msb_index qubit b.num_qubits) pauli_x_pair)

  unfoldable pub apply_controlled_phase_shift : ℕ → ℕ → W → Dense W (Unit {0})
  unfolding validate_two_qubit_operation qubit_mask_from_msb_index controlled_phase_shift_pair
      run_pair_kernel
  apply_controlled_phase_shift control_qubit target_qubit theta =
      validate_two_qubit_operation control_qubit target_qubit
      >> (current >>= λ b. run_pair_kernel (qubit_mask_from_msb_index target_qubit b.num_qubits) (
          controlled_phase_shift_pair (qubit_mask_from_msb_index control_qubit b.num_qubits) theta))

  unfoldable pub apply_controlled_not : ℕ → ℕ → Dense W (Unit {0})
  unfolding validate_two_qubit_operation qubit_mask_from_msb_index controlled_not_pair
      run_pair_kernel
  apply_controlled_not control_qubit target_qubit =
      validate_two_qubit_operation control_qubit target_qubit
      >> (current >>= λ b.
          run_pair_kernel (qubit_mask_from_msb_index target_qubit b.num_qubits)
            (controlled_not_pair (qubit_mask_from_msb_index control_qubit b.num_qubits)))

  unfoldable pub apply_gate : QuantumGate W → List ℕ → Dense W (Unit {0})
  unfolding ensure_initialized read_pair write_pair GateBlock.apply
  apply_gate gate qubits =
      ensure_initialized
      >> (current >>= λ b.
          GateBlock.apply (λ state b. (ok (read_pair b.amplitudes state), b))
            (λ state amp. modify (λ b. record b { amplitudes = write_pair b.amplitudes state amp }))
            gate qubits b.num_qubits)
