-- ===== src/Tests/Dense.antt =====
-- DenseStateBackend on two qubits.
use tmfqsfullstate.Prelude.{ℕ, ◌≡◌, arith, List, [], ◌∷◌, suc, false}
use tmfqsfullstate.Prelude.Int.{ℤ, pos}
use tmfqsfullstate.Core.Action.{ok, err, out_of_range, logic_error, ◌>>◌}
use tmfqsfullstate.Core.Amplitude.{Amplitude, amplitude_multiply}
use tmfqsfullstate.Core.Validation.{qubit_mask_from_msb_index}
use tmfqsfullstate.Storage.Dense
use tmfqsfullstate.Storage.Dense.{DenseStateBackend, read_pair}
use tmfqsfullstate.Storage.Dense.Kernels
use tmfqsfullstate.Storage.Dense.Cells.{IsWellFormed}
use tmfqsfullstate.Storage.Dense.Access.{
  sized, set_amplitude-amplitude, init_basis-amplitudes, load_amplitudes-export_amplitudes,
}
use tmfqsfullstate.Storage.Dense.Sampling.{IsAnswer, cumulated, sample_measurement-IsAnswer}
use tmfqsfullstate.Storage.Dense.Truncation.{init_zero_truncated}
use tmfqsfullstate.Storage.Dense.Kernels.Gates.{
  apply_hadamard-amplitudes, apply_pauli_x-amplitudes, apply_controlled_not-amplitudes,
  apply_controlled_phase_shift-amplitudes,
}
use tmfqsfullstate.Storage.Dense.Kernels.Involution.{
  apply_pauli_x-involutive, apply_controlled_not-involutive,
}
use tmfqsfullstate.Tests.{integers, eqb_ℤ_comm, two_qubits, two_qubits-IsWellFormed}

abbrev real_amplitude : ℕ → Amplitude ℤ
real_amplitude n = record { real = pos n; imag = pos 0 }

apply_hadamard-amplitudes_example :
    (b' : DenseStateBackend ℤ) × (Kernels.apply_hadamard 0 two_qubits ≡ (ok tt, b'))
    × IsWellFormed b'
    × (b'.num_qubits ≡ 2)
    × (read_pair b'.amplitudes 1 ≡ real_amplitude 6)
unfolding integers qubit_mask_from_msb_index read_pair
apply_hadamard-amplitudes_example =
    apply_hadamard-amplitudes 0 1 two_qubits two_qubits-IsWellFormed (omega arith) (omega arith)

apply_pauli_x-amplitudes_example :
    (b' : DenseStateBackend ℤ) × (Kernels.apply_pauli_x 1 two_qubits ≡ (ok tt, b'))
    × IsWellFormed b'
    × (b'.num_qubits ≡ 2)
    × (read_pair b'.amplitudes 2 ≡ real_amplitude 4)
unfolding integers qubit_mask_from_msb_index read_pair
apply_pauli_x-amplitudes_example =
    apply_pauli_x-amplitudes 1 2 two_qubits two_qubits-IsWellFormed (omega arith) (omega arith)

apply_controlled_not-amplitudes_example :
    (b' : DenseStateBackend ℤ) × (Kernels.apply_controlled_not 0 1 two_qubits ≡ (ok tt, b'))
    × IsWellFormed b'
    × (b'.num_qubits ≡ 2)
    × (read_pair b'.amplitudes 3 ≡ real_amplitude 3)
unfolding integers qubit_mask_from_msb_index read_pair
apply_controlled_not-amplitudes_example =
    apply_controlled_not-amplitudes 0 1 3 two_qubits two_qubits-IsWellFormed (omega arith)
      (omega arith) (omega arith) (omega arith)

apply_controlled_phase_shift-amplitudes_example :
    (b' : DenseStateBackend ℤ) × (Kernels.apply_controlled_phase_shift 0 1 (pos 5) two_qubits
      ≡ (ok tt, b'))
    × IsWellFormed b'
    × (b'.num_qubits ≡ 2)
    × (read_pair b'.amplitudes 3 ≡ real_amplitude 4)
unfolding integers qubit_mask_from_msb_index read_pair amplitude_multiply
apply_controlled_phase_shift-amplitudes_example =
    apply_controlled_phase_shift-amplitudes 0 1 3 (pos 5) two_qubits two_qubits-IsWellFormed
      (omega arith) (omega arith) (omega arith) (omega arith)

apply_pauli_x-involutive_example :
    (Kernels.apply_pauli_x 0 >> Kernels.apply_pauli_x 0) two_qubits ≡ (ok tt, two_qubits)
apply_pauli_x-involutive_example =
    apply_pauli_x-involutive eqb_ℤ_comm 0 two_qubits two_qubits-IsWellFormed (omega arith)

apply_controlled_not-involutive_example :
    (Kernels.apply_controlled_not 0 1 >> Kernels.apply_controlled_not 0 1) two_qubits
    ≡ (ok tt, two_qubits)
apply_controlled_not-involutive_example =
    apply_controlled_not-involutive eqb_ℤ_comm 0 1 two_qubits two_qubits-IsWellFormed (omega arith)
      (omega arith) (omega arith)

set_amplitude-amplitude_example :
    (b' : DenseStateBackend ℤ) × (Dense.set_amplitude 2 (real_amplitude 9) two_qubits ≡ (ok tt, b'))
    × IsWellFormed b'
    × ((Dense.amplitude 2 b').0 ≡ ok (real_amplitude 9))
set_amplitude-amplitude_example =
    set_amplitude-amplitude two_qubits 2 2 (real_amplitude 9) two_qubits-IsWellFormed

init_basis-amplitudes_example :
    (v : List ℤ) × (Dense.init_basis 3 5 (real_amplitude 1) two_qubits ≡ (ok tt, sized 3 v))
    × IsWellFormed (sized 3 v)
    × (read_pair v 5 ≡ real_amplitude 1)
init_basis-amplitudes_example =
    init_basis-amplitudes 3 5 5 (real_amplitude 1) two_qubits (omega arith)

load_amplitudes-export_amplitudes_example :
    (Dense.load_amplitudes 1 (pos 1 ∷ pos 2 ∷ pos 3 ∷ pos 4 ∷ []) >> Dense.export_amplitudes)
      two_qubits
    ≡ (ok (pos 1 ∷ pos 2 ∷ pos 3 ∷ pos 4 ∷ []), sized 1 (pos 1 ∷ pos 2 ∷ pos 3 ∷ pos 4 ∷ []))
load_amplitudes-export_amplitudes_example =
    load_amplitudes-export_amplitudes 1 (pos 1 ∷ pos 2 ∷ pos 3 ∷ pos 4 ∷ []) two_qubits
      (omega arith)

sample_measurement-IsAnswer_example :
    (let (answer, b') = Dense.sample_measurement (pos 0) two_qubits in
      (b' ≡ two_qubits)
      × IsAnswer false
          (λ s. integers.le (pos 0) (cumulated two_qubits.amplitudes (suc s) (pos 0)))
          4
          answer)
unfolding integers
sample_measurement-IsAnswer_example =
    sample_measurement-IsAnswer (pos 0) two_qubits two_qubits-IsWellFormed

init_zero_truncated_example :
    (b' : DenseStateBackend ℤ) × (Dense.init_zero 33 two_qubits ≡ (ok tt, b'))
    × (b'.num_states ≡ 0)
    × (Dense.amplitude 7 b' ≡ (err logic_error, b'))
    × ((Dense.init_basis 33 7 (real_amplitude 1) two_qubits).0 ≡ err out_of_range)
init_zero_truncated_example =
    init_zero_truncated 33 7 (real_amplitude 1) two_qubits (omega arith) (omega arith)
