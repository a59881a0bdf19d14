-- ===== src/Storage/Compressed/Matching.antt =====
-- storage/common/compressed_state_backend.h: a gate whose matrix is that of a known gate, up to a
-- tolerance, is applied by that gate's kernel. The two decimal literals are quotients of numbers that
-- a double has exactly.
use tmfqsfullstate.Prelude.{
  ℕ, zero, suc, ◌^◌, ◌/◌, ◌%◌, Bool, true, not, ◌&&◌, ◌||◌, List, Option, none, some, ◌==◌,
  if◌then◌else◌, length, get_or,
}
use tmfqsfullstate.Core.Action.{◌>>=◌, ◌>>◌, current}
use tmfqsfullstate.Core.Amplitude.{Double, Amplitude, ◌⊕◌, ◌⊖◌, ◌⊗◌, ◌⊘◌, nought, one, inv_sqrt2}
use tmfqsfullstate.Gates.{QuantumGate, entry}
use tmfqsfullstate.Storage.GateBlock
use tmfqsfullstate.Storage.Codec.{CodecPolicy}
use tmfqsfullstate.Storage.Compressed.{
  Compressed, ensure_initialized, read_amplitude_mutable, write_amplitude_mutable, mutate,
}
use tmfqsfullstate.Storage.Compressed.Kernels.{
  apply_hadamard, apply_pauli_x, apply_controlled_phase_shift, apply_controlled_not,
}

-- The test holds at every row and column below 4: `n` entries from the entry `i` on.
unfoldable pub all_entries : (ℕ → ℕ → Bool) → ℕ → ℕ → Bool
all_entries test zero i = true
all_entries test (suc n) i = test (i / 4) (i % 4) && all_entries test n (suc i)

unfoldable pub is_controlled_not_one : ℕ → ℕ → Bool
is_controlled_not_one row col =
    ((row == 0) && (col == 0))
    || ((row == 1) && (col == 1))
    || ((row == 2) && (col == 3))
    || ((row == 3) && (col == 2))

module _ {W : Type 0} ⦃d : Double W⦄ where
  -- 1e-12
  abbrev pub gate_match_tolerance : W
  gate_match_tolerance = one ⊘ d.of_nat (10 ^ 12)

  unfoldable pub approx_equal : W → W → W → Bool
  approx_equal a b tolerance = d.le (d.abs (a ⊖ b)) tolerance

  unfoldable pub matches_amplitude : Amplitude W → W → W → Bool
  unfolding approx_equal
  matches_amplitude amp real imag =
      approx_equal amp.real real gate_match_tolerance
      && approx_equal amp.imag imag gate_match_tolerance

  unfoldable pub is_zero_amplitude : Amplitude W → Bool
  unfolding matches_amplitude
  is_zero_amplitude amp = matches_amplitude amp nought nought

  unfoldable pub matches_hadamard_gate : QuantumGate W → Bool
  unfolding matches_amplitude entry
  matches_hadamard_gate gate =
      (gate.dimension == 2)
      && matches_amplitude (entry gate 0 0) inv_sqrt2 nought
      && matches_amplitude (entry gate 0 1) inv_sqrt2 nought
      && matches_amplitude (entry gate 1 0) inv_sqrt2 nought
      && matches_amplitude (entry gate 1 1) (d.neg inv_sqrt2) nought

  unfoldable pub matches_pauli_x_gate : QuantumGate W → Bool
  unfolding matches_amplitude is_zero_amplitude entry
  matches_pauli_x_gate gate =
      (gate.dimension == 2)
      && is_zero_amplitude (entry gate 0 0)
      && matches_amplitude (entry gate 0 1) one nought
      && matches_amplitude (entry gate 1 0) one nought
      && is_zero_amplitude (entry gate 1 1)

  unfoldable pub matches_controlled_not_gate : QuantumGate W → Bool
  unfolding matches_amplitude is_zero_amplitude entry all_entries is_controlled_not_one
  matches_controlled_not_gate gate =
      (gate.dimension == 4)
      && all_entries
          (λ row col.
            if is_controlled_not_one row col
            then matches_amplitude (entry gate row col) one nought
            else is_zero_amplitude (entry gate row col))
          16 0

  -- The angle `thetaOut`, where the gate matches; the second tolerance is 1e-10.
  unfoldable pub match_controlled_phase_shift_gate : QuantumGate W → Option W
  unfolding matches_amplitude is_zero_amplitude approx_equal entry all_entries
  match_controlled_phase_shift_gate gate =
      let phase = entry gate 3 3 in
      let magnitude_sq = phase.real ⊗ phase.real ⊕ phase.imag ⊗ phase.imag in
      if not (gate.dimension == 4)
      then none
      else if not
          (all_entries (λ row col. (row == col) || is_zero_amplitude (entry gate row col)) 16 0)
      then none
      else if not (
          matches_amplitude (entry gate 0 0) one nought
          && matches_amplitude (entry gate 1 1) one nought
          && matches_amplitude (entry gate 2 2) one nought)
      then none
      else if not (approx_equal magnitude_sq one (one ⊘ d.of_nat (10 ^ 10)))
      then none
      else some (d.atan2 phase.imag phase.real)

module _ {W : Type 0} ⦃d : Double W⦄ (p : CodecPolicy W) where
  -- The last part of `applyGate`: a gate that is no known one.
  unfoldable pub apply_gate_by_blocks : QuantumGate W → List ℕ → Compressed W (Unit {0})
  unfolding mutate read_amplitude_mutable write_amplitude_mutable GateBlock.apply
  apply_gate_by_blocks gate qubits = mutate p (
      current >>= λ b.
      GateBlock.apply (read_amplitude_mutable p) (write_amplitude_mutable p) gate qubits
        b.num_qubits)

  unfoldable pub apply_two_qubit_gate : Option W → QuantumGate W → List ℕ → Compressed W (Unit {0})
  unfolding apply_controlled_phase_shift apply_gate_by_blocks
  apply_two_qubit_gate (some theta) gate qubits =
      apply_controlled_phase_shift p (get_or qubits 0 0) (get_or qubits 1 0) theta
  apply_two_qubit_gate none gate qubits = apply_gate_by_blocks gate qubits

  unfoldable pub apply_gate : QuantumGate W → List ℕ → Compressed W (Unit {0})
  unfolding ensure_initialized matches_hadamard_gate matches_pauli_x_gate
      matches_controlled_not_gate match_controlled_phase_shift_gate apply_hadamard apply_pauli_x
      apply_controlled_not apply_gate_by_blocks apply_two_qubit_gate
  apply_gate gate qubits =
      ensure_initialized
      >> (if length qubits == 1
          then if matches_hadamard_gate gate
            then apply_hadamard p (get_or qubits 0 0)
            else if matches_pauli_x_gate gate
            then apply_pauli_x p (get_or qubits 0 0)
            else apply_gate_by_blocks gate qubits
          else if length qubits == 2
          then if matches_controlled_not_gate gate
            then apply_controlled_not p (get_or qubits 0 0) (get_or qubits 1 0)
            else apply_two_qubit_gate (match_controlled_phase_shift_gate gate) gate qubits
          else apply_gate_by_blocks gate qubits)
