-- ===== src/Gates/Named.antt =====
-- The named gates of gates/quantum_gate.cpp.
use tmfqsfullstate.Prelude.{ℕ, range}
use tmfqsfullstate.Core.Amplitude.{Double, ◌⊘◌, nought, one, two, inv_sqrt2, complex_exp}
use tmfqsfullstate.Gates.{QuantumGate, zero_gate, set_real, set_imag}

module _ {W : Type 0} ⦃d : Double W⦄ where
  unfoldable pub identity : ℕ → QuantumGate W
  unfolding zero_gate set_real range
  identity dimension = range dimension 0 (λ i g. set_real g i i one) (zero_gate dimension)

  unfoldable pub hadamard : QuantumGate W
  unfolding zero_gate set_real
  hadamard =
      let g0 = zero_gate 2 in
      let g1 = set_real g0 0 0 inv_sqrt2 in
      let g2 = set_real g1 0 1 inv_sqrt2 in
      let g3 = set_real g2 1 0 inv_sqrt2 in set_real g3 1 1 (d.neg inv_sqrt2)

  unfoldable pub controlled_phase_shift : W → QuantumGate W
  unfolding zero_gate set_real set_imag complex_exp
  controlled_phase_shift theta =
      let phase = complex_exp (record { real = nought; imag = theta }) in
      let g0 = zero_gate 4 in
      let g1 = set_real g0 0 0 one in
      let g2 = set_real g1 1 1 one in
      let g3 = set_real g2 2 2 one in set_imag (set_real g3 3 3 phase.real) 3 3 phase.imag

  unfoldable pub controlled_not : QuantumGate W
  unfolding zero_gate set_real
  controlled_not =
      let g0 = zero_gate 4 in
      let g1 = set_real g0 0 0 one in
      let g2 = set_real g1 1 1 one in let g3 = set_real g2 2 3 one in set_real g3 3 2 one

  unfoldable pub pauli_x : QuantumGate W
  unfolding zero_gate set_real
  pauli_x = set_real (set_real (zero_gate 2) 0 1 one) 1 0 one

  unfoldable pub pauli_y : QuantumGate W
  unfolding zero_gate set_imag
  pauli_y = set_imag (set_imag (zero_gate 2) 0 1 (d.neg one)) 1 0 one

  unfoldable pub pauli_z : QuantumGate W
  unfolding zero_gate set_real
  pauli_z = set_real (set_real (zero_gate 2) 0 0 one) 1 1 (d.neg one)

  unfoldable pub phase_shift : W → QuantumGate W
  unfolding zero_gate set_real set_imag complex_exp
  phase_shift theta =
      let phase = complex_exp (record { real = nought; imag = theta }) in
      let g1 = set_real (zero_gate 2) 0 0 one in
      set_imag (set_real g1 1 1 phase.real) 1 1 phase.imag

  -- `k_pi` is the constant kPi
  unfoldable pub pi_over_eight : W → QuantumGate W
  unfolding phase_shift
  pi_over_eight k_pi = phase_shift (k_pi ⊘ d.of_nat 4)

  unfoldable pub toffoli : QuantumGate W
  unfolding identity set_real
  toffoli =
      let g0 = identity 8 in
      let g1 = set_real g0 6 6 nought in
      let g2 = set_real g1 7 7 nought in let g3 = set_real g2 6 7 one in set_real g3 7 6 one

  unfoldable pub swap : QuantumGate W
  unfolding zero_gate set_real
  swap =
      let g0 = zero_gate 4 in
      let g1 = set_real g0 0 0 one in
      let g2 = set_real g1 1 2 one in let g3 = set_real g2 2 1 one in set_real g3 3 3 one

  unfoldable pub ising : W → QuantumGate W
  unfolding zero_gate set_real set_imag
  ising theta =
      let c = d.cos (theta ⊘ two) in
      let s = d.sin (theta ⊘ two) in
      let g0 = zero_gate 4 in
      let g1 = set_real g0 0 0 c in
      let g2 = set_real g1 1 1 c in
      let g3 = set_real g2 2 2 c in
      let g4 = set_real g3 3 3 c in
      let g5 = set_imag g4 0 3 (d.neg s) in
      let g6 = set_imag g5 1 2 (d.neg s) in
      let g7 = set_imag g6 2 1 (d.neg s) in set_imag g7 3 0 (d.neg s)
