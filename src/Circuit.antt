-- ===== src/Circuit.antt =====
-- circuit/circuit.h and circuit/circuit.cpp. The constant kPi is a parameter, as a decimal literal of
-- type `double` is rounded by the compiler. Circuits are values: a builder returns the new circuit.
pub mod Valid
pub mod Qft
pub mod Contents
pub mod Grover
use tmfqsfullstate.Prelude.{
  ℕ, zero, suc, ◌+◌, ◌-◌, ◌/◌, ◌%◌, ◌^◌, Bool, List, [], ◌∷◌, ◌++◌, leb, ◌==◌, if◌then◌else◌,
  length, range,
}
use tmfqsfullstate.Core.Action.{
  Result, ok, err, invalid_argument, Action, ◌>>=◌, ◌>>◌, lift, current, modify, for_each, throw_if,
}
use tmfqsfullstate.Core.Amplitude.{Double, ◌⊗◌, ◌⊘◌}
use tmfqsfullstate.Core.StateSpace.{u64_mod, checked_state_count}
use tmfqsfullstate.Gates.{QuantumGate}
use tmfqsfullstate.Storage.Selected.{sorted_unique}

pub data Operation (W : Type 0) : Type 0 where
  hadamard : ℕ → Operation W
  pauli_x : ℕ → Operation W
  controlled_not : ℕ → ℕ → Operation W
  controlled_phase_shift : ℕ → ℕ → W → Operation W
  swap : ℕ → ℕ → Operation W
  matrix_gate : QuantumGate W → List ℕ → Operation W
  phase_flip_basis_state : ℕ → Operation W
  inversion_about_mean : Bool → Operation W

pub record Circuit (W : Type 0) : Type 0 where
  pub qubits : ℕ
  pub operations : List (Operation W)

pub record GroverCircuitOptions : Type 0 where
  pub marked_states : List ℕ
  pub materialized_diffusion : Bool

module _ {W : Type 0} where
  unfoldable pub append : Operation W → Circuit W → Circuit W
  append operation c = record c { operations = c.operations ++ operation ∷ [] }

  unfoldable pub h : ℕ → Circuit W → Circuit W
  unfolding append
  h target = append (hadamard target)

  unfoldable pub x : ℕ → Circuit W → Circuit W
  unfolding append
  x target = append (pauli_x target)

  unfoldable pub cx : ℕ → ℕ → Circuit W → Circuit W
  unfolding append
  cx control target = append (controlled_not control target)

  unfoldable pub gate : QuantumGate W → List ℕ → Circuit W → Circuit W
  unfolding append
  gate gate_value targets = append (matrix_gate gate_value targets)

  unfoldable pub controlled_phase : ℕ → ℕ → W → Circuit W → Circuit W
  unfolding append
  controlled_phase control target theta = append (controlled_phase_shift control target theta)

  unfoldable pub swap_qubits : ℕ → ℕ → Circuit W → Circuit W
  unfolding append
  swap_qubits first second = append (swap first second)

  unfoldable pub phase_flip : ℕ → Circuit W → Circuit W
  unfolding append
  phase_flip index = append (phase_flip_basis_state index)

  unfoldable pub invert_about_mean : Bool → Circuit W → Circuit W
  unfolding append
  invert_about_mean materialized = append (inversion_about_mean materialized)

  -- for(q = 0; q < circuit.qubitCount(); ++q) circuit.h(q)
  unfoldable pub h_all : Circuit W → Circuit W
  unfolding h range
  h_all c = range c.qubits 0 h c

  -- one pass of the loop over the iterations
  unfoldable pub grover_iteration : ℕ → List ℕ → Bool → Action (Circuit W) (Unit {0})
  unfolding phase_flip invert_about_mean for_each
  grover_iteration state_count marked materialized =
      for_each marked (λ index.
        lift (throw_if (leb state_count index) invalid_argument) >> modify (phase_flip index))
      >> modify (invert_about_mean materialized)

  unfoldable pub grover_iterations : ℕ → ℕ → List ℕ → Bool → Action (Circuit W) (Unit {0})
  unfolding grover_iteration
  grover_iterations zero state_count marked materialized c = (ok tt, c)
  grover_iterations (suc n) state_count marked materialized c =
      (grover_iteration state_count marked materialized
          >> grover_iterations n state_count marked materialized)
        c

module _ {W : Type 0} ⦃d : Double W⦄ (pi : W) where
  -- the inner loop of `appendQft`; a shift by 64 or more, which is undefined in C++, gives 0 here
  unfoldable pub qft_phases : ℕ → ℕ → Circuit W → Circuit W
  unfolding controlled_phase range
  qft_phases qubits target = range (qubits - (target + 1)) (target + 1) (λ control.
      let distance = control - target in
      controlled_phase control target (pi ⊘ d.of_nat (2 ^ distance % u64_mod)))

  unfoldable pub append_qft : Circuit W → Circuit W
  unfolding h qft_phases swap_qubits range
  append_qft c =
      let qubits = c.qubits in
      let transformed =
        range qubits 0 (λ target circuit. qft_phases qubits target (h target circuit)) c in
      range (qubits / 2) 0 (λ left. swap_qubits left (qubits - left - 1)) transformed

  unfoldable pub make_qft : ℕ → Circuit W
  unfolding append_qft
  make_qft qubits = append_qft (record { qubits = qubits; operations = [] })

  -- The count fits in an `unsigned int` for every number of states that a register has.
  unfoldable pub grover_iteration_count : ℕ → ℕ → Result ℕ
  grover_iteration_count state_count marked_count =
      if marked_count == 0
      then err invalid_argument
      else ok (d.floor ((pi ⊘ d.of_nat 4) ⊗ d.sqrt (d.of_nat state_count ⊘ d.of_nat marked_count)))

  unfoldable pub append_grover : GroverCircuitOptions → Action (Circuit W) (Unit {0})
  unfolding sorted_unique h_all checked_state_count grover_iteration_count grover_iterations
  append_grover options =
      let marked = sorted_unique options.marked_states in
      lift (throw_if (length options.marked_states == 0) invalid_argument)
      >> modify h_all
      >> (current >>= λ c. lift (checked_state_count c.qubits) >>= λ state_count.
          lift (grover_iteration_count state_count (length marked)) >>= λ iterations.
          grover_iterations iterations state_count marked options.materialized_diffusion)

  -- the circuit, or the exception with what was built before it
  unfoldable pub make_grover : ℕ → GroverCircuitOptions → Result (Unit {0}) × Circuit W
  unfolding append_grover
  make_grover qubits options = append_grover options (record { qubits = qubits; operations = [] })
