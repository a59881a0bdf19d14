-- ===== src/Simulator.antt =====
-- sim/simulator.cpp: a circuit is run on a register inside one operation batch, which is closed on
-- every way out. Times and the report are left out.
pub mod Runs
pub mod Dense
pub mod States
use tmfqsfullstate.Prelude.{ℕ, Bool, true, false, not, List, [], ◌∷◌, ◌==◌, if◌then◌else◌}
use tmfqsfullstate.Core.Action.{
  Result, ok, err, invalid_argument, Action, ◌>>=◌, ◌>>◌, and_then, for_each,
}
use tmfqsfullstate.Core.Amplitude.{Double}
use tmfqsfullstate.Circuit.{
  Operation, Circuit, hadamard, pauli_x, controlled_not, controlled_phase_shift, swap, matrix_gate,
  phase_flip_basis_state, inversion_about_mean,
}
use tmfqsfullstate.Storage.Backend.{IStateBackend}
use tmfqsfullstate.State.{QuantumState}
use tmfqsfullstate.State.Access.{materialize}
use tmfqsfullstate.State.Build.{from_register}
use tmfqsfullstate.Register.{QuantumRegister, Register}
use tmfqsfullstate.Register.Access.{register_of}
use tmfqsfullstate.Register.Operations.{
  apply_hadamard, apply_pauli_x, apply_controlled_not, apply_controlled_phase_shift, apply_swap,
  apply_gate, apply_phase_flip_basis_state, apply_inversion_about_mean,
  apply_inversion_about_mean_materialized, begin_operation_batch, end_operation_batch,
}

module _ {W B : Type 0} ⦃d : Double W⦄ ⦃i : IStateBackend W B⦄ where
  unfoldable pub execute_operation : Operation W → Register W B (Unit {0})
  unfolding apply_hadamard apply_pauli_x apply_controlled_not apply_controlled_phase_shift
      apply_swap apply_gate apply_phase_flip_basis_state apply_inversion_about_mean
      apply_inversion_about_mean_materialized
  execute_operation (hadamard target) = apply_hadamard target
  execute_operation (pauli_x target) = apply_pauli_x target
  execute_operation (controlled_not control target) = apply_controlled_not control target
  execute_operation (controlled_phase_shift control target theta) =
      apply_controlled_phase_shift control target theta
  execute_operation (swap first second) = apply_swap first second
  execute_operation (matrix_gate gate targets) = apply_gate gate targets
  execute_operation (phase_flip_basis_state index) = apply_phase_flip_basis_state index
  execute_operation (inversion_about_mean materialized) =
      if materialized then apply_inversion_about_mean_materialized else apply_inversion_about_mean

  -- the catch block: the batch is closed, what that throws is swallowed, and the exception goes on
  unfoldable pub close_after :
      Result (Unit {0}) × QuantumRegister W B → Result (Unit {0}) × QuantumRegister W B
  unfolding end_operation_batch
  close_after (ok a, reg) = (ok a, reg)
  close_after (err e, reg) = (err e, (end_operation_batch reg).1)

  -- the try block: the operations and the end of the batch
  unfoldable pub run_batch : List (Operation W) → Register W B (Unit {0})
  unfolding execute_operation end_operation_batch for_each
  run_batch operations = for_each operations execute_operation >> end_operation_batch

  -- `run`, on the register that the initial state has been materialized into
  unfoldable pub run_register : Circuit W → Register W B (Unit {0})
  unfolding begin_operation_batch run_batch close_after
  run_register c = begin_operation_batch >> λ reg. close_after (run_batch c.operations reg)

  -- `run`: the sizes are compared, then the initial state of `qubits` qubits is materialized
  unfoldable pub run : Circuit W → ℕ → Result (QuantumRegister W B) → Result (QuantumRegister W B)
  unfolding run_register
  run c qubits materialized =
      if not (c.qubits == qubits)
      then err invalid_argument
      else and_then materialized (λ reg. register_of (run_register c reg))

  -- `run` from a state to the state that the register is moved into
  unfoldable pub simulate : Result B → Circuit W → QuantumState W B → Result (QuantumState W B)
  unfolding run materialize from_register
  simulate created c st =
      and_then (run c st.qubits (materialize created st)) (λ reg. ok (from_register reg))
