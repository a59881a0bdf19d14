-- ===== src/Simulator/Runs.antt =====
-- A run of a circuit of valid operations on a register that is ready for its qubits.
use tmfqsfullstate.Prelude.{ℕ, true, false, List, All}
use tmfqsfullstate.Core.Action.{Result}
use tmfqsfullstate.Core.Amplitude.{Double}
use tmfqsfullstate.Storage.Backend.{
  IStateBackend, Contract, Returns, returned, Keeps, returned_then, for_each-Keeps,
}
use tmfqsfullstate.Circuit.{
  Operation, Circuit, hadamard, pauli_x, controlled_not, controlled_phase_shift, swap, matrix_gate,
  phase_flip_basis_state, inversion_about_mean,
}
use tmfqsfullstate.Circuit.Valid.{IsValidOperation, IsCircuit}
use tmfqsfullstate.Register.{QuantumRegister, Register, require_initialized, on_backend}
use tmfqsfullstate.Register.Operations.{begin_operation_batch, end_operation_batch}
use tmfqsfullstate.Register.Valid.{Signs, IsReady, require_initialized-Keeps, on_backend-Keeps}
use tmfqsfullstate.Register.Flips
use tmfqsfullstate.Register.Performs
use tmfqsfullstate.Simulator.{execute_operation, close_after, run_batch, run_register}

module _ {W B : Type 0} ⦃d : Double W⦄ ⦃i : IStateBackend W B⦄ (Ready : ℕ → B → Type 0) (n : ℕ)
    (contract : Contract i Ready) (signs : Signs W) where
  abbrev Preserves : {A : Type 0} → Register W B A → Type 0
  Preserves m = Keeps (IsReady Ready n) m

  execute_operation-Keeps :
      (op : Operation W) → IsValidOperation n op → Preserves (execute_operation op)
  unfolding execute_operation
  execute_operation-Keeps (hadamard t) h = Performs.apply_hadamard-Keeps Ready n contract signs t h
  execute_operation-Keeps (pauli_x t) h = Performs.apply_pauli_x-Keeps Ready n contract signs t h
  execute_operation-Keeps (controlled_not c t) (hc, ht, ne) =
      Performs.apply_controlled_not-Keeps Ready n contract signs c t hc ht ne
  execute_operation-Keeps (controlled_phase_shift c t theta) (hc, ht, ne) =
      Performs.apply_controlled_phase_shift-Keeps Ready n contract signs c t theta hc ht ne
  execute_operation-Keeps (swap a b) (ha, hb, ne) =
      Performs.apply_swap-Keeps Ready n contract signs a b ha hb ne
  execute_operation-Keeps (matrix_gate g qs) (most, dim, ts) =
      Performs.apply_gate-Keeps Ready n contract signs g qs most dim ts
  execute_operation-Keeps (phase_flip_basis_state s) h =
      Flips.apply_phase_flip_basis_state-Keeps Ready n contract signs s h
  execute_operation-Keeps (inversion_about_mean true) h =
      Performs.about_mean-Keeps Ready n contract signs _
        (Performs.apply_inversion_about_materialized-Keeps Ready n contract signs)
  execute_operation-Keeps (inversion_about_mean false) h =
      Performs.about_mean-Keeps Ready n contract signs _
        (Performs.apply_inversion_about-Keeps Ready n contract signs)

  run_batch-Keeps :
      (ops : List (Operation W)) → All (IsValidOperation n) ops → Preserves (run_batch ops)
  unfolding run_batch end_operation_batch
  run_batch-Keeps ops h =
      returned_then _ end_operation_batch
        (for_each-Keeps (IsValidOperation n) execute_operation execute_operation-Keeps ops h)
        (returned_then require_initialized (on_backend i.end_operation_batch)
          (require_initialized-Keeps Ready n)
          (on_backend-Keeps Ready n i.end_operation_batch (contract.closes n)))

  closed :
      (x : Result (Unit {0}) × QuantumRegister W B)
      → Returns (IsReady Ready n) x
      → Returns (IsReady Ready n) (close_after x)
  unfolding close_after
  closed x (returned a p) = returned a p

  -- Over any backend that keeps its contract, a run of a circuit of valid operations on a register
  -- that is ready for the circuit's qubits returns, and leaves the register ready.
  pub run_register-Keeps :
      (c : Circuit W) {count : ℕ}
      → IsCircuit n count c
      → (reg : QuantumRegister W B) → IsReady Ready n reg
      → Returns (IsReady Ready n) (run_register c reg)
  unfolding run_register begin_operation_batch
  run_register-Keeps c q =
      returned_then _ _
        (returned_then require_initialized (on_backend i.begin_operation_batch)
          (require_initialized-Keeps Ready n)
          (on_backend-Keeps Ready n i.begin_operation_batch (contract.opens n)))
        (λ reg p. closed _ (run_batch-Keeps c.operations q.valid reg p))
