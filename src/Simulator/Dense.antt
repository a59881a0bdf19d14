-- ===== src/Simulator/Dense.antt =====
-- Runs on a dense register that starts in a basis state.
use tmfqsfullstate.Prelude.{ℕ, ◌^◌, ◌<◌, ◌≡◌, refl, [], arith, ◌==◌, true, All}
use tmfqsfullstate.Core.Action.{Result, ok}
use tmfqsfullstate.Core.Amplitude.{Double}
use tmfqsfullstate.Storage.Backend.{Returns, returned}
use tmfqsfullstate.Storage.Dense.{DenseStateBackend}
use tmfqsfullstate.Storage.Dense.Backend.{
  dense_state_backend, IsDense, dense_state_backend-Contract,
}
use tmfqsfullstate.Storage.Selected.Laws.{member}
use tmfqsfullstate.Circuit.{Circuit, GroverCircuitOptions, make_qft, make_grover}
use tmfqsfullstate.Circuit.Valid.{IsCircuit}
use tmfqsfullstate.Circuit.Qft.{make_qft-IsCircuit}
use tmfqsfullstate.Circuit.Grover.{make_grover-IsCircuit}
use tmfqsfullstate.Register.{QuantumRegister}
use tmfqsfullstate.Register.Access.{make_basis, register_of}
use tmfqsfullstate.Register.Valid.{Signs, IsReady}
use tmfqsfullstate.Register.Starts.{make_basis-IsReady}
use tmfqsfullstate.Simulator.{run, run_register}
use tmfqsfullstate.Simulator.Runs.{run_register-Keeps}

module _ {W : Type 0} ⦃d : Double W⦄ where
  -- the backend as the factory makes it
  abbrev pub new_backend : DenseStateBackend W
  new_backend = record { num_qubits = 0; num_states = 0; amplitudes = [] }

  abbrev pub IsReadyDense : ℕ → QuantumRegister W (DenseStateBackend W) → Type 0
  IsReadyDense n reg = IsReady (IsDense {W = W}) n reg

  -- For fewer than 32 qubits, a circuit whose operations are valid for them and a basis state of as
  -- many qubits, a run on the dense backend returns a register, and it is ready for the next run.
  pub run-basis :
      (signs : Signs W) (n s : ℕ) {count : ℕ} (c : Circuit W)
      → n < 32
      → s < 2 ^ n
      → IsCircuit n count c
      → (reg : QuantumRegister W (DenseStateBackend W)) × (run c n (make_basis n s (ok new_backend))
          ≡ ok reg)
        × IsReadyDense n reg
  unfolding run
  run-basis signs n s c few lt q =
      let (start, made, p) =
        make_basis-IsReady IsDense dense_state_backend-Contract n new_backend few s lt in
      let same : (c.qubits == n) ≡ true = ground (arith, q.size) in
      rw (same, made)
        (go (run_register c start)
          (run_register-Keeps IsDense n dense_state_backend-Contract signs c q start p))
    where
      go :
          (x : Result (Unit {0}) × QuantumRegister W (DenseStateBackend W))
          → Returns (IsReadyDense n) x
          → (reg : QuantumRegister W (DenseStateBackend W)) × (register_of x ≡ ok reg)
            × IsReadyDense n reg
      go x (returned a {s = reg} p) = (reg, refl, p)

  -- For fewer than 32 qubits and any basis state, the run of the quantum Fourier transform on the
  -- dense backend returns a register, ready for the next run.
  pub run-make_qft :
      (signs : Signs W) (pi : W) (n s : ℕ)
      → n < 32
      → s < 2 ^ n
      → (reg : QuantumRegister W (DenseStateBackend W)) × (run
            (make_qft pi n)
            n
            (make_basis n s (ok new_backend))
          ≡ ok reg)
        × IsReadyDense n reg
  run-make_qft signs pi n s few lt =
      let (count, total, q) = make_qft-IsCircuit pi n in
      run-basis signs n s (make_qft pi n) few lt q

  -- For fewer than 32 qubits and marked states of which there is one, all below the number of states,
  -- makeGrover returns a circuit, and its run on the dense backend from any basis state returns a
  -- register, ready for the next run.
  pub run-make_grover :
      (signs : Signs W) (pi : W) (n s z : ℕ) (options : GroverCircuitOptions)
      → n < 32
      → s < 2 ^ n
      → member z options.marked_states ≡ true
      → All (λ m. m < 2 ^ n) options.marked_states
      → (c : Circuit W) × (reg : QuantumRegister W (DenseStateBackend W)) × (make_grover pi n
            options
          ≡ (ok tt, c))
        × (run c n (make_basis n s (ok new_backend)) ≡ ok reg)
        × IsReadyDense n reg
  run-make_grover signs pi n s z options few lt marked inside =
      let (k, c, iterations, made, contents, q) =
        make_grover-IsCircuit pi n z options (omega arith) marked inside in
      let (reg, ran, p) = run-basis signs n s c few lt q in (c, reg, made, ran, p)
